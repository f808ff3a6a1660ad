-- ===== src/ExampleCc/Effects.antt =====
-- The ledger after the calls of chaincode/src/example_cc/go/example_cc.go.
use fabric_byzantine.Base.{String, ◌≡◌, ◌≢◌, refl, sym, ◌∙◌, [], ◌∷◌, none, some}
use fabric_byzantine.Int.{ℤ, IsInt, ◌+ℤ◌, ◌-ℤ◌, sub64, add64_exact, sub64_exact}
use fabric_byzantine.Strconv.{atoi}
use fabric_byzantine.Strconv.Digits.{itoa}
use fabric_byzantine.Strconv.RoundTrip.{atoi-itoa}
use fabric_byzantine.Json.{Wire, IsWire}
use fabric_byzantine.Flow.{go, stop}
use fabric_byzantine.Shim.{success, Stub, IsLedger}
use fabric_byzantine.ExampleCc.{put_holding, get_holding, init, move, query, invoke}

module _ {w : Wire} (l : Stub w) where
  -- The ledger holds this number for this entity.
  abbrev pub HasHolding : String → ℤ → l.State → Type 0
  HasHolding k v s = l.get_state k s ≡ success (some (w.of_string (itoa v)))

  -- The ledger accepts every write.
  abbrev pub AcceptsAll : Type 0
  AcceptsAll = (k : String) (b : w.Bytes) (s : l.State) → (l.put_state k b s).0 ≡ success tt

module _ {w : Wire} {l : Stub w} (wire : IsWire w) (ledger : IsLedger l)
    (accepts : AcceptsAll l) where
  get_holding_held :
      (k : String) (v : ℤ) (s : l.State)
      → HasHolding l k v s
      → IsInt v
      → get_holding w l k s ≡ (go v, s)
  unfolding get_holding
  get_holding_held k v s h int = rw (h, wire.to_string-of_string, atoi-itoa v int) refl

  put_holding_held :
      (k : String) (v : ℤ) (s : l.State)
      → (s' : l.State) × (put_holding w l k v s ≡ (go tt, s'))
        × HasHolding l k v s'
        × ((j : String) → k ≢ j → l.get_state j s' ≡ l.get_state j s)
  unfolding put_holding
  put_holding_held k v s =
      let b = w.of_string (itoa v) in
      (
        (l.put_state k b s).1,
        rw (accepts k b s) refl,
        ledger.get-put_self k b s (accepts k b s),
        λ j ne. ledger.get-put_ne k j b s ne,
      )

  -- In a ledger that accepts every write, a move of an amount that `Atoi` reads, between two
  -- different entities whose holdings are stored as decimal numbers, all numbers in the range of an
  -- int: it succeeds, the first holding is less by the amount, the second one more, and what is
  -- stored under any other key stays. The amount may be negative or more than the holding.
  pub invoke-move :
      (a b j x_text : String) (a_val b_val x : ℤ) (s : l.State)
      → a ≢ b
      → a ≢ j
      → b ≢ j
      → HasHolding l a a_val s
      → HasHolding l b b_val s
      → IsInt a_val
      → IsInt b_val
      → atoi x_text ≡ (x, none)
      → IsInt (a_val -ℤ x)
      → IsInt (b_val +ℤ x)
      → let (r, s') = invoke w l "move" (a ∷ b ∷ x_text ∷ []) s in
        (r ≡ stop (success none))
        × HasHolding l a (a_val -ℤ x) s'
        × HasHolding l b (b_val +ℤ x) s'
        × (l.get_state j s' ≡ l.get_state j s)
  unfolding invoke move
  invoke-move a b j x_text a_val b_val x s ne a_ne b_ne has_a has_b int_a int_b amount less more =
      let (s₁, put_a, now_a, rest_a) = put_holding_held a (a_val -ℤ x) s in
      let (s₂, put_b, now_b, rest_b) = put_holding_held b (b_val +ℤ x) s₁ in
      rw
        (
          get_holding_held a a_val s has_a int_a,
          get_holding_held b b_val s has_b int_b,
          amount,
          sub64_exact a_val x less,
          add64_exact b_val x more,
          put_a,
          put_b,
        )
        (refl, rest_b a (λ e. ne (sym e)) ∙ now_a, now_b, rest_b j b_ne ∙ rest_a j a_ne)

  -- In a ledger that accepts every write, a move of an entity to itself succeeds and adds the
  -- amount to its holding, if the holding is stored as a decimal number, `Atoi` reads the amount,
  -- and both and their sum are in the range of an int.
  pub invoke-move_self :
      (a x_text : String) (a_val x : ℤ) (s : l.State)
      → HasHolding l a a_val s
      → IsInt a_val
      → atoi x_text ≡ (x, none)
      → IsInt (a_val +ℤ x)
      → let (r, s') = invoke w l "move" (a ∷ a ∷ x_text ∷ []) s in
        (r ≡ stop (success none)) × HasHolding l a (a_val +ℤ x) s'
  unfolding invoke move
  invoke-move_self a x_text a_val x s has_a int_a amount more =
      let (s₁, put_a, now_a, rest_a) = put_holding_held a (sub64 a_val x) s in
      let (s₂, put_b, now_b, rest_b) = put_holding_held a (a_val +ℤ x) s₁ in
      rw
        (
          get_holding_held a a_val s has_a int_a,
          get_holding_held a a_val s has_a int_a,
          amount,
          add64_exact a_val x more,
          put_a,
          put_b,
        )
        (refl, now_b)

  -- In a ledger that accepts every write, Init with two different entities and two texts that
  -- `Atoi` reads succeeds; a query of either entity then answers with its number in decimal digits
  -- and leaves the state alone.
  init-query :
      (a b a_text b_text : String) (a_val b_val : ℤ) (s : l.State)
      → a ≢ b
      → atoi a_text ≡ (a_val, none)
      → atoi b_text ≡ (b_val, none)
      → let (r, s') = init w l (a ∷ a_text ∷ b ∷ b_text ∷ []) s in
        (r ≡ stop (success none))
        × (invoke w l "query" (a ∷ []) s' ≡ (stop (success (some (w.of_string (itoa a_val)))), s'))
        × (invoke w l "query" (b ∷ []) s' ≡ (stop (success (some (w.of_string (itoa b_val)))), s'))
  unfolding init invoke query
  init-query a b a_text b_text a_val b_val s ne read_a read_b =
      let (s₁, put_a, now_a, rest_a) = put_holding_held a a_val s in
      let (s₂, put_b, now_b, rest_b) = put_holding_held b b_val s₁ in
      rw (read_a, read_b, put_a, put_b)
        (refl, rw (rest_b a (λ e. ne (sym e)), now_a) refl, rw now_b refl)
