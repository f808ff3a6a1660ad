-- ===== src/Server/Journey/Races/Turns.antt =====
-- The turns that a goroutine of updateBlock (server/block_listener.go) is given, and where it is
-- after them.
use fabric_byzantine.Base.{
  ℕ, zero, suc, ◌+◌, ◌-◌, ◌≤◌, ◌≡◌, ◌⊎◌, refl, subst, ◌∙◌, inl, inr, Bool-cases, String, true,
  false, List, [], ◌∷◌, some, arith, ◌==◌, get_elem?, if◌then◌else◌,
}
use fabric_byzantine.Dict.{Dict}
use fabric_byzantine.Server.State.{PeerTx}
use fabric_byzantine.Server.Listener.Rows.{Tx, rows}
use fabric_byzantine.Server.Listener.Ends.{first_sender}
use fabric_byzantine.Server.Journey.Races.{
  Memory, Batch, Place, calling, stored, called, arriving, handling, loaded, handled, member,
  all_executed, next, turn, run,
}
use fabric_byzantine.Server.Journey.Races.Steps.{Owns}
use fabric_byzantine.Server.Journey.Races.Own.{AllOwn, IsFair, turn-IsFair}
use fabric_byzantine.Server.Journey.Races.Stages.{
  own, last_peer, Stage, next-Stage, left, next_less,
}

-- How often a schedule names a goroutine.
abbrev pub turns_of : ℕ → List ℕ → ℕ
turns_of j [] = 0
turns_of j (i ∷ schedule) = (if i == j then 1 else 0) + turns_of j schedule

all_executed_grown :
    (m m' : Memory) (ts : List Tx)
    → ((k : String) → member k m.executed ≡ true → member k m'.executed ≡ true)
    → all_executed m.executed ts ≡ true
    → all_executed m'.executed ts ≡ true
all_executed_grown m m' [] grown e = refl
all_executed_grown m m' (t ∷ ts) grown e =
    ground (arith, e, grown t.header.tx_id, all_executed_grown m m' ts grown)

module _ {B : Type 0} (per_block : ℕ) (calls : Dict PeerTx) where
  get_elem-turn_self :
      (j : ℕ) (m : Memory) (ps : List (Place B)) (p : Place B)
      → get_elem? ps j ≡ some p
      → get_elem? (turn per_block j m ps).1 j ≡ some (next per_block m p).1
  unfolding turn
  get_elem-turn_self j m [] p e = absurd (ground (arith, e))
  get_elem-turn_self zero m (q ∷ ps) p e = ground (arith, e)
  get_elem-turn_self (suc j) m (q ∷ ps) p e = get_elem-turn_self j m ps p e

  get_elem-turn_other :
      (i j : ℕ) (m : Memory) (ps : List (Place B))
      → (i == j) ≡ false
      → get_elem? (turn per_block i m ps).1 j ≡ get_elem? ps j
  unfolding turn
  get_elem-turn_other i j m [] ne = refl
  get_elem-turn_other zero zero m (q ∷ ps) ne = absurd (ground (arith, ne))
  get_elem-turn_other zero (suc j) m (q ∷ ps) ne = refl
  get_elem-turn_other (suc i) zero m (q ∷ ps) ne = refl
  get_elem-turn_other (suc i) (suc j) m (q ∷ ps) ne =
      get_elem-turn_other i j m ps (ground (arith, ne))

  AllOwn-get :
      (j : ℕ) (m : Memory) (ps : List (Place B)) (p : Place B)
      → AllOwn per_block calls m ps
      → get_elem? ps j ≡ some p
      → Owns per_block calls m p
  AllOwn-get j m [] p h e = absurd (ground (arith, e))
  AllOwn-get zero m (q ∷ ps) p h e = subst (Owns per_block calls m) (ground (arith, e)) h.0
  AllOwn-get (suc j) m (q ∷ ps) p h e = AllOwn-get j m ps p h.1 e

  -- The goroutine at a position has come so far with a block that `n` steps are left, at most.
  abbrev pub At : ℕ → Batch → ℕ → List (Place B) → Type 0
  At j b n ps =
      (p : Place B) × (get_elem? ps j ≡ some p) × Stage per_block calls b p × (left per_block p ≤ n)

  turn-At :
      (i j : ℕ) (b : Batch) (n n' : ℕ) (m : Memory) (ps : List (Place B))
      → IsFair per_block calls m ps
      → (n ≤ n') ⊎ ((all_executed m.executed b.txs ≡ true) × (n ≤ n' + (if i == j then 1 else 0)))
      → At j b n ps
      → At j b n' (turn per_block i m ps).1
  turn-At i j b n n' m ps fair enough (p, here, stage, le) = elim (Bool-cases (i == j)) [
    | inr other ↦
        (p, get_elem-turn_other i j m ps other ∙ here, stage, ground (arith, le, enough, other))
    | inl same ↦
        let i_j : i ≡ j = ground (arith, same) in
        let (less, faster) = next_less per_block m b p calls stage in
        let own_p = AllOwn-get j m ps p fair.own here in
        (
          (next per_block m p).1,
          rw i_j (get_elem-turn_self j m ps p here),
          next-Stage per_block calls m b p fair.owned own_p stage,
          elim enough [
            | inl fewer ↦ omega (arith, less, le, fewer)
            | inr (executed, one) ↦ ground (arith, faster executed, le, one, same)
          ],
        )
  ]

  -- Whatever the schedule, a goroutine stays in its stages,
  pub run-At :
      (schedule : List ℕ) (j : ℕ) (b : Batch) (n : ℕ) (m : Memory) (ps : List (Place B))
      → IsFair per_block calls m ps
      → At j b n ps
      → let (m', ps') = run per_block schedule m ps in IsFair per_block calls m' ps' × At j b n ps'
  unfolding run
  run-At [] j b n m ps fair h = (fair, h)
  run-At (i ∷ schedule) j b n m ps fair h =
      let (m', ps') = turn per_block i m ps in
      run-At schedule j b n m' ps' (turn-IsFair per_block calls i m ps fair).0
        (turn-At i j b n n m ps fair (inl (omega arith)) h)

  -- and with its block's transactions executed it needs no more turns than there are steps left.
  pub run_ends :
      (schedule : List ℕ) (j : ℕ) (b : Batch) (n : ℕ) (m : Memory) (ps : List (Place B))
      → IsFair per_block calls m ps
      → all_executed m.executed b.txs ≡ true
      → n ≤ turns_of j schedule
      → At j b n ps
      → At j b 0 (run per_block schedule m ps).1
  unfolding run
  run_ends [] j b n m ps fair executed enough (p, here, stage, le) =
      (p, here, stage, omega (arith, le, enough))
  run_ends (i ∷ schedule) j b n m ps fair executed enough h =
      let (m', ps') = turn per_block i m ps in
      let (fair', frame, _) = turn-IsFair per_block calls i m ps fair in
      run_ends schedule j b (n - (if i == j then 1 else 0)) m' ps' fair'
        (all_executed_grown m m' b.txs frame.grown executed) (ground (arith, enough))
        (turn-At i j b n (n - (if i == j then 1 else 0)) m ps fair (inr (executed, ground arith)) h)

  pub ended :
      (j : ℕ) (b : Batch) (ps : List (Place B))
      → At j b 0 ps
      → get_elem? ps j
        ≡ some (
            handled
              (last_peer first_sender (own calls b.txs))
              (rows per_block b.number 0 (own calls b.txs)))
  ended j b ps (calling k p, here, stage, le) = absurd stage
  ended j b ps (stored k, here, stage, le) = absurd stage
  ended j b ps (called, here, stage, le) = absurd stage
  ended j b ps (arriving b', here, stage, le) = absurd (omega (arith, le))
  ended j b ps (handling n i old ts issued, here, stage, le) = absurd (omega (arith, le))
  ended j b ps (loaded n i p t ts issued, here, stage, le) = absurd (omega (arith, le))
  ended j b ps (handled p issued, here, stage, le) = rw (stage.0, stage.1) at here
