-- ===== src/Token/Supply.antt =====
-- The sum of a token's balances, and the method `transfer` of chaincode/src/token/token.go.
use fabric_byzantine.Base.{
  ◌≡◌, ap, String, true, false, [], ◌∷◌, arith, str_eq, eq_iff, inl, inr, Bool-cases, if◌then◌else◌,
}
use fabric_byzantine.Int.{
  ℤ, pos, pos_part, neg_part, ◌+ℤ◌, ◌-ℤ◌, ◌≤ℤ◌, leb_ℤ, IsInt, add64, sub64, add64_exact,
  sub64_exact, int_laws,
}
use fabric_byzantine.Dict.{Dict, get_or, insert, IsDict, insert-IsDict, lookup-insert}
use fabric_byzantine.Token.{Token, transfer, balance}

-- The sum of all balances, without wrap-around.
abbrev pub sum : Dict ℤ → ℤ
sum [] = pos 0
sum ((_, v) ∷ d) = v +ℤ sum d

abbrev pub AllNonneg : Dict ℤ → Type 0
AllNonneg [] = Unit
AllNonneg ((_, v) ∷ d) = (pos 0 ≤ℤ v) × AllNonneg d

-- No balance is negative, together they are the total supply, and that fits into an `int`.
pub record IsSound (t : Token) : Type 0 where
  pub balances : IsDict t.balance_of
  pub peers : IsDict t.peers
  pub nonneg : AllNonneg t.balance_of
  pub total : sum t.balance_of ≡ t.total_supply
  pub fits : IsInt t.total_supply

sum-insert :
    (k : String) (v : ℤ) (d : Dict ℤ) → sum (insert k v d) +ℤ get_or d k (pos 0) ≡ sum d +ℤ v
sum-insert k v [] = omega int_laws
sum-insert k v ((j, w) ∷ d) = grind (int_laws, sum-insert k v d)

AllNonneg-insert :
    (k : String) (v : ℤ) (d : Dict ℤ) → AllNonneg d → pos 0 ≤ℤ v → AllNonneg (insert k v d)
AllNonneg-insert k v [] h p = (p, tt)
AllNonneg-insert k v ((j, w) ∷ d) h p = ground (arith, AllNonneg-insert k v d h.1 p)

pub sum-nonneg : (d : Dict ℤ) → AllNonneg d → pos 0 ≤ℤ sum d
sum-nonneg [] h = omega arith
sum-nonneg ((_, v) ∷ d) h = omega (int_laws, sum-nonneg d h.1)

get_or-nonneg : (k : String) (d : Dict ℤ) → AllNonneg d → pos 0 ≤ℤ get_or d k (pos 0)
get_or-nonneg k [] h = omega arith
get_or-nonneg k ((j, w) ∷ d) h = ground (arith, get_or-nonneg k d h.1)

get_or-le-sum : (k : String) (d : Dict ℤ) → AllNonneg d → get_or d k (pos 0) ≤ℤ sum d
get_or-le-sum k [] h = omega arith
get_or-le-sum k ((j, w) ∷ d) h =
    grind (int_laws, get_or-le-sum k d h.1, sum-nonneg d h.1, get_or-nonneg k d h.1)

pub parts : {a b : ℤ} → a ≡ b → (pos_part a ≡ pos_part b) × (neg_part a ≡ neg_part b)
parts e = (ap pos_part e, ap neg_part e)

leb_of_le : (a b : ℤ) → a ≤ℤ b → leb_ℤ a b ≡ true
leb_of_le a b h = ground arith

le_of_leb : (a b : ℤ) → leb_ℤ a b ≡ true → a ≤ℤ b
le_of_leb a b h = ground arith

transfer_short :
    (from to : String) (value : ℤ) (t : Token)
    → leb_ℤ value (get_or t.balance_of from (pos 0)) ≡ false
    → transfer from to value t ≡ t
unfolding transfer
transfer_short from to value t h = rw h

-- The balances after a covered transfer, when no difference or sum leaves the range of `int`.
pub moved : String → String → ℤ → Dict ℤ → Dict ℤ
moved from to value d =
    let debited = insert from (get_or d from (pos 0) -ℤ value) d in
    insert to (get_or debited to (pos 0) +ℤ value) debited

module _ (from to : String) (value : ℤ) (t : Token) (s : IsSound t) (px : pos 0 ≤ℤ value) where
  debit_exact :
      value ≤ℤ get_or t.balance_of from (pos 0)
      → sub64 (get_or t.balance_of from (pos 0)) value ≡ get_or t.balance_of from (pos 0) -ℤ value
  debit_exact h =
      sub64_exact (get_or t.balance_of from (pos 0)) value
        (omega (int_laws, get_or-le-sum from t.balance_of s.nonneg, parts s.total, s.fits))

  -- What is left after the debit, and the amount that is on its way, are the total.
  sum-debited :
      sum (insert from (get_or t.balance_of from (pos 0) -ℤ value) t.balance_of) +ℤ value
      ≡ t.total_supply
  sum-debited = omega (
    int_laws,
    parts s.total,
    parts (sum-insert from (get_or t.balance_of from (pos 0) -ℤ value) t.balance_of),
  )

  debited_nonneg :
      value ≤ℤ get_or t.balance_of from (pos 0)
      → AllNonneg (insert from (get_or t.balance_of from (pos 0) -ℤ value) t.balance_of)
  debited_nonneg h =
      AllNonneg-insert from (get_or t.balance_of from (pos 0) -ℤ value) t.balance_of s.nonneg
        (omega int_laws)

  credit_exact :
      (d : Dict ℤ)
      → AllNonneg d
      → sum d +ℤ value ≡ t.total_supply
      → add64 (get_or d to (pos 0)) value ≡ get_or d to (pos 0) +ℤ value
  credit_exact d nn total =
      add64_exact (get_or d to (pos 0)) value
        (omega (int_laws, get_or-le-sum to d nn, get_or-nonneg to d nn, parts total, s.fits))

  -- The balances after a transfer that is covered are those of unbounded arithmetic.
  pub transfer-eq-moved :
      value ≤ℤ get_or t.balance_of from (pos 0)
      → transfer from to value t ≡ record t { balance_of = moved from to value t.balance_of }
  unfolding transfer moved
  transfer-eq-moved h =
      rw (leb_of_le _ _ h, debit_exact h) (rw (credit_exact _ (debited_nonneg h) sum-debited))

  -- The balances after a covered transfer are no less than zero and have the same sum.
  moved_sound :
      value ≤ℤ get_or t.balance_of from (pos 0)
      → AllNonneg (moved from to value t.balance_of)
        × (sum (moved from to value t.balance_of) ≡ t.total_supply)
  unfolding moved
  moved_sound h =
      let d = insert from (get_or t.balance_of from (pos 0) -ℤ value) t.balance_of in
      let v = get_or d to (pos 0) +ℤ value in
      (
        AllNonneg-insert to v d (debited_nonneg h)
            (omega (int_laws, get_or-nonneg to d (debited_nonneg h))),
        omega (int_laws, parts (sum-insert to v d), parts sum-debited),
      )

  moved-IsDict : IsDict (moved from to value t.balance_of)
  unfolding moved
  moved-IsDict = insert-IsDict to _ _ (insert-IsDict from _ t.balance_of s.balances)

  covered-IsSound : value ≤ℤ get_or t.balance_of from (pos 0) → IsSound (transfer from to value t)
  covered-IsSound c = rw (transfer-eq-moved c) (record {
    balances = moved-IsDict;
    peers = s.peers;
    nonneg = (moved_sound c).0;
    total = (moved_sound c).1;
    fits = s.fits;
  })

  -- A transfer of an amount that is not negative, covered or not, keeps a sound token sound: no
  -- balance falls below zero, and the balances still sum to the total supply.
  pub transfer-IsSound : IsSound (transfer from to value t)
  transfer-IsSound = elim (Bool-cases (leb_ℤ value (get_or t.balance_of from (pos 0)))) [
    | inl covered ↦ covered-IsSound (le_of_leb value (get_or t.balance_of from (pos 0)) covered)
    | inr short ↦ rw (transfer_short from to value t short) s
  ]

  -- In a sound token a transfer of an amount that is not negative and that the source's balance
  -- covers takes exactly the value from the source and gives it to the destination, changes no
  -- other balance, and changes none if the two are the same.
  pub transfer_balances :
      (who : String)
      → value ≤ℤ balance from t
      → balance who (transfer from to value t)
        ≡ balance who t
          -ℤ (if str_eq from who then value else pos 0)
          +ℤ (if str_eq to who then value else pos 0)
  unfolding balance
  transfer_balances who c = rw (transfer-eq-moved c) (
      unfold moved in
      grind (int_laws, lookup-insert, eq_iff from who, eq_iff to who, eq_iff from to))

-- A transfer changes nothing of a token but its balances.
pub transfer_rest :
    (from to : String) (value : ℤ) (t : Token)
    → ((transfer from to value t).total_supply ≡ t.total_supply)
      × ((transfer from to value t).owner ≡ t.owner)
      × ((transfer from to value t).token_name ≡ t.token_name)
      × ((transfer from to value t).peers ≡ t.peers)
      × ((transfer from to value t).flag ≡ t.flag)
unfolding transfer
transfer_rest from to value t = ground arith

-- A balance of a sound token is an `int` between zero and the total supply.
pub balance_bounds :
    (who : String) (t : Token)
    → IsSound t
    → (pos 0 ≤ℤ balance who t) × (balance who t ≤ℤ t.total_supply) × IsInt (balance who t)
unfolding balance
balance_bounds who t s = omega (
  int_laws,
  get_or-nonneg who t.balance_of s.nonneg,
  get_or-le-sum who t.balance_of s.nonneg,
  parts s.total,
  s.fits,
)
