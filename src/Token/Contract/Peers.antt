-- ===== src/Token/Contract/Peers.antt =====
-- The loop of `setPeer` (chaincode/src/token/token.go) over the peers of a request, in the order in
-- which Go walks the map.
use fabric_byzantine.Base.{
  String, ◌≡◌, ◌≢◌, inl, inr, refl, sym, ◌∙◌, Bool, true, [], ◌∷◌, Option, none, some, arith,
  eq_iff, eq_refl, Bool-cases, Option-cases,
}
use fabric_byzantine.Dict.{Dict, lookup, contains, insert, IsDict, insert-IsDict, lookup-insert}
use fabric_byzantine.Strconv.{parse_bool}
use fabric_byzantine.Token.Contract.{set_peers}

pub set_peers-IsDict :
    (changes : Dict String) (peers peers' : Dict Bool)
    → IsDict peers
    → set_peers changes peers ≡ some peers'
    → IsDict peers'
unfolding set_peers
set_peers-IsDict [] peers peers' h e = ground arith
set_peers-IsDict ((k, v) ∷ changes) peers peers' h e = ground (
  arith,
  set_peers-IsDict changes (insert k (parse_bool v) peers) peers'
      (insert-IsDict k (parse_bool v) peers h),
)

-- A peer's mark after a change request: the one that the request gives, or the old one.
abbrev pub changed : Option String → Option Bool → Option Bool
changed none old = old
changed (some v) old = some (parse_bool v)

-- An accepted request sets exactly the marks that it names, each to what its text parses to; every
-- other peer keeps its mark.
pub lookup-set_peers :
    (changes : Dict String) (peers peers' : Dict Bool) (k : String)
    → IsDict changes
    → set_peers changes peers ≡ some peers'
    → lookup k peers' ≡ changed (lookup k changes) (lookup k peers)
unfolding set_peers
lookup-set_peers [] peers peers' k d e = ground arith
lookup-set_peers ((j, v) ∷ changes) peers peers' k d e = ground (
  arith,
  eq_iff j k,
  lookup-insert j k (parse_bool v) peers,
  lookup-set_peers changes (insert j (parse_bool v) peers) peers' k d.1,
)

-- Every peer of the request is one that the token knows.
abbrev pub AllKnown : Dict String → Dict Bool → Type 0
AllKnown [] peers = Unit
AllKnown ((k, _) ∷ changes) peers = (contains k peers ≡ true) × AllKnown changes peers

AllKnown-insert :
    (changes : Dict String) (peers : Dict Bool) (k : String) (b : Bool)
    → contains k peers ≡ true
    → AllKnown changes peers
    → AllKnown changes (insert k b peers)
AllKnown-insert [] peers k b c h = tt
AllKnown-insert ((j, v) ∷ changes) peers k b c h =
    ground (arith, eq_iff k j, lookup-insert k j b peers, AllKnown-insert changes peers k b c h.1)

AllKnown-of_insert :
    (changes : Dict String) (peers : Dict Bool) (k : String) (b : Bool)
    → contains k peers ≡ true
    → AllKnown changes (insert k b peers)
    → AllKnown changes peers
AllKnown-of_insert [] peers k b c h = tt
AllKnown-of_insert ((j, v) ∷ changes) peers k b c h =
    ground
      (arith, eq_iff k j, lookup-insert k j b peers, AllKnown-of_insert changes peers k b c h.1)

set_peers_accepts :
    (changes : Dict String) (peers : Dict Bool)
    → AllKnown changes peers
    → (peers' : Dict Bool) × (set_peers changes peers ≡ some peers')
unfolding set_peers
set_peers_accepts [] peers h = (peers, refl)
set_peers_accepts ((k, v) ∷ changes) peers h = rw h.0 (
    set_peers_accepts changes (insert k (parse_bool v) peers)
      (AllKnown-insert changes peers k (parse_bool v) h.0 h.1))

pub set_peers-AllKnown :
    (changes : Dict String) (peers peers' : Dict Bool)
    → set_peers changes peers ≡ some peers'
    → AllKnown changes peers
unfolding set_peers
set_peers-AllKnown [] peers peers' e = tt
set_peers-AllKnown ((k, v) ∷ changes) peers peers' e = elim (Bool-cases (contains k peers)) [
  | inl c ↦ (
    c,
    AllKnown-of_insert changes peers k (parse_bool v) c
        (set_peers-AllKnown changes (insert k (parse_bool v) peers) peers' (rw c at e)),
  )
  | inr c ↦ ground arith
]

pub none-ne-some : {A : Type 0} {a : A} → ◌≡◌ {A = Option A} none (some a) → ⊥
none-ne-some e = cc

-- Every key of the map is known, said by its lookups.
AllKnown-of_lookups :
    (changes : Dict String) (peers : Dict Bool)
    (f : (k : String) → lookup k changes ≢ none → contains k peers ≡ true)
    → IsDict changes
    → AllKnown changes peers
AllKnown-of_lookups [] peers f d = tt
AllKnown-of_lookups ((k, v) ∷ changes) peers f d = (
  f k (λ e. ground (arith, eq_refl k)),
  AllKnown-of_lookups changes peers (λ j ne. f j (λ e. ground (arith, ne))) d.1,
)

pub lookup_known :
    (changes : Dict String) (peers : Dict Bool) (k : String)
    → AllKnown changes peers
    → lookup k changes ≢ none
    → contains k peers ≡ true
lookup_known [] peers k h ne = absurd (ne refl)
lookup_known ((j, v) ∷ changes) peers k h ne =
    ground (arith, eq_iff j k, lookup_known changes peers k h.1)

set_peers_known :
    (changes other : Dict String) (peers peers' : Dict Bool)
    → IsDict other
    → ((k : String) → lookup k changes ≡ lookup k other)
    → set_peers changes peers ≡ some peers'
    → AllKnown other peers
set_peers_known changes other peers peers' d same e =
    AllKnown-of_lookups other peers
      (λ k ne.
        lookup_known changes peers k (set_peers-AllKnown changes peers peers' e)
          (λ absent. ne (sym (same k) ∙ absent)))
      d

-- Two outcomes of the loop are alike: both refuse, or both end in the same marks.
abbrev pub SameOutcome : Option (Dict Bool) → Option (Dict Bool) → Type 0
SameOutcome none none = Unit
SameOutcome (some p) (some q) = (k : String) → lookup k p ≡ lookup k q
SameOutcome _ _ = ⊥

same_marks :
    (changes other : Dict String) (peers p q : Dict Bool) (k : String)
    → IsDict changes
    → IsDict other
    → lookup k changes ≡ lookup k other
    → set_peers changes peers ≡ some p
    → set_peers other peers ≡ some q
    → lookup k p ≡ lookup k q
same_marks changes other peers p q k d d' same e e' =
    cc (lookup-set_peers changes peers p k d e, lookup-set_peers other peers q k d' e')

-- Go walks a map in any order, and a refused entry ends the loop early. Whichever order it takes,
-- the request is refused or accepted alike, and an accepted one leaves the same marks.
pub set_peers_order :
    (changes other : Dict String) (peers : Dict Bool)
    → IsDict changes
    → IsDict other
    → ((k : String) → lookup k changes ≡ lookup k other)
    → SameOutcome (set_peers changes peers) (set_peers other peers)
set_peers_order changes other peers d d' same = elim (Option-cases (set_peers changes peers)) [
  | inl e ↦ elim (Option-cases (set_peers other peers)) [
    | inl e' ↦ rw (e, e') tt
    | inr (q, e') ↦
        (let (p, accepted) =
            set_peers_accepts changes peers
              (set_peers_known other changes peers q d (λ k. sym (same k)) e') in
          absurd (none-ne-some (sym e ∙ accepted)))
  ]
  | inr (p, e) ↦
      (let (q, e') =
          set_peers_accepts other peers (set_peers_known changes other peers p d' same e) in
        rw (e, e') (λ k. same_marks changes other peers p q k d d' (same k) e e'))
]
