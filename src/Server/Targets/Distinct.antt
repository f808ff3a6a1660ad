-- ===== src/Server/Targets/Distinct.antt =====
-- Which organisations the peers belong to that InvokeCC (server/fabsdk.go) asks: none is asked twice.
use mathlib.Core.List.{filter_map}
use fabric_byzantine.Base.{
  ℕ, zero, suc, ◌^◌, ◌≤◌, ◌<◌, ◌≡◌, ◌≢◌, refl, sym, ap, subst, ◌∙◌, Bool, true, false, List, [],
  ◌∷◌, Option, none, some, Bool-cases, inl, inr, arith, leb, length,
}
use fabric_byzantine.Int.{ℤ, pos}
use fabric_byzantine.Dict.{Dict}
use fabric_byzantine.Strconv.{bytes_of}
use fabric_byzantine.Server.PeerName.{peer_number}
use fabric_byzantine.Server.Targets.{
  Split, split, OrgInstance, at, first_peer, peers_at, all_first, choose_targets,
}
use fabric_byzantine.Server.Targets.Totality.{AllNumbered, number_of, sub64_one}
use fabric_byzantine.Server.Targets.Order.{position, split_from-filter_map}

-- The number is not in the list.
abbrev Fresh : ℤ → List ℤ → Type 0
Fresh z [] = Unit
Fresh z (v ∷ vs) = (v ≢ z) × Fresh z vs

abbrev pub AllDifferent : List ℤ → Type 0
AllDifferent [] = Unit
AllDifferent (v ∷ vs) = Fresh v vs × AllDifferent vs

-- No peer's name carries the number.
abbrev NoneHas : Option ℤ → Dict Bool → Type 0
NoneHas o [] = Unit
NoneHas o ((k, _) ∷ peers) = (peer_number (bytes_of k) ≢ o) × NoneHas o peers

-- Each peer's name carries a number of its own.
abbrev pub OwnNumbers : Dict Bool → Type 0
OwnNumbers [] = Unit
OwnNumbers ((k, _) ∷ peers) = NoneHas (peer_number (bytes_of k)) peers × OwnNumbers peers

next : (u v : ℕ) → pos u ≡ pos v → ◌≡◌ {A = Option ℤ} (some (pos (suc u))) (some (pos (suc v)))
next u v e = ground (arith, e)

Fresh-positions :
    (mark : Bool) (v n : ℕ) (peers : Dict Bool)
    → n < 2 ^ 63
    → AllNumbered peers n
    → NoneHas (some (pos (suc v))) peers
    → Fresh (pos v) (filter_map (position mark) peers)
unfolding filter_map position
Fresh-positions mark v n [] small h f = tt
Fresh-positions true v n ((k, true) ∷ peers) small h f =
    let (u, known, lt) = number_of (peer_number (bytes_of k)) n h.0 in
    rw (known, sub64_one u (omega (arith, lt, small)), position)
      ((λ e. f.0 (known ∙ next u v e)), Fresh-positions true v n peers small h.1 f.1)
Fresh-positions true v n ((k, false) ∷ peers) small h f =
    let (u, known, lt) = number_of (peer_number (bytes_of k)) n h.0 in
    rw (known, position) (Fresh-positions true v n peers small h.1 f.1)
Fresh-positions false v n ((k, true) ∷ peers) small h f =
    let (u, known, lt) = number_of (peer_number (bytes_of k)) n h.0 in
    rw (known, position) (Fresh-positions false v n peers small h.1 f.1)
Fresh-positions false v n ((k, false) ∷ peers) small h f =
    let (u, known, lt) = number_of (peer_number (bytes_of k)) n h.0 in
    rw (known, sub64_one u (omega (arith, lt, small)), position)
      ((λ e. f.0 (known ∙ next u v e)), Fresh-positions false v n peers small h.1 f.1)

AllDifferent-positions :
    (mark : Bool) (n : ℕ) (peers : Dict Bool)
    → n < 2 ^ 63
    → AllNumbered peers n
    → OwnNumbers peers
    → AllDifferent (filter_map (position mark) peers)
unfolding filter_map position
AllDifferent-positions mark n [] small h own = tt
AllDifferent-positions true n ((k, true) ∷ peers) small h own =
    let (u, known, lt) = number_of (peer_number (bytes_of k)) n h.0 in
    rw (known, sub64_one u (omega (arith, lt, small)), position)
      (
        Fresh-positions true u n peers small h.1 (subst (λ o. NoneHas o peers) known own.0),
        AllDifferent-positions true n peers small h.1 own.1,
      )
AllDifferent-positions true n ((k, false) ∷ peers) small h own =
    let (u, known, lt) = number_of (peer_number (bytes_of k)) n h.0 in
    rw (known, position) (AllDifferent-positions true n peers small h.1 own.1)
AllDifferent-positions false n ((k, true) ∷ peers) small h own =
    let (u, known, lt) = number_of (peer_number (bytes_of k)) n h.0 in
    rw (known, position) (AllDifferent-positions false n peers small h.1 own.1)
AllDifferent-positions false n ((k, false) ∷ peers) small h own =
    let (u, known, lt) = number_of (peer_number (bytes_of k)) n h.0 in
    rw (known, sub64_one u (omega (arith, lt, small)), position)
      (
        Fresh-positions false u n peers small h.1 (subst (λ o. NoneHas o peers) known own.0),
        AllDifferent-positions false n peers small h.1 own.1,
      )

-- The positions in a split of peers with numbers of their own are all different.
split-AllDifferent :
    (n : ℕ) (peers : Dict Bool) (s : Split)
    → n < 2 ^ 63
    → AllNumbered peers n
    → OwnNumbers peers
    → split peers ≡ some s
    → AllDifferent s.normal × AllDifferent s.byzantine
unfolding split
split-AllDifferent n peers s small h own parted =
    let (normal, byzantine) =
      split_from-filter_map peers (record { normal = []; byzantine = [] }) s parted in
    (
      subst AllDifferent (sym normal) (AllDifferent-positions true n peers small h own),
      subst AllDifferent (sym byzantine) (AllDifferent-positions false n peers small h own),
    )

-- The positions from `i` on.
abbrev run : ℕ → ℕ → List ℤ
run i zero = []
run i (suc n) = pos i ∷ run (suc i) n

length-run : (i n : ℕ) → length (run i n) ≡ n
length-run i zero = refl
length-run i (suc n) = omega (arith, length-run (suc i) n)

Fresh-run : (j i n : ℕ) → j < i → Fresh (pos j) (run i n)
Fresh-run j i zero lt = tt
Fresh-run j i (suc n) lt = ((λ e. absurd (ground (arith, e))), Fresh-run j (suc i) n (omega arith))

run-AllDifferent : (i n : ℕ) → AllDifferent (run i n)
run-AllDifferent i zero = tt
run-AllDifferent i (suc n) = (Fresh-run i (suc i) n (omega arith), run-AllDifferent (suc i) n)

module _ {P : Type 0} where
  -- A peer before those that are asked after it.
  abbrev asked_first : Option P → Option (List P) → Option (List P)
  asked_first p rest = elim p [
    | none ↦ none
    | some x ↦ elim rest [ none ↦ none | some xs ↦ some (x ∷ xs) ]
  ]

  abbrev asked_of : Option (OrgInstance P) → Option (List P) → Option (List P)
  asked_of o rest = elim o [ none ↦ none | some x ↦ asked_first (first_peer x) rest ]

  peers_at-later :
      (o : OrgInstance P) (orgs : List (OrgInstance P)) (i n : ℕ)
      → peers_at (o ∷ orgs) (run (suc i) n) ≡ peers_at orgs (run i n)
  unfolding peers_at at
  peers_at-later o orgs i zero = refl
  peers_at-later o orgs i (suc n) =
      ap (asked_of (at orgs (pos i))) (peers_at-later o orgs (suc i) n)

  -- To ask every organisation is to ask at the positions of all of them.
  all_first-positions :
      (orgs : List (OrgInstance P)) → all_first orgs ≡ peers_at orgs (run 0 (length orgs))
  unfolding all_first peers_at at
  all_first-positions [] = refl
  all_first-positions (o ∷ orgs) =
      ap (asked_first (first_peer o))
        (all_first-positions orgs ∙ sym (peers_at-later o orgs 0 (length orgs)))

  -- The peers that are asked are the first ones of at least seven different organisations.
  pub chosen_positions :
      (orgs : List (OrgInstance P)) (peers : Dict Bool) (s : Split) (ps : List P)
      → length orgs < 2 ^ 63
      → AllNumbered peers (length orgs)
      → OwnNumbers peers
      → split peers ≡ some s
      → choose_targets orgs s ≡ some ps
      → 7 ≤ length orgs
      → (vs : List ℤ) × ((peers_at orgs vs ≡ some ps) × AllDifferent vs × (7 ≤ length vs))
  unfolding choose_targets
  chosen_positions orgs peers s ps small numbered own parted chosen enough =
      let (normal, byzantine) =
        split-AllDifferent (length orgs) peers s small numbered own parted in
      elim (Bool-cases (leb 7 (length s.normal))) [
        | inl seven ↦ (s.normal, (rw seven at chosen, normal, ground (arith, seven)))
        | inr fewer ↦ elim (Bool-cases (leb 7 (length s.byzantine))) [
          | inl seven ↦
              (s.byzantine, (rw (fewer, seven) at chosen, byzantine, ground (arith, seven)))
          | inr neither ↦ (
            run 0 (length orgs),
            (
              sym (all_first-positions orgs) ∙ (rw (fewer, neither) at chosen),
              run-AllDifferent 0 (length orgs),
              omega (arith, length-run 0 (length orgs), enough),
            ),
          )
        ]
      ]
