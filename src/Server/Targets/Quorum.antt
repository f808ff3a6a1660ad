-- ===== src/Server/Targets/Quorum.antt =====
-- How many peers InvokeCC (server/fabsdk.go) asks, and the counts of byzantine peers in InvokeCC and
-- in ByzantineNum (server/statistics.go).
use fabric_byzantine.Base.{
  ℕ, ◌+◌, ◌^◌, ◌≤◌, ◌<◌, ◌≡◌, Bool, true, false, List, [], ◌∷◌, some, arith, length, length-append,
  if◌then◌else◌, Option-cases, inl, inr,
}
use fabric_byzantine.Int.{ℤ, pos, sub64}
use fabric_byzantine.Dict.{Dict}
use fabric_byzantine.Strconv.{bytes_of}
use fabric_byzantine.Server.PeerName.{peer_number}
use fabric_byzantine.Server.Statistics.{int8, count_byzantine}
use fabric_byzantine.Server.Targets.{
  Split, split, split_from, place, OrgInstance, peers_at, all_first, choose_targets,
}
use fabric_byzantine.Server.Targets.Totality.{AllStaffed, AllNumbered, choose_targets_total}
use fabric_byzantine.Server.Targets.Distinct.{AllDifferent, OwnNumbers, chosen_positions}
use fabric_byzantine.Token.Contract.{initial_peers}

-- How many peers of a map are normal, and how many are byzantine.
abbrev pub normal_count : Dict Bool → ℕ
normal_count [] = 0
normal_count ((_, v) ∷ peers) = (if v then 1 else 0) + normal_count peers

abbrev pub byzantine_count : Dict Bool → ℕ
byzantine_count [] = 0
byzantine_count ((_, v) ∷ peers) = (if v then 0 else 1) + byzantine_count peers

length-place :
    (v : Bool) (n : ℤ) (s : Split)
    → (length (place v n s).normal ≡ length s.normal + (if v then 1 else 0))
      × (length (place v n s).byzantine ≡ length s.byzantine + (if v then 0 else 1))
length-place true n s = omega (arith, length-append s.normal (n ∷ []))
length-place false n s = omega (arith, length-append s.byzantine (n ∷ []))

length-split_from :
    (peers : Dict Bool) (s t : Split)
    → split_from peers s ≡ some t
    → (length t.normal ≡ length s.normal + normal_count peers)
      × (length t.byzantine ≡ length s.byzantine + byzantine_count peers)
unfolding split_from
length-split_from [] s t e = ground arith
length-split_from ((k, v) ∷ peers) s t e = elim (Option-cases (peer_number (bytes_of k))) [
  | inl short ↦ ground arith
  | inr (n, known) ↦ omega (
    arith,
    length-place v (sub64 n (pos 1)) s,
    length-split_from peers (place v (sub64 n (pos 1)) s) t (rw (known, split_from) at e),
  )
]

-- If the split meets no panic, its lists have one entry for each normal and each byzantine peer.
pub length-split :
    (peers : Dict Bool) (s : Split)
    → split peers ≡ some s
    → (length s.normal ≡ normal_count peers) × (length s.byzantine ≡ byzantine_count peers)
unfolding split
length-split peers s e =
    omega (arith, length-split_from peers (record { normal = []; byzantine = [] }) s e)

count_byzantine_mod :
    (peers : Dict Bool) (num : ℕ)
    → num < 2 ^ 8
    → count_byzantine peers num ≡ int8 (num + byzantine_count peers)
unfolding count_byzantine
count_byzantine_mod [] num h = omega arith
count_byzantine_mod ((k, true) ∷ peers) num h = omega (arith, count_byzantine_mod peers num h)
count_byzantine_mod ((k, false) ∷ peers) num h =
    omega (arith, count_byzantine_mod peers (int8 (num + 1)) (omega arith))

-- ByzantineNum and InvokeCC find the same row of the table for the same peers, if their names are
-- long enough to be split: what the one counts in an int8 is what the other converts from the
-- length of its list.
count_byzantine-split :
    (peers : Dict Bool) (s : Split)
    → split peers ≡ some s
    → count_byzantine peers 0 ≡ int8 (length s.byzantine)
count_byzantine-split peers s e =
    omega (arith, count_byzantine_mod peers 0 (omega arith), length-split peers s e)

-- Of the ten peers of a new token, `n` are byzantine.
byzantine_count-initial_peers :
    (n : ℕ)
    → n ≤ 10
    → (byzantine_count (initial_peers (pos n)) ≡ n)
      × (normal_count (initial_peers (pos n)) + n ≡ 10)
unfolding initial_peers
byzantine_count-initial_peers n h = ground arith

module _ {P : Type 0} where
  length-peers_at :
      (orgs : List (OrgInstance P)) (vs : List ℤ) (ps : List P)
      → peers_at orgs vs ≡ some ps
      → length ps ≡ length vs
  unfolding peers_at
  length-peers_at orgs [] ps e = ground arith
  length-peers_at orgs (v ∷ vs) ps e = elim (Option-cases (peers_at orgs vs)) [
    | inl panics ↦ ground arith
    | inr (rest, known) ↦ ground (arith, length-peers_at orgs vs rest known)
  ]

  length-all_first :
      (orgs : List (OrgInstance P)) (ps : List P)
      → all_first orgs ≡ some ps
      → length ps ≡ length orgs
  unfolding all_first
  length-all_first [] ps e = ground arith
  length-all_first (o ∷ orgs) ps e = elim (Option-cases (all_first orgs)) [
    | inl panics ↦ ground arith
    | inr (rest, known) ↦ ground (arith, length-all_first orgs rest known)
  ]

  -- In a network of seven organisations or more, whoever is normal or byzantine, at least seven
  -- peers are asked if the choice of targets meets no panic.
  choose_targets_quorum :
      (orgs : List (OrgInstance P)) (s : Split) (ps : List P)
      → choose_targets orgs s ≡ some ps
      → 7 ≤ length orgs
      → 7 ≤ length ps
  unfolding choose_targets
  choose_targets_quorum orgs s ps e h = ground (
    arith,
    length-peers_at orgs s.normal ps,
    length-peers_at orgs s.byzantine ps,
    length-all_first orgs ps,
  )

  -- In a network of seven organisations or more and fewer than 2^63, each with a peer, and for peers
  -- whose names carry the organisations' numbers, each its own, whoever of them is normal or
  -- byzantine: the split and the choice of targets meet no panic, and the peers that are asked are
  -- the first peers of at least seven different organisations, with one request to each.
  pub quorum_asked :
      (orgs : List (OrgInstance P)) (peers : Dict Bool)
      → 7 ≤ length orgs
      → length orgs < 2 ^ 63
      → AllStaffed orgs
      → AllNumbered peers (length orgs)
      → OwnNumbers peers
      → (s : Split) × (ps : List P) × (vs : List ℤ) × ((split peers ≡ some s)
          × (choose_targets orgs s ≡ some ps)
          × (peers_at orgs vs ≡ some ps)
          × AllDifferent vs
          × (7 ≤ length vs)
          × (7 ≤ length ps))
  quorum_asked orgs peers enough small staffed numbered own =
      let (s, parted, ps, chosen) = choose_targets_total orgs peers small staffed numbered in
      let (vs, (asked, different, seven)) =
        chosen_positions orgs peers s ps small numbered own parted chosen enough in
      (
        s,
        ps,
        vs,
        (parted, chosen, asked, different, seven, choose_targets_quorum orgs s ps chosen enough),
      )
