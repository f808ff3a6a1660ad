-- ===== src/Server/Targets/Totality.antt =====
-- The panics of the choice of targets in InvokeCC (server/fabsdk.go).
use fabric_byzantine.Base.{
  ℕ, zero, suc, ◌+◌, ◌^◌, ◌<◌, ◌≡◌, refl, Bool, true, false, String, List, [], ◌∷◌, ◌++◌, Option,
  none, some, arith, leb, length, get_elem?, if◌then◌else◌, Bool-cases, inl, inr,
}
use fabric_byzantine.Int.{ℤ, pos, negsuc, sub64, ◌-ℤ◌, wrap64}
use fabric_byzantine.Dict.{Dict, insert, contains}
use fabric_byzantine.Strconv.{bytes_of, atoi_bytes}
use fabric_byzantine.Server.PeerName.{peer_number}
use fabric_byzantine.Server.Targets.{
  Split, split, split_from, place, OrgInstance, at, first_peer, peers_at, all_first, choose_targets,
}
use fabric_byzantine.Token.Contract.{initial_peers, set_peers}
use fabric_byzantine.Strconv.{parse_bool}
use fabric_byzantine.Base.{str_eq, eq_iff, subst}
use fabric_byzantine.Token.Contract.Peers.{none-ne-some}

-- Every position is that of an organisation.
abbrev pub AllWithin : List ℤ → ℕ → Type 0
AllWithin [] n = Unit
AllWithin (pos v ∷ vs) n = (v < n) × AllWithin vs n
AllWithin (negsuc v ∷ vs) n = ⊥

AllWithin-append : (vs : List ℤ) (v n : ℕ) → AllWithin vs n → v < n → AllWithin (vs ++ pos v ∷ []) n
AllWithin-append [] v n h lt = (lt, tt)
AllWithin-append (pos u ∷ vs) v n h lt = (h.0, AllWithin-append vs v n h.1 lt)
AllWithin-append (negsuc u ∷ vs) v n h lt = absurd h

-- A peer's name carries the number of one of `n` organisations, counted from one.
abbrev pub IsNumber : Option ℤ → ℕ → Type 0
IsNumber none n = ⊥
IsNumber (some (pos zero)) n = ⊥
IsNumber (some (pos (suc v))) n = v < n
IsNumber (some (negsuc v)) n = ⊥

abbrev pub AllNumbered : Dict Bool → ℕ → Type 0
AllNumbered [] n = Unit
AllNumbered ((k, _) ∷ peers) n = IsNumber (peer_number (bytes_of k)) n × AllNumbered peers n

pub number_of : (o : Option ℤ) (n : ℕ) → IsNumber o n → (v : ℕ) × (o ≡ some (pos (suc v))) × (v < n)
number_of none n h = absurd h
number_of (some (pos zero)) n h = absurd h
number_of (some (pos (suc v))) n h = (v, refl, h)
number_of (some (negsuc v)) n h = absurd h

pub sub64_one : (v : ℕ) → v + 1 < 2 ^ 63 → sub64 (pos (suc v)) (pos 1) ≡ pos v
unfolding sub64 wrap64 ◌-ℤ◌
sub64_one v h = ground arith

-- Both lists of a split hold positions of organisations.
abbrev pub IsWithin : Split → ℕ → Type 0
IsWithin s n = AllWithin s.normal n × AllWithin s.byzantine n

place-IsWithin :
    (b : Bool) (v n : ℕ) (s : Split) → IsWithin s n → v < n → IsWithin (place b (pos v) s) n
place-IsWithin true v n s h lt = (AllWithin-append s.normal v n h.0 lt, h.1)
place-IsWithin false v n s h lt = (h.0, AllWithin-append s.byzantine v n h.1 lt)

split_from_total :
    (peers : Dict Bool) (n : ℕ) (s : Split)
    → n < 2 ^ 63
    → AllNumbered peers n
    → IsWithin s n
    → (t : Split) × (split_from peers s ≡ some t) × IsWithin t n
unfolding split_from
split_from_total [] n s small h w = (s, refl, w)
split_from_total ((k, b) ∷ peers) n s small h w =
    let (v, known, lt) = number_of (peer_number (bytes_of k)) n h.0 in
    rw (known, sub64_one v (omega arith), split_from)
      (split_from_total peers n (place b (pos v) s) small h.1 (place-IsWithin b v n s w lt))

-- Whichever way a choice goes, it has a value if both sides have.
if_total :
    {A : Type 0} (b : Bool) {x y : Option A}
    → (a : A) × (x ≡ some a)
    → (a : A) × (y ≡ some a)
    → (a : A) × ((if b then x else y) ≡ some a)
if_total true l r = l
if_total false l r = r

module _ {P : Type 0} where
  -- Every organisation has a peer.
  abbrev pub AllStaffed : List (OrgInstance P) → Type 0
  AllStaffed [] = Unit
  AllStaffed (o ∷ orgs) = (0 < length o.peers) × AllStaffed orgs

  first_peer_total : (o : OrgInstance P) → 0 < length o.peers → (p : P) × (first_peer o ≡ some p)
  unfolding first_peer
  first_peer_total o h = first o.peers h
    where
      first : (ps : List P) → 0 < length ps → (p : P) × (get_elem? ps 0 ≡ some p)
      first [] lt = absurd (omega arith)
      first (p ∷ ps) lt = (p, refl)

  all_first_total :
      (orgs : List (OrgInstance P)) → AllStaffed orgs → (ps : List P) × (all_first orgs ≡ some ps)
  unfolding all_first
  all_first_total [] h = ([], refl)
  all_first_total (o ∷ orgs) h =
      let (p, known) = first_peer_total o h.0 in
      let (ps, rest) = all_first_total orgs h.1 in (p ∷ ps, rw (known, rest, all_first))

  pub peer_at_total :
      (orgs : List (OrgInstance P)) (v : ℕ)
      → AllStaffed orgs
      → v < length orgs
      → (o : OrgInstance P) × (get_elem? orgs v ≡ some o) × (p : P) × (first_peer o ≡ some p)
  peer_at_total [] v h lt = absurd (omega arith)
  peer_at_total (o ∷ orgs) zero h lt =
      let (p, known) = first_peer_total o h.0 in (o, refl, p, known)
  peer_at_total (o ∷ orgs) (suc v) h lt = peer_at_total orgs v h.1 (omega arith)

  peers_at_total :
      (orgs : List (OrgInstance P)) (vs : List ℤ)
      → AllStaffed orgs
      → AllWithin vs (length orgs)
      → (ps : List P) × (peers_at orgs vs ≡ some ps)
  unfolding peers_at at
  peers_at_total orgs [] h w = ([], refl)
  peers_at_total orgs (pos v ∷ vs) h w =
      let (o, found, p, known) = peer_at_total orgs v h w.0 in
      let (ps, rest) = peers_at_total orgs vs h w.1 in (p ∷ ps, rw (found, known, rest, peers_at))
  peers_at_total orgs (negsuc v ∷ vs) h w = absurd w

  choose_within :
      (orgs : List (OrgInstance P)) (s : Split)
      → AllStaffed orgs
      → IsWithin s (length orgs)
      → (ps : List P) × (choose_targets orgs s ≡ some ps)
  unfolding choose_targets
  choose_within orgs s staffed within =
      if_total (leb 7 (length s.normal)) (peers_at_total orgs s.normal staffed within.0) (
        if_total (leb 7 (length s.byzantine)) (peers_at_total orgs s.byzantine staffed within.1)
          (all_first_total orgs staffed))

  -- If each peer's name carries the number of an organisation, from 1 on, each organisation has a
  -- peer, and there are fewer than 2^63 of them: whatever the peers' marks, the split of the peers
  -- and the choice of targets meet no panic.
  pub choose_targets_total :
      (orgs : List (OrgInstance P)) (peers : Dict Bool)
      → length orgs < 2 ^ 63
      → AllStaffed orgs
      → AllNumbered peers (length orgs)
      → (s : Split) × (split peers ≡ some s) × (ps : List P) × (choose_targets orgs s ≡ some ps)
  unfolding split choose_targets
  choose_targets_total orgs peers small staffed numbered =
      let (s, done, within) =
        split_from_total peers (length orgs) (record { normal = []; byzantine = [] }) small numbered
          (tt, tt) in
      let (ps, chosen) = choose_within orgs s staffed within in (s, done, ps, chosen)

insert-AllNumbered :
    (peers : Dict Bool) (k : String) (b : Bool) (n : ℕ)
    → contains k peers ≡ true
    → AllNumbered peers n
    → AllNumbered (insert k b peers) n
insert-AllNumbered [] k b n c h = cc
insert-AllNumbered ((j, v) ∷ peers) k b n c h = elim (Bool-cases (str_eq j k)) [
  | inl same ↦ rw same (let e = (eq_iff j k).0 same in rw (← e) h)
  | inr other ↦ rw other (h.0, insert-AllNumbered peers k b n (ground arith) h.1)
]

unsome : {A : Type 0} {a b : A} → some a ≡ some b → a ≡ b
unsome e = ground arith

-- A change request that is accepted leaves the names as they were.
pub set_peers-AllNumbered :
    (changes : Dict String) (peers peers' : Dict Bool) (n : ℕ)
    → set_peers changes peers ≡ some peers'
    → AllNumbered peers n
    → AllNumbered peers' n
unfolding set_peers
set_peers-AllNumbered [] peers peers' n e h =
    subst (λ (p : Dict Bool). AllNumbered p n) (unsome e) h
set_peers-AllNumbered ((k, v) ∷ changes) peers peers' n e h = elim (Bool-cases (contains k peers)) [
  | inl known ↦
      set_peers-AllNumbered changes (insert k (parse_bool v) peers) peers' n
        (rw (known, set_peers) at e) (insert-AllNumbered peers k (parse_bool v) n known h)
  | inr unknown ↦ absurd (none-ne-some (rw (unknown, set_peers) at e))
]

-- The peers of a new token are those of ten organisations.
pub initial_peers-AllNumbered : (b : ℤ) → AllNumbered (initial_peers b) 10
unfolding initial_peers peer_number atoi_bytes
initial_peers-AllNumbered b = omega arith
