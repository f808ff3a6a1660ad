-- ===== src/Server/Targets.antt =====
-- Which peers InvokeCC (server/fabsdk.go) asks for an endorsement.
pub mod Distinct
pub mod Order
pub mod Quorum
pub mod Totality
use fabric_byzantine.Base.{
  ℕ, ◌+◌, ◌≤◌, ◌≡◌, refl, Bool, true, false, String, List, [], ◌∷◌, ◌++◌, Option, none, some, leb,
  length, get_elem?, if◌then◌else◌,
}
use fabric_byzantine.Int.{ℤ, pos, negsuc, sub64}
use fabric_byzantine.Dict.{Dict}
use fabric_byzantine.Strconv.{bytes_of}
pub use fabric_byzantine.Helpers.{OrgInfo}
use fabric_byzantine.Server.PeerName.{peer_number}

-- The positions of the normal and of the byzantine peers.
pub record Split : Type 0 where
  pub normal : List ℤ
  pub byzantine : List ℤ

abbrev pub place : Bool → ℤ → Split → Split
place true index s = record s { normal = s.normal ++ index ∷ [] }
place false index s = record s { byzantine = s.byzantine ++ index ∷ [] }

-- The loop over the map of peers; `none` is the panic on a name that is too short.
unfoldable pub split_from : Dict Bool → Split → Option Split
split_from [] s = some s
split_from ((k, v) ∷ peers) s = elim (peer_number (bytes_of k)) [
  | none ↦ none
  | some n ↦ split_from peers (place v (sub64 n (pos 1)) s)
]

unfoldable pub split : Dict Bool → Option Split
unfolding split_from
split peers = split_from peers (record { normal = []; byzantine = [] })

-- An organisation with its peers.
pub record OrgInstance (P : Type 0) : Type 0 where
  pub config : OrgInfo
  pub peers : List P

-- `xs[i]`; an index below zero or beyond the end panics.
unfoldable pub at : {A : Type 0} → List A → ℤ → Option A
at xs (pos n) = get_elem? xs n
at xs (negsuc n) = none

module _ {P : Type 0} where
  -- `org.Peers[0]`
  unfoldable pub first_peer : OrgInstance P → Option P
  first_peer o = get_elem? o.peers 0

  -- `f.Orgs[v].Peers[0]` for each v.
  unfoldable pub peers_at : List (OrgInstance P) → List ℤ → Option (List P)
  unfolding at first_peer
  peers_at orgs [] = some []
  peers_at orgs (v ∷ vs) = elim (at orgs v) [
    | none ↦ none
    | some o ↦ elim (first_peer o) [
      | none ↦ none
      | some p ↦ elim (peers_at orgs vs) [ none ↦ none | some ps ↦ some (p ∷ ps) ]
    ]
  ]

  unfoldable pub all_first : List (OrgInstance P) → Option (List P)
  unfolding first_peer
  all_first [] = some []
  all_first (o ∷ orgs) = elim (first_peer o) [
    | none ↦ none
    | some p ↦ elim (all_first orgs) [ none ↦ none | some ps ↦ some (p ∷ ps) ]
  ]

  -- Seven normal peers are asked alone, else seven byzantine ones, else every organisation.
  unfoldable pub choose_targets : List (OrgInstance P) → Split → Option (List P)
  unfolding peers_at all_first
  choose_targets orgs s =
      if leb 7 (length s.normal)
      then peers_at orgs s.normal
      else if leb 7 (length s.byzantine)
      then peers_at orgs s.byzantine
      else all_first orgs
