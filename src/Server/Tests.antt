-- ===== src/Server/Tests.antt =====
-- The theorems about the package server at concrete inputs: a network of ten organisations with a
-- peer each, a ledger of a token with two byzantine peers, and an SDK that accepts everything.
use fabric_byzantine.Base.{
  ℕ, ◌≤◌, ◌≡◌, refl, subst, String, Bool, true, false, List, [], ◌∷◌, map, none, some, arith,
  length, str_eq, if◌then◌else◌,
}
use fabric_byzantine.Int.{ℤ, pos}
use fabric_byzantine.Json.{
  bool, encode_map, encode_members, decode_map, decode_members, decode_bool, unmarshal,
}
use fabric_byzantine.Flow.{go, Outcome, ok}
use fabric_byzantine.Strconv.{bytes_of}
use fabric_byzantine.Testbed.{Doc, plain_text, rendered, plain, documents}
use fabric_byzantine.Token.Contract.{initial_peers}
use fabric_byzantine.Server.PeerName.{peer_number}
use fabric_byzantine.Server.Statistics.Tally.{Event, IsTally, row, row-IsTally}
use fabric_byzantine.Server.Targets.{
  Split, split, split_from, OrgInfo, OrgInstance, at, first_peer, peers_at, choose_targets,
}
use fabric_byzantine.Server.Targets.Quorum.{quorum_asked}
use fabric_byzantine.Server.Targets.Distinct.{AllDifferent, OwnNumbers}
use mathlib.Core.List.{Permᴰ}
use fabric_byzantine.Dict.{Dict}
use fabric_byzantine.Server.Targets.Order.{Reordered, choose_targets_order}
use fabric_byzantine.Server.Targets.Totality.{AllStaffed, AllNumbered, initial_peers-AllNumbered}
use fabric_byzantine.Server.State.{initial}
use fabric_byzantine.Server.Gateway.{
  Request, Executed, Sdk, Reply, known_peers, sender, query_cc, submit, invoke_cc,
}
use fabric_byzantine.Server.Gateway.Recorded.{IsRecorded, submit-IsRecorded}
use fabric_byzantine.Server.Gateway.Total.{IsNetwork, Returned, AnswersNumbered, invoke_cc_total}

abbrev events : List Event
events =
    record { normal = true; byzantine = 2; committed = true; now = 7 }
    ∷ record { normal = false; byzantine = 2; committed = true; now = 5 }
    ∷ []

row-IsTally_example : IsTally 2 events (row 2 events)
row-IsTally_example = row-IsTally 2 events

abbrev pub info : OrgInfo
info = record { name = "Org1"; admin = "Admin"; user = "User1" }

abbrev pub org : ℕ → OrgInstance ℕ
org n = record { config = info; peers = n ∷ [] }

abbrev pub orgs : List (OrgInstance ℕ)
orgs = map org (1 ∷ 2 ∷ 3 ∷ 4 ∷ 5 ∷ 6 ∷ 7 ∷ 8 ∷ 9 ∷ 10 ∷ [])

pub orgs-AllStaffed : AllStaffed orgs
orgs-AllStaffed = ground arith

abbrev two_peers : Dict Bool
two_peers = ("peer0.org1.example.com", true) ∷ ("peer0.org2.example.com", false) ∷ []

abbrev two_swapped : Dict Bool
two_swapped = ("peer0.org2.example.com", false) ∷ ("peer0.org1.example.com", true) ∷ []

two_peers-AllNumbered : AllNumbered two_peers 10
unfolding peer_number fabric_byzantine.Strconv.atoi_bytes
two_peers-AllNumbered = (omega arith, (omega arith, tt))

choose_targets_order_example :
    (s t : Split) × (ps qs : List ℕ) × ((split two_peers ≡ some s)
      × (split two_swapped ≡ some t)
      × (length s.normal ≡ length t.normal)
      × (length s.byzantine ≡ length t.byzantine)
      × (choose_targets orgs s ≡ some ps)
      × (choose_targets orgs t ≡ some qs)
      × Reordered ps qs)
choose_targets_order_example =
    choose_targets_order orgs two_peers two_swapped (omega arith) orgs-AllStaffed
      two_peers-AllNumbered (Permᴰ.swap refl refl)

abbrev two_byzantine : Split
two_byzantine = record {
  normal = map pos (0 ∷ 1 ∷ 2 ∷ 3 ∷ 4 ∷ 5 ∷ 6 ∷ 7 ∷ []);
  byzantine = pos 8 ∷ pos 9 ∷ [];
}

split_initial : split (initial_peers (pos 2)) ≡ some two_byzantine
unfolding split split_from initial_peers peer_number fabric_byzantine.Strconv.atoi_bytes
    fabric_byzantine.Int.sub64 fabric_byzantine.Int.wrap64 fabric_byzantine.Int.◌-ℤ◌
split_initial = refl

abbrev chosen : List ℕ
chosen = 1 ∷ 2 ∷ 3 ∷ 4 ∷ 5 ∷ 6 ∷ 7 ∷ 8 ∷ []

chosen_initial : choose_targets orgs two_byzantine ≡ some chosen
unfolding choose_targets peers_at at first_peer
chosen_initial = refl

initial_peers-OwnNumbers : OwnNumbers (initial_peers (pos 2))
unfolding initial_peers peer_number fabric_byzantine.Strconv.atoi_bytes
initial_peers-OwnNumbers = ground arith

quorum_asked_example :
    (s : Split) × (ps : List ℕ) × (vs : List ℤ) × ((split (initial_peers (pos 2)) ≡ some s)
      × (choose_targets orgs s ≡ some ps)
      × (peers_at orgs vs ≡ some ps)
      × AllDifferent vs
      × (7 ≤ length vs)
      × (7 ≤ length ps))
quorum_asked_example =
    quorum_asked orgs (initial_peers (pos 2)) (omega arith) (omega arith) orgs-AllStaffed
      (initial_peers-AllNumbered (pos 2)) initial_peers-OwnNumbers

abbrev pub peers_text : Doc
peers_text = rendered (encode_map bool (initial_peers (pos 2)))

abbrev pub executed : Executed documents String
executed = record { transaction_id = "t1"; payload = some (plain "ok"); fault = none }

abbrev pub network : Sdk documents
network = record {
  Peer = ℕ;
  Client = Unit {0};
  Identity = Unit {0};
  Fault = String;
  new_client = λ channel o. ok tt;
  new_identity = λ o. ok tt;
  serialize = λ i. ok (plain "creator");
  hash = λ nonce creator. ok nonce;
  hex = plain_text;
  execute = λ c a b r ps. executed;
  query = λ c r ps. ok (if str_eq r.fcn "getPeers" then peers_text else plain "100");
}

known_initial : known_peers documents network (ok peers_text) ≡ initial_peers (pos 2)
unfolding known_peers unmarshal decode_map decode_members decode_bool encode_map encode_members
    initial_peers
known_initial = refl

pub unok : {E A : Type 0} {a b : A} → ◌≡◌ {A = Outcome E A} (ok a) (ok b) → a ≡ b
unok e = ground arith

pub network-AnswersNumbered : AnswersNumbered network 10
network-AnswersNumbered c ps b e =
    subst (λ d. AllNumbered (known_peers documents network (ok d)) 10) (unok e)
      (rw known_initial (initial_peers-AllNumbered (pos 2)))

pub network-IsNetwork : IsNetwork network orgs
network-IsNetwork = record {
  staffed = orgs-AllStaffed;
  some_org = omega arith;
  small = omega arith;
  numbered = network-AnswersNumbered;
}

abbrev transfer_args : List Doc
transfer_args = plain "fab" ∷ plain "alice" ∷ plain "bob" ∷ plain "10" ∷ plain "false" ∷ []

invoke_cc_total_example :
    Returned
      (invoke_cc documents network orgs 7
        (ok (plain "nonce"))
        "peer0.org1.example.com"
        0
        (pos 0)
        "mychannel1"
        "token"
        "transfer"
        transfer_args
        initial).0
invoke_cc_total_example =
    invoke_cc_total network orgs 7 (ok (plain "nonce")) "peer0.org1.example.com" 0 0 "mychannel1"
      "token" "transfer" transfer_args initial orgs-AllStaffed (omega arith) (omega arith)
      network-AnswersNumbered

abbrev pub transfer_request : Request documents
transfer_request = record { chaincode_id = "token"; fcn = "transfer"; args = transfer_args }

asked_network :
    query_cc documents network {R = Reply documents network} orgs
      (pos 0)
      "mychannel1"
      "token"
      "getPeers"
      (plain "fab" ∷ [])
      initial
    ≡ (go (ok peers_text), initial)
unfolding query_cc at first_peer
asked_network = refl

split_known : split (known_peers documents network (ok peers_text)) ≡ some two_byzantine
split_known = rw known_initial split_initial

submit-IsRecorded_example :
    IsRecorded initial
      (submit documents network orgs tt
        (plain "creator")
        (plain "nonce")
        "t1"
        "peer0.org1.example.com"
        0
        7
        transfer_request
        initial).1
      two_byzantine
      executed
      "t1"
      (sender documents network "peer0.org1.example.com" 0 two_byzantine)
      0
      7
      "transfer"
submit-IsRecorded_example =
    submit-IsRecorded network orgs tt (plain "creator") (plain "nonce") "t1"
      "peer0.org1.example.com" 0 7 transfer_request initial (ok peers_text) two_byzantine chosen
      asked_network split_known chosen_initial
