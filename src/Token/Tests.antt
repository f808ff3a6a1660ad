-- ===== src/Token/Tests.antt =====
-- The theorems about the token contract at concrete inputs, and runs of the handlers.
use fabric_byzantine.Base.{
  String, ◌≡◌, ◌≢◌, refl, Bool, true, false, List, [], ◌∷◌, none, some, arith, eq_iff, str_ne,
}
use fabric_byzantine.Int.{negsuc, pos, ◌+ℤ◌, ◌-ℤ◌}
use fabric_byzantine.Dict.{Dict, lookup}
use fabric_byzantine.Strconv.{atoi, parse_bool}
use fabric_byzantine.Strconv.Digits.{itoa}
use fabric_byzantine.Base.{inl}
use fabric_byzantine.Token.Contract.Refused.{invoke-transfer_refused, invoke-set_peer_unknown}
use fabric_byzantine.Json.{decode_map, decode_string, unmarshal}
use fabric_byzantine.Shim.{success, failure, text}
use fabric_byzantine.Token.{Token, empty_token, transfer, balance, encode_token, decode_token}
use fabric_byzantine.Token.Supply.{IsSound, transfer-IsSound, transfer_balances}
use fabric_byzantine.Token.Document.{decode_token-encode_token}
use fabric_byzantine.Token.Contract.{new_token, initial_peers, set_peers, invoke}
use fabric_byzantine.Token.Contract.Held.{Holds, HoldsIssue}
use fabric_byzantine.Token.Contract.Peers.{SameOutcome, changed, lookup-set_peers, set_peers_order}
use fabric_byzantine.Token.Contract.Keeps.{invoke-HoldsIssue}
use fabric_byzantine.Token.Contract.Effects.{
  new_token-IsSound, transferred, invoke-issue, invoke-transfer,
}
use fabric_byzantine.Token.Contract.Histories.{Call, run, issue_conserved}
use fabric_byzantine.Testbed.{
  Doc, rendered, plain, documents, documents-IsWire, memory, memory-IsLedger, request_text,
}

abbrev pub fab : Token
fab = new_token "alice" "fab" (pos 1000) (pos 2)

pub fab-IsSound : IsSound fab
fab-IsSound = new_token-IsSound "alice" "fab" (pos 1000) (pos 2) (omega arith) (omega arith)

-- The ledger that holds the token.
abbrev pub issued : Dict Doc
issued = ("fab", rendered (encode_token fab)) ∷ []

transfer-IsSound_example : IsSound (transfer "alice" "bob" (pos 10) fab)
transfer-IsSound_example = transfer-IsSound "alice" "bob" (pos 10) fab fab-IsSound (omega arith)

transfer_balances_example :
    balance "bob" (transfer "alice" "bob" (pos 10) fab) ≡ balance "bob" fab -ℤ pos 0 +ℤ pos 10
unfolding balance new_token
transfer_balances_example =
    transfer_balances "alice" "bob" (pos 10) fab fab-IsSound (omega arith) "bob" (omega arith)

decode_token-encode_token_example : decode_token (encode_token fab) empty_token ≡ (fab, none)
decode_token-encode_token_example = decode_token-encode_token fab fab-IsSound

abbrev requested : Dict String
requested = ("peer0.org1.example.com", "false") ∷ ("peer0.org3.example.com", "true") ∷ []

abbrev reordered : Dict String
reordered = ("peer0.org3.example.com", "true") ∷ ("peer0.org1.example.com", "false") ∷ []

abbrev after_request : Dict Bool
after_request =
    ("peer0.org1.example.com", false)
    ∷ ("peer0.org2.example.com", true)
    ∷ ("peer0.org3.example.com", true)
    ∷ ("peer0.org4.example.com", true)
    ∷ ("peer0.org5.example.com", true)
    ∷ ("peer0.org6.example.com", true)
    ∷ ("peer0.org7.example.com", true)
    ∷ ("peer0.org8.example.com", true)
    ∷ ("peer0.org9.example.com", false)
    ∷ ("peer0.org10.example.com", false)
    ∷ []

set_peers-requested : set_peers requested (initial_peers (pos 2)) ≡ some after_request
unfolding set_peers initial_peers parse_bool
set_peers-requested = refl

lookup-set_peers_example :
    lookup "peer0.org1.example.com" after_request
    ≡ changed
        (lookup "peer0.org1.example.com" requested)
        (lookup "peer0.org1.example.com" (initial_peers (pos 2)))
lookup-set_peers_example =
    lookup-set_peers requested (initial_peers (pos 2)) after_request "peer0.org1.example.com"
      (refl, (refl, tt)) set_peers-requested

swap_entries :
    (i j a b k : String) → i ≢ j → lookup k ((i, a) ∷ (j, b) ∷ []) ≡ lookup k ((j, b) ∷ (i, a) ∷ [])
swap_entries i j a b k ne = ground (arith, eq_iff i k, eq_iff j k)

same_requests : (k : String) → lookup k requested ≡ lookup k reordered
same_requests k =
    swap_entries "peer0.org1.example.com" "peer0.org3.example.com" "false" "true" k
      (str_ne "peer0.org1.example.com" "peer0.org3.example.com" refl)

set_peers_order_example :
    SameOutcome
      (set_peers requested (initial_peers (pos 2)))
      (set_peers reordered (initial_peers (pos 2)))
set_peers_order_example =
    set_peers_order requested reordered (initial_peers (pos 2)) (refl, (refl, tt))
      (refl, (refl, tt)) same_requests

fab_held : HoldsIssue memory "fab" fab issued
fab_held = record {
  token = fab;
  holds = refl;
  sound = fab-IsSound;
  supply = refl;
  owner = refl;
  name = refl;
}

invoke-HoldsIssue_example :
    HoldsIssue memory "fab" fab
      (invoke documents memory "transfer" ("fab" ∷ "alice" ∷ "bob" ∷ "10" ∷ "false" ∷ []) issued).1
invoke-HoldsIssue_example =
    invoke-HoldsIssue documents-IsWire memory-IsLedger "fab" fab issued fab_held "transfer"
      ("fab" ∷ "alice" ∷ "bob" ∷ "10" ∷ "false" ∷ []) (str_ne "transfer" "issue" refl)

invoke-transfer_example :
    let (r, s') =
      invoke documents memory "transfer" ("fab" ∷ "alice" ∷ "bob" ∷ "10" ∷ "false" ∷ []) issued in
    (r ≡ success (some (rendered (encode_token (transferred fab "alice" "bob" "10" "false")))))
    × Holds memory "fab" (transferred fab "alice" "bob" "10" "false") s'
unfolding atoi
invoke-transfer_example =
    invoke-transfer documents-IsWire memory-IsLedger "fab" fab issued refl fab-IsSound "alice" "bob"
      "10" "false" refl refl

abbrev one_request : Dict String
one_request = ("peer0.org1.example.com", "false") ∷ []

request_decoded :
    unmarshal documents (decode_map decode_string "") (some (plain request_text)) []
    ≡ (one_request, none)
unfolding unmarshal decode_map decode_string
request_decoded = refl

abbrev after_one : Dict Bool
after_one =
    ("peer0.org1.example.com", false)
    ∷ ("peer0.org2.example.com", true)
    ∷ ("peer0.org3.example.com", true)
    ∷ ("peer0.org4.example.com", true)
    ∷ ("peer0.org5.example.com", true)
    ∷ ("peer0.org6.example.com", true)
    ∷ ("peer0.org7.example.com", true)
    ∷ ("peer0.org8.example.com", true)
    ∷ ("peer0.org9.example.com", false)
    ∷ ("peer0.org10.example.com", false)
    ∷ []

one_request_accepted : set_peers one_request fab.peers ≡ some after_one
unfolding set_peers new_token initial_peers parse_bool
one_request_accepted = refl

abbrev fab_after : Token
fab_after = record fab { peers = after_one; flag = parse_bool "false" }

invoke-issue_example :
    let t = new_token "alice" "fab" (atoi "1000").0 (atoi "2").0 in
    let (r, s') = invoke documents memory "issue" ("alice" ∷ "fab" ∷ "1000" ∷ "2" ∷ []) [] in
    (r ≡ success (some (rendered (encode_token t))))
    × Holds memory "fab" t s'
    × IsSound t
    × (balance "alice" t ≡ t.total_supply)
unfolding atoi
invoke-issue_example =
    invoke-issue documents-IsWire memory-IsLedger "alice" "fab" "1000" "2" [] (omega arith) refl

abbrev history : List Call
history =
    ("transfer", "fab" ∷ "alice" ∷ "bob" ∷ "10" ∷ "true" ∷ [])
    ∷ ("transfer", "fab" ∷ "bob" ∷ "carol" ∷ "2000" ∷ "true" ∷ [])
    ∷ ("balance", "fab" ∷ "bob" ∷ [])
    ∷ []

issue_conserved_example :
    HoldsIssue memory "fab"
      (new_token "alice" "fab" (atoi "1000").0 (atoi "2").0)
      (run documents memory (("issue", "alice" ∷ "fab" ∷ "1000" ∷ "2" ∷ []) ∷ history) [])
unfolding atoi
issue_conserved_example =
    issue_conserved documents-IsWire memory-IsLedger "alice" "fab" "1000" "2" history []
      (omega arith) refl
      (
        str_ne "transfer" "issue" refl,
        (str_ne "transfer" "issue" refl, (str_ne "balance" "issue" refl, tt)),
      )

minus_five : "-5" ≡ itoa (negsuc 4)
unfolding itoa
minus_five = refl

invoke-transfer_refused_example :
    invoke documents memory "transfer" ("fab" ∷ "alice" ∷ "bob" ∷ "-5" ∷ "false" ∷ []) issued
    ≡ (failure (text "Incorrect number of amount"), issued)
invoke-transfer_refused_example =
    invoke-transfer_refused memory "fab" "alice" "bob" "-5" "false" issued
      (inl (negsuc 4, omega arith, refl, minus_five))

-- A token of which only the second peer is known.
abbrev small : Token
small = record fab { peers = ("peer0.org2.example.com", true) ∷ [] }

small-IsSound : IsSound small
small-IsSound =
    let s = fab-IsSound in
    record {
      balances = s.balances;
      peers = (refl, tt);
      nonneg = s.nonneg;
      total = s.total;
      fits = s.fits;
    }

abbrev small_issued : Dict Doc
small_issued = ("fab", rendered (encode_token small)) ∷ []

invoke-set_peer_unknown_example :
    invoke documents memory "setPeer" ("fab" ∷ request_text ∷ "false" ∷ []) small_issued
    ≡ (failure (text "invaild peer params"), small_issued)
invoke-set_peer_unknown_example =
    invoke-set_peer_unknown documents-IsWire memory-IsLedger "fab" small small_issued request_text
      "false" one_request "peer0.org1.example.com" "false" refl small-IsSound request_decoded refl
      refl
