-- ===== src/Http/Tests.antt =====
-- The theorems about the HTTP handlers and the explorer's pages at concrete inputs: a table of two
-- rows.
use fabric_byzantine.Base.{
  ◌≡◌, refl, String, Bool, not, List, [], ◌∷◌, ◌++◌, Option, none, some, arith, str_eq, get_elem?,
}
use fabric_byzantine.Int.{pos, negsuc}
use fabric_byzantine.Dict.{Dict}
use fabric_byzantine.Strconv.Digits.{itoa}
use fabric_byzantine.Flow.{ok}
use fabric_byzantine.Testbed.{documents}
use fabric_byzantine.Mysql.{Arg, number, words, Database, block_page_sql}
use fabric_byzantine.Mysql.Pages.{limit, scanned, Answers, shown}
use fabric_byzantine.Server.State.{initial}
use fabric_byzantine.Server.Tests.{network, orgs, orgs-AllStaffed}
use fabric_byzantine.Server.Gateway.{Sdk}
use fabric_byzantine.Server.PeerName.{peer_number}
use fabric_byzantine.Shim.{Response, success, failure}
use fabric_byzantine.Token.{balance}
use fabric_byzantine.Token.Contract.{invoke}
use fabric_byzantine.Token.Tests.{fab, issued, fab-IsSound}
use fabric_byzantine.Http.{Site, bytes, query}
use fabric_byzantine.Http
use fabric_byzantine.Http.{byzantine_task, updates_of}
use fabric_byzantine.Http.Settled.{byzantine_task_idle}
use fabric_byzantine.Http.Balance.{IsServing, query-balance}
use fabric_byzantine.Testbed.{Doc, plain_text, documents-IsWire, memory, memory-IsLedger}
use fabric_byzantine.Strconv.{atoi, atoi_bytes, bytes_of}
use fabric_byzantine.Flow.{go, stop, Outcome, ok, err}
use fabric_byzantine.Base.{map, ℕ, true}
use fabric_byzantine.Http.{rows, block_page_handler, marked}
use fabric_byzantine.Http.Pages.{block_page_handler-shown}
use fabric_byzantine.Http.Sockets.Rendezvous.{
  send, receive, sending, telling, waiting, gone, linked, moves, refused_late, sender_left_waiting,
}
use fabric_byzantine.Http.Sockets.Rendezvous.Delivery.{rounds, all_delivered}
use fabric_byzantine.Http.Sockets.{tx_chans, socket, socket_lem}

abbrev columns : List String
columns = "number" ∷ "hash" ∷ []

abbrev table : List (List (Option String))
table = (some "2" ∷ some "bb" ∷ []) ∷ (some "1" ∷ none ∷ []) ∷ []

abbrev limited : List Arg → List (List (Option String))
limited (number (pos offset) ∷ number (pos count) ∷ []) = limit offset count table
limited (number (pos offset) ∷ number (pos count) ∷ _ ∷ _) = []
limited (number (pos offset) ∷ number (negsuc _) ∷ _) = []
limited (number (pos offset) ∷ words _ ∷ _) = []
limited (number (pos offset) ∷ []) = []
limited (number (negsuc _) ∷ _) = []
limited (words _ ∷ _) = []
limited [] = []

abbrev pub explorer : Database
explorer = record {
  Fault = String;
  query =
      λ sql args. ok (record { columns = ok columns; rows = scanned (limited args); fault = none });
  prepare = λ sql. ok (λ args. none);
}

explorer-Answers : (sql : String) → Answers explorer sql columns table
explorer-Answers sql offset count = refl

block_page_handler-shown_example :
    (r : List (Dict String)) × (block_page_handler documents network explorer
        (itoa (pos 2))
        (itoa (pos 1))
      ≡ rows r)
    × (get_elem? r 0 ≡ shown columns table 1 1 0)
block_page_handler-shown_example =
    block_page_handler-shown network explorer columns table 1 0 0
      (explorer-Answers (block_page_sql explorer)) (omega arith) (omega arith) (omega arith)

abbrev peers : Dict String
peers = ("peer0.org1.example.com", "false") ∷ ("peer0.org2.example.com", "true") ∷ []

abbrev until_end : String → Bool
until_end m = not (str_eq m "end")

abbrev arrived : List String
arrived = "one" ∷ "two" ∷ "end" ∷ "three" ∷ []

socket_lem_example : socket tx_chans "uid" until_end arrived initial ≡ ("one" ∷ "two" ∷ [], initial)
socket_lem_example = socket_lem tx_chans "uid" until_end arrived initial tt

abbrev result_of : Response (Option Doc) → Outcome String Doc
result_of (success (some b)) = ok b
result_of (success none) = err "no answer"
result_of (failure e) = err "failure"

-- A network of which every peer runs the token contract on the same ledger.
abbrev token_network : Sdk documents
token_network = record {
  Peer = ℕ;
  Client = Unit {0};
  Identity = Unit {0};
  Fault = String;
  new_client = λ channel o. ok tt;
  new_identity = λ o. ok tt;
  serialize = network.serialize;
  hash = network.hash;
  hex = network.hex;
  execute = network.execute;
  query = λ c r ps. result_of (invoke documents memory r.fcn (map plain_text r.args) issued).0;
}

token_network-IsServing : (user : String) → IsServing token_network memory user issued
token_network-IsServing user = record {
  client = λ channel o. (tt, refl);
  answers = λ c p b e. rw e refl;
}

abbrev site : Site
site = record { memory = initial; timer_flag = true; updates = [] }

second_peer : peer_number (bytes_of "peer0.org2.example.com") ≡ some (pos 2)
unfolding peer_number atoi_bytes
second_peer = refl

query-balance_example :
    (b : Doc) × (query documents token_network explorer orgs "alice" "peer0.org2.example.com" site
      ≡ (stop (bytes (some b)), site))
    × (atoi (plain_text b) ≡ (balance "alice" fab, none))
query-balance_example =
    query-balance token_network memory explorer documents-IsWire memory-IsLedger orgs "alice"
      "peer0.org2.example.com" 1 fab issued site refl fab-IsSound (token_network-IsServing "alice")
      orgs-AllStaffed (omega arith) (omega arith) second_peer

byzantine_task_idle_example : byzantine_task documents network explorer orgs 7 site ≡ (go tt, site)
byzantine_task_idle_example =
    byzantine_task_idle network explorer orgs 7 site orgs-AllStaffed (omega arith)

sender_left_waiting_example :
    let l = moves until_end (refused_late ++ send ∷ receive ∷ []) (linked ("end" ∷ "three" ∷ [])) in
    (l.sender ≡ sending "three" []) × (l.receiver ≡ gone) × (l.written ≡ [])
sender_left_waiting_example =
    sender_left_waiting until_end "end" "three" [] (send ∷ receive ∷ []) refl

all_delivered_example :
    moves until_end ((send ∷ send ∷ receive ∷ []) ++ rounds 6) (linked ("one" ∷ "two" ∷ []))
    ≡ record {
      registered = true;
      sender = telling [];
      receiver = waiting;
      written = "one" ∷ "two" ∷ [];
    }
all_delivered_example =
    all_delivered until_end ("one" ∷ "two" ∷ []) (send ∷ send ∷ receive ∷ []) 6 refl (omega arith)
