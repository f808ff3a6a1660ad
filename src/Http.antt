-- ===== src/Http.antt =====
-- The HTTP handlers of main.go. A handler ends in an answer or in a panic. Headers, the reading of
-- a request off the wire and the printing on the console are left out, and the template of `home`.
-- A goroutine that a handler starts runs at that place here; the clock and the random bytes of one
-- call of InvokeCC are arguments.
pub mod Balance
pub mod Marks
pub mod Pages
pub mod Routes
pub mod Settled
pub mod Sockets
mod Tests
use fabric_byzantine.Base.{
  ℕ, String, Bool, true, false, not, ◌||◌, List, [], ◌∷◌, ◌++◌, Option, none, some, str_eq,
  if◌then◌else◌,
}
use fabric_byzantine.Int.{ℤ, pos, ltb_ℤ, sub64}
use fabric_byzantine.Dict.{Dict}
use fabric_byzantine.Strconv.{NumError, atoi, bytes_of, format_bool, parse_bool}
use fabric_byzantine.Json.{JsonError, Wire, unmarshal, decode_map, decode_string}
use fabric_byzantine.Flow.{
  Flow, go, stop, crash, Body, ◌>>=◌, ◌>>◌, return, modify, lift, or_crash, or_return, Outcome, ok,
  err,
}
use fabric_byzantine.Mysql
use fabric_byzantine.Server.Gateway
use fabric_byzantine.Mysql.{Database, block_page, transaction_page, peer_list}
use fabric_byzantine.Server.PeerName.{peer_number}
use fabric_byzantine.Server.Statistics.{Table, byzantine_num}
use fabric_byzantine.Server.State.{State}
use fabric_byzantine.Server.Gateway.{Sdk, Reply, Orgs, query_cc, known_peers, invoke_cc}

-- What a handler writes: the status 500 with an error, or 200 with a body; or the messages of a web
-- socket, `frames`.
pub data Problem (DF CF : Type 0) : Type 0 where
  bad_number : NumError → Problem DF CF
  invalid_page : Problem DF CF
  database : Mysql.Failure DF → Problem DF CF
  chain : Gateway.Failure CF → Problem DF CF
  unread : String → Problem DF CF

pub data Answer (B DF CF : Type 0) : Type 0 where
  silent : Answer B DF CF
  refused : Problem DF CF → Answer B DF CF
  bytes : Option B → Answer B DF CF
  rows : List (Dict String) → Answer B DF CF
  words : String → Answer B DF CF
  statistics : Table → Answer B DF CF
  frames : List String → Answer B DF CF

-- `updates` are the calls of UpdatePeers, the last one at the end; their errors are ignored.
pub record Site : Type 0 where
  pub memory : State
  pub timer_flag : Bool
  pub updates : List (String × ℤ)

-- The peers of a change request that are to be marked as byzantine in the database.
unfoldable pub marked : Dict String → List (String × ℤ)
marked [] = []
marked ((k, v) ∷ peers) = if parse_bool v then marked peers else (k, pos 1) ∷ marked peers

module _ (w : Wire) (sdk : Sdk w) (db : Database) where
  abbrev pub Reaction : Type 0
  Reaction = Answer w.Bytes db.Fault sdk.Fault

  -- The checks of blockPage and transactionPage on the form values `id` and `size`.
  unfoldable pub page :
      (ℤ → ℤ → Outcome (Mysql.Failure db.Fault) (List (Dict String))) → String → String → Reaction
  page query id size =
      let (page_id, bad_id) = atoi id in
      let (count, bad_count) = atoi size in
      elim bad_id [
        | some e ↦ refused (bad_number e)
        | none ↦ elim bad_count [
          | some e ↦ refused (bad_number e)
          | none ↦
              if ltb_ℤ page_id (pos 1) || ltb_ℤ count (pos 1)
              then refused invalid_page
              else elim (query page_id count) [ err e ↦ refused (database e) | ok r ↦ rows r ]
        ]
      ]

  unfoldable pub block_page_handler : String → String → Reaction
  unfolding page
  block_page_handler = page (block_page db)

  unfoldable pub transaction_page_handler : String → String → Reaction
  unfolding page
  transaction_page_handler = page (transaction_page db)

  unfoldable pub peer_list_handler : Reaction
  peer_list_handler = elim (peer_list db) [ err e ↦ refused (database e) | ok r ↦ rows r ]

  abbrev pub Handler : Type 0 → Type 0
  Handler A = Body Site Reaction A

  abbrev on_memory : {R A : Type 0} → Body State R A → Body Site R A
  on_memory m u = let (r, st) = m u.memory in (r, record u { memory = st })

  -- The reply of a call of InvokeCC, which never ends without one but in a panic.
  abbrev pub reply_of : {A : Type 0} → Flow (Reply w sdk) (Unit {0}) → Flow A (Reply w sdk)
  reply_of (go tt) = crash
  reply_of (stop r) = go r
  reply_of crash = crash

  abbrev pub calling :
      {R : Type 0} → Body State (Reply w sdk) (Unit {0}) → Body Site R (Reply w sdk)
  calling m u = let (r, st) = m u.memory in (reply_of r, record u { memory = st })

  -- `index - 1` for the number in the form value `peer`.
  abbrev peer_index : String → Handler ℤ
  peer_index peer = do n ← or_crash (peer_number (bytes_of peer)); lift (go (sub64 n (pos 1)))

  -- The end of invoke.
  unfoldable pub answered : Reply w sdk → Handler (Unit {0})
  answered reply = elim reply.failure [
    | some e ↦ return (refused (chain e))
    | none ↦ return (bytes reply.payload)
  ]

  unfoldable pub query : Orgs w sdk → String → String → Handler (Unit {0})
  query orgs user peer = do
    index ← peer_index peer
    result ← on_memory (
        query_cc w sdk orgs index "mychannel1" "token" "balance"
          (w.of_string "fab" ∷ w.of_string user ∷ []))
    elim result [ err e ↦ return (refused (chain e)) | ok b ↦ return (bytes (some b)) ]

  unfoldable pub invoke : Orgs w sdk → ℕ → Outcome sdk.Fault w.Bytes → String → Handler (Unit {0})
  invoke orgs now random peer = do
    index ← peer_index peer
    reply ← calling (
        invoke_cc w sdk orgs now random peer 1 index "mychannel1" "token" "transfer" (
          w.of_string "fab"
          ∷ w.of_string "alice"
          ∷ w.of_string "bob"
          ∷ w.of_string "10"
          ∷ w.of_string "true"
          ∷ []))
    answered reply

  -- The goroutine `server.ByzantineNum()`.
  unfoldable pub byzantine_task : Orgs w sdk → ℕ → Handler (Unit {0})
  byzantine_task orgs now = do
    result ←
        on_memory
          (query_cc w sdk orgs (pos 0) "mychannel1" "token" "getPeers" (w.of_string "fab" ∷ []))
    modify (λ u. record u {
      memory = record u.memory {
        table = (byzantine_num (known_peers w sdk result) now u.memory.table).1;
      };
    })

  -- What muma does for the database with the body of an accepted request; a body that cannot be
  -- read as a map of texts is passed over.
  unfoldable pub updates_of : w.Bytes → List (String × ℤ)
  unfolding marked
  updates_of body =
      let (peers, unreadable) = unmarshal w (decode_map decode_string "") (some body) [] in
      elim unreadable [ some e ↦ [] | none ↦ marked peers ]

  -- The end of muma.
  unfoldable pub changed : Orgs w sdk → ℕ → w.Bytes → Reply w sdk → Handler (Unit {0})
  changed orgs now body reply = elim reply.failure [
    | some e ↦ return (refused (chain e))
    | none ↦ do
      byzantine_task orgs now
      modify (λ u. record u { updates = u.updates ++ updates_of body })
      return (bytes reply.payload)
  ]

  unfoldable pub muma :
      Orgs w sdk
      → ℕ
      → Outcome sdk.Fault w.Bytes
      → String
      → Outcome String w.Bytes
      → Handler (Unit {0})
  muma orgs now random method request = if str_eq method "OPTIONS" then return silent else (do
    body ← or_return request (λ e. refused (unread e))
    reply ← calling (
        invoke_cc w sdk orgs now random "peer0.org1.example.com" 0 (pos 0) "mychannel1" "token"
          "setPeer" (w.of_string "fab" ∷ body ∷ w.of_string "false" ∷ []))
    changed orgs now body reply)

  -- A table can always be written as JSON, and its text is left out.
  unfoldable pub get_statistics : Handler (Unit {0})
  get_statistics u = (stop (statistics u.memory.table), u)

  unfoldable pub timer_control : Handler (Unit {0})
  timer_control u =
      let u' = record u { timer_flag = not u.timer_flag } in
      (stop (words (format_bool u'.timer_flag)), u')

  unfoldable pub controller_state : Handler (Unit {0})
  controller_state u = (stop (words (format_bool u.timer_flag)), u)

  -- One tick of timerTask.
  unfoldable pub timer_tick : Orgs w sdk → ℕ → Outcome sdk.Fault w.Bytes → Handler (Unit {0})
  timer_tick orgs now random u = elim u.timer_flag [
    | false ↦ (go tt, u)
    | true ↦
        ((do
          _ ← calling (
              invoke_cc w sdk orgs now random "peer0.org1.example.com" 0 (pos 0) "mychannel1"
                "token" "transfer"
                (w.of_string "fab"
                  ∷ w.of_string "alice"
                  ∷ w.of_string "bob"
                  ∷ w.of_string "10"
                  ∷ w.of_string "false"
                  ∷ []))
          lift (go tt))
          u)
  ]
