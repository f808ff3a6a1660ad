-- ===== src/Server/Gateway/Recorded.antt =====
-- The second half of InvokeCC (server/fabsdk.go) and what it changes.
use fabric_byzantine.Base.{
  ℕ, ◌≡◌, String, Bool, true, false, List, [], ◌∷◌, ◌++◌, map, none, some, arith, str_eq, ◌==◌,
  length, if◌then◌else◌,
}
use fabric_byzantine.Int.{pos}
use fabric_byzantine.Dict.{lookup, insert, lookup-insert_self}
use fabric_byzantine.Json.{Wire}
use fabric_byzantine.Flow.{go, Outcome}
use fabric_byzantine.Server.Statistics.Tally.{Event, count_event}
use fabric_byzantine.Server.Targets.{Split, split, choose_targets}
use fabric_byzantine.Server.State.{State, PeerTx, Message, transaction}
use fabric_byzantine.Server.Gateway.{
  Request, Executed, Sdk, Failure, Reply, Orgs, query_cc, known_peers, sender, finish, submit,
}

module _ {w : Wire} {F : Type 0} where
  abbrev pub failed : Executed w F → Bool
  failed r = elim r.fault [ none ↦ false | some _ ↦ true ]

  -- The message that a failed execution sends to each socket that watches transactions.
  abbrev pub failure_info : Executed w F → String → ℕ → ℕ → Message
  failure_info r peer peer_type now = transaction (record {
    status = 500;
    tx_id = r.transaction_id;
    date_time = now;
    peer = peer;
    tx_type = peer_type;
  })

  -- The event that the statistics are to count.
  abbrev pub event : Executed w F → Split → ℕ → ℕ → Event
  event r s peer_type now = record {
    normal = peer_type == 0;
    byzantine = length s.byzantine;
    committed = if failed r then false else true;
    now = now;
  }

  -- What `submit` leaves: `r` is what the execution gave.
  pub record IsRecorded (st st' : State) (s : Split) (r : Executed w F) (txid : String) (p : PeerTx)
      (peer_type now : ℕ) (function : String) : Type 0 where
    pub waiting : lookup txid st'.tx_list ≡ some p
    pub counted : st'.table ≡ (
        if str_eq function "transfer"
        then count_event (event r s peer_type now) st.table
        else st.table)
    pub told : st'.sent ≡ (
        if failed r
        then st.sent ++ map (λ uid. (uid, failure_info r p.peer_name peer_type now)) st.tx_chans
        else st.sent)

module _ {w : Wire} (sdk : Sdk w) where
  finish-IsRecorded :
      (st : State) (s : Split) (r : Executed w sdk.Fault) (txid peer function : String)
      (peer_type now : ℕ)
      → lookup txid st.tx_list ≡ some (sender w sdk peer peer_type s)
      → IsRecorded st
          (finish w sdk peer peer_type function now s r st).1
          s
          r
          txid
          (sender w sdk peer peer_type s)
          peer_type
          now
          function
  unfolding finish count_event sender
  finish-IsRecorded st s r txid peer function peer_type now h = ground arith

  -- If the query for the peers leaves the state alone, and the split and the choice of targets meet
  -- no panic: the transaction, which then reaches its execution, is entered in the list of waiting
  -- transactions under its identifier, whether the execution succeeds or fails; the statistics
  -- count it exactly if the function is `transfer`; and exactly a failure is told to every socket
  -- that watches transactions, once.
  pub submit-IsRecorded :
      (orgs : Orgs w sdk) (client : sdk.Client) (creator nonce : w.Bytes) (txid peer : String)
      (peer_type now : ℕ) (request : Request w) (st : State)
      (result : Outcome (Failure sdk.Fault) w.Bytes) (s : Split) (targets : List sdk.Peer)
      → query_cc w sdk {R = Reply w sdk} orgs
          (pos 0)
          "mychannel1"
          "token"
          "getPeers"
          (w.of_string "fab" ∷ [])
          st
        ≡ (go result, st)
      → split (known_peers w sdk result) ≡ some s
      → choose_targets orgs s ≡ some targets
      → let r = sdk.execute client creator nonce request targets in
        IsRecorded st
          (submit w sdk orgs client creator nonce txid peer peer_type now request st).1
          s
          r
          txid
          (sender w sdk peer peer_type s)
          peer_type
          now
          request.fcn
  unfolding submit
  submit-IsRecorded orgs client creator nonce txid peer peer_type now request st result s targets q
        sp ch =
      let st₁ = record st { tx_list = insert txid (sender w sdk peer peer_type s) st.tx_list } in
      let r = sdk.execute client creator nonce request targets in
      let done =
        finish-IsRecorded st₁ s r txid peer request.fcn peer_type now
          (lookup-insert_self txid (sender w sdk peer peer_type s) st.tx_list) in
      rw (q, sp, ch, submit)
        (record { waiting = done.waiting; counted = done.counted; told = done.told })
