-- ===== src/Server/Journey.antt =====
-- A transaction's way through the server: from InvokeCC (server/fabsdk.go) over TxList to updateBlock
-- (server/block_listener.go).
pub mod Later
pub mod Races
mod Tests
pub mod Waiting
use fabric_byzantine.Base.{
  ℕ, ◌^◌, ◌<◌, ◌≡◌, ◌≢◌, ap, ◌∙◌, String, true, List, [], ◌∷◌, ◌++◌, Option, some, length, ◌==◌,
  if◌then◌else◌,
}
use fabric_byzantine.Dict.{erase, lookup}
use fabric_byzantine.Json.{Wire}
use fabric_byzantine.Int.{pos}
use fabric_byzantine.Flow.{go, Outcome}
use fabric_byzantine.Server.Targets.Quorum.{byzantine_count, length-split}
use fabric_byzantine.Server.Targets.Totality.{AllStaffed, choose_targets_total}
use fabric_byzantine.Server.State.{State, PeerTx}
use fabric_byzantine.Server.Gateway.{
  Request, Sdk, Failure, Reply, Orgs, query_cc, known_peers, sender, submit,
}
use fabric_byzantine.Server.Gateway.Recorded.{submit-IsRecorded}
use fabric_byzantine.Server.Gateway.Total.{AnswersNumbered, query_cc_calm, known_peers-AllNumbered}
use fabric_byzantine.Server.Listener.{Proto, Block, Statement, update_block}
use fabric_byzantine.Server.Listener.Rows.{Tx, row, AllRead}
use fabric_byzantine.Server.Listener.Ends.{block_row}
use fabric_byzantine.Server.Listener.Total.{update_block_stores}

module _ {w : Wire} (sdk : Sdk w) where
  -- What a query for the token's peers, made in the state, gives.
  abbrev pub PeersAsked : Orgs w sdk → State → Outcome (Failure sdk.Fault) w.Bytes → Type 0
  PeersAsked orgs st result =
      query_cc w sdk {R = Reply w sdk} orgs (pos 0) "mychannel1" "token" "getPeers"
        (w.of_string "fab" ∷ []) st
      ≡ (go result, st)

  -- A submitting peer, where the number of byzantine peers in the answer stands for type 1.
  abbrev pub sender_of : String → ℕ → Outcome (Failure sdk.Fault) w.Bytes → PeerTx
  sender_of peer peer_type result = record {
    peer_name = peer;
    peer_type = if peer_type == 1 then byzantine_count (known_peers w sdk result) else peer_type;
  }

  -- In a network whose organisations each have a peer, and whose answers to queries name peers of
  -- these organisations: after `submit` the sender waits in TxList under the identifier.
  pub submit_waits :
      (orgs : Orgs w sdk) (client : sdk.Client) (creator nonce : w.Bytes) (txid peer : String)
      (peer_type now : ℕ) (request : Request w) (st : State)
      → AllStaffed orgs
      → 0 < length orgs
      → length orgs < 2 ^ 63
      → AnswersNumbered sdk (length orgs)
      → (result : Outcome (Failure sdk.Fault) w.Bytes) × (PeersAsked orgs st result
          × (lookup txid
                (submit w sdk orgs client creator nonce txid peer peer_type now request
                  st).1.tx_list
              ≡ some (sender_of peer peer_type result)))
  unfolding sender
  submit_waits orgs client creator nonce txid peer peer_type now request st staffed some_org small
        numbered =
      let (result, asked, answered) =
        query_cc_calm sdk {R = Reply w sdk} orgs 0 "mychannel1" "token" "getPeers"
          (w.of_string "fab" ∷ []) st staffed some_org in
      let (s, parted, targets, chosen) =
        choose_targets_total orgs (known_peers w sdk result) small staffed
          (known_peers-AllNumbered sdk result (length orgs) numbered answered) in
      let done =
        submit-IsRecorded sdk orgs client creator nonce txid peer peer_type now request st result s
          targets asked parted chosen in
      let counted = (length-split (known_peers w sdk result) s parted).1 in
      (
        result,
        (
          asked,
          done.waiting
              ∙ ap
                  (λ n. some (record {
                    peer_name = peer;
                    peer_type = if peer_type == 1 then n else peer_type;
                  }))
                  counted,
        ),
      )

  -- In a network whose organisations each have a peer, and whose answers to queries name peers of
  -- these organisations: if a transaction is submitted, and the next block is not block 0 and holds
  -- that transaction alone, readable, while the database begins a transaction and TxNumber does not
  -- panic, then updateBlock returns, and it stores the transaction's row with the submitting peer's
  -- name, and after it the block's. The type in the row is that of the peer, where the number of
  -- byzantine peers in the answer to InvokeCC's query for the peers stands for type 1. TxList is then without the identifier.
  submitted_stored :
      (orgs : Orgs w sdk) (client : sdk.Client) (creator nonce : w.Bytes) (peer : String)
      (peer_type now : ℕ) (request : Request w) (st : State) (proto : Proto w.Bytes) (per_block : ℕ)
      (tx_number : List (Statement w.Bytes) → Option ℕ) (b : Block w.Bytes) (t : Tx)
      (old : List (Statement w.Bytes))
      → AllStaffed orgs
      → 0 < length orgs
      → length orgs < 2 ^ 63
      → AnswersNumbered sdk (length orgs)
      → b.number ≢ 0
      → ((l : List (Statement w.Bytes)) → (c : ℕ) × (tx_number l ≡ some c))
      → ((p : PeerTx) → AllRead proto b 0 b.envelopes ((t, p) ∷ []))
      → let st' =
          (submit w sdk orgs client creator nonce t.header.tx_id peer peer_type now request st).1 in
        let (r, u') =
          update_block w sdk proto orgs per_block true tx_number b
            (record { memory = st'; statements = old }) in
        (result : Outcome (Failure sdk.Fault) w.Bytes) × (time flag : ℕ) × (alice bob : Option
          w.Bytes)
        × (PeersAsked orgs st result
            × (r ≡ go tt)
            × (u'.statements
                ≡ old
                  ++ row per_block b.number 0 t (sender_of peer peer_type result)
                    ∷ block_row sdk proto b time alice bob flag
                    ∷ [])
            × (u'.memory.tx_list ≡ erase t.header.tx_id st'.tx_list))
  submitted_stored orgs client creator nonce peer peer_type now request st proto per_block tx_number
        b t old staffed some_org small numbered ne counted read =
      let (result, (asked, waits)) =
        submit_waits orgs client creator nonce t.header.tx_id peer peer_type now request st staffed
          some_org small numbered in
      let (time, flag, alice, bob, stored) =
        update_block_stores sdk proto orgs per_block tx_number b
          ((t, sender_of peer peer_type result) ∷ [])
          (record {
            memory =
                (submit w sdk orgs client creator nonce t.header.tx_id peer peer_type now request
                  st).1;
            statements = old;
          })
          ne staffed some_org counted (read (sender_of peer peer_type result)) (waits, tt) in
      (result, time, flag, alice, bob, (asked, stored.0, stored.1, stored.2))
