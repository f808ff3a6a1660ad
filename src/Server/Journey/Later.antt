-- ===== src/Server/Journey/Later.antt =====
-- A transaction's way through the server (server/fabsdk.go, server/block_listener.go) with other
-- transactions and blocks in between.
use fabric_byzantine.Base.{
  ℕ, ◌<◌, ◌≡◌, ◌≢◌, String, Bool, true, List, [], ◌∷◌, ◌++◌, Option, some, length,
}
use fabric_byzantine.Int.{pos}
use fabric_byzantine.Dict.{erase}
use fabric_byzantine.Json.{Wire}
use fabric_byzantine.Flow.{go, Outcome}
use fabric_byzantine.Server.State.{State, PeerTx}
use fabric_byzantine.Server.Gateway.{Request, Sdk, Failure, Orgs, submit, invoke_cc}
use fabric_byzantine.Server.Gateway.Total.{IsNetwork}
use fabric_byzantine.Server.Listener.{Proto, Block, Statement, World, update_block}
use fabric_byzantine.Server.Listener.Rows.{Tx, row, AllRead}
use fabric_byzantine.Server.Listener.Ends.{block_row}
use fabric_byzantine.Server.Listener.Total.{update_block_stores}
use fabric_byzantine.Server.Journey.{PeersAsked, sender_of, submit_waits}
use fabric_byzantine.Server.Journey.Waiting.{
  Waits, OtherId, AllOther, invoke_cc-Waits, update_block-Waits,
}

-- A call of InvokeCC with its instant, its random bytes and its arguments, or a block that the
-- listener hands to updateBlock.
pub data Event {w : Wire} (sdk : Sdk w) : Type 0 where
  call :
      ℕ
      → Outcome sdk.Fault w.Bytes
      → String
      → ℕ
      → ℕ
      → String
      → String
      → String
      → List w.Bytes
      → Event sdk
  handle : Bool → (List (Statement w.Bytes) → Option ℕ) → Block w.Bytes → Event sdk

module _ {w : Wire} (sdk : Sdk w) (orgs : Orgs w sdk) (proto : Proto w.Bytes) (per_block : ℕ) where
  abbrev pub serve : Event sdk → World w.Bytes → World w.Bytes
  serve (call now random peer peer_type v channel chaincode function args) u = record u {
    memory =
        (invoke_cc w sdk orgs now random peer peer_type (pos v) channel chaincode function args
          u.memory).1;
  }
  serve (handle begins tx_number b) u =
      (update_block w sdk proto orgs per_block begins tx_number b u).1

  abbrev pub serve_all : List (Event sdk) → World w.Bytes → World w.Bytes
  serve_all [] u = u
  serve_all (e ∷ es) u = serve_all es (serve e u)

  -- Events of other transactions: a call at an organisation's position that gets another
  -- identifier, a block that does not hold the transaction.
  abbrev pub AllApart : String → List (Event sdk) → Type 0
  AllApart k [] = Unit
  AllApart k (call now random peer peer_type v channel chaincode function args ∷ es) =
      ((v < length orgs) × OtherId sdk k random) × AllApart k es
  AllApart k (handle begins tx_number b ∷ es) = AllOther k proto b.envelopes × AllApart k es

  serve_all-Waits :
      (k : String) (p : PeerTx) (es : List (Event sdk)) (u : World w.Bytes)
      → IsNetwork sdk orgs
      → AllApart k es
      → Waits k p u.memory
      → Waits k p (serve_all es u).memory
  serve_all-Waits k p [] u network apart h = h
  serve_all-Waits k p (call now random peer peer_type v channel chaincode function args ∷ es) u
        network apart h =
      serve_all-Waits k p es
        (serve (call now random peer peer_type v channel chaincode function args) u) network apart.1
        (invoke_cc-Waits sdk orgs k p now random peer peer_type v channel chaincode function args
          u.memory network apart.0.0 apart.0.1 h)
  serve_all-Waits k p (handle begins tx_number b ∷ es) u network apart h =
      serve_all-Waits k p es (serve (handle begins tx_number b) u) network apart.1
        (update_block-Waits sdk orgs k p proto per_block begins tx_number b u network apart.0 h)

  -- In a network that keeps its promises: a transaction is submitted; then come any calls of
  -- InvokeCC at organisations' positions that get other identifiers, however they end, and any
  -- blocks without the transaction, readable or not, in any order; then comes a block other than
  -- block 0 that holds the transaction alone, readable, while the database begins a transaction and
  -- TxNumber does not panic. Then updateBlock returns, and it stores the transaction's row with the
  -- submitting peer's name, and after it the block's. The type in the row is that of the peer, where
  -- the number of byzantine peers in the answer to InvokeCC's query for the peers stands for type 1. TxList is then without the
  -- identifier.
  pub submitted_stored_later :
      (client : sdk.Client) (creator nonce : w.Bytes) (peer : String) (peer_type now : ℕ)
      (request : Request w) (st : State) (tx_number : List (Statement w.Bytes) → Option ℕ)
      (b : Block w.Bytes) (t : Tx) (old : List (Statement w.Bytes)) (es : List (Event sdk))
      → IsNetwork sdk orgs
      → AllApart t.header.tx_id es
      → b.number ≢ 0
      → ((l : List (Statement w.Bytes)) → (c : ℕ) × (tx_number l ≡ some c))
      → ((p : PeerTx) → AllRead proto b 0 b.envelopes ((t, p) ∷ []))
      → let st' =
          (submit w sdk orgs client creator nonce t.header.tx_id peer peer_type now request st).1 in
        let u = serve_all es (record { memory = st'; statements = old }) in
        let (r, u') = update_block w sdk proto orgs per_block true tx_number b u in
        (result : Outcome (Failure sdk.Fault) w.Bytes) × (time flag : ℕ) × (alice bob : Option
          w.Bytes)
        × (PeersAsked sdk orgs st result
            × (r ≡ go tt)
            × (u'.statements
                ≡ u.statements
                  ++ row per_block b.number 0 t (sender_of sdk peer peer_type result)
                    ∷ block_row sdk proto b time alice bob flag
                    ∷ [])
            × (u'.memory.tx_list ≡ erase t.header.tx_id u.memory.tx_list))
  submitted_stored_later client creator nonce peer peer_type now request st tx_number b t old es
        network apart ne counted read =
      let (result, (asked, waits)) =
        submit_waits sdk orgs client creator nonce t.header.tx_id peer peer_type now request st
          network.staffed network.some_org network.small network.numbered in
      let p = sender_of sdk peer peer_type result in
      let st' =
        (submit w sdk orgs client creator nonce t.header.tx_id peer peer_type now request st).1 in
      let start : World w.Bytes = record { memory = st'; statements = old } in
      let (time, flag, alice, bob, stored) =
        update_block_stores sdk proto orgs per_block tx_number b ((t, p) ∷ []) (serve_all es start)
          ne network.staffed network.some_org counted (read p)
          (serve_all-Waits t.header.tx_id p es start network apart waits, tt) in
      (result, time, flag, alice, bob, (asked, stored.0, stored.1, stored.2))
