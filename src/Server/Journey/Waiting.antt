-- ===== src/Server/Journey/Waiting.antt =====
-- A transaction that waits in TxList (server/block_listener.go) while the server makes other calls
-- of InvokeCC (server/fabsdk.go) and handles other blocks. Each call and each block is one event
-- here; the goroutines of different events follow one another.
use fabric_byzantine.Base.{
  ℕ, ◌+◌, ◌<◌, ◌≡◌, ◌≢◌, ap, ◌∙◌, inl, inr, Option-cases, Bool-cases, String, Bool, List, [], ◌∷◌,
  Option, some, arith, length, ◌==◌,
}
use fabric_byzantine.Int.{pos}
use fabric_byzantine.Dict.{lookup, insert, lookup-insert_ne, lookup-erase_ne}
use fabric_byzantine.Json.{Wire}
use fabric_byzantine.Flow.{Flow-cases, Outcome, ok, Outcome-cases}
use fabric_byzantine.Server.Targets.{Split}
use fabric_byzantine.Server.Targets.Totality.{choose_targets_total}
use fabric_byzantine.Server.State.{State, PeerTx, broadcast}
use fabric_byzantine.Server.Gateway.{
  Request, Executed, Sdk, Reply, Orgs, known_peers, sender, finish, submit, invoke_cc,
}
use fabric_byzantine.Server.Gateway.Total.{
  IsNetwork, query_cc_calm, known_peers-AllNumbered, invoke_cc-cases,
}
use fabric_byzantine.Server.Listener.Ends.{
  announce_kept, block_row, info_of, with_row, update_block_announces,
}
use fabric_byzantine.Server.Listener.{
  ChannelHeader, Proto, Block, Statement, World, Vars, load, record_tx, filter_at, each_tx,
  update_block, block_flag,
}

-- `k` waits with the sender `p`.
abbrev pub Waits : String → PeerTx → State → Type 0
Waits k p st = lookup k st.tx_list ≡ some p

-- Another transaction's call: its random bytes do not lead to the same identifier.
abbrev pub OtherId : {w : Wire} (sdk : Sdk w) → String → Outcome sdk.Fault w.Bytes → Type 0
OtherId {w} sdk k random =
    (creator nonce digest : w.Bytes)
    → random ≡ ok nonce
    → sdk.hash nonce creator ≡ ok digest
    → sdk.hex digest ≢ k

-- No envelope of a block holds the transaction.
abbrev pub AllOther : {B : Type 0} → String → Proto B → List B → Type 0
AllOther k proto [] = Unit
AllOther {B} k proto (e ∷ es) =
    ((payload h : B)
      → proto.get_envelope e ≡ ok payload
      → proto.unmarshal_payload payload ≡ ok (some h)
      → (proto.unmarshal_channel_header h).tx_id ≢ k)
    × AllOther k proto es

module _ {w : Wire} (sdk : Sdk w) (orgs : Orgs w sdk) (k : String) (p : PeerTx) where
  finish-Waits :
      (peer : String) (peer_type : ℕ) (function : String) (now : ℕ) (s : Split)
      (r : Executed w sdk.Fault) (st : State)
      → Waits k p st
      → Waits k p (finish w sdk peer peer_type function now s r st).1
  unfolding finish broadcast
  finish-Waits peer peer_type function now s r st h = ground (arith, h)

  other_submit-Waits :
      (client : sdk.Client) (creator nonce : w.Bytes) (txid peer : String) (peer_type now : ℕ)
      (request : Request w) (st : State)
      → IsNetwork sdk orgs
      → txid ≢ k
      → Waits k p st
      → Waits k p (submit w sdk orgs client creator nonce txid peer peer_type now request st).1
  unfolding submit
  other_submit-Waits client creator nonce txid peer peer_type now request st network other h =
      let (result, asked, answered) =
        query_cc_calm sdk {R = Reply w sdk} orgs 0 "mychannel1" "token" "getPeers"
          (w.of_string "fab" ∷ []) st network.staffed network.some_org in
      let (s, parted, targets, chosen) =
        choose_targets_total orgs (known_peers w sdk result) network.small network.staffed
          (known_peers-AllNumbered sdk result (length orgs) network.numbered answered) in
      rw (asked, parted, chosen, submit)
        (finish-Waits peer peer_type request.fcn now s
          (sdk.execute client creator nonce request targets)
          (record st { tx_list = insert txid (sender w sdk peer peer_type s) st.tx_list })
          (lookup-insert_ne k txid (sender w sdk peer peer_type s) st.tx_list other ∙ h))

  pub invoke_cc-Waits :
      (now : ℕ) (random : Outcome sdk.Fault w.Bytes) (peer : String) (peer_type v : ℕ)
      (channel chaincode function : String) (args : List w.Bytes) (st : State)
      → IsNetwork sdk orgs
      → v < length orgs
      → OtherId sdk k random
      → Waits k p st
      → Waits k p
          (invoke_cc w sdk orgs now random peer peer_type
            (pos v)
            channel
            chaincode
            function
            args
            st).1
  invoke_cc-Waits now random peer peer_type v channel chaincode function args st network lt other
        h =
      elim (invoke_cc-cases sdk orgs now random peer peer_type v channel chaincode function args st
        network.staffed lt) [
          | inl (returned, same) ↦ rw same h
          | inr (client, creator, nonce, digest, (drawn, hashed, on)) ↦ rw on (
              other_submit-Waits client creator nonce (sdk.hex digest) peer peer_type now
                (record { chaincode_id = chaincode; fcn = function; args = args }) st network
                (other creator nonce digest drawn hashed) h)
        ]

  record_tx-Waits :
      (per_block n i : ℕ) (header : ChannelHeader) (code : ℕ) (v : Vars) (u : World w.Bytes)
      → header.tx_id ≢ k
      → Waits k p u.memory
      → Waits k p (record_tx per_block n i header code v u).1.memory
  unfolding record_tx load broadcast
  record_tx-Waits per_block n i header code v u other h =
      ground (arith, h, lookup-erase_ne k header.tx_id u.memory.tx_list other)

  each_tx-Waits :
      (proto : Proto w.Bytes) (per_block : ℕ) (b : Block w.Bytes) (i : ℕ) (es : List w.Bytes)
      (v : Vars) (u : World w.Bytes)
      → AllOther k proto es
      → Waits k p u.memory
      → Waits k p (each_tx proto per_block b i es v u).1.memory
  unfolding each_tx
  each_tx-Waits proto per_block b i [] v u other h = h
  each_tx-Waits proto per_block b i (e ∷ es) v u other h =
      elim (Outcome-cases (proto.get_envelope e)) [
        | inr (x, unread) ↦ rw (unread, each_tx) h
        | inl (payload, opened) ↦ elim (Outcome-cases (proto.unmarshal_payload payload)) [
          | inr (x, unread) ↦
              rw (opened, unread, each_tx)
                (each_tx-Waits proto per_block b (1 + i) es v u other.1 h)
          | inl (content, parsed) ↦ elim (Option-cases content) [
            | inl empty ↦ rw (opened, parsed, empty, each_tx) h
            | inr (c, full) ↦ elim (Option-cases (filter_at b i)) [
              | inl absent ↦ rw (opened, parsed, full, absent, each_tx) h
              | inr (code, found) ↦
                  let header = proto.unmarshal_channel_header c in
                  let (v', u') = record_tx per_block b.number i header code v u in
                  rw (opened, parsed, full, found, each_tx)
                    (each_tx-Waits proto per_block b (1 + i) es v' u' other.1 (
                      record_tx-Waits per_block b.number i header code v u
                        (other.0 payload c opened (rw full at parsed)) h))
            ]
          ]
        ]
      ]

  pub update_block-Waits :
      (proto : Proto w.Bytes) (per_block : ℕ) (begins : Bool)
      (tx_number : List (Statement w.Bytes) → Option ℕ) (b : Block w.Bytes) (u : World w.Bytes)
      → IsNetwork sdk orgs
      → AllOther k proto b.envelopes
      → Waits k p u.memory
      → Waits k p (update_block w sdk proto orgs per_block begins tx_number b u).1.memory
  unfolding update_block
  update_block-Waits proto per_block begins tx_number b u network other h =
      elim (Bool-cases (b.number == 0)) [
        | inl first ↦ rw (first, update_block) h
        | inr later ↦ elim (Bool-cases begins) [
          | inr refused ↦ rw (later, refused, update_block) h
          | inl begun ↦
              (let start : Vars = record {
                peer = record { peer_name = "peer0.org1.example.com"; peer_type = 0 };
                tx_time = proto.zero_time;
              } in
                let loop = each_tx proto per_block b 0 b.envelopes start u in
                let kept = each_tx-Waits proto per_block b 0 b.envelopes start u other h in
                elim (Flow-cases loop.0) [
                  | inr (inl (r, stopped)) ↦ rw (later, begun, stopped, update_block) kept
                  | inr (inr crashed) ↦ rw (later, begun, crashed, update_block) kept
                  | inl (v, done) ↦
                      let (alice, bob, ends, _, _) =
                        update_block_announces sdk proto orgs per_block tx_number b v u loop.1 later
                          network.staffed network.some_org (ap (λ r. (r, loop.1)) done) in
                      let flag = block_flag v.peer.peer_type in
                      let u₂ =
                        with_row sdk (block_row sdk proto b v.tx_time alice bob flag) loop.1 in
                      rw (begun, ends)
                        (ap (lookup k) (
                            announce_kept sdk (tx_number u₂.statements) b.number
                              (info_of sdk proto b v.tx_time alice bob flag) u₂)
                          ∙ kept)
                ])
        ]
      ]
