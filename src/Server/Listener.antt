-- ===== src/Server/Listener.antt =====
-- server/block_listener.go: updateBlock, syncBlock and registerBlockEvent. The package protoutil
-- (a copy of Hyperledger Fabric's), the SDK's ledger client and the database are parameters. The
-- statements of a database transaction are kept in the order in which they are issued; what they
-- do to the database, and that it may refuse them (the code only logs that), is not modelled. The
-- goroutines of updateBlock run one after the other here.
pub mod Ends
pub mod Resolved
pub mod Rows
pub mod Tells
pub mod Told
pub mod Total
pub mod Start
pub mod Sync
pub mod Tests
use fabric_byzantine.Base.{
  ℕ, ◌+◌, ◌*◌, ◌%◌, ◌^◌, String, Bool, true, false, List, [], ◌∷◌, ◌++◌, map, Option, none, some,
  ltb, leb, ◌==◌, length, get_elem?, if◌then◌else◌,
}
use fabric_byzantine.Int.{pos}
use fabric_byzantine.Dict.{lookup, erase}
use fabric_byzantine.Json.{Wire}
use fabric_byzantine.Flow.{
  Flow, go, stop, crash, Body, ◌>>=◌, ◌>>◌, return, modify, lift, or_crash, Outcome, ok, err,
}
use fabric_byzantine.Server.State.{
  State, PeerTx, TransactionInfo, BlockInfo, Message, transaction, block, number, broadcast,
}
use fabric_byzantine.Server.Gateway.{Sdk, Failure, Orgs, query_cc}

-- What updateBlock reads of a channel header; `time` is the instant that `time.Unix` makes of its
-- timestamp.
pub record ChannelHeader : Type 0 where
  pub tx_id : String
  pub time : ℕ

-- `unmarshal_payload` gives the bytes of the channel header, or none if the payload has no header.
pub record Proto (B : Type 0) : Type 0 where
  pub get_envelope : B → Outcome String B
  pub unmarshal_payload : B → Outcome String (Option B)
  pub unmarshal_channel_header : B → ChannelHeader
  pub hex : B → String
  pub zero_time : ℕ

-- `envelopes` is `block.Data.Data`. `filter` are the bytes under TRANSACTIONS_FILTER, none if the
-- metadata does not reach there.
pub record Block (B : Type 0) : Type 0 where
  pub number : ℕ
  pub data_hash : B
  pub envelopes : List B
  pub filter : Option (List ℕ)

-- The two prepared statements with their arguments.
pub data Statement (B : Type 0) : Type 0 where
  insert_tx : ℕ → ℕ → String → String → ℕ → ℕ → ℕ → Statement B
  insert_block : ℕ → String → ℕ → ℕ → Option B → Option B → ℕ → Statement B

pub record World (B : Type 0) : Type 0 where
  pub memory : State
  pub statements : List (Statement B)

-- The variables peerName, peerType and txTime of updateBlock.
pub record Vars : Type 0 where
  pub peer : PeerTx
  pub tx_time : ℕ

-- The status that is stored for a transaction.
unfoldable pub status : ℕ → ℕ → ℕ
status peer_type code = if ltb 0 peer_type then if leb peer_type 3 then 1 else code else code

-- The type that is stored for a transaction.
unfoldable pub tx_flag : ℕ → ℕ
tx_flag peer_type = if ltb 0 peer_type then 1 else 0

-- The type that is stored for a block.
unfoldable pub block_flag : ℕ → ℕ
block_flag peer_type = if ltb 0 peer_type then if leb peer_type 3 then 0 else 1 else peer_type

-- The index of a transaction's row, a uint64.
unfoldable pub row_index : ℕ → ℕ → ℕ → ℕ
row_index per_block n i = (n * per_block + i) % 2 ^ 64

-- `TxList.Load` and what follows: a sender that is found is taken and removed, else the one of the
-- transaction before stays.
unfoldable pub load : String → PeerTx → State → PeerTx × State
load tx_id old st = elim (lookup tx_id st.tx_list) [
  | none ↦ (old, st)
  | some p ↦ (p, record st { tx_list = erase tx_id st.tx_list })
]

module _ {B : Type 0} where
  -- The rest of the loop's body for the transaction at position `i`, from its channel header on.
  unfoldable pub record_tx : ℕ → ℕ → ℕ → ChannelHeader → ℕ → Vars → World B → Vars × World B
  unfolding load broadcast status tx_flag row_index
  record_tx per_block n i header code v u =
      let (p, st) = load header.tx_id v.peer u.memory in
      let code' = status p.peer_type code in
      let s = tx_flag p.peer_type in
      (
        record { peer = p; tx_time = header.time },
        record {
          memory =
              broadcast st.tx_chans
                (transaction (record {
                  status = code';
                  tx_id = header.tx_id;
                  date_time = header.time;
                  peer = p.peer_name;
                  tx_type = s;
                }))
                st;
          statements =
              u.statements
              ++ insert_tx (row_index per_block n i) n header.tx_id p.peer_name s code' header.time
                ∷ [];
        },
      )

  -- `block.Metadata.Metadata[…][i]`
  unfoldable pub filter_at : Block B → ℕ → Option ℕ
  filter_at b i = elim b.filter [ none ↦ none | some codes ↦ get_elem? codes i ]

  -- The loop over the transactions from position `i` on: an envelope that cannot be read ends it,
  -- a payload that cannot be read is passed over.
  unfoldable pub each_tx :
      Proto B → ℕ → Block B → ℕ → List B → Vars → Body (World B) (Unit {0}) Vars
  unfolding filter_at record_tx
  each_tx proto per_block b i [] v u = (go v, u)
  each_tx proto per_block b i (e ∷ es) v u = elim (proto.get_envelope e) [
    | err x ↦ (go v, u)
    | ok p ↦ elim (proto.unmarshal_payload p) [
      | err x ↦ each_tx proto per_block b (1 + i) es v u
      | ok none ↦ (crash, u)
      | ok (some h) ↦ elim (filter_at b i) [
        | none ↦ (crash, u)
        | some code ↦
            let (v', u') =
              record_tx per_block b.number i (proto.unmarshal_channel_header h) code v u in
            each_tx proto per_block b (1 + i) es v' u'
      ]
    ]
  ]

abbrev in_memory : {B R A : Type 0} → Body State R A → Body (World B) R A
in_memory m u = let (r, st) = m u.memory in (r, record u { memory = st })

-- The bytes of an answer, none if there was an error.
abbrev pub answer : {E B : Type 0} → Outcome E B → Option B
answer (ok b) = some b
answer (err e) = none

module _ (w : Wire) (sdk : Sdk w) where
  -- `string(b)`, the empty string for no bytes.
  abbrev pub text_of : Option w.Bytes → String
  text_of none = ""
  text_of (some b) = w.to_string b

  unfoldable pub balance_of :
      Orgs w sdk → String → Body (World w.Bytes) (Unit {0}) (Outcome (Failure sdk.Fault) w.Bytes)
  balance_of orgs user = in_memory (
      query_cc w sdk orgs (pos 0) "mychannel1" "token" "balance"
        (w.of_string "fab" ∷ w.of_string user ∷ []))

  -- `tx_number` is TxNumber of server/mysql, none where it panics; it is asked only for a socket
  -- that is there.
  unfoldable pub announce_total : Option ℕ → Body (World w.Bytes) (Unit {0}) (Unit {0})
  unfolding broadcast
  announce_total tx_number u = elim u.memory.tx_number_chans [
    | [] ↦ (go tt, u)
    | _ ∷ _ ↦ elim tx_number [
      | none ↦ (crash, u)
      | some count ↦
          (go tt, record u { memory = broadcast u.memory.tx_number_chans (number count) u.memory })
    ]
  ]

  -- The end of updateBlock, after the row of the block is issued.
  unfoldable pub announce : Option ℕ → ℕ → BlockInfo → Body (World w.Bytes) (Unit {0}) (Unit {0})
  unfolding broadcast announce_total
  announce tx_number n info = do
    modify (λ u. record u { memory = broadcast u.memory.block_number_chans (number n) u.memory })
    announce_total tx_number
    modify (λ u. record u { memory = broadcast u.memory.block_chans (block info) u.memory })

  -- `begins` tells whether the database begins a transaction.
  unfoldable pub update_block :
      Proto w.Bytes
      → Orgs w sdk
      → ℕ
      → Bool
      → (List (Statement w.Bytes) → Option ℕ)
      → Block w.Bytes
      → Body (World w.Bytes) (Unit {0}) (Unit {0})
  update_block proto orgs per_block begins tx_number b =
      if b.number == 0
      then return tt
      else if begins
      then (do
        v ← each_tx proto per_block b 0 b.envelopes (record {
          peer = record { peer_name = "peer0.org1.example.com"; peer_type = 0 };
          tx_time = proto.zero_time;
        })
        alice ← balance_of orgs "alice"
        bob ← balance_of orgs "bob"
        modify (λ u. record u {
          statements =
              u.statements
              ++ insert_block b.number (proto.hex b.data_hash) (length b.envelopes) v.tx_time
                  (answer alice) (answer bob) (block_flag v.peer.peer_type)
                ∷ [];
        })
        (λ u.
            announce (tx_number u.statements) b.number
              (record {
                number = b.number;
                tx_count = length b.envelopes;
                block_hash = proto.hex b.data_hash;
                date_time = v.tx_time;
                alice = text_of (answer alice);
                bob = text_of (answer bob);
                block_type = block_flag v.peer.peer_type;
              })
              u))
      else lift crash
