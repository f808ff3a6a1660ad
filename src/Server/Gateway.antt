-- ===== src/Server/Gateway.antt =====
-- InvokeCC and QueryCC of server/fabsdk.go. The Fabric SDK, the random bytes and the clock are
-- parameters: a call of the SDK answers with a value or a fault. The calls of `time.Now` in one
-- call of InvokeCC give one instant.
pub mod Counted
pub mod Recorded
pub mod Total
use fabric_byzantine.Base.{
  ℕ, String, Bool, true, false, List, [], ◌∷◌, Option, none, some, str_eq, ◌==◌, length,
  if◌then◌else◌,
}
use fabric_byzantine.Int.{ℤ, pos}
use fabric_byzantine.Dict.{Dict, insert}
use fabric_byzantine.Json.{Wire, unmarshal, decode_map, decode_bool}
use fabric_byzantine.Flow.{
  Flow, go, stop, crash, Body, ◌>>=◌, ◌>>◌, return, modify, lift, or_crash, Outcome, ok, err,
  or_return,
}
use fabric_byzantine.Server.Statistics.{count_failed, count_committed}
use fabric_byzantine.Server.Targets.{
  Split, split, OrgInfo, OrgInstance, at, first_peer, choose_targets,
}
use fabric_byzantine.Server.State.{State, PeerTx, TransactionInfo, Message, transaction, broadcast}

pub record Request (w : Wire) : Type 0 where
  pub chaincode_id : String
  pub fcn : String
  pub args : List w.Bytes

-- What `Execute` gives: the response, and the error if there is one.
pub record Executed (w : Wire) (F : Type 0) : Type 0 where
  pub transaction_id : String
  pub payload : Option w.Bytes
  pub fault : Option F

-- `channel.New` over the context of a channel and an organisation's user, `NewIdentity`,
-- `Serialize`, `Hash` of the two byte strings joined, `hex.EncodeToString`, `Execute` with a
-- creator, a nonce and targets, `Query` with targets.
pub record Sdk (w : Wire) : Type 1 where
  pub Peer : Type 0
  pub Client : Type 0
  pub Identity : Type 0
  pub Fault : Type 0
  pub new_client : String → OrgInfo → Outcome Fault Client
  pub new_identity : OrgInfo → Outcome Fault Identity
  pub serialize : Identity → Outcome Fault w.Bytes
  pub hash : w.Bytes → w.Bytes → Outcome Fault w.Bytes
  pub hex : w.Bytes → String
  pub execute : Client → w.Bytes → w.Bytes → Request w → List Peer → Executed w Fault
  pub query : Client → Request w → List Peer → Outcome Fault w.Bytes

-- The errors that the two functions return; the wording around a fault is not modelled.
pub data Failure (F : Type 0) : Type 0 where
  no_client : String → Failure F
  no_identity : F → Failure F
  not_serialized : F → Failure F
  no_random : F → Failure F
  fault : F → Failure F

module _ (w : Wire) (sdk : Sdk w) where
  -- The results of InvokeCC.
  pub record Reply : Type 0 where
    pub payload : Option w.Bytes
    pub transaction_id : String
    pub failure : Option (Failure sdk.Fault)

  abbrev refused : Failure sdk.Fault → Reply
  refused e = record { payload = none; transaction_id = ""; failure = some e }

  abbrev pub Orgs : Type 0
  Orgs = List (OrgInstance sdk.Peer)

  -- A query through an organisation's first peer.
  unfoldable pub query_cc :
      {S R : Type 0}
      → Orgs
      → ℤ
      → String
      → String
      → String
      → List w.Bytes
      → Body S R (Outcome (Failure sdk.Fault) w.Bytes)
  unfolding at first_peer
  query_cc orgs index channel cc function args = do
    org ← or_crash (at orgs index)
    elim (sdk.new_client channel org.config) [
      | err e ↦ lift (go (err (no_client org.config.name)))
      | ok client ↦ do
        target ← or_crash (first_peer org)
        elim (sdk.query client (record { chaincode_id = cc; fcn = function; args = args })
            (target ∷ [])) [ err e ↦ lift (go (err (fault e))) | ok b ↦ lift (go (ok b)) ]
    ]

  -- `json.Unmarshal(result, &peers)`, its error and that of the query ignored.
  unfoldable pub known_peers : Outcome (Failure sdk.Fault) w.Bytes → Dict Bool
  known_peers (err e) = (unmarshal w (decode_map decode_bool false) none []).0
  known_peers (ok b) = (unmarshal w (decode_map decode_bool false) (some b) []).0

  -- What the list of waiting transactions says of the sender.
  unfoldable pub sender : String → ℕ → Split → PeerTx
  sender peer peer_type s = record {
    peer_name = peer;
    peer_type = if peer_type == 1 then length s.byzantine else peer_type;
  }

  abbrev when : Bool → (State → State) → State → State
  when true f s = f s
  when false f s = s

  -- The end of InvokeCC, after `Execute`.
  unfoldable pub finish :
      String → ℕ → String → ℕ → Split → Executed w sdk.Fault → Body State Reply (Unit {0})
  unfolding broadcast
  finish peer peer_type function now s r = elim r.fault [
    | some e ↦ do
      modify (λ st.
          broadcast st.tx_chans
            (transaction (record {
              status = 500;
              tx_id = r.transaction_id;
              date_time = now;
              peer = peer;
              tx_type = peer_type;
            }))
            st)
      modify (
          when (str_eq function "transfer") (λ st. record st {
            table = count_failed (peer_type == 0) (length s.byzantine) now st.table;
          }))
      return
          (record { payload = none; transaction_id = r.transaction_id; failure = some (fault e) })
    | none ↦ do
      modify (
          when (str_eq function "transfer") (λ st. record st {
            table = count_committed (peer_type == 0) (length s.byzantine) now st.table;
          }))
      return (record { payload = r.payload; transaction_id = r.transaction_id; failure = none })
  ]

  -- The part of InvokeCC after the transaction has its identifier.
  unfoldable pub submit :
      Orgs
      → sdk.Client
      → w.Bytes
      → w.Bytes
      → String
      → String
      → ℕ
      → ℕ
      → Request w
      → Body State Reply (Unit {0})
  submit orgs client creator nonce txid peer peer_type now request = do
    result ← query_cc orgs (pos 0) "mychannel1" "token" "getPeers" (w.of_string "fab" ∷ [])
    s ← or_crash (split (known_peers result))
    modify (λ st. record st { tx_list = insert txid (sender peer peer_type s) st.tx_list })
    targets ← or_crash (choose_targets orgs s)
    finish peer peer_type request.fcn now s (sdk.execute client creator nonce request targets)

  unfoldable pub invoke_cc :
      Orgs
      → ℕ
      → Outcome sdk.Fault w.Bytes
      → String
      → ℕ
      → ℤ
      → String
      → String
      → String
      → List w.Bytes
      → Body State Reply (Unit {0})
  invoke_cc orgs now random peer peer_type index channel cc function args = do
    org ← or_crash (at orgs index)
    client ←
        or_return (sdk.new_client channel org.config) (λ e. refused (no_client org.config.name))
    signer ← or_return (sdk.new_identity org.config) (λ e. refused (no_identity e))
    creator ← or_return (sdk.serialize signer) (λ e. refused (not_serialized e))
    nonce ← or_return random (λ e. refused (no_random e))
    digest ← or_return (sdk.hash nonce creator) (λ e. refused (fault e))
    submit orgs client creator nonce (sdk.hex digest) peer peer_type now
        (record { chaincode_id = cc; fcn = function; args = args })
