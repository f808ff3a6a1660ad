-- ===== src/Token/Contract.antt =====
-- The handlers of `TokenContract` (chaincode/src/token/token.go), over a stub. `json.Marshal` of a
-- token or of a map of Booleans cannot fail, so its error branches are not there.
pub mod Peers
pub mod Refused
pub mod Held
pub mod Keeps
pub mod Effects
pub mod Histories
use fabric_byzantine.Base.{
  String, ◌≡◌, refl, Bool, true, false, not, List, [], ◌∷◌, Option, none, some, str_eq,
  if◌then◌else◌,
}
use fabric_byzantine.Int.{ℤ, pos, leb_ℤ, ltb_ℤ}
use fabric_byzantine.Dict.{Dict, contains, insert}
use fabric_byzantine.Strconv.{atoi, parse_bool}
use fabric_byzantine.Strconv.Digits.{itoa}
use fabric_byzantine.Json.{Json, bool, Wire, unmarshal, decode_map, decode_string, encode_map}
use fabric_byzantine.Shim.{
  Action, Response, success, failure, Error, text, unknown_function, Stub, ◌>>=◌, ◌>>◌, pure, raise,
  reading, or_raise, raise_if,
}
use fabric_byzantine.Token.{Token, empty_token, transfer, balance, encode_token, decode_token}

-- `issue` marks the last organisations as byzantine, ten at most.
unfoldable pub initial_peers : ℤ → Dict Bool
initial_peers byzantine_num =
    ("peer0.org1.example.com", not (ltb_ℤ (pos 9) byzantine_num))
    ∷ ("peer0.org2.example.com", not (ltb_ℤ (pos 8) byzantine_num))
    ∷ ("peer0.org3.example.com", not (ltb_ℤ (pos 7) byzantine_num))
    ∷ ("peer0.org4.example.com", not (ltb_ℤ (pos 6) byzantine_num))
    ∷ ("peer0.org5.example.com", not (ltb_ℤ (pos 5) byzantine_num))
    ∷ ("peer0.org6.example.com", not (ltb_ℤ (pos 4) byzantine_num))
    ∷ ("peer0.org7.example.com", not (ltb_ℤ (pos 3) byzantine_num))
    ∷ ("peer0.org8.example.com", not (ltb_ℤ (pos 2) byzantine_num))
    ∷ ("peer0.org9.example.com", not (ltb_ℤ (pos 1) byzantine_num))
    ∷ ("peer0.org10.example.com", not (ltb_ℤ (pos 0) byzantine_num))
    ∷ []

-- The token that `issue` writes: the owner has the whole supply.
unfoldable pub new_token : String → String → ℤ → ℤ → Token
new_token owner name supply byzantine_num = record {
  owner = owner;
  total_supply = supply;
  token_name = name;
  balance_of = insert owner supply [];
  peers = initial_peers byzantine_num;
  flag = false;
}

-- The loop of `setPeer` over the decoded map, in the order of its entries: a peer that the token
-- does not know ends it (`none`).
unfoldable pub set_peers : Dict String → Dict Bool → Option (Dict Bool)
set_peers [] peers = some peers
set_peers ((k, v) ∷ changes) peers =
    if contains k peers then set_peers changes (insert k (parse_bool v) peers) else none

module _ (w : Wire) (l : Stub w) where
  abbrev pub Handler : Type 0
  Handler = List String → Action l.State (Option w.Bytes)

  -- `json.Marshal(token)` and `stub.PutState(key, …)`; the written bytes are the answer.
  unfoldable pub put_token : String → Token → Action l.State (Option w.Bytes)
  put_token key t = do
    l.put_state key (w.render (encode_token t))
    pure (some (w.render (encode_token t)))

  -- `stub.GetState(key)` and `json.Unmarshal` into a new token.
  unfoldable pub get_token : String → Action l.State Token
  get_token key = do
    bytes ← reading (l.get_state key)
    or_raise (unmarshal w decode_token bytes empty_token)

  unfoldable pub init : Action l.State (Option w.Bytes)
  init = pure none

  unfoldable pub issue : Handler
  issue (owner ∷ name ∷ supply ∷ byzantine_num ∷ []) =
      put_token name (new_token owner name (atoi supply).0 (atoi byzantine_num).0)
  issue _ = raise (text "Incorrect number of arguments. Expecting 4")

  unfoldable pub transfer_tokens : Handler
  transfer_tokens (name ∷ from ∷ to ∷ amount ∷ flag ∷ []) = do
    raise_if (leb_ℤ (atoi amount).0 (pos 0)) (text "Incorrect number of amount")
    token ← get_token name
    put_token name (transfer from to (atoi amount).0 (record token { flag = parse_bool flag }))
  transfer_tokens _ = raise (text "Incorrect number of arguments. Expecting 5")

  abbrev or_invalid : Option (Dict Bool) → Action l.State (Dict Bool)
  or_invalid none = raise (text "invaild peer params")
  or_invalid (some peers) = pure peers

  unfoldable pub set_peer : Handler
  set_peer (name ∷ changes ∷ flag ∷ []) = do
    token ← get_token name
    entries ← or_raise (unmarshal w (decode_map decode_string "") (some (w.of_string changes)) [])
    peers ← or_invalid (set_peers entries token.peers)
    put_token name (record token { peers = peers; flag = parse_bool flag })
  set_peer _ = raise (text "Incorrect number of arguments. Expecting 3")

  unfoldable pub get_peers : Handler
  get_peers (name ∷ []) = do
    token ← get_token name
    pure (some (w.render (encode_map bool token.peers)))
  get_peers _ = raise (text "Incorrect number of arguments. Expecting 1")

  unfoldable pub query_balance : Handler
  query_balance (name ∷ who ∷ []) = do
    token ← get_token name
    pure (some (w.of_string (itoa (balance who token))))
  query_balance _ = raise (text "Incorrect number of arguments. Expecting 2")

  -- `Invoke`, on what `GetFunctionAndParameters` gives.
  unfoldable pub invoke : String → Handler
  invoke function args =
      if str_eq function "issue"
      then issue args
      else if str_eq function "transfer"
      then transfer_tokens args
      else if str_eq function "balance"
      then query_balance args
      else if str_eq function "setPeer"
      then set_peer args
      else if str_eq function "getPeers"
      then get_peers args
      else raise (unknown_function function)
