-- ===== src/Token.antt =====
-- The `Token` of the chaincode token (chaincode/src/token/token.go): the record, its two methods,
-- and its document. The contract's handlers are in `Token.Contract`.
pub mod Supply
pub mod Document
pub mod Contract
pub mod Tests
use Prim.Native.Char.{code}
use fabric_byzantine.Base.{
  ℕ, ◌+◌, ◌-◌, ◌≡◌, refl, String, Bool, true, false, ◌&&◌, List, [], ◌∷◌, Option, none, some, map,
  ltb, leb, ◌==◌, if◌then◌else◌,
}
use fabric_byzantine.Int.{ℤ, pos, negsuc, leb_ℤ, add64, sub64, ◌+ℤ◌, ◌-ℤ◌, wrap64}
use fabric_byzantine.Dict.{Dict, get_or, insert}
use fabric_byzantine.Strconv.{codes}
use fabric_byzantine.Json.{
  Json, null, bool, num, str, obj, other, Members, end, member, JsonError, mismatch, Decoded,
  Decoder, first_error, decode_string, decode_bool, decode_int, decode_map, encode_map,
}

pub record Token : Type 0 where
  pub owner : String
  pub total_supply : ℤ
  pub token_name : String
  pub balance_of : Dict ℤ
  pub peers : Dict Bool
  pub flag : Bool

-- The method `transfer`: nothing happens unless the balance covers the value. The destination is
-- read after the source was written, so that a transfer to oneself is right.
unfoldable pub transfer : String → String → ℤ → Token → Token
transfer from to value t =
    if leb_ℤ value (get_or t.balance_of from (pos 0))
    then (let debited = insert from (sub64 (get_or t.balance_of from (pos 0)) value) t.balance_of in
        record t { balance_of = insert to (add64 (get_or debited to (pos 0)) value) debited })
    else t

-- The method `balance`.
unfoldable pub balance : String → Token → ℤ
balance from t = get_or t.balance_of from (pos 0)

-- `Token{}`, also with the two maps made.
abbrev pub empty_token : Token
empty_token = record {
  owner = "";
  total_supply = pos 0;
  token_name = "";
  balance_of = [];
  peers = [];
  flag = false;
}

-- `json.Marshal(token)`: the fields under their tags, in the order of the struct.
unfoldable pub encode_token : Token → Json
encode_token t = obj (
    member "Owner" (str t.owner) (
      member "TotalSupply" (num t.total_supply) (
        member "TokenName" (str t.token_name) (
          member "BalanceOf" (encode_map num t.balance_of)
            (member "Peers" (encode_map bool t.peers) (member "Flag" (bool t.flag) end))))))

-- A member's name is matched with a tag without regard to case; U+017F and U+212A fold to the
-- ASCII letters s and k.
abbrev fold : ℕ → ℕ
fold c =
    if leb b'A' c && leb c b'Z'
    then c + 32
    else if c == 0x17f
    then b's'
    else if c == 0x212a
    then b'k'
    else c

abbrev same_codes : List ℕ → List ℕ → Bool
same_codes [] [] = true
same_codes (a ∷ s) (b ∷ t) = fold a == fold b && same_codes s t
same_codes _ _ = false

unfoldable pub same_name : String → String → Bool
same_name s t = same_codes (codes s) (codes t)

-- Decodes a member into the field of a token that its name belongs to; other members are skipped.
unfoldable pub decode_field : String → Json → Token → Decoded Token
unfolding same_name
decode_field k v t =
    if same_name k "Owner"
    then (let (a, e) = decode_string v t.owner in (record t { owner = a }, e))
    else if same_name k "TotalSupply"
    then (let (a, e) = decode_int v t.total_supply in (record t { total_supply = a }, e))
    else if same_name k "TokenName"
    then (let (a, e) = decode_string v t.token_name in (record t { token_name = a }, e))
    else if same_name k "BalanceOf"
    then (let (a, e) = decode_map decode_int (pos 0) v t.balance_of in
        (record t { balance_of = a }, e))
    else if same_name k "Peers"
    then (let (a, e) = decode_map decode_bool false v t.peers in (record t { peers = a }, e))
    else if same_name k "Flag"
    then (let (a, e) = decode_bool v t.flag in (record t { flag = a }, e))
    else (t, none)

unfoldable pub decode_fields : Members → Token → Decoded Token
unfolding decode_field
decode_fields end t = (t, none)
decode_fields (member k v ms) t =
    let (t', e) = decode_field k v t in
    let (t'', e') = decode_fields ms t' in (t'', first_error e e')

-- `json.Unmarshal(b, &token)` on the document of `b`.
unfoldable pub decode_token : Decoder Token
unfolding decode_fields
decode_token null t = (t, none)
decode_token (obj ms) t = decode_fields ms t
decode_token _ t = (t, some mismatch)

abbrev alice_token : Token
alice_token = record empty_token { owner = "alice"; balance_of = ("alice", pos 100) ∷ [] }

transfer_some :
    (transfer "alice" "bob" (pos 30) alice_token).balance_of
    ≡ ("alice", pos 70) ∷ ("bob", pos 30) ∷ []
unfolding transfer sub64 add64 wrap64 ◌+ℤ◌ ◌-ℤ◌
transfer_some = refl
