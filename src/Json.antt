-- ===== src/Json.antt =====
-- What the program uses of Go's `encoding/json`, on documents: a document is what a JSON text
-- stands for, with its members in the order of the text. The text itself is `Wire.parse` and
-- `Wire.render`. A decoder takes the old value of its target, as `json.Unmarshal` does: null leaves
-- a scalar alone, a mismatch leaves it alone too, is remembered, and decoding goes on; the first
-- mismatch is the error. A null map is the empty map here: the program writes no null map.
pub mod RoundTrip
use fabric_byzantine.Base.{
  ℕ, ◌^◌, ◌≡◌, String, Bool, true, false, ◌&&◌, List, [], ◌∷◌, Option, none, some, ltb, leb,
  if◌then◌else◌,
}
use fabric_byzantine.Int.{ℤ, pos, negsuc, pos_part, neg_part}
use fabric_byzantine.Dict.{Dict, insert}

-- `other` is a document that every target of this program refuses: an array, or a number that is
-- no integer.
mutual
  pub data Json : Type 0 where
    null : Json
    bool : Bool → Json
    num : ℤ → Json
    str : String → Json
    obj : Members → Json
    other : Json

  pub data Members : Type 0 where
    end : Members
    member : String → Json → Members → Members

pub data JsonError : Type 0 where
  invalid_text mismatch : JsonError

abbrev pub Decoded : Type 0 → Type 0
Decoded A = A × Option JsonError

abbrev pub Decoder : Type 0 → Type 0
Decoder A = Json → A → Decoded A

-- The error that came first.
abbrev pub first_error : Option JsonError → Option JsonError → Option JsonError
first_error none e = e
first_error (some d) _ = some d

unfoldable pub decode_string : Decoder String
decode_string null old = (old, none)
decode_string (str s) old = (s, none)
decode_string _ old = (old, some mismatch)

unfoldable pub decode_bool : Decoder Bool
decode_bool null old = (old, none)
decode_bool (bool b) old = (b, none)
decode_bool _ old = (old, some mismatch)

unfoldable pub decode_int : Decoder ℤ
decode_int null old = (old, none)
decode_int (num n) old =
    if ltb (pos_part n) (2 ^ 63) && leb (neg_part n) (2 ^ 63)
    then (n, none)
    else (old, some mismatch)
decode_int _ old = (old, some mismatch)

-- Each element is decoded into the zero value, and stored even if it does not fit.
unfoldable pub decode_members : {V : Type 0} → Decoder V → V → Members → Dict V → Decoded (Dict V)
decode_members dec zero_value end d = (d, none)
decode_members dec zero_value (member k v ms) d =
    let (a, e) = dec v zero_value in
    let (d', e') = decode_members dec zero_value ms (insert k a d) in (d', first_error e e')

unfoldable pub decode_map : {V : Type 0} → Decoder V → V → Decoder (Dict V)
unfolding decode_members
decode_map dec zero_value null old = ([], none)
decode_map dec zero_value (obj ms) old = decode_members dec zero_value ms old
decode_map dec zero_value _ old = (old, some mismatch)

unfoldable pub encode_members : {V : Type 0} → (V → Json) → Dict V → Members
encode_members enc [] = end
encode_members enc ((k, v) ∷ d) = member k (enc v) (encode_members enc d)

unfoldable pub encode_map : {V : Type 0} → (V → Json) → Dict V → Json
unfolding encode_members
encode_map enc d = obj (encode_members enc d)

-- Bytes, and the text of documents. The byte level of JSON (quoting, spaces, digits) is not
-- modelled: what the program relies on is that a text that was rendered is parsed back.
pub record Wire : Type 1 where
  pub Bytes : Type 0
  pub of_string : String → Bytes
  pub to_string : Bytes → String
  pub render : Json → Bytes
  pub parse : Bytes → Option Json

-- `string([]byte(s))` is `s`, and a rendered document is parsed back.
pub record IsWire (w : Wire) : Type 0 where
  pub to_string-of_string : (s : String) → w.to_string (w.of_string s) ≡ s
  pub parse-render : (j : Json) → w.parse (w.render j) ≡ some j

-- `json.Unmarshal(b, &v)`: a text that is no JSON changes nothing.
unfoldable pub unmarshal : {A : Type 0} (w : Wire) → Decoder A → Option w.Bytes → A → Decoded A
unmarshal w dec none old = (old, some invalid_text)
unmarshal w dec (some b) old = elim (w.parse b) [
  | none ↦ (old, some invalid_text)
  | some j ↦ dec j old
]
