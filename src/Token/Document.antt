-- ===== src/Token/Document.antt =====
-- The document that `json.Marshal` makes of a token (chaincode/src/token/token.go), and its decoding.
use fabric_byzantine.Base.{◌≡◌, refl, Bool, false, [], ◌∷◌, none, arith}
use fabric_byzantine.Int.{ℤ, pos, IsInt, ◌≤ℤ◌, int_laws}
use fabric_byzantine.Dict.{Dict}
use fabric_byzantine.Json.{bool, num, decode_bool, decode_int, decode_string}
use fabric_byzantine.Json.RoundTrip.{AllRead, decode_map-encode_map}
use fabric_byzantine.Token.{Token, empty_token, encode_token, decode_token}
use fabric_byzantine.Token.Supply.{sum, AllNonneg, IsSound, sum-nonneg, parts}

pub AllRead-bool : (d : Dict Bool) → AllRead decode_bool bool false d
unfolding decode_bool
AllRead-bool [] = tt
AllRead-bool (e ∷ d) = (refl, AllRead-bool d)

decode_int-num : (v : ℤ) → IsInt v → decode_int (num v) (pos 0) ≡ (v, none)
unfolding decode_int
decode_int-num v h = ground arith

-- Each balance is at most the sum, which fits into an `int`.
AllRead-int :
    (d : Dict ℤ) (s : ℤ) → AllNonneg d → sum d ≤ℤ s → IsInt s → AllRead decode_int num (pos 0) d
AllRead-int [] s nn le fits = tt
AllRead-int ((k, v) ∷ d) s nn le fits = (
  decode_int-num v (omega (int_laws, sum-nonneg d nn.1)),
  AllRead-int d s nn.1 (omega (int_laws, sum-nonneg d nn.1)) fits,
)

-- Decoding the document of a sound token into an empty one gives back the token, without an error.
pub decode_token-encode_token :
    (t : Token) → IsSound t → decode_token (encode_token t) empty_token ≡ (t, none)
unfolding decode_token encode_token decode_string decode_bool
decode_token-encode_token t s = rw (
  decode_int-num t.total_supply s.fits,
  decode_map-encode_map decode_int num (pos 0) t.balance_of s.balances
      (AllRead-int t.balance_of t.total_supply s.nonneg (omega (int_laws, parts s.total)) s.fits),
  decode_map-encode_map decode_bool bool false t.peers s.peers (AllRead-bool t.peers),
)
