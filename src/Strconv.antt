-- ===== src/Strconv.antt =====
-- What the program uses of Go's `strconv`: Atoi, ParseUint, ParseBool, Itoa, FormatBool, and the
-- slicing of a text by positions. Names are sliced by their bytes in UTF-8 (bytes_of); where a text is
-- read as a number its code points do, since no digit or sign has a byte of another character.
pub mod Digits
pub mod RoundTrip
use Prim.Native.Char.{code}
use fabric_byzantine.Base.{
  ℕ, zero, suc, ◌+◌, ◌-◌, ◌*◌, ◌/◌, ◌%◌, ◌^◌, ◌≡◌, refl, String, Bool, true, false, ◌||◌, List, [],
  ◌∷◌, Option, none, some, ltb, ◌==◌, str_eq, if◌then◌else◌,
}
use fabric_byzantine.Int.{ℤ, pos, negsuc}

-- The code points of a text. `String` has its own `[]` and `∷`.
abbrev pub codes : String → List ℕ
codes String.[] = []
codes (String.◌∷◌ c s) = code c ∷ codes s

-- The bytes of a code point in UTF-8, before further bytes.
abbrev utf8 : ℕ → List ℕ → List ℕ
utf8 n rest =
    if ltb n 128
    then n ∷ rest
    else if ltb n 2048
    then (192 + n / 64) ∷ (128 + n % 64) ∷ rest
    else if ltb n 65536
    then (224 + n / 4096) ∷ (128 + n / 64 % 64) ∷ (128 + n % 64) ∷ rest
    else (240 + n / 262144) ∷ (128 + n / 4096 % 64) ∷ (128 + n / 64 % 64) ∷ (128 + n % 64) ∷ rest

-- The bytes of a text, as Go indexes and slices them.
abbrev pub bytes_of : String → List ℕ
bytes_of String.[] = []
bytes_of (String.◌∷◌ c s) = utf8 (code c) (bytes_of s)

-- The two errors of a `NumError`.
pub data NumError : Type 0 where
  syntax range : NumError

pub data Scan : Type 0 where
  read : ℕ → Scan
  fail : NumError → Scan

abbrev pub max_u64 : ℕ
max_u64 = 2 ^ 64 - 1

-- The loop of `ParseUint` in base ten: the first bad digit or the first overflow ends it.
unfoldable pub scan : ℕ → List ℕ → Scan
scan n [] = read n
scan n (c ∷ cs) =
    if ltb c b'0' || ltb b'9' c
    then fail syntax
    else if ltb max_u64 (n * 10 + (c - b'0'))
    then fail range
    else scan (n * 10 + (c - b'0')) cs

-- `strconv.ParseUint(s, 10, 64)` without its sign: no digit at all is a syntax error.
unfoldable pub scan_digits : List ℕ → Scan
unfolding scan
scan_digits [] = fail syntax
scan_digits (c ∷ cs) = scan 0 (c ∷ cs)

-- A number out of range is replaced by the nearest `int`, and the error is returned beside it.
abbrev clamp_pos : Scan → ℤ × Option NumError
clamp_pos (read n) = if ltb n (2 ^ 63) then (pos n, none) else (pos (2 ^ 63 - 1), some range)
clamp_pos (fail syntax) = (pos 0, some syntax)
clamp_pos (fail range) = (pos (2 ^ 63 - 1), some range)

abbrev negate : ℕ → ℤ
negate zero = pos 0
negate (suc n) = negsuc n

abbrev clamp_neg : Scan → ℤ × Option NumError
clamp_neg (read n) = if ltb (2 ^ 63) n then (negsuc (2 ^ 63 - 1), some range) else (negate n, none)
clamp_neg (fail syntax) = (pos 0, some syntax)
clamp_neg (fail range) = (negsuc (2 ^ 63 - 1), some range)

-- `strconv.Atoi` on the bytes of its text.
unfoldable pub atoi_bytes : List ℕ → ℤ × Option NumError
unfolding scan_digits
atoi_bytes [] = (pos 0, some syntax)
atoi_bytes (c ∷ cs) =
    if c == b'-'
    then clamp_neg (scan_digits cs)
    else if c == b'+'
    then clamp_pos (scan_digits cs)
    else clamp_pos (scan_digits (c ∷ cs))

unfoldable pub atoi : String → ℤ × Option NumError
unfolding atoi_bytes
atoi s = atoi_bytes (codes s)

-- `height, _ := strconv.ParseUint(s, 10, 64)`: on an error out of range the largest value is kept.
unfoldable pub parse_uint : String → ℕ
unfolding scan_digits
parse_uint s = elim (scan_digits (codes s)) [
  | read n ↦ n
  | fail e ↦ elim e [ syntax ↦ 0 | range ↦ max_u64 ]
]

-- `b, err := strconv.ParseBool(s)`: false beside an error.
unfoldable pub parse_bool : String → Bool
parse_bool s =
    str_eq s "1"
    || str_eq s "t"
    || str_eq s "T"
    || str_eq s "TRUE"
    || str_eq s "true"
    || str_eq s "True"

abbrev pub format_bool : Bool → String
format_bool true = "true"
format_bool false = "false"

-- `s[lo:hi]`, which panics (`none`) unless lo ≤ hi ≤ len(s).
unfoldable pub drop? : ℕ → List ℕ → Option (List ℕ)
drop? zero s = some s
drop? (suc n) [] = none
drop? (suc n) (_ ∷ s) = drop? n s

unfoldable pub take? : ℕ → List ℕ → Option (List ℕ)
take? zero s = some []
take? (suc n) [] = none
take? (suc n) (c ∷ s) = elim (take? n s) [ none ↦ none | some t ↦ some (c ∷ t) ]

unfoldable pub slice : ℕ → ℕ → List ℕ → Option (List ℕ)
unfolding drop? take?
slice lo hi s = elim (drop? lo s) [ none ↦ none | some t ↦ take? (hi - lo) t ]
