-- ===== src/Strconv/RoundTrip.antt =====
-- Atoi and ParseUint on what Itoa and FormatUint print.
use Prim.Native.Char.{code}
use Prim.Native.Nat.{◌/◌, ◌%◌}
use mathlib.Core.Logic.{dif_pos}
use mathlib.Core.WellFounded.{Acc}
use native.Mathlib.Bridge.{le_prop}
use native.Mathlib.Decide.{dec_lt}
use fabric_byzantine.Base.{
  ℕ, zero, suc, ◌+◌, ◌≤◌, ◌<◌, ◌≡◌, ◌^◌, refl, String, List, [], ◌∷◌, arith, none, length,
  Bool-cases, inl, inr, ◌==◌,
}
use fabric_byzantine.Int.{ℤ, pos, negsuc, IsInt}
use fabric_byzantine.Strconv.{
  codes, scan, scan_digits, Scan, read, fail, syntax, range, clamp_pos, clamp_neg, max_u64, atoi,
  atoi_bytes, parse_uint,
}
use fabric_byzantine.Strconv.Digits.{lt_wf, tenth_lt, digit, emit, format_uint, itoa}

code-digit : (d : ℕ) → d < 10 → code (digit d) ≡ 48 + d
unfolding digit
code-digit d h = omega arith

-- Reading the last digit of `n` after the digits before it gives `n`.
scan_last :
    (n : ℕ) (out : List ℕ) → n ≤ max_u64 → scan (n / 10) (code (digit (n % 10)) ∷ out) ≡ scan n out
unfolding scan
scan_last n out h = ground (arith, code-digit (n % 10) (omega arith))

scan-emit :
    (n : ℕ) (w : Acc ◌<◌ n) (out : String)
    → n ≤ max_u64
    → scan 0 (codes (emit n w out)) ≡ scan n (codes out)
unfolding emit
scan-emit n (Acc.intro _ smaller) out fits = grind (
  arith,
  scan_last n (codes out) fits,
  λ (h : 0 < n).
      scan-emit (n / 10) (smaller (n / 10) (tenth_lt h)) (String.◌∷◌ (digit (n % 10)) out),
)

length-emit :
    (n : ℕ) (w : Acc ◌<◌ n) (out : String) → length (codes out) ≤ length (codes (emit n w out))
unfolding emit
length-emit n (Acc.intro _ smaller) out = grind (
  arith,
  λ (h : 0 < n).
      length-emit (n / 10) (smaller (n / 10) (tenth_lt h)) (String.◌∷◌ (digit (n % 10)) out),
)

length-emit_pos : (n : ℕ) (w : Acc ◌<◌ n) (out : String) → 0 < n → 0 < length (codes (emit n w out))
unfolding emit
length-emit_pos n (Acc.intro _ smaller) out h = rw (dif_pos (dec_lt 0 n) le_prop h) (
    omega (
      arith,
      length-emit (n / 10) (smaller (n / 10) (tenth_lt h)) (String.◌∷◌ (digit (n % 10)) out),
    ))

-- The print of a number is not empty, and `scan` reads the number from it.
scan-format_uint :
    (n : ℕ)
    → n ≤ max_u64
    → (0 < length (codes (format_uint n))) × (scan 0 (codes (format_uint n)) ≡ read n)
unfolding format_uint scan
scan-format_uint zero h = (omega arith, refl)
scan-format_uint (suc n) h = (
  length-emit_pos (suc n) (lt_wf.apply (suc n)) "" (omega arith),
  scan-emit (suc n) (lt_wf.apply (suc n)) "" h,
)

scan_digits-eq-scan : (s : List ℕ) → 0 < length s → scan_digits s ≡ scan 0 s
unfolding scan_digits
scan_digits-eq-scan [] h = absurd (omega arith)
scan_digits-eq-scan (c ∷ s) h = refl

-- A text that `scan` accepts does not begin with a sign.
atoi_bytes_unsigned :
    (s : List ℕ) (n : ℕ)
    → 0 < length s
    → scan 0 s ≡ read n
    → n < 2 ^ 63
    → atoi_bytes s ≡ (pos n, none)
unfolding atoi_bytes scan
atoi_bytes_unsigned [] n l h fits = absurd (omega arith)
atoi_bytes_unsigned (c ∷ s) n l h fits = ground arith

clamp_pos-IsInt : (r : Scan) → IsInt (clamp_pos r).0
clamp_pos-IsInt (read n) = ground arith
clamp_pos-IsInt (fail syntax) = omega arith
clamp_pos-IsInt (fail range) = omega arith

clamp_neg-IsInt : (r : Scan) → IsInt (clamp_neg r).0
clamp_neg-IsInt (read zero) = omega arith
clamp_neg-IsInt (read (suc n)) = ground arith
clamp_neg-IsInt (fail syntax) = omega arith
clamp_neg-IsInt (fail range) = omega arith

atoi_bytes-IsInt : (s : List ℕ) → IsInt (atoi_bytes s).0
unfolding atoi_bytes
atoi_bytes-IsInt [] = omega arith
atoi_bytes-IsInt (c ∷ s) = elim (Bool-cases (c == b'-')) [
  | inl minus ↦ rw minus (clamp_neg-IsInt (scan_digits s))
  | inr other ↦ elim (Bool-cases (c == b'+')) [
    | inl plus ↦ rw (other, plus) (clamp_pos-IsInt (scan_digits s))
    | inr digit_first ↦ rw (other, digit_first) (clamp_pos-IsInt (scan_digits (c ∷ s)))
  ]
]

-- `ParseUint` reads every uint64 back from its decimal print.
pub parse_uint-format_uint : (n : ℕ) → n ≤ max_u64 → parse_uint (format_uint n) ≡ n
unfolding parse_uint
parse_uint-format_uint n h =
    let (l, e) = scan-format_uint n h in
    rw (scan_digits-eq-scan (codes (format_uint n)) l, e, parse_uint)

-- `Atoi` reads every `int` back from what `Itoa` prints, without an error.
pub atoi-itoa : (a : ℤ) → IsInt a → atoi (itoa a) ≡ (a, none)
unfolding atoi itoa
atoi-itoa (pos n) h =
    let (l, e) = scan-format_uint n (omega arith) in
    atoi_bytes_unsigned (codes (format_uint n)) n l e h.0
atoi-itoa (negsuc n) h =
    let (l, e) = scan-format_uint (suc n) (omega arith) in
    rw (scan_digits-eq-scan (codes (format_uint (suc n))) l, e, atoi_bytes) (ground arith)

-- `Atoi` returns an `int`, beside an error too.
pub atoi-IsInt : (s : String) → IsInt (atoi s).0
unfolding atoi
atoi-IsInt s = atoi_bytes-IsInt (codes s)
