-- ===== src/Strconv/Digits.antt =====
-- `strconv.Itoa` and `strconv.FormatUint`: the decimal digits of a number.
use Prim.Native.Char.{Char, char, IsScalar}
use Prim.Native.Nat.{compare, Ordering}
use mathlib.Core.Logic.{dite}
use mathlib.Core.WellFounded.{Acc, WellFounded}
use native.Mathlib.Decide.{dec_lt}
use fabric_byzantine.Base.{ℕ, zero, suc, ◌+◌, ◌/◌, ◌%◌, ◌<◌, ◌≡◌, refl, String, arith}
use fabric_byzantine.Int.{ℤ, pos, negsuc}

acc_below : (k n : ℕ) → n < k → Acc ◌<◌ n
acc_below zero n h = absurd (omega arith)
acc_below (suc k) n h = Acc.intro n λ m lt. acc_below k m (omega arith)

unfoldable pub lt_wf : WellFounded ◌<◌
unfolding acc_below
lt_wf = record { apply = λ n. acc_below (suc n) n (omega arith) }

pub tenth_lt : {n : ℕ} → 0 < n → n / 10 < n
tenth_lt h = omega arith

compare-lt : (a b : ℕ) → a < b → compare a b ≡ Ordering.lt
compare-lt a b h = ground arith

pub ascii : (n : ℕ) → n < 128 → IsScalar n
ascii n h = rw (compare-lt n 55296 (omega arith)) tt

-- The character of a decimal digit.
unfoldable pub digit : ℕ → Char
digit d = char (48 + d % 10) (ascii (48 + d % 10) (omega arith))

-- One digit a round, the last one first.
unfoldable pub emit : (n : ℕ) → Acc ◌<◌ n → String → String
emit n (Acc.intro _ smaller) out =
    dite (dec_lt 0 n)
      (λ h. emit (n / 10) (smaller (n / 10) (tenth_lt h)) (String.◌∷◌ (digit (n % 10)) out))
      (λ _. out)

unfoldable pub format_uint : ℕ → String
unfolding emit digit lt_wf dec_lt
format_uint zero = "0"
format_uint (suc n) = emit (suc n) (lt_wf.apply (suc n)) ""

unfoldable pub itoa : ℤ → String
unfolding format_uint
itoa (pos n) = format_uint n
itoa (negsuc n) = String.◌∷◌ "-" (format_uint (suc n))

itoa_min : itoa (negsuc 1041) ≡ "-1042"
unfolding itoa
itoa_min = refl
