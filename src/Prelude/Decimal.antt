-- ===== src/Prelude/Decimal.antt =====
-- Go's `%d` and `%08x`: decimals of any number, and eight hexadecimal digits.
use Prim.Native.Nat.{ℕ, zero, suc, ◌+◌, ◌-◌, ◌*◌, ◌/◌, ◌%◌, ◌≤◌, ◌<◌}
use mathlib.Core.Path.{◌≡◌, refl, sym, ap, ◌∙◌}
use mathlib.Core.List.{[], ◌∷◌, ◌++◌, foldl, foldl-append}
use native.Mathlib.Omega.{arith}
use kubetraffic.Prelude.Tests.{ltb, if◌then◌else◌, Bool-cases}
use kubetraffic.Prelude.Lists.{All, All-append}
use kubetraffic.Prelude.Text.{Str, bytes, is_nil}
use kubetraffic.Prelude.Int.{ℤ, pos, negsuc}
use mathlib.Core.Logic.{inl, inr}
use mathlib.Core.Bool.{false}

decimal_fuel : ℕ → ℕ → Str
decimal_fuel zero n = []
decimal_fuel (suc f) n =
    let rest = decimal_fuel f (n / 10) in
    if ltb n 10 then (48 + n) ∷ [] else rest ++ (48 + n % 10) ∷ []

-- A number has fewer digits than its successor, so the fuel suffices.
unfoldable pub decimal : ℕ → Str
unfolding decimal_fuel
decimal n = decimal_fuel (suc n) n

unfoldable pub format_int : ℤ → Str
unfolding decimal
format_int (pos n) = decimal n
format_int (negsuc n) = bytes "-" ++ decimal (suc n)

abbrev pub hex_digit : ℕ → ℕ
hex_digit d = if ltb d 10 then 48 + d else 87 + d

unfoldable pub hex_digits : ℕ → ℕ → Str
hex_digits zero n = []
hex_digits (suc k) n = hex_digits k (n / 16) ++ hex_digit (n % 16) ∷ []

abbrev step_digit : ℕ → ℕ → ℕ
step_digit acc c = acc * 10 + (c - 48)

-- The number that decimal digits stand for.
pub parse_decimal : Str → ℕ
parse_decimal = foldl step_digit 0

parse-decimal_fuel : (f n : ℕ) → n < f → parse_decimal (decimal_fuel f n) ≡ n
unfolding parse_decimal decimal_fuel
parse-decimal_fuel zero n h = absurd (omega arith)
parse-decimal_fuel (suc f) n h = elim (Bool-cases (ltb n 10)) [
  | inl small ↦ rw small (ground arith)
  | inr large ↦
      rw (large, foldl-append) (rw (parse-decimal_fuel f (n / 10) (ground arith)) (ground arith))
]

pub parse-decimal : (n : ℕ) → parse_decimal (decimal n) ≡ n
unfolding decimal
parse-decimal n = parse-decimal_fuel (suc n) n (omega arith)

pub decimal_injective : (m n : ℕ) → decimal m ≡ decimal n → m ≡ n
decimal_injective m n e = sym (parse-decimal m) ∙ (ap parse_decimal e ∙ parse-decimal n)

abbrev pub IsDigit : ℕ → Type 0
IsDigit c = (48 ≤ c) × (c ≤ 57)

decimal_fuel-IsDigit : (f n : ℕ) → All IsDigit (decimal_fuel f n)
unfolding decimal_fuel
decimal_fuel-IsDigit zero n = tt
decimal_fuel-IsDigit (suc f) n = elim (Bool-cases (ltb n 10)) [
  | inl small ↦ rw small (ground arith)
  | inr large ↦ rw large (All-append IsDigit _ _ (decimal_fuel-IsDigit f (n / 10)) (omega arith))
]

pub decimal-IsDigit : (n : ℕ) → All IsDigit (decimal n)
unfolding decimal
decimal-IsDigit n = decimal_fuel-IsDigit (suc n) n

decimal_test : decimal 8080 ≡ bytes "8080"
unfolding decimal
decimal_test = refl

hex_test : hex_digits 8 0x00ab12ff ≡ bytes "00ab12ff"
unfolding hex_digits
hex_test = refl

is_nil-append_one : (s : Str) (c : ℕ) → is_nil (s ++ c ∷ []) ≡ false
is_nil-append_one [] c = refl
is_nil-append_one (x ∷ s) c = refl

pub is_nil-decimal : (n : ℕ) → is_nil (decimal n) ≡ false
unfolding decimal decimal_fuel
is_nil-decimal n = elim (Bool-cases (ltb n 10)) [
  | inl small ↦ rw small refl
  | inr large ↦ rw large (is_nil-append_one _ _)
]
