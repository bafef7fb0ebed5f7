-- ===== src/SampleApp/Floats.antt =====
-- Go's float64 and the standard library's conversions, as the sample application uses them. The
-- arithmetic is a parameter; `OrderLaws` has the laws of IEEE 754 comparison that theorems rest on,
-- all of which hold for NaN too.
use kubetraffic.Prelude.{ℕ, ◌≤◌, ◌≡◌, Bool, true, false, Option, Str}
use kubetraffic.Prelude.Int.{ℤ}

pub record Floats (F : Type 0) : Type 0 where
  -- The float64 nearest to a number of thousandths: the literals of the source.
  pub milli : ℕ → F
  -- `a < b`, `a <= b` and `a + b`
  pub lt : F → F → Bool
  pub le : F → F → Bool
  pub add : F → F → F
  -- `strconv.ParseFloat(v, 64)`, none where it fails.
  pub parse_float : Str → Option F
  -- `strconv.FormatFloat(v, 'g', -1, 64)`
  pub format_float : F → Str
  -- `Duration.Seconds()`
  pub seconds : ℤ → F

pub record OrderLaws {F : Type 0} (fl : Floats F) : Type 0 where
  -- Neither 0 < 0, 1 < 1 nor 1 < 0.
  pub zero_irrefl : fl.lt (fl.milli 0) (fl.milli 0) ≡ false
  pub one_irrefl : fl.lt (fl.milli 1000) (fl.milli 1000) ≡ false
  pub one_zero : fl.lt (fl.milli 1000) (fl.milli 0) ≡ false
  pub le_trans : (a b c : F) → fl.le a b ≡ true → fl.le b c ≡ true → fl.le a c ≡ true
  -- The literals are in the order of the numbers that they stand for.
  pub milli_mono : (m n : ℕ) → m ≤ n → fl.le (fl.milli m) (fl.milli n) ≡ true
