-- ===== src/Otlp/Clamp.antt =====
-- internal/otlp/clamp.go: saturating narrowings. A wider integer comes as the ℤ that it stands for,
-- an unsigned one as the ℕ.
use argvio.Prelude.{ℕ, ◌-◌, ◌^◌, ◌≤◌, ◌≡◌, ltb, arith, if◌then◌else◌}
use argvio.Prelude.Int.{ℤ, pos, negsuc, ltb_ℤ, ◌≤ℤ◌}

abbrev pub max_int16 : ℤ
max_int16 = pos (2 ^ 15 - 1)

abbrev pub min_int16 : ℤ
min_int16 = negsuc (2 ^ 15 - 1)

abbrev pub max_int32 : ℤ
max_int32 = pos (2 ^ 31 - 1)

abbrev pub min_int32 : ℤ
min_int32 = negsuc (2 ^ 31 - 1)

abbrev pub max_int64 : ℕ
max_int64 = 2 ^ 63 - 1

unfoldable pub clamp_int16 : ℤ → ℤ
clamp_int16 n = if ltb_ℤ max_int16 n then max_int16 else if ltb_ℤ n min_int16 then min_int16 else n

unfoldable pub clamp_int32 : ℤ → ℤ
clamp_int32 n = if ltb_ℤ max_int32 n then max_int32 else if ltb_ℤ n min_int32 then min_int32 else n

unfoldable pub clamp_int64 : ℕ → ℕ
clamp_int64 n = if ltb max_int64 n then max_int64 else n

-- Narrowing `f` to the range from `lo` to `hi` saturates: the result lies in the range, it is the
-- argument wherever that does, it does not move against the order, and no value of the range lies
-- between the argument and the result.
pub record Saturates (lo hi : ℤ) (f : ℤ → ℤ) : Type 0 where
  pub in_range : (n : ℤ) → (lo ≤ℤ f n) × (f n ≤ℤ hi)
  pub exact : (n : ℤ) → lo ≤ℤ n → n ≤ℤ hi → f n ≡ n
  pub mono : (m n : ℤ) → m ≤ℤ n → f m ≤ℤ f n
  pub nearest_above : (n m : ℤ) → m ≤ℤ hi → m ≤ℤ n → m ≤ℤ f n
  pub nearest_below : (n m : ℤ) → lo ≤ℤ m → n ≤ℤ m → f n ≤ℤ m

-- clampInt32 saturates at the bounds of int32 and never wraps, and so does clampInt16 at those of int16.
pub clamp-Saturates :
    Saturates min_int32 max_int32 clamp_int32 × Saturates min_int16 max_int16 clamp_int16
unfolding clamp_int32 clamp_int16
clamp-Saturates = (
  record {
    in_range = λ n. ground arith;
    exact = λ n l h. ground arith;
    mono = λ m n h. ground arith;
    nearest_above = λ n m l h. ground arith;
    nearest_below = λ n m l h. ground arith;
  },
  record {
    in_range = λ n. ground arith;
    exact = λ n l h. ground arith;
    mono = λ m n h. ground arith;
    nearest_above = λ n m l h. ground arith;
    nearest_below = λ n m l h. ground arith;
  },
)

pub clamp_int64-Saturates :
    (m n : ℕ)
    → (clamp_int64 n ≤ max_int64)
      × (n ≤ max_int64 → clamp_int64 n ≡ n)
      × (m ≤ n → clamp_int64 m ≤ clamp_int64 n)
unfolding clamp_int64
clamp_int64-Saturates m n = (ground arith, λ h. ground arith, λ h. ground arith)
