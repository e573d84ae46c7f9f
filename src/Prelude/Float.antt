-- ===== src/Prelude/Float.antt =====
-- Go's float64 as its IEEE 754 bit pattern: a sign bit, eleven exponent bits and fifty-two of
-- fraction. Only the tests that the code makes are defined; no arithmetic is.
use argvio.Prelude.{ℕ, ◌-◌, ◌*◌, ◌^◌, Bool, not, ◌&&◌, ltb, ◌==◌, if◌then◌else◌}
use argvio.Prelude.Int.{ℤ, pos, negsuc, leb_ℤ}

abbrev pub Float64 : Type 0
Float64 = ℕ

-- The bits below the sign.
abbrev pub magnitude : Float64 → ℕ
magnitude b = if ltb b (2 ^ 63) then b else b - 2 ^ 63

abbrev pub is_negative_bit : Float64 → Bool
is_negative_bit b = not (ltb b (2 ^ 63))

-- All exponent bits set and no fraction bits: the pattern of an infinity, less its sign.
abbrev pub infinity_bits : ℕ
infinity_bits = 2047 * 2 ^ 52

-- math.IsNaN(x)
unfoldable pub is_nan : Float64 → Bool
is_nan b = ltb infinity_bits (magnitude b)

-- math.IsInf(x, 0) and math.IsInf(x, 1)
unfoldable pub is_inf : Float64 → Bool
is_inf b = magnitude b == infinity_bits

unfoldable pub is_pos_inf : Float64 → Bool
is_pos_inf b = b == infinity_bits

-- The place of a number that is not NaN on the line; both zeros lie at 0.
unfoldable pub float_key : Float64 → ℤ
float_key b =
    if is_negative_bit b
    then (if magnitude b == 0 then pos 0 else negsuc (magnitude b - 1))
    else pos b

-- x <= y, x == y: false when either is NaN.
unfoldable pub float_le : Float64 → Float64 → Bool
float_le x y = not (is_nan x) && not (is_nan y) && leb_ℤ (float_key x) (float_key y)

unfoldable pub float_eq : Float64 → Float64 → Bool
float_eq x y = float_le x y && float_le y x

-- The values that a duration or a count may have: neither NaN nor infinite nor below zero.
unfoldable pub is_finite : Float64 → Bool
is_finite b = not (is_nan b) && not (is_inf b)
