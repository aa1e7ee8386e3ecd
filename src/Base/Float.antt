-- ===== src/Base/Float.antt =====
-- Python floats that are not negative: IEEE 754 doubles, as multiples of the smallest one, 2^-1074.
-- Every operation rounds the exact result to 53 significant bits, ties to even. Overflow is not
-- modelled: the program's values stay far below 2^1024.
use Prim.Native.Nat.{ℕ, ◌≤◌, zero, suc, ◌+◌, ◌-◌, ◌*◌, ◌/◌, ◌%◌, ◌^◌}
use mathlib.Core.Path.{◌≡◌, refl}
use mathlib.Core.Bool.{Bool, false}
use native.Mathlib.Nat.{div-le_of_le-mul}
use native.Mathlib.Omega.{arith}
use license_manager.Base.Tests.{◌==◌, ltb, leb, if◌then◌else◌}

abbrev pub Double : Type 0
Double = ℕ

-- The number of units in 1.0.
pub one : ℕ
one = 2 ^ 1074

-- `bit_length`, for numbers below 2^fuel.
bit_length : ℕ → ℕ → ℕ
bit_length zero n = 0
bit_length (suc fuel) n = let rest = bit_length fuel (n / 2) in if n == 0 then 0 else suc rest

-- The double nearest to `numerator / denominator` units.
pub nearest : ℕ → ℕ → Double
unfolding bit_length
nearest numerator denominator =
    let shift = bit_length 2200 (numerator / denominator) - 53 in
    let step = denominator * 2 ^ shift in
    let low = numerator / step in
    let rest = numerator % step in
    (if ltb (2 * rest) step then low else if ltb step (2 * rest) then low + 1 else low + low % 2)
    * 2 ^ shift

module _ where
  unfoldable pub float : ℕ → Double
  unfolding nearest one
  float n = nearest (n * one) 1

  unfoldable pub divide : Double → Double → Double
  unfolding nearest one
  divide x y = nearest (x * one) y

  unfoldable pub multiply : Double → Double → Double
  unfolding nearest one
  multiply x y = nearest (x * y) one

  -- The difference where it is not negative, which is all that the program computes.
  unfoldable pub subtract : Double → Double → Double
  unfolding nearest
  subtract x y = nearest (x - y) 1

  -- `math.ceil`
  unfoldable pub ceil : Double → ℕ
  unfolding one
  ceil x = (x + one - 1) / one

  -- `int`
  unfoldable pub truncate : Double → ℕ
  unfolding one
  truncate x = x / one

-- Python compares a float with an int exactly.
unfoldable pub exceeds : Double → ℕ → Bool
exceeds x n = ltb (one * n) x

-- Whether a double is at least a number of quarters
unfoldable pub has_quarters : Double → ℕ → Bool
unfolding one
has_quarters x n = leb (one * n) (x * 4)

-- 0.07 * 100 is a little more than 7 in doubles, so its ceiling is 8.
ceil_of_seven_percent : ceil (multiply (float 100) (divide (float 7) (float 100))) ≡ 8
unfolding ceil multiply divide float
ceil_of_seven_percent = refl

-- 0.29 * 100 is a little less than 29, so it is cut to 28.
truncate_of_29_percent : truncate (multiply (float 100) (divide (float 29) (float 100))) ≡ 28
unfolding truncate multiply divide float
truncate_of_29_percent = refl

not_ltb : (a b : ℕ) → ltb a b ≡ false → b ≤ a
not_ltb a b h = ground arith

-- The truncation of a double that does not exceed a number.
pub truncate_le : (x : Double) (n : ℕ) → exceeds x n ≡ false → truncate x ≤ n
unfolding truncate exceeds
truncate_le x n h = div-le_of_le-mul one (not_ltb (one * n) x h)
