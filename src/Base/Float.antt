-- ===== src/Base/Float.antt =====
-- The float64 arithmetic that ramp ratios and shares use. A magnitude counts units of 2⁻¹⁰⁷⁴, the
-- least positive float64, so every finite value is exact; an infinity is the magnitude 2²⁰⁹⁸.
use shunt.Base.Tests.{ltb, leb, ◌==◌, if◌then◌else◌}
use Prim.Native.Nat.{ℕ, zero, suc, ◌+◌, ◌*◌, ◌/◌, ◌%◌, ◌^◌}
use mathlib.Core.Bool.{Bool, true, false}

pub data Float64 : Type 0 where
  nan : Float64
  neg : ℕ → Float64
  pos : ℕ → Float64

-- The units in 1.
abbrev pub unit : ℕ
unit = 2 ^ 1074

-- a == b
unfoldable pub feq : Float64 → Float64 → Bool
feq nan b = false
feq (neg a) nan = false
feq (neg a) (neg b) = a == b
feq (neg a) (pos b) = a + b == 0
feq (pos a) nan = false
feq (pos a) (neg b) = a + b == 0
feq (pos a) (pos b) = a == b

-- a < b
unfoldable pub flt : Float64 → Float64 → Bool
flt nan b = false
flt (neg a) nan = false
flt (neg a) (neg b) = ltb b a
flt (neg a) (pos b) = ltb 0 (a + b)
flt (pos a) nan = false
flt (pos a) (neg b) = false
flt (pos a) (pos b) = ltb a b

unfoldable pub is_nan : Float64 → Bool
is_nan nan = true
is_nan (neg a) = false
is_nan (pos a) = false

-- a == 0, a <= 0 and a >= 1
unfoldable pub is_zero : Float64 → Bool
is_zero nan = false
is_zero (neg a) = a == 0
is_zero (pos a) = a == 0

unfoldable pub le_zero : Float64 → Bool
le_zero nan = false
le_zero (neg a) = true
le_zero (pos a) = a == 0

unfoldable pub ge_one : Float64 → Bool
ge_one nan = false
ge_one (neg a) = false
ge_one (pos a) = leb unit a

-- The magnitude of a positive number.
unfoldable pub magnitude : Float64 → ℕ
magnitude nan = 0
magnitude (neg a) = 0
magnitude (pos a) = a

-- The multiple of 2 ^ e nearest to x, the even one of two.
round_at : ℕ → ℕ → ℕ
round_at e x =
    let q = x / 2 ^ e in
    let r = x % 2 ^ e in
    if ltb (2 * r) (2 ^ e)
    then q * 2 ^ e
    else if ltb (2 ^ e) (2 * r)
    then (q + 1) * 2 ^ e
    else (q + q % 2) * 2 ^ e

-- The least exponent from e on at which x has at most 53 bits, within fuel steps.
exponent : ℕ → ℕ → ℕ → ℕ
exponent zero e x = e
exponent (suc fuel) e x =
    let rest = exponent fuel (e + 1) x in if ltb x (2 ^ (53 + e)) then e else rest

-- An exact result rounded to a float64: 53 significant bits, to nearest, ties to even. The fuel
-- suffices for every x below 2 ^ 4149, and a product of a number below 1 by one below 2 ^ 65 is
-- below 2 ^ 1139 units.
unfoldable pub round53 : ℕ → ℕ
unfolding round_at exponent
round53 x = round_at (exponent 4096 0 x) x
