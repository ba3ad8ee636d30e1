-- ===== src/Double.antt =====
-- The products and quotients of non-negative doubles whose integer part the code takes: IEEE 754
-- with 53 bits, rounded to the nearest, ties to even. A double is m / 2 ^ s.
use entity_developer_dashboa.Prelude.{
  ℕ, zero, suc, ◌+◌, ◌-◌, ◌*◌, ◌/◌, ◌%◌, ◌^◌, ltb, leb, ◌<◌, ◌≡◌, arith, ◌==◌, if◌then◌else◌,
}

-- 2 ^ 52, the least mantissa, and 2 ^ 53
abbrev pub min_mantissa : ℕ
min_mantissa = 4503599627370496

abbrev pub mantissa_limit : ℕ
mantissa_limit = 9007199254740992

-- a / d to the nearest integer, ties to even
unfoldable pub round_div : ℕ → ℕ → ℕ
round_div a d =
    let q = a / d in
    let r = 2 * (a % d) in if ltb r d then q else if ltb d r then q + 1 else q + q % 2

-- The least k with a < limit * 2 ^ k, found within the fuel.
excess : ℕ → ℕ → ℕ → ℕ
excess zero a limit = 0
excess (suc fuel) a limit =
    let rest = suc (excess fuel a (2 * limit)) in if ltb a limit then 0 else rest

-- An integer rounded to 53 bits. The fuel covers every product of two mantissas.
unfoldable pub round_53 : ℕ → ℕ
unfolding excess round_div
round_53 a = let k = excess 64 a mantissa_limit in round_div a (2 ^ k) * 2 ^ k

-- A product that is below 2 ^ 53 is exact.
pub round_53-exact : (a : ℕ) → a < mantissa_limit → round_53 a ≡ a
unfolding round_53 excess round_div
round_53-exact a h = ground arith

-- Math.floor of the product of m / 2 ^ s and n
unfoldable pub floor_product : ℕ → ℕ → ℕ → ℕ
unfolding round_53
floor_product m s n = round_53 (m * n) / 2 ^ s

-- Math.ceil of the product of m / 2 ^ s and n
unfoldable pub ceil_product : ℕ → ℕ → ℕ → ℕ
unfolding round_53
ceil_product m s n = (round_53 (m * n) + (2 ^ s - 1)) / 2 ^ s

-- How far a quotient has to be scaled up to fill the mantissa. The fuel covers all quotients of
-- integers below 2 ^ 53.
scale : ℕ → ℕ → ℕ → ℕ
scale zero n d = 0
scale (suc fuel) n d =
    let rest = suc (scale fuel (2 * n) d) in if leb (d * min_mantissa) n then 0 else rest

-- Math.floor((used / total) * 100)
unfoldable pub percentage : ℕ → ℕ → ℕ
unfolding scale floor_product round_div
percentage used total =
    if used == 0
    then 0
    else (let s = scale 106 used total in floor_product (round_div (used * 2 ^ s) total) s 100)

-- Math.floor(total * 0.4); the double 0.4 is 7205759403792794 / 2 ^ 54
unfoldable pub two_fifths : ℕ → ℕ
unfolding floor_product
two_fifths total = floor_product 7205759403792794 54 total
