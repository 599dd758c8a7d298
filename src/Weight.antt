-- ===== src/Weight.antt =====
-- Package weights: the non-negative doubles of Python's `float`, as whole multiples of 2^-1074 kg,
-- the smallest positive double. A sum is the exact sum rounded to 53 significant bits, ties to
-- even, and from 2^1024 kg on it is infinity.
use fleet_flow.Base.{ℕ, zero, suc, ◌+◌, ◌*◌, ◌/◌, ◌^◌, ltb, if◌then◌else◌, round_half_even}

abbrev pub Weight : Type 0
Weight = ℕ

-- How many low bits `n` has beyond the 53 of a double. A sum of two doubles is below 2^2099, so
-- 2047 rounds are enough.
excess_bits : ℕ → ℕ → ℕ
excess_bits zero n = 0
excess_bits (suc fuel) n =
    let rest = suc (excess_bits fuel (n / 2)) in if ltb n (2 ^ 53) then 0 else rest

unfoldable pub infinity : ℕ
infinity = 2 ^ 2098

round_double : ℕ → ℕ
unfolding excess_bits round_half_even infinity
round_double n =
    let unit = 2 ^ excess_bits 2047 n in
    let rounded = round_half_even n unit * unit in
    if ltb rounded infinity then rounded else infinity

-- `a + b` on weights
unfoldable pub add_weight : Weight → Weight → Weight
unfolding round_double
add_weight a b = round_double (a + b)

-- A whole number of kilograms, as it is compared with a weight. Python compares an `int` with a
-- `float` exactly.
unfoldable pub kilograms : ℕ → Weight
kilograms n = n * 2 ^ 1074
