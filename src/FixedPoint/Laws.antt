-- ===== src/FixedPoint/Laws.antt =====
-- Rounding and tax of fractional amounts.
use native.Mathlib.Nat.{
  mod-eq_of_lt, div-add-mod', mod-lt, div-le_self, one-le-pow, le-mul_of_pos_right,
}
use speedex_parallelize.Base.Bits.{bit_and-mask}
use speedex_parallelize.FixedPoint.{
  radix, from_integral, floor, ceil, tax_of, tax, tax_and_round, get_lowbits_mask, subtract,
}
use speedex_parallelize.Base.{
  ℕ, ◌+◌, ◌*◌, ◌/◌, ◌%◌, ◌^◌, ◌≤◌, ◌<◌, ◌≡◌, refl, ◌≢◌, inl, inr, arith, ◌==◌, Bool-cases,
}

-- For a 128-bit value, `floor` in whole units is at most the value, `ceil` at least the value,
-- and `ceil` at most one above `floor`. Both give back a number below 2 ^ 118 that
-- `from_integral` has converted.
pub floor-ceil :
    (v n : ℕ)
    → v < 2 ^ 128
    → n < 2 ^ 118
    → (floor v * 2 ^ radix ≤ v)
      × (v ≤ ceil v * 2 ^ radix)
      × (ceil v ≤ floor v + 1)
      × (floor (from_integral n) ≡ n)
      × (ceil (from_integral n) ≡ n)
unfolding floor ceil from_integral get_lowbits_mask
floor-ceil v n hv hn = ground (arith, bit_and-mask 10 v, bit_and-mask 10 (n * 2 ^ 10))

-- For a 128-bit value and a tax rate below 128, the tax is the value divided by 2 ^ tax_rate,
-- rounded up, and it is at most the value.
pub tax_of_lem :
    (v tax_rate : ℕ)
    → v < 2 ^ 128
    → tax_rate < 128
    → (v ≤ tax_of v tax_rate * 2 ^ tax_rate)
      × (tax_of v tax_rate * 2 ^ tax_rate < v + 2 ^ tax_rate)
      × (tax_of v tax_rate ≤ v)
unfolding tax_of get_lowbits_mask
tax_of_lem v tax_rate hv ht =
    let p = 2 ^ tax_rate in
    let pos : 1 ≤ p = one-le-pow tax_rate 2 (omega arith) in
    let masked = bit_and-mask tax_rate v in
    let split = div-add-mod' v p in
    let small = mod-lt v pos in
    let le = div-le_self v p in
    elim (Bool-cases (v % p == 0)) [
      | inl whole ↦
          let none_left : v % p ≡ 0 = ground arith in
          rw (tax_of, masked, whole) (omega arith, omega arith, omega arith)
      | inr part ↦
          let some_left : v % p ≢ 0 = ground arith in
          let more : v / p ≤ v / p * p = le-mul_of_pos_right (v / p) pos in
          let fits : (v / p + 1) % 2 ^ 128 ≡ v / p + 1 = mod-eq_of_lt (omega arith) in
          rw (tax_of, masked, part, fits) (omega arith, omega arith, omega arith)
    ]

-- For a 128-bit value and a tax rate below 128, the value after tax and the tax add up to the
-- value, and the rounded amount is the whole part of the value after tax, so at most the value.
pub tax_and_round_lem :
    (v tax_rate : ℕ)
    → v < 2 ^ 128
    → tax_rate < 128
    → (tax v tax_rate + tax_of v tax_rate ≡ v)
      × (tax_and_round v tax_rate ≡ floor (tax v tax_rate))
      × (tax_and_round v tax_rate * 2 ^ radix ≤ v)
unfolding tax tax_and_round floor subtract
tax_and_round_lem v tax_rate hv ht =
    let (_, _, le) = tax_of_lem v tax_rate hv ht in (omega arith, refl, omega arith)
