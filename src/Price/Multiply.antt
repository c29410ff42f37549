-- ===== src/Price/Multiply.antt =====
-- `wide_multiply_val_by_a_over_b`: a value times a ratio of prices, split so that no product needs
-- more than 128 bits.
use native.Mathlib.Nat.{mod-eq_of_lt, div-add-mod', mod-lt, add-mul-div_right}
use speedex_parallelize.Price.{wide_multiply_val_by_a_over_b}
use speedex_parallelize.Price.Laws.{product_fits}
use speedex_parallelize.Base.{ℕ, ◌+◌, ◌*◌, ◌/◌, ◌%◌, ◌^◌, ◌<◌, ◌≡◌, ap, some, arith, IsWord}

split_product : (value a b : ℕ) → 0 < b → value / b * a + value % b * a / b ≡ value * a / b
split_product value a b pos =
    let q = value / b in
    let r = value % b in
    let whole : r * a + q * a * b ≡ value * a =
      omega (arith, ap (λ (t : ℕ). t * a) (div-add-mod' value b)) in
    rw (← whole, add-mul-div_right (r * a) (q * a) pos) (omega arith)

-- If both prices are 64-bit words, the divisor is not 0, and the true quotient fits 128 bits, the
-- result is `value * a / b`, rounded down once.
pub wide_multiply_lem :
    (value a b : ℕ)
    → 0 < b
    → IsWord a
    → IsWord b
    → value * a / b < 2 ^ 128
    → wide_multiply_val_by_a_over_b value a b ≡ some (value * a / b)
unfolding wide_multiply_val_by_a_over_b
wide_multiply_lem value a b pos ha hb fits =
    let e = split_product value a b pos in
    let r_word : IsWord (value % b) = omega (arith, mod-lt value pos) in
    let high : value / b * a % 2 ^ 128 ≡ value / b * a = mod-eq_of_lt (omega arith) in
    let low : value % b * a % 2 ^ 128 ≡ value % b * a =
      mod-eq_of_lt (product_fits (value % b) a r_word ha) in
    let sum : (value / b * a + value % b * a / b) % 2 ^ 128 ≡ value * a / b =
      rw e (mod-eq_of_lt fits) in
    rw (wide_multiply_val_by_a_over_b, high, low, sum) (ground arith)
