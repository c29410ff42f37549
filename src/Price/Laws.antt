-- ===== src/Price/Laws.antt =====
-- Bounds and comparisons of prices.
use native.Mathlib.Nat.{mul-le-mul, mod-eq_of_lt}
use speedex_parallelize.Price.{
  price_radix, impose_bounds, is_valid_price, a_over_b_leq_c, a_over_b_lt_c,
}
use speedex_parallelize.Base.{ℕ, ◌-◌, ◌*◌, ◌%◌, ◌^◌, ◌≤◌, ◌<◌, ◌≡◌, ◌↔◌, true, arith, ◌==◌, IsWord}

-- `impose_bounds` makes a valid price of any number, leaves alone exactly the numbers that are
-- valid prices, and keeps the order of two numbers.
pub impose_bounds_lem :
    (v w : ℕ)
    → v ≤ w
    → (is_valid_price (impose_bounds v) ≡ true)
      × (is_valid_price v ≡ (impose_bounds v == v))
      × (impose_bounds v ≤ impose_bounds w)
unfolding impose_bounds is_valid_price
impose_bounds_lem v w h = (ground arith, ground arith, ground arith)

pub product_fits : (b c : ℕ) → IsWord b → IsWord c → b * c < 2 ^ 128
product_fits b c hb hc =
    let b_le : b ≤ 2 ^ 64 - 1 = omega arith in
    let c_le : c ≤ 2 ^ 64 - 1 = omega arith in
    let h : b * c ≤ (2 ^ 64 - 1) * (2 ^ 64 - 1) = mul-le-mul b_le c_le in omega (arith, h)

-- On 64-bit words the comparisons of a / b with c are exact: `a / b <= c / 2 ^ 24` is decided
-- without a division and without overflow, and the strict one likewise.
pub a_over_b_lem :
    (a b c : ℕ)
    → IsWord a
    → IsWord b
    → IsWord c
    → ((a_over_b_leq_c a b c ≡ true) ↔ (a * 2 ^ price_radix ≤ b * c))
      × ((a_over_b_lt_c a b c ≡ true) ↔ (a * 2 ^ price_radix < b * c))
unfolding a_over_b_leq_c a_over_b_lt_c
a_over_b_lem a b c ha hb hc =
    let right : b * c % 2 ^ 128 ≡ b * c = mod-eq_of_lt (product_fits b c hb hc) in
    let left : a * 2 ^ 24 % 2 ^ 128 ≡ a * 2 ^ 24 = mod-eq_of_lt (omega arith) in
    rw (left, right) (ground arith, ground arith)
