-- ===== src/Price.antt =====
-- implementation/src/price_utils.h: prices are fixed-point numbers of 48 bits, 24 of them behind the
-- point, in a `uint64`; products are taken in 128 bits. The conversions from and to `double` are not
-- modelled.
pub mod BigEndian
pub mod Laws
pub mod Multiply
use speedex_parallelize.Base.{
  ℕ, ◌+◌, ◌-◌, ◌*◌, ◌/◌, ◌%◌, ◌^◌, Bool, ◌&&◌, not, Option, none, some, ltb, leb, ◌==◌,
  if◌then◌else◌, sub64,
}
use Prim.Native.Nat.{bit_and}

abbrev pub price_radix : ℕ
price_radix = 24

abbrev pub price_bit_len : ℕ
price_bit_len = 48

abbrev pub price_bytes : ℕ
price_bytes = 6

abbrev pub price_one : ℕ
price_one = 2 ^ 24

abbrev pub price_max : ℕ
price_max = 2 ^ 48 - 1

abbrev pub u128 : ℕ → ℕ
u128 n = n % 2 ^ 128

unfoldable pub impose_bounds : ℕ → ℕ
impose_bounds val = if ltb price_max val then price_max else if val == 0 then 1 else val

unfoldable pub is_valid_price : ℕ → Bool
is_valid_price price = leb price price_max && not (price == 0)

-- The shift count is a `uint8_t` below 64 at every call.
unfoldable pub smooth_mult : ℕ → ℕ → ℕ
smooth_mult price mult = sub64 price (price / 2 ^ mult)

unfoldable pub a_over_b_leq_c : ℕ → ℕ → ℕ → Bool
a_over_b_leq_c a b c = leb (u128 (a * 2 ^ price_radix)) (u128 (b * c))

unfoldable pub a_over_b_lt_c : ℕ → ℕ → ℕ → Bool
a_over_b_lt_c a b c = ltb (u128 (a * 2 ^ price_radix)) (u128 (b * c))

-- `none` is the division by zero.
unfoldable pub wide_multiply_val_by_a_over_b : ℕ → ℕ → ℕ → Option ℕ
wide_multiply_val_by_a_over_b value a b =
    let modulo = u128 (value / b * a) in
    let remainder = u128 (value % b * a) / b in
    if b == 0 then none else some (u128 (modulo + remainder))
