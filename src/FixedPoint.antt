-- ===== src/FixedPoint.antt =====
-- implementation/src/fixed_point_value.h: `FractionalAsset`, an amount with 10 bits behind the point
-- in 128 bits; a value is given by its raw word. The conversions from and to `double` are not
-- modelled.
pub mod Laws
use speedex_parallelize.Base.{ℕ, ◌+◌, ◌-◌, ◌*◌, ◌/◌, ◌%◌, ◌^◌, ◌==◌, if◌then◌else◌}
use Prim.Native.Nat.{bit_and}

abbrev pub radix : ℕ
radix = 10

abbrev pub u128 : ℕ → ℕ
u128 n = n % 2 ^ 128

-- `(((value_t) 1) << query_radix) - 1`.
unfoldable pub get_lowbits_mask : ℕ → ℕ
get_lowbits_mask query_radix = 2 ^ query_radix - 1

unfoldable pub from_integral : ℕ → ℕ
from_integral value = u128 (value * 2 ^ radix)

-- `operator+`, `operator-` and `operator*` at the same radix.
unfoldable pub add : ℕ → ℕ → ℕ
add a b = u128 (a + b)

unfoldable pub subtract : ℕ → ℕ → ℕ
subtract a b = u128 (a + 2 ^ 128 - b)

unfoldable pub multiply : ℕ → ℕ → ℕ
multiply a n = u128 (a * n)

unfoldable pub floor : ℕ → ℕ
floor value = value / 2 ^ radix

unfoldable pub ceil : ℕ → ℕ
unfolding floor get_lowbits_mask
ceil value = u128 (floor value + (if bit_and value (get_lowbits_mask radix) == 0 then 0 else 1))

-- The tax of `tax` and `tax_and_round`: a share of 1 / 2 ^ tax_rate, rounded up.
unfoldable pub tax_of : ℕ → ℕ → ℕ
unfolding get_lowbits_mask
tax_of value tax_rate =
    let tax = value / 2 ^ tax_rate in
    if bit_and value (get_lowbits_mask tax_rate) == 0 then tax else u128 (tax + 1)

unfoldable pub tax : ℕ → ℕ → ℕ
tax value tax_rate = subtract value (tax_of value tax_rate)

unfoldable pub tax_and_round : ℕ → ℕ → ℕ
tax_and_round value tax_rate = subtract value (tax_of value tax_rate) / 2 ^ radix
