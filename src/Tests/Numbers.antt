-- ===== src/Tests/Numbers.antt =====
-- Concrete prices, bytes and fractional amounts.
use speedex_parallelize.Base.{
  ◌+◌, ◌*◌, ◌/◌, ◌^◌, ◌≤◌, ◌<◌, ◌≡◌, refl, ◌↔◌, true, some, [], ◌∷◌, arith, ◌==◌,
}
use speedex_parallelize.Price.{
  price_radix, impose_bounds, is_valid_price, a_over_b_leq_c, a_over_b_lt_c,
  wide_multiply_val_by_a_over_b,
}
use speedex_parallelize.Price.Laws.{impose_bounds_lem, a_over_b_lem}
use speedex_parallelize.Price.Multiply.{wide_multiply_lem}
use speedex_parallelize.Price.BigEndian.{
  write_bytes, read_unsigned_big_endian, write_unsigned_big_endian, read_price_big_endian,
  write_price_big_endian, read-write_unsigned_big_endian, read-write_price_big_endian, LexLt,
  write_unsigned_big_endian-LexLt,
}
use speedex_parallelize.FixedPoint.{radix, from_integral, floor, ceil, tax_of, tax, tax_and_round}
use speedex_parallelize.FixedPoint.Laws.{floor-ceil, tax_of_lem, tax_and_round_lem}

impose_bounds_lem_example :
    (is_valid_price (impose_bounds 0) ≡ true)
    × (is_valid_price 0 ≡ (impose_bounds 0 == 0))
    × (impose_bounds 0 ≤ impose_bounds (2 ^ 50))
impose_bounds_lem_example = impose_bounds_lem 0 (2 ^ 50) (omega arith)

a_over_b_lem_example :
    ((a_over_b_leq_c 3 4 (2 ^ 23) ≡ true) ↔ (3 * 2 ^ price_radix ≤ 4 * 2 ^ 23))
    × ((a_over_b_lt_c 3 4 (2 ^ 23) ≡ true) ↔ (3 * 2 ^ price_radix < 4 * 2 ^ 23))
a_over_b_lem_example = a_over_b_lem 3 4 (2 ^ 23) (omega arith) (omega arith) (omega arith)

wide_multiply_lem_example : wide_multiply_val_by_a_over_b (2 ^ 80) (2 ^ 47) 3 ≡ some (2 ^ 127 / 3)
wide_multiply_lem_example =
    wide_multiply_lem (2 ^ 80) (2 ^ 47) 3 (omega arith) (omega arith) (omega arith) (omega arith)

read-write_unsigned_big_endian_example :
    read_unsigned_big_endian 8 (write_unsigned_big_endian 8 258) ≡ 258
read-write_unsigned_big_endian_example = read-write_unsigned_big_endian 8 258 (omega arith)

bytes_of_258 : write_unsigned_big_endian 4 258 ≡ (0 ∷ 0 ∷ 1 ∷ 2 ∷ [])
unfolding write_unsigned_big_endian write_bytes
bytes_of_258 = refl

read-write_price_big_endian_example :
    read_price_big_endian (write_price_big_endian (2 ^ 24)) ≡ 2 ^ 24
read-write_price_big_endian_example = read-write_price_big_endian (2 ^ 24) (omega arith)

write_unsigned_big_endian-LexLt_example :
    LexLt (write_unsigned_big_endian 8 255) (write_unsigned_big_endian 8 256)
write_unsigned_big_endian-LexLt_example =
    write_unsigned_big_endian-LexLt 8 255 256 (omega arith) (omega arith)

floor-ceil_example :
    (floor 1500 * 2 ^ radix ≤ 1500)
    × (1500 ≤ ceil 1500 * 2 ^ radix)
    × (ceil 1500 ≤ floor 1500 + 1)
    × (floor (from_integral 9) ≡ 9)
    × (ceil (from_integral 9) ≡ 9)
floor-ceil_example = floor-ceil 1500 9 (omega arith) (omega arith)

tax_of_lem_example :
    (1500 ≤ tax_of 1500 10 * 2 ^ 10)
    × (tax_of 1500 10 * 2 ^ 10 < 1500 + 2 ^ 10)
    × (tax_of 1500 10 ≤ 1500)
tax_of_lem_example = tax_of_lem 1500 10 (omega arith) (omega arith)

tax_and_round_lem_example :
    (tax 15000 10 + tax_of 15000 10 ≡ 15000)
    × (tax_and_round 15000 10 ≡ floor (tax 15000 10))
    × (tax_and_round 15000 10 * 2 ^ radix ≤ 15000)
tax_and_round_lem_example = tax_and_round_lem 15000 10 (omega arith) (omega arith)
