-- ===== src/Clearing/Laws.antt =====
-- The value that a clearing pays out, at the prices of the block (Clearing).
use native.Mathlib.Nat.{le_trans, mul-le-mul_right, div-mul-le_self, mod-eq_of_lt, mod-le}
use speedex_parallelize.Xdr.{Offer}
use speedex_parallelize.Price.Multiply.{wide_multiply_lem}
use speedex_parallelize.FixedPoint.{from_integral, tax_and_round, ceil, floor, get_lowbits_mask}
use speedex_parallelize.FixedPoint.Laws.{tax_and_round_lem}
use speedex_parallelize.Base.Bits.{bit_and-mask}
use speedex_parallelize.Clearing.{Transfer, PartialClearing, clear_offer_full, clear_offer_partial}
use speedex_parallelize.Base.{
  ℕ, ◌+◌, ◌-◌, ◌*◌, ◌/◌, ◌%◌, ◌^◌, ◌≤◌, ◌<◌, ◌≡◌, refl, some, arith, u64, IsWord, IsNonneg,
}

-- What the value of a payment is bounded by, over the raw amounts.
paid_le :
    (raw_sold paid raw sell buy : ℕ)
    → paid * 2 ^ 10 ≤ raw
    → raw ≡ raw_sold * sell / buy
    → paid * 2 ^ 10 * buy ≤ raw_sold * sell
paid_le raw_sold paid raw sell buy h e =
    le_trans (mul-le-mul_right buy h) (rw e (div-mul-le_self (raw_sold * sell) buy))

ceil_lem :
    (v : ℕ) → v ≤ (2 ^ 63 - 1) * 2 ^ 10 → (v ≤ ceil v * 2 ^ 10) × (ceil v * 2 ^ 10 < v + 2 ^ 10)
unfolding ceil floor get_lowbits_mask
ceil_lem v h = ground (arith, bit_and-mask 10 v)

-- Take an offer whose amount is an `int64` that is not negative, prices that are 64-bit words,
-- the buy price not 0, a tax rate below 128, and a quotient that fits 128 bits. Then clearing the
-- offer in full returns, it pays in the buy asset of the offer, and the value paid, at the buy
-- price, is at most the value of the offer, at the sell price.
pub clear_offer_full_lem :
    (offer : Offer) (sell_price buy_price tax_rate : ℕ)
    → IsNonneg offer.amount
    → IsWord sell_price
    → IsWord buy_price
    → 0 < buy_price
    → tax_rate < 128
    → offer.amount * 2 ^ 10 * sell_price / buy_price < 2 ^ 128
    → (t : Transfer) × (clear_offer_full offer sell_price buy_price tax_rate ≡ some t)
      × (t.asset ≡ offer.category.buy_asset)
      × (t.amount * buy_price ≤ offer.amount * sell_price)
unfolding from_integral clear_offer_full
clear_offer_full_lem offer sell buy tax_rate hn hs hb pos ht fits =
    let amount : from_integral offer.amount ≡ offer.amount * 2 ^ 10 = omega arith in
    let sold : ℕ = offer.amount * 2 ^ 10 in
    let raw : ℕ = sold * sell / buy in
    let paid : ℕ = tax_and_round raw tax_rate in
    let paid_fits = (tax_and_round_lem raw tax_rate fits ht).2 in
    let value : paid * 2 ^ 10 * buy ≤ sold * sell = paid_le sold paid raw sell buy paid_fits refl in
    let whole : paid * buy ≤ offer.amount * sell = omega arith in
    (
      record { asset = offer.category.buy_asset; amount = u64 paid },
      rw (clear_offer_full, amount, wide_multiply_lem sold sell buy pos hs hb fits),
      refl,
      le_trans (mul-le-mul_right buy (mod-le paid (2 ^ 64))) whole,
    )

-- Take a fractional amount to clear that is at most 2 ^ 63 - 1 whole units, prices that are
-- 64-bit words, the buy price not 0, a tax rate below 128, and a quotient that fits 128 bits.
-- Then a partial clearing returns, it reports the amount that it transfers of the buy asset, it
-- takes the amount to clear rounded up to whole units, and the value paid, at the buy price, is
-- at most the value taken, at the sell price.
pub clear_offer_partial_lem :
    (offer : Offer) (sell_price buy_price tax_rate remaining : ℕ)
    → remaining ≤ (2 ^ 63 - 1) * 2 ^ 10
    → IsWord sell_price
    → IsWord buy_price
    → 0 < buy_price
    → tax_rate < 128
    → remaining * sell_price / buy_price < 2 ^ 128
    → (r : PartialClearing) × (clear_offer_partial offer sell_price buy_price tax_rate remaining
        ≡ some r)
      × (r.transfer ≡ record { asset = offer.category.buy_asset; amount = r.buy_amount })
      × (remaining ≤ r.sell_amount * 2 ^ 10)
      × (r.sell_amount * 2 ^ 10 < remaining + 2 ^ 10)
      × (r.buy_amount * buy_price ≤ r.sell_amount * sell_price)
unfolding clear_offer_partial
clear_offer_partial_lem offer sell buy tax_rate remaining hr hs hb pos ht fits =
    let raw : ℕ = remaining * sell / buy in
    let paid : ℕ = tax_and_round raw tax_rate in
    let paid_fits = (tax_and_round_lem raw tax_rate fits ht).2 in
    let (up, low) = ceil_lem remaining hr in
    let value : paid * 2 ^ 10 * buy ≤ remaining * sell =
      paid_le remaining paid raw sell buy paid_fits refl in
    let more : remaining * sell ≤ ceil remaining * 2 ^ 10 * sell = mul-le-mul_right sell up in
    let whole : paid * buy ≤ ceil remaining * sell = omega arith in
    let word : ceil remaining % 2 ^ 64 ≡ ceil remaining = mod-eq_of_lt (omega arith) in
    (
      record {
        transfer = record { asset = offer.category.buy_asset; amount = u64 paid };
        sell_amount = u64 (ceil remaining);
        buy_amount = u64 paid;
      },
      rw (clear_offer_partial, wide_multiply_lem remaining sell buy pos hs hb fits),
      refl,
      rw word up,
      rw word low,
      rw word (le_trans (mul-le-mul_right buy (mod-le paid (2 ^ 64))) whole),
    )
