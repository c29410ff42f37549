-- ===== src/Orders/Demand/Laws.antt =====
-- No trade of an order book is worth more to the buyer than to the seller (Orders/Demand).
use mathlib.Core.Option.{some-injective}
use native.Mathlib.Nat.{mod-eq_of_lt, mod-le, div-mul-le_self, div-add-mod', mul-le-mul_right}
use speedex_parallelize.Base.{
  either, guarded, >>=-eq-some, ℕ, ◌+◌, ◌-◌, ◌*◌, ◌/◌, ◌%◌, ◌^◌, ◌≤◌, ◌<◌, ◌≡◌, refl, ap, ◌∙◌, inl,
  inr, false, ◌||◌, Option, some, arith, ltb, ◌==◌, if◌then◌else◌, u64, sub64, IsWord,
}
use speedex_parallelize.Price.{price_radix, u128, wide_multiply_val_by_a_over_b}
use speedex_parallelize.Price.Multiply.{wide_multiply_lem}
use speedex_parallelize.Orders.{EndowAccumulator}
use speedex_parallelize.Orders.Demand.{
  Volumes, partial_volumes, full_volumes, signed_ltb128, sub128,
}

-- Also where a product does not fit, the result is at most the quotient.
pub wide_multiply-le :
    (value a b : ℕ) {r : ℕ}
    → wide_multiply_val_by_a_over_b value a b ≡ some r
    → (0 < b) × (r * b ≤ value * a)
unfolding wide_multiply_val_by_a_over_b
wide_multiply-le value a b {r} run =
    let x = value / b * a in
    let y = value % b * a in
    let q = u128 y / b in
    let nonzero : 0 < b = ground arith in
    let result : r ≡ u128 (u128 x + q) = ground arith in
    let whole : x * b + y ≡ value * a =
      omega (arith, ap (λ (t : ℕ). t * a) (div-add-mod' value b)) in
    let bound : r ≤ x + q = omega (arith, mod-le (u128 x + q) (2 ^ 128), mod-le x (2 ^ 128)) in
    let times : r * b ≤ (x + q) * b = mul-le-mul_right b bound in
    (nonzero, omega (arith, times, whole, div-mul-le_self (u128 y) b, mod-le y (2 ^ 128)))

-- What is left of both products, at their prices.
net :
    (scaled sold bought times sell buy : ℕ)
    → sold ≤ scaled
    → times ≤ bought
    → sold * sell ≤ times * buy
    → bought * buy ≤ scaled * sell
    → (bought - times) * buy ≤ (scaled - sold) * sell
net scaled sold bought times sell buy le le' first second =
    let b = bought - times in
    let s = scaled - sold in
    let eb : bought ≡ b + times = omega arith in
    let es : scaled ≡ s + sold = omega arith in
    let expanded : (b + times) * buy ≤ (s + sold) * sell = rw (← eb, ← es) second in
    omega (arith, expanded, first)

covers : (a b c d : ℕ) → (ltb a b || ltb c d) ≡ false → (b ≤ a) × (d ≤ c)
covers a b c d e = ground arith

partial_volumes-value :
    (endow times sell buy mult : ℕ) {v : Volumes}
    → partial_volumes endow times sell buy mult ≡ some v
    → (v.buy_volume * buy ≤ v.sell_volume * sell) × (v.sell_volume < 2 ^ 88)
unfolding partial_volumes
partial_volumes-value endow times sell buy mult {v} run =
    let e = u64 (endow * 2 ^ mult) in
    let p = u128 (times * 2 ^ mult) in
    let scaled = u128 (e * 2 ^ price_radix) in
    let (sold, e1, run1) = >>=-eq-some (wide_multiply_val_by_a_over_b p buy sell) _ run in
    let (bought, e2, run2) = >>=-eq-some (wide_multiply_val_by_a_over_b scaled sell buy) _ run1 in
    let first = (wide_multiply-le p buy sell e1).1 in
    let second = (wide_multiply-le scaled sell buy e2).1 in
    let small : scaled < 2 ^ 88 = omega arith in
    let (go, e3) = guarded (ltb scaled sold || ltb bought p) _ run2 in
    let (covered, gained) = covers scaled sold bought p go in
    let eq = some-injective _ v e3 in
    rw (← eq) (net scaled sold bought p sell buy covered gained first second, omega (arith, small))

smoothed_value :
    (endow times sell buy mult : ℕ) {v : Volumes}
    → (if mult == 0
        then some (record { sell_volume = 0; buy_volume = 0 })
        else partial_volumes endow times sell buy mult)
      ≡ some v
    → (v.buy_volume * buy ≤ v.sell_volume * sell) × (v.sell_volume < 2 ^ 88)
smoothed_value endow times sell buy mult {v} run =
    elim (either (mult == 0) (record { sell_volume = 0; buy_volume = 0 })
      (partial_volumes endow times sell buy mult) run) [
        | inl eq ↦ rw (← eq) (omega arith, omega arith)
        | inr smooth ↦ partial_volumes-value endow times sell buy mult smooth
      ]

sum_value :
    (s scaled b bought sell buy : ℕ)
    → s < 2 ^ 88
    → scaled < 2 ^ 88
    → b * buy ≤ s * sell
    → bought * buy ≤ scaled * sell
    → u128 (b + bought) * buy ≤ u128 (s + scaled) * sell
sum_value s scaled b bought sell buy small small' first second =
    let e : u128 (s + scaled) ≡ s + scaled = omega arith in
    let cut : u128 (b + bought) * buy ≤ (b + bought) * buy =
      mul-le-mul_right buy (mod-le (b + bought) (2 ^ 128)) in
    rw e (omega (arith, cut, first, second))

-- Take two sums of offers, the one up to the lower price a word, and any prices. If the call does
-- not throw, the buy price is not 0, and what the book would buy, at the buy price, is worth at most what it would
-- sell, at the sell price: also where a product or a shift does not fit its type.
pub full_volumes-value :
    (metadata_partial metadata_full : EndowAccumulator) (sell buy mult : ℕ) {v : Volumes}
    → IsWord metadata_full.endow
    → full_volumes metadata_partial metadata_full sell buy mult ≡ some v
    → (0 < buy) × (v.buy_volume * buy ≤ v.sell_volume * sell)
unfolding full_volumes
full_volumes-value metadata_partial metadata_full sell buy mult {v} word run =
    let scaled = u128 (metadata_full.endow * 2 ^ price_radix) in
    let endow = sub64 metadata_partial.endow metadata_full.endow in
    let times = sub128 metadata_partial.endow_times_price metadata_full.endow_times_price in
    let disordered =
      signed_ltb128 metadata_partial.endow_times_price metadata_full.endow_times_price in
    let smooth : Option Volumes =
      if mult == 0
      then some (record { sell_volume = 0; buy_volume = 0 })
      else partial_volumes endow times sell buy mult in
    let (order, run1) = guarded disordered _ run in
    let (smoothed, e1, run2) = >>=-eq-some smooth _ run1 in
    let (bought, e2, e3) = >>=-eq-some (wide_multiply_val_by_a_over_b scaled sell buy) _ run2 in
    let (nonzero, whole) = wide_multiply-le scaled sell buy e2 in
    let (part, small) = smoothed_value endow times sell buy mult e1 in
    let small' : scaled < 2 ^ 88 = omega arith in
    let eq = some-injective _ v e3 in
    rw (← eq) (
      nonzero,
      sum_value smoothed.sell_volume scaled smoothed.buy_volume bought sell buy small small' part
          whole,
    )

abbrev volumes : ℕ → ℕ → Volumes
volumes sell_volume buy_volume = record { sell_volume = sell_volume; buy_volume = buy_volume }

volumes_eq : (s s' b b' : ℕ) → s ≡ s' → b ≡ b' → volumes s b ≡ volumes s' b'
volumes_eq s s' b b' e e' = rw (e, e') refl

-- Without smoothing, where both sums are the same, the amount is a word, the prices are words, the
-- buy price is not 0 and the amount bought fits 128 bits: the call does not throw, the book would
-- sell all that is offered up to the price, and buy that amount times the exchange rate, rounded down.
pub full_volumes-no_smoothing :
    (metadata : EndowAccumulator) (sell buy : ℕ)
    → IsWord metadata.endow
    → IsWord sell
    → IsWord buy
    → 0 < buy
    → metadata.endow * 2 ^ price_radix * sell / buy < 2 ^ 128
    → full_volumes metadata metadata sell buy 0
      ≡ some (record {
        sell_volume = metadata.endow * 2 ^ price_radix;
        buy_volume = metadata.endow * 2 ^ price_radix * sell / buy;
      })
unfolding full_volumes
full_volumes-no_smoothing metadata sell buy word sell_word buy_word nonzero fits =
    let scaled = metadata.endow * 2 ^ price_radix in
    let q = scaled * sell / buy in
    let e : u128 scaled ≡ scaled = omega arith in
    let sold : u128 (0 + scaled) ≡ scaled = omega arith in
    let kept : u128 (0 + q) ≡ q = mod-eq_of_lt (omega (arith, fits)) ∙ omega arith in
    let ordered : signed_ltb128 metadata.endow_times_price metadata.endow_times_price ≡ false =
      ground arith in
    let bought = wide_multiply_lem scaled sell buy nonzero sell_word buy_word fits in
    rw (full_volumes, ordered, e, bought)
      (ap some (volumes_eq (u128 (0 + scaled)) scaled (u128 (0 + q)) q sold kept))
