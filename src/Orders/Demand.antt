-- ===== src/Orders/Demand.antt =====
-- What an order book would sell and buy at given prices (Orders): `calculate_demands_and_supplies`
-- and `calculate_demands_and_supplies_from_metadata`. Offers up to the lower execution price are
-- taken in full, and those up to the upper one in part.
pub mod Laws
use speedex_parallelize.Base.{
  ℕ, ◌>>=◌, ◌+◌, ◌-◌, ◌*◌, ◌%◌, ◌^◌, Bool, ◌||◌, Option, none, some, List, ltb, ◌==◌, if◌then◌else◌,
  get_or, u64, sub64,
}
use speedex_parallelize.Price.{price_radix, u128, wide_multiply_val_by_a_over_b}
use speedex_parallelize.Xdr.{OfferCategory}
use speedex_parallelize.Category.ClearingCheck.{Totals, add_at}
use speedex_parallelize.Orders.{EndowAccumulator, MerkleWorkUnit}
use speedex_parallelize.Orders.Index.{get_execution_prices, get_metadata}

-- Amounts of the asset that is sold and of the one that is bought, as `uint128` fractions.
pub record Volumes : Type 0 where
  pub sell_volume : ℕ
  pub buy_volume : ℕ

abbrev pub signed_ltb128 : ℕ → ℕ → Bool
signed_ltb128 a b = ltb ((a + 2 ^ 127) % 2 ^ 128) ((b + 2 ^ 127) % 2 ^ 128)

-- The difference of two `uint128`.
abbrev pub sub128 : ℕ → ℕ → ℕ
sub128 a b = u128 (a + 2 ^ 128 - b)

-- The block `if (smooth_mult)`; `none` is an exception. The amount is shifted as a `uint64`, and only
-- then widened.
unfoldable pub partial_volumes : ℕ → ℕ → ℕ → ℕ → ℕ → Option Volumes
partial_volumes endow endow_times_price sell_price buy_price smooth_mult =
    let endow_over_epsilon = u64 (endow * 2 ^ smooth_mult) in
    let endow_times_price_over_epsilon = u128 (endow_times_price * 2 ^ smooth_mult) in
    let scaled = u128 (endow_over_epsilon * 2 ^ price_radix) in
    do
      sold ← wide_multiply_val_by_a_over_b endow_times_price_over_epsilon buy_price sell_price
      bought ← wide_multiply_val_by_a_over_b scaled sell_price buy_price
      (if ltb scaled sold || ltb bought endow_times_price_over_epsilon
          then none
          else some (record {
            sell_volume = scaled - sold;
            buy_volume = bought - endow_times_price_over_epsilon;
          }))

-- The volumes that are added to the two arrays.
unfoldable pub full_volumes : EndowAccumulator → EndowAccumulator → ℕ → ℕ → ℕ → Option Volumes
unfolding partial_volumes
full_volumes metadata_partial metadata_full sell_price buy_price smooth_mult =
    let endow = sub64 metadata_partial.endow metadata_full.endow in
    let endow_times_price =
      sub128 metadata_partial.endow_times_price metadata_full.endow_times_price in
    let scaled = u128 (metadata_full.endow * 2 ^ price_radix) in
    if signed_ltb128 metadata_partial.endow_times_price metadata_full.endow_times_price
    then none
    else do
      smoothed ←
          (if smooth_mult == 0
            then some (record { sell_volume = 0; buy_volume = 0 })
            else partial_volumes endow endow_times_price sell_price buy_price smooth_mult)
      bought ← wide_multiply_val_by_a_over_b scaled sell_price buy_price
      some (record {
        sell_volume = u128 (smoothed.sell_volume + scaled);
        buy_volume = u128 (smoothed.buy_volume + bought);
      })

unfoldable pub calculate_demands_and_supplies_from_metadata :
    OfferCategory → List ℕ → Totals → ℕ → EndowAccumulator → EndowAccumulator → Option Totals
unfolding full_volumes
calculate_demands_and_supplies_from_metadata category prices t smooth_mult metadata_partial
      metadata_full =
    do
      v ←
          full_volumes metadata_partial metadata_full (get_or prices category.sell_asset 0)
            (get_or prices category.buy_asset 0) smooth_mult
      some (record {
        demands = add_at t.demands category.buy_asset v.buy_volume;
        supplies = add_at t.supplies category.sell_asset v.sell_volume;
      })

-- The body of the function repeats that of `calculate_demands_and_supplies_from_metadata`.
unfoldable pub calculate_demands_and_supplies {ℓ} :
    {T : Type ℓ} → MerkleWorkUnit T → List ℕ → Totals → ℕ → Option Totals
unfolding get_execution_prices get_metadata calculate_demands_and_supplies_from_metadata
calculate_demands_and_supplies w prices t smooth_mult = do
  (full_exec_p, partial_exec_p) ←
      get_execution_prices (get_or prices w.category.sell_asset 0)
        (get_or prices w.category.buy_asset 0) smooth_mult
  metadata_partial ← get_metadata w.indexed_metadata partial_exec_p
  metadata_full ←
      (if smooth_mult == 0
        then some metadata_partial
        else get_metadata w.indexed_metadata full_exec_p)
  calculate_demands_and_supplies_from_metadata w.category prices t smooth_mult metadata_partial
      metadata_full
