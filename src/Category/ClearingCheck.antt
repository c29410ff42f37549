-- ===== src/Category/ClearingCheck.antt =====
-- `check_clearing_params(params, prices, num_assets)`: over the order books, the amounts sold and
-- demanded of each asset are summed up, and the check passes if no taxed demand is above the supply.
pub mod Laws
use speedex_parallelize.Base.{
  ℕ, zero, suc, ◌+◌, Bool, true, false, Option, none, some, List, [], ◌∷◌, ltb, if◌then◌else◌, set,
  get_or, replicate,
}
use speedex_parallelize.Category.{category_from_idx}
use speedex_parallelize.Price.{wide_multiply_val_by_a_over_b}
use speedex_parallelize.FixedPoint.{add, tax}

-- `ClearingParams`: the raw supply that is activated in each order book.
pub record ClearingParams : Type 0 where
  pub tax_rate : ℕ
  pub supply_activated : List ℕ

-- The two arrays of the function.
pub record Totals : Type 0 where
  pub supplies : List ℕ
  pub demands : List ℕ

-- `v[i] += amount`; the source's index is in range.
unfoldable pub add_at : List ℕ → ℕ → ℕ → List ℕ
add_at v i amount = set v i (add (get_or v i 0) amount)

-- One round of the loop over the order books. `none` is a division by zero, or an
-- index that has no category.
unfoldable pub count_unit : List ℕ → ℕ → ℕ → ℕ → Totals → Option Totals
count_unit prices num_assets i supply t = elim (category_from_idx i num_assets) [
  | none ↦ none
  | some category ↦
      elim (wide_multiply_val_by_a_over_b supply (get_or prices category.sell_asset 0)
        (get_or prices category.buy_asset 0)) [
          | none ↦ none
          | some demanded ↦ some (record {
            supplies = add_at t.supplies category.sell_asset supply;
            demands = add_at t.demands category.buy_asset demanded;
          })
        ]
]

unfoldable pub count_units : List ℕ → ℕ → ℕ → List ℕ → Totals → Option Totals
count_units prices num_assets i [] t = some t
count_units prices num_assets i (supply ∷ rest) t = elim (count_unit prices num_assets i supply t) [
  | none ↦ none
  | some t' ↦ count_units prices num_assets (i + 1) rest t'
]

-- The second loop, from asset `i`, with the number of assets left.
unfoldable pub all_covered : ℕ → ℕ → ℕ → Totals → Bool
all_covered tax_rate zero i t = true
all_covered tax_rate (suc left) i t =
    let rest = all_covered tax_rate left (i + 1) t in
    if ltb (get_or t.supplies i 0) (tax (get_or t.demands i 0) tax_rate) then false else rest

-- `none` is the division by zero.
unfoldable pub check_clearing_params : ClearingParams → List ℕ → ℕ → Option Bool
check_clearing_params params prices num_assets =
    elim (count_units prices num_assets 0 params.supply_activated
      (record { supplies = replicate num_assets 0; demands = replicate num_assets 0 })) [
        | none ↦ none
        | some t ↦ some (all_covered params.tax_rate num_assets 0 t)
      ]
