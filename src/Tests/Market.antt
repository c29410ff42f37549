-- ===== src/Tests/Market.antt =====
-- The clearing of a concrete offer, and the check of concrete clearing parameters.
use speedex_parallelize.Base.{
  ℕ, zero, suc, ◌+◌, ◌*◌, ◌%◌, ◌^◌, ◌≤◌, ◌<◌, ◌≡◌, refl, ◌↔◌, Bool, true, some, List, [], ◌∷◌,
  arith, get_or,
}
use speedex_parallelize.Xdr.{Offer, OfferCategory, sell}
use speedex_parallelize.FixedPoint.{tax}
use speedex_parallelize.Clearing.{Transfer, PartialClearing, clear_offer_full, clear_offer_partial}
use speedex_parallelize.Clearing.Laws.{clear_offer_full_lem, clear_offer_partial_lem}
use speedex_parallelize.Category.{
  category_to_idx, category_from_idx, validate_category, get_num_work_units_by_asset_count,
}
use speedex_parallelize.Category.Laws.{
  category_from_idx-category_to_idx, category_to_idx-category_from_idx,
}
use speedex_parallelize.Category.ClearingCheck.{ClearingParams, check_clearing_params}
use speedex_parallelize.Category.ClearingCheck.Laws.{
  check_clearing_params_iff, supply_of, demand_of,
}

abbrev sells_0_for_2 : OfferCategory
sells_0_for_2 = record { sell_asset = 0; buy_asset = 2; type = sell }

abbrev offer_of_100 : Offer
offer_of_100 = record {
  category = sells_0_for_2;
  offer_id = 513;
  owner = 7;
  amount = 100;
  min_price = 2 ^ 24;
}

-- Asset 0 costs three times as much as asset 2.
clear_offer_full_lem_example :
    (t : Transfer) × (clear_offer_full offer_of_100 (3 * 2 ^ 24) (2 ^ 24) 10 ≡ some t)
    × (t.asset ≡ 2)
    × (t.amount * 2 ^ 24 ≤ 100 * (3 * 2 ^ 24))
clear_offer_full_lem_example =
    clear_offer_full_lem offer_of_100 (3 * 2 ^ 24) (2 ^ 24) 10 (omega arith) (omega arith)
      (omega arith) (omega arith) (omega arith) (omega arith)

clear_offer_partial_lem_example :
    (r : PartialClearing) × (clear_offer_partial offer_of_100 (3 * 2 ^ 24) (2 ^ 24) 10 51300
      ≡ some r)
    × (r.transfer ≡ record { asset = 2; amount = r.buy_amount })
    × (51300 ≤ r.sell_amount * 2 ^ 10)
    × (r.sell_amount * 2 ^ 10 < 51300 + 2 ^ 10)
    × (r.buy_amount * 2 ^ 24 ≤ r.sell_amount * (3 * 2 ^ 24))
clear_offer_partial_lem_example =
    clear_offer_partial_lem offer_of_100 (3 * 2 ^ 24) (2 ^ 24) 10 51300 (omega arith) (omega arith)
      (omega arith) (omega arith) (omega arith) (omega arith)

valid_0_2 : validate_category sells_0_for_2 5 ≡ true
unfolding validate_category
valid_0_2 = refl

category_from_idx-category_to_idx_example :
    (idx : ℕ) × (category_to_idx sells_0_for_2 5 ≡ some idx)
    × (idx < get_num_work_units_by_asset_count 5)
    × (idx < 2 ^ 31)
    × (category_from_idx idx 5 ≡ some sells_0_for_2)
category_from_idx-category_to_idx_example =
    category_from_idx-category_to_idx sells_0_for_2 5 (omega arith) valid_0_2

units_of_5 : 19 < get_num_work_units_by_asset_count 5
unfolding get_num_work_units_by_asset_count
units_of_5 = omega arith

category_to_idx-category_from_idx_example :
    (id : OfferCategory) × (category_from_idx 19 5 ≡ some id)
    × (validate_category id 5 ≡ true)
    × (category_to_idx id 5 ≡ some 19)
category_to_idx-category_from_idx_example =
    category_to_idx-category_from_idx 19 5 (omega arith) units_of_5

-- Two assets, and both order books active.
abbrev two_books : ClearingParams
two_books = record { tax_rate = 10; supply_activated = 3072 ∷ 9216 ∷ [] }

abbrev two_prices : List ℕ
two_prices = 3 * 2 ^ 24 ∷ 2 ^ 24 ∷ []

two_prices_positive : (a : ℕ) → a < 2 → 0 < get_or two_prices a 0
two_prices_positive zero h = omega arith
two_prices_positive (suc zero) h = omega arith
two_prices_positive (suc (suc a)) h = absurd (omega arith)

two_books_fit : 2 ≤ get_num_work_units_by_asset_count 2
unfolding get_num_work_units_by_asset_count
two_books_fit = omega arith

check_clearing_params_iff_example :
    (b : Bool) × (check_clearing_params two_books two_prices 2 ≡ some b)
    × ((b ≡ true) ↔ (
        (a : ℕ)
        → a < 2
        → tax (demand_of two_prices 2 0 two_books.supply_activated a % 2 ^ 128) 10
          ≤ supply_of 2 0 two_books.supply_activated a % 2 ^ 128))
check_clearing_params_iff_example =
    check_clearing_params_iff two_books two_prices 2 two_prices_positive (omega arith) two_books_fit
