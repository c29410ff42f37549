-- ===== src/Category.antt =====
-- implementation/src/work_unit_manager_utils.h: the numbering of the order books, one for each
-- ordered pair of distinct assets, and the check of a block's clearing parameters. `unsigned int` and
-- asset numbers are 32-bit words, their arithmetic is modulo 2 ^ 32, and an `int` that is made of one
-- is its two's complement word, negative from 2 ^ 31 on. The arithmetic of `category_from_idx` is
-- signed: it has no value here where it overflows. Its arguments are an index and a number of assets
-- that are not negative.
pub mod Laws
pub mod ClearingCheck
use speedex_parallelize.Base.{
  ℕ, ◌+◌, ◌-◌, ◌*◌, ◌/◌, ◌%◌, ◌^◌, Bool, true, false, ◌||◌, Option, none, some, ltb, leb, ◌==◌,
  if◌then◌else◌,
}
use speedex_parallelize.Xdr.{OfferCategory, OfferType, sell}

unfoldable pub map_type_to_int : OfferType → ℕ
map_type_to_int sell = 0

-- `none` is the invalid value that the cast gives.
unfoldable pub map_int_to_type : ℕ → Option OfferType
map_int_to_type n = if n == 0 then some sell else none

-- `none` is the exception on an asset that is out of range.
unfoldable pub category_to_idx : OfferCategory → ℕ → Option ℕ
unfolding map_type_to_int
category_to_idx id asset_count =
    let units_per_order_type = asset_count * (asset_count - 1) % 2 ^ 32 in
    let below = if ltb id.sell_asset id.buy_asset then 1 else 0 in
    let idx_in_order_type = (id.sell_asset * (asset_count - 1) + (id.buy_asset - below)) % 2 ^ 32 in
    if leb asset_count id.sell_asset || leb asset_count id.buy_asset
    then none
    else some ((units_per_order_type * map_type_to_int id.type + idx_in_order_type) % 2 ^ 32)

-- `none` is an invalid offer type, a division by zero (with fewer than two assets), or the overflow of
-- the signed product, for which the language gives no result.
unfoldable pub category_from_idx : ℕ → ℕ → Option OfferCategory
unfolding map_int_to_type
category_from_idx idx asset_count =
    let units_per_order_type = asset_count * (asset_count - 1) in
    let remainder = idx % units_per_order_type in
    let sell_asset = remainder / (asset_count - 1) in
    let buy_asset = remainder % (asset_count - 1) in
    if units_per_order_type == 0 || leb (2 ^ 31) units_per_order_type
    then none
    else elim (map_int_to_type (idx / units_per_order_type)) [
      | none ↦ none
      | some type ↦ some (record {
        sell_asset = sell_asset;
        buy_asset = (if leb sell_asset buy_asset then buy_asset + 1 else buy_asset);
        type = type;
      })
    ]

unfoldable pub validate_category : OfferCategory → ℕ → Bool
validate_category id asset_count =
    if id.sell_asset == id.buy_asset
    then false
    else if leb asset_count id.sell_asset || leb asset_count id.buy_asset
    then false
    else true

unfoldable pub get_num_work_units_by_asset_count : ℕ → ℕ
get_num_work_units_by_asset_count asset_count = asset_count * (asset_count - 1) % 2 ^ 32
