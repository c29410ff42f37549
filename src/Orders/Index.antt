-- ===== src/Orders/Index.antt =====
-- The queries of an order book by price (Orders): `get_metadata`, a binary search in the entries that
-- `metadata_traversal` left, `get_execution_prices` and `get_supply_bounds`.
pub mod Search
pub mod Levels
pub mod Laws
use speedex_parallelize.Base.{
  ℕ, zero, ◌>>=◌, suc, ◌+◌, ◌-◌, ◌*◌, ◌/◌, ◌^◌, Bool, true, false, Option, none, some, List, ltb,
  leb, ◌==◌, if◌then◌else◌, length, get_or, u64,
}
use speedex_parallelize.Price.{price_radix}
use speedex_parallelize.Orders.{EndowAccumulator, IndexedMetadata, MerkleWorkUnit}
use speedex_parallelize.Orders.Commit.{nothing}

abbrev pub entry : List IndexedMetadata → ℕ → IndexedMetadata
entry index i = get_or index i (record { key = 0; metadata = nothing })

-- The loop `while (true) { if (end == start) ...; start = mp + 1 or end = mp }` of the searches:
-- `right i` is the test that moves `start` past `i`. `none` is out of fuel.
unfoldable pub search : (ℕ → Bool) → ℕ → ℕ → ℕ → Option ℕ
search right zero start end = none
search right (suc fuel) start end =
    let mp = (end + start) / 2 in
    elim (end == start) [
      | true ↦ some end
      | false ↦ elim (right mp) [
        | true ↦ search right fuel (mp + 1) end
        | false ↦ search right fuel start mp
      ]
    ]

-- `get_metadata`, once it has `end = indexed_metadata.size() - 1`; the fuel is the number of entries.
unfoldable pub query : List IndexedMetadata → ℕ → ℕ → Option EndowAccumulator
unfolding search
query index p end =
    if end == 0
    then some nothing
    else if ltb (entry index end).key p
    then some (entry index end).metadata
    else elim (search (λ i. leb (entry index i).key p) (suc end) 1 end) [
      | none ↦ none
      | some i ↦ some (entry index (i - 1)).metadata
    ]

unfoldable pub get_metadata : List IndexedMetadata → ℕ → Option EndowAccumulator
unfolding query
get_metadata index p = query index p (length index - 1)

-- `(((uint128_t) sell_price) << 64) / buy_price`, less the bits past the radix; `none` is a division
-- by zero.
unfoldable pub divide_prices : ℕ → ℕ → Option ℕ
divide_prices sell_price buy_price =
    let ratio = sell_price * 2 ^ 64 / buy_price / 2 ^ (64 - price_radix) in
    if buy_price == 0 then none else some (u64 ratio)

unfoldable pub get_execution_prices : ℕ → ℕ → ℕ → Option (ℕ × ℕ)
unfolding divide_prices
get_execution_prices sell_price buy_price smooth_mult = elim (divide_prices sell_price buy_price) [
  | none ↦ none
  | some upper_bound_price ↦
      if smooth_mult == 0
      then some (upper_bound_price, upper_bound_price)
      else some (upper_bound_price - upper_bound_price / 2 ^ smooth_mult, upper_bound_price)
]

unfoldable pub get_supply_bounds : List IndexedMetadata → ℕ → ℕ → ℕ → Option (ℕ × ℕ)
unfolding get_execution_prices get_metadata
get_supply_bounds index sell_price buy_price smooth_mult = do
  (lower_bound_price, upper_bound_price) ← get_execution_prices sell_price buy_price smooth_mult
  upper ← get_metadata index upper_bound_price
  lower ← get_metadata index lower_bound_price
  some (lower.endow, upper.endow)
