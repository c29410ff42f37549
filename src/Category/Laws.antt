-- ===== src/Category/Laws.antt =====
-- The order books are numbered one to one, as long as their number is an `int`.
use native.Mathlib.Nat.{
  mul-le-mul, mul-le-mul_right, mod-eq_of_lt, div-eq_of_lt, add-mul-div_right,
  add-mul-mod_self_right, div-add-mod', mod-lt, div-lt_iff_lt-mul,
}
use speedex_parallelize.Xdr.{OfferCategory, OfferType, sell}
use speedex_parallelize.Category.{
  category_to_idx, category_from_idx, validate_category, get_num_work_units_by_asset_count,
}
use speedex_parallelize.Base.{
  ℕ, zero, suc, ◌+◌, ◌-◌, ◌*◌, ◌/◌, ◌%◌, ◌^◌, ◌≤◌, ◌<◌, ◌≡◌, ap, ◌∙◌, ◌≢◌, true, false, ◌||◌, some,
  arith, ltb, leb, ◌==◌, if◌then◌else◌,
}

-- The products that the numbering computes, for as many assets as fit.
pub pairs_lt : (n : ℕ) → n ≤ 46341 → n * (n - 1) < 2 ^ 31
pairs_lt n le =
    let most : n * (n - 1) ≤ 46341 * 46340 = mul-le-mul {m₂ = 46340} le (omega arith) in
    omega (arith, most)

pub num_pairs : (n : ℕ) → n ≤ 46341 → get_num_work_units_by_asset_count n ≡ n * (n - 1)
unfolding get_num_work_units_by_asset_count
num_pairs n le = let lt = pairs_lt n le in omega (arith, lt)

-- The column of the buy asset in the row of the sell asset, which has no entry for the asset itself.
column_lt : (s b n : ℕ) → s ≢ b → s < n → b < n → b - (if ltb s b then 1 else 0) < n - 1
column_lt s b n ne hs hb = ground arith

row_lt : (s c m : ℕ) → s < m + 1 → c < m → c + s * m < (m + 1) * m
row_lt s c m hs hc = let h : s * m ≤ m * m = mul-le-mul_right m (omega arith) in omega (arith, h)

row_of : (s c m : ℕ) → c < m → ((c + s * m) / m ≡ s) × ((c + s * m) % m ≡ c)
row_of s c m hc = (
  add-mul-div_right c s (omega arith) ∙ omega (arith, div-eq_of_lt hc),
  add-mul-mod_self_right c s m ∙ mod-eq_of_lt hc,
)

-- The category of the number in row `s` and column `c`, with `m + 1` assets.
from_idx_lem :
    (s c m : ℕ)
    → s < m + 1
    → c < m
    → (m + 1) * m < 2 ^ 31
    → category_from_idx (c + s * m) (m + 1)
      ≡ some (record { sell_asset = s; buy_asset = (if leb s c then c + 1 else c); type = sell })
unfolding category_from_idx
from_idx_lem s c m hs hc fits =
    let idx = c + s * m in
    let units = (m + 1) * m in
    let lt : idx < units = row_lt s c m hs hc in
    let pred : m + 1 - 1 ≡ m = omega arith in
    let some_units : (units == 0 || leb (2 ^ 31) units) ≡ false = ground arith in
    let type : idx / units ≡ 0 = div-eq_of_lt lt in
    let rem : idx % units ≡ idx = mod-eq_of_lt lt in
    let (row, col) = row_of s c m hc in
    rw (category_from_idx, pred, some_units, type, pred, rem, row, col)

to_idx_lem :
    (s b n : ℕ) (t : OfferType)
    → s < n
    → b < n
    → b - (if ltb s b then 1 else 0) + s * (n - 1) < 2 ^ 31
    → category_to_idx (record { sell_asset = s; buy_asset = b; type = t }) n
      ≡ some (b - (if ltb s b then 1 else 0) + s * (n - 1))
unfolding category_to_idx
to_idx_lem s b n sell hs hb small = ground arith

pub valid_lem :
    (s b n : ℕ) (t : OfferType)
    → validate_category (record { sell_asset = s; buy_asset = b; type = t }) n ≡ true
    → (s ≢ b) × (s < n) × (b < n)
unfolding validate_category
valid_lem s b n t h = ground arith

-- The column of an asset gives back the asset.
column-asset :
    (s b : ℕ)
    → s ≢ b
    → (if leb s (b - (if ltb s b then 1 else 0))
        then b - (if ltb s b then 1 else 0) + 1
        else b - (if ltb s b then 1 else 0))
      ≡ b
column-asset s b ne = ground arith

numbered :
    (s b n : ℕ) (t : OfferType)
    → n ≤ 46341
    → validate_category (record { sell_asset = s; buy_asset = b; type = t }) n ≡ true
    → (idx : ℕ) × (category_to_idx (record { sell_asset = s; buy_asset = b; type = t }) n
        ≡ some idx)
      × (idx < n * (n - 1))
      × (category_from_idx idx n ≡ some (record { sell_asset = s; buy_asset = b; type = t }))
numbered s b zero t le valid = absurd (let h = valid_lem s b zero t valid in omega (arith, h))
numbered s b (suc m) sell le valid =
    let (ne, hs, hb) = valid_lem s b (suc m) sell valid in
    let c : ℕ = b - (if ltb s b then 1 else 0) in
    let pred : suc m - 1 ≡ m = omega arith in
    let hc : c < m = rw pred at (column_lt s b (suc m) ne hs hb) in
    let next : suc m ≡ m + 1 = omega arith in
    let fits : (m + 1) * m < 2 ^ 31 = rw (pred, next) at (pairs_lt (suc m) le) in
    let lt : c + s * m < (m + 1) * m = row_lt s c m (omega arith) hc in
    let small : c + s * (suc m - 1) < 2 ^ 31 = rw pred (omega (arith, fits, lt)) in
    (
      c + s * m,
      rw (to_idx_lem s b (suc m) sell hs hb small, pred),
      rw (pred, next) lt,
      rw (next, from_idx_lem s c m (omega arith) hc fits, column-asset s b ne),
    )

-- With at most 46341 assets, a category that passes the check has a number, below the number of order
-- books and an `int` that is not negative, and the category of that number is the category itself.
pub category_from_idx-category_to_idx :
    (id : OfferCategory) (asset_count : ℕ)
    → asset_count ≤ 46341
    → validate_category id asset_count ≡ true
    → (idx : ℕ) × (category_to_idx id asset_count ≡ some idx)
      × (idx < get_num_work_units_by_asset_count asset_count)
      × (idx < 2 ^ 31)
      × (category_from_idx idx asset_count ≡ some id)
category_from_idx-category_to_idx id n le valid =
    let (idx, to, below, back) = numbered id.sell_asset id.buy_asset n id.type le valid in
    let lt = pairs_lt n le in (idx, to, omega (arith, num_pairs n le), omega (arith, lt), back)

from_row :
    (s c m : ℕ)
    → s < m + 1
    → c < m
    → (m + 1) * m < 2 ^ 31
    → (id : OfferCategory) × (category_from_idx (c + s * m) (m + 1) ≡ some id)
      × (validate_category id (m + 1) ≡ true)
      × (category_to_idx id (m + 1) ≡ some (c + s * m))
unfolding validate_category category_to_idx
from_row s c m hs hc fits =
    let lt : c + s * m < (m + 1) * m = row_lt s c m hs hc in
    (_, from_idx_lem s c m hs hc fits, ground arith, ground arith)

-- With at most 46341 assets, every number below the number of order books is that of a category that
-- passes the check, and the category has that number.
pub category_to_idx-category_from_idx :
    (idx asset_count : ℕ)
    → asset_count ≤ 46341
    → idx < get_num_work_units_by_asset_count asset_count
    → (id : OfferCategory) × (category_from_idx idx asset_count ≡ some id)
      × (validate_category id asset_count ≡ true)
      × (category_to_idx id asset_count ≡ some idx)
category_to_idx-category_from_idx idx zero le h = absurd (omega (arith, num_pairs zero le))
category_to_idx-category_from_idx idx (suc zero) le h = absurd (omega (arith, num_pairs 1 le))
category_to_idx-category_from_idx idx (suc (suc k)) le h =
    let m : ℕ = suc k in
    let next : suc m ≡ m + 1 = omega arith in
    let pred : suc m - 1 ≡ m = omega arith in
    let units : suc m * (suc m - 1) ≡ (m + 1) * m = omega (arith, ap (λ (t : ℕ). suc m * t) pred) in
    let below : idx < (m + 1) * m = omega (arith, num_pairs (suc m) le, units) in
    let fits : (m + 1) * m < 2 ^ 31 = omega (arith, pairs_lt (suc m) le, units) in
    let split : idx ≡ idx % m + idx / m * m = omega (arith, div-add-mod' idx m) in
    let row : idx / m < m + 1 = (div-lt_iff_lt-mul (omega arith)).1 below in
    rw (next, split) (from_row (idx / m) (idx % m) m row (mod-lt idx (omega arith)) fits)
