-- ===== src/Category/ClearingCheck/Laws.antt =====
-- What the check of the clearing parameters decides.
use native.Mathlib.Decide.{dec_lt}
use speedex_parallelize.Category.{category_from_idx, get_num_work_units_by_asset_count}
use speedex_parallelize.Category.Laws.{category_to_idx-category_from_idx, valid_lem}
use speedex_parallelize.Xdr.{OfferCategory}
use speedex_parallelize.Price.{wide_multiply_val_by_a_over_b, u128}
use speedex_parallelize.FixedPoint.{add, tax}
use speedex_parallelize.Category.ClearingCheck.{
  ClearingParams, Totals, add_at, count_unit, count_units, all_covered, check_clearing_params,
}
use speedex_parallelize.Base.{
  ℕ, zero, suc, ◌+◌, ◌*◌, ◌/◌, ◌%◌, ◌^◌, ◌≤◌, ◌<◌, ◌≡◌, refl, ◌∙◌, ◌↔◌, Bool, true, false, none,
  some, List, [], ◌∷◌, arith, ◌==◌, if◌then◌else◌, length, get_or, replicate, length-set,
  length-replicate, get_or-set,
}

all_covered_iff :
    (tax_rate left i : ℕ) (t : Totals)
    → (all_covered tax_rate left i t ≡ true) ↔ (
        (j : ℕ)
        → i ≤ j
        → j < i + left
        → tax (get_or t.demands j 0) tax_rate ≤ get_or t.supplies j 0)
unfolding all_covered
all_covered_iff tax_rate zero i t = (λ _ j lo hi. absurd (omega arith), λ _. refl)
all_covered_iff tax_rate (suc left) i t = (
  (λ h j lo hi. elim (dec_lt i j) [
    | yes lt ↦
        (all_covered_iff tax_rate left (i + 1) t).0 (ground arith) j (omega arith) (omega arith)
    | no ge ↦ let e : j ≡ i = omega arith in rw e (ground arith)
  ]),
  λ h.
      let head = h i (omega arith) (omega arith) in
      let rest =
        (all_covered_iff tax_rate left (i + 1) t).1 (λ j lo hi. h j (omega arith) (omega arith)) in
      ground arith,
)

-- What one order book adds to the supply and to the demand of an asset.
unfoldable pub supply_in : ℕ → ℕ → ℕ → ℕ → ℕ
supply_in num_assets i supply asset = elim (category_from_idx i num_assets) [
  | none ↦ 0
  | some c ↦ if c.sell_asset == asset then supply else 0
]

unfoldable pub demand_in : List ℕ → ℕ → ℕ → ℕ → ℕ → ℕ
demand_in prices num_assets i supply asset = elim (category_from_idx i num_assets) [
  | none ↦ 0
  | some c ↦
      if c.buy_asset == asset
      then elim (wide_multiply_val_by_a_over_b supply (get_or prices c.sell_asset 0)
          (get_or prices c.buy_asset 0)) [ none ↦ 0 | some demanded ↦ demanded ]
      else 0
]

-- Their sums over the order books from number `i` on.
unfoldable pub supply_of : ℕ → ℕ → List ℕ → ℕ → ℕ
supply_of num_assets i [] asset = 0
supply_of num_assets i (supply ∷ rest) asset =
    supply_in num_assets i supply asset + supply_of num_assets (i + 1) rest asset

unfoldable pub demand_of : List ℕ → ℕ → ℕ → List ℕ → ℕ → ℕ
demand_of prices num_assets i [] asset = 0
demand_of prices num_assets i (supply ∷ rest) asset =
    demand_in prices num_assets i supply asset + demand_of prices num_assets (i + 1) rest asset

-- Both arrays have an entry for each asset, and the entries are 128-bit words.
record Fits (n : ℕ) (t : Totals) : Type 0 where
  supplies_length : length t.supplies ≡ n
  demands_length : length t.demands ≡ n
  supplies_word : (a : ℕ) → get_or t.supplies a 0 < 2 ^ 128
  demands_word : (a : ℕ) → get_or t.demands a 0 < 2 ^ 128

get_or-add_at :
    (v : List ℕ) (i x a : ℕ)
    → i < length v
    → ((b : ℕ) → get_or v b 0 < 2 ^ 128)
    → (get_or (add_at v i x) a 0 ≡ (get_or v a 0 + (if i == a then x else 0)) % 2 ^ 128)
      × (length (add_at v i x) ≡ length v)
unfolding add_at add
get_or-add_at v i x a lt word = (
  (let w = word a in ground (arith, get_or-set v i a ((get_or v i 0 + x) % 2 ^ 128) 0 lt)),
  length-set v i _,
)

-- One order book: the totals afterwards, as sums modulo 2 ^ 128.
record Counted (prices : List ℕ) (n i supply : ℕ) (t : Totals) : Type 0 where
  after : Totals
  returns : count_unit prices n i supply t ≡ some after
  fits : Fits n after
  supplied :
      (a : ℕ)
      → get_or after.supplies a 0 ≡ (get_or t.supplies a 0 + supply_in n i supply a) % 2 ^ 128
  demanded :
      (a : ℕ)
      → get_or after.demands a 0 ≡ (get_or t.demands a 0 + demand_in prices n i supply a) % 2 ^ 128

wide_some : (value a b : ℕ) → 0 < b → (d : ℕ) × (wide_multiply_val_by_a_over_b value a b ≡ some d)
unfolding wide_multiply_val_by_a_over_b
wide_some value a b pos =
    let divides : (b == 0) ≡ false = ground arith in
    (
      u128 (u128 (value / b * a) + u128 (value % b * a) / b),
      rw (wide_multiply_val_by_a_over_b, divides) refl,
    )

count_unit-Counted :
    (prices : List ℕ) (n i supply : ℕ) (t : Totals) (c : OfferCategory) (d : ℕ)
    → category_from_idx i n ≡ some c
    → wide_multiply_val_by_a_over_b supply
        (get_or prices c.sell_asset 0)
        (get_or prices c.buy_asset 0)
      ≡ some d
    → c.sell_asset < n
    → c.buy_asset < n
    → Fits n t
    → Counted prices n i supply t
unfolding count_unit supply_in demand_in
count_unit-Counted prices n i supply t c d ec ed hs hb fits =
    let sold = get_or-add_at t.supplies c.sell_asset supply in
    let bought = get_or-add_at t.demands c.buy_asset d in
    let hs' : c.sell_asset < length t.supplies = omega (arith, fits.supplies_length) in
    let hb' : c.buy_asset < length t.demands = omega (arith, fits.demands_length) in
    record {
      after = record {
        supplies = add_at t.supplies c.sell_asset supply;
        demands = add_at t.demands c.buy_asset d;
      };
      returns = rw (count_unit, ec, ed) refl;
      fits = record {
        supplies_length = (sold 0 hs' fits.supplies_word).1 ∙ fits.supplies_length;
        demands_length = (bought 0 hb' fits.demands_word).1 ∙ fits.demands_length;
        supplies_word = λ a. omega (arith, (sold a hs' fits.supplies_word).0);
        demands_word = λ a. omega (arith, (bought a hb' fits.demands_word).0);
      };
      supplied = λ a. rw (supply_in, ec) (sold a hs' fits.supplies_word).0;
      demanded = λ a. rw (demand_in, ec, ed) (bought a hb' fits.demands_word).0;
    }

abbrev PricesPos : List ℕ → ℕ → Type 0
PricesPos prices n = (a : ℕ) → a < n → 0 < get_or prices a 0

count_unit_lem :
    (prices : List ℕ) (n i supply : ℕ) (t : Totals)
    → PricesPos prices n
    → n ≤ 46341
    → i < get_num_work_units_by_asset_count n
    → Fits n t
    → Counted prices n i supply t
count_unit_lem prices n i supply t pos few lt fits =
    let (c, ec, valid, _) = category_to_idx-category_from_idx i n few lt in
    let (_, hs, hb) = valid_lem c.sell_asset c.buy_asset n c.type valid in
    let (d, ed) = wide_some supply (get_or prices c.sell_asset 0) _ (pos c.buy_asset hb) in
    count_unit-Counted prices n i supply t c d ec ed hs hb fits

-- All order books from number `i` on.
record CountedAll (prices : List ℕ) (n i : ℕ) (xs : List ℕ) (t : Totals) : Type 0 where
  after : Totals
  returns : count_units prices n i xs t ≡ some after
  supplied :
      (a : ℕ) → get_or after.supplies a 0 ≡ (get_or t.supplies a 0 + supply_of n i xs a) % 2 ^ 128
  demanded :
      (a : ℕ)
      → get_or after.demands a 0 ≡ (get_or t.demands a 0 + demand_of prices n i xs a) % 2 ^ 128

count_units-CountedAll :
    (prices : List ℕ) (n i : ℕ) (xs : List ℕ) (t : Totals)
    → PricesPos prices n
    → n ≤ 46341
    → i + length xs ≤ get_num_work_units_by_asset_count n
    → Fits n t
    → CountedAll prices n i xs t
unfolding count_units supply_of demand_of
count_units-CountedAll prices n i [] t pos few le fits = record {
  after = t;
  returns = refl;
  supplied = λ a. let w = fits.supplies_word a in omega arith;
  demanded = λ a. let w = fits.demands_word a in omega arith;
}
count_units-CountedAll prices n i (x ∷ xs) t pos few le fits =
    let one = count_unit_lem prices n i x t pos few (omega arith) fits in
    let rest =
      count_units-CountedAll prices n (i + 1) xs one.after pos few (omega arith) one.fits in
    record {
      after = rest.after;
      returns = rw (count_units, one.returns) rest.returns;
      supplied = λ a. omega (arith, one.supplied a, rest.supplied a);
      demanded = λ a. omega (arith, one.demanded a, rest.demanded a);
    }

get_or-zeros : (n a : ℕ) → get_or {A = ℕ} (replicate n 0) a 0 ≡ 0
get_or-zeros zero a = refl
get_or-zeros (suc n) zero = refl
get_or-zeros (suc n) (suc a) = get_or-zeros n a

-- With at most 46341 assets, at most one entry for each order book and no price of 0 among the assets,
-- the check returns, and it passes exactly when for each asset the total demand after tax is at most the total supply.
-- The totals are the sums over the order books, modulo 2 ^ 128.
pub check_clearing_params_iff :
    (params : ClearingParams) (prices : List ℕ) (n : ℕ)
    → ((a : ℕ) → a < n → 0 < get_or prices a 0)
    → n ≤ 46341
    → length params.supply_activated ≤ get_num_work_units_by_asset_count n
    → (b : Bool) × (check_clearing_params params prices n ≡ some b)
      × ((b ≡ true) ↔ (
          (a : ℕ)
          → a < n
          → tax (demand_of prices n 0 params.supply_activated a % 2 ^ 128) params.tax_rate
            ≤ supply_of n 0 params.supply_activated a % 2 ^ 128))
unfolding check_clearing_params
check_clearing_params_iff params prices n pos few le =
    let xs = params.supply_activated in
    let start : Totals = record { supplies = replicate n 0; demands = replicate n 0 } in
    let zeros = get_or-zeros n in
    let all = count_units-CountedAll prices n 0 xs start pos few (omega arith) (record {
      supplies_length = length-replicate n 0;
      demands_length = length-replicate n 0;
      supplies_word = λ a. omega (arith, zeros a);
      demands_word = λ a. omega (arith, zeros a);
    }) in
    let sold : (a : ℕ) → get_or all.after.supplies a 0 ≡ supply_of n 0 xs a % 2 ^ 128 =
      λ a. all.supplied a ∙ omega (arith, zeros a) in
    let bought : (a : ℕ) → get_or all.after.demands a 0 ≡ demand_of prices n 0 xs a % 2 ^ 128 =
      λ a. all.demanded a ∙ omega (arith, zeros a) in
    let iff = all_covered_iff params.tax_rate n 0 all.after in
    (
      all_covered params.tax_rate n 0 all.after,
      rw (check_clearing_params, all.returns),
      (
        (λ h a lt. rw (← sold a, ← bought a) (iff.0 h a (omega arith) (omega arith))),
        (λ h. iff.1 (λ a lo hi. rw (sold a, bought a) (h a (omega arith)))),
      ),
    )
