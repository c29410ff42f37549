-- ===== src/Orders/Manager/Laws.antt =====
-- How the manager of the order books grows (Orders/Manager).
use speedex_parallelize.Base.{
  get_elem?-below, ℕ, zero, suc, ◌+◌, ◌*◌, ◌-◌, ◌%◌, ◌^◌, ◌≤◌, ◌<◌, ◌↔◌, ◌⊎◌, ◌||◌, leb, none, ◌≡◌,
  refl, sym, ap, ◌∙◌, inl, inr, true, false, ◌&&◌, some, List, [], ◌∷◌, arith, ltb, Bool-cases,
  length, get_elem?,
}
use native.Mathlib.Nat.{mul-le-mul}
use native.Mathlib.Decide.{dec_lt}
use speedex_parallelize.Xdr.{OfferCategory}
use speedex_parallelize.Category.{
  category_to_idx, category_from_idx, validate_category, get_num_work_units_by_asset_count,
}
use speedex_parallelize.Category.Laws.{
  category_from_idx-category_to_idx, category_to_idx-category_from_idx, pairs_lt, num_pairs,
}
use speedex_parallelize.Orders.{MerkleWorkUnit}
use speedex_parallelize.Orders
use speedex_parallelize.Orders.Manager.{
  MerkleWorkUnitManager, unit_at, units_from, increase_num_traded_assets, look_up_idx,
}

-- A pair of assets that were there before.
narrow :
    (id : OfferCategory) (n n' : ℕ)
    → validate_category id n' ≡ true
    → (ltb id.buy_asset n && ltb id.sell_asset n) ≡ true
    → validate_category id n ≡ true
unfolding validate_category
narrow id n n' valid both = ground arith

widen_assets :
    (id : OfferCategory) (n n' : ℕ)
    → n ≤ n'
    → validate_category id n ≡ true
    → (validate_category id n' ≡ true) × ((ltb id.buy_asset n && ltb id.sell_asset n) ≡ true)
unfolding validate_category
widen_assets id n n' le valid = ground arith

module _ {ℓ} {T : Type ℓ} (empty : T) (m : MerkleWorkUnitManager T) (n' : ℕ) (few : n' ≤ 46341)
    (not_fewer : m.num_assets ≤ n')
    (complete : length m.work_units ≡ get_num_work_units_by_asset_count m.num_assets) where
  unit_at-old :
      (id : OfferCategory) (i : ℕ)
      → category_from_idx i n' ≡ some id
      → validate_category id m.num_assets ≡ true
      → (ltb id.buy_asset m.num_assets && ltb id.sell_asset m.num_assets) ≡ true
      → (idx : ℕ) × (w : MerkleWorkUnit T) × (category_to_idx id m.num_assets ≡ some idx)
        × (get_elem? m.work_units idx ≡ some w)
        × (unit_at empty m n' i ≡ some w)
  unfolding unit_at
  unit_at-old id i from valid both =
      let (idx, to, below, small, back) =
        category_from_idx-category_to_idx id m.num_assets (omega arith) valid in
      let (w, found) = get_elem?-below m.work_units idx (omega (arith, complete, below)) in
      (idx, w, to, found, rw (unit_at, from, both, to) found)

  unit_at-some :
      (i : ℕ)
      → i < get_num_work_units_by_asset_count n'
      → (w : MerkleWorkUnit T) × (unit_at empty m n' i ≡ some w)
  unfolding unit_at
  unit_at-some i h =
      let (id, from, valid, to) = category_to_idx-category_from_idx i n' few h in
      elim (Bool-cases (ltb id.buy_asset m.num_assets && ltb id.sell_asset m.num_assets)) [
        | inl both ↦
            let (idx, w, e, found, run) =
              unit_at-old id i from (narrow id m.num_assets n' valid both) both in
            (w, run)
        | inr fresh ↦ (Orders.new empty id, rw (unit_at, from, fresh) refl)
      ]

  shifted :
      (w : MerkleWorkUnit T) (ws : List (MerkleWorkUnit T)) (i left : ℕ)
      → unit_at empty m n' i ≡ some w
      → ((j : ℕ) → j < left → get_elem? ws j ≡ unit_at empty m n' (i + 1 + j))
      → (j : ℕ) → j < suc left
      → get_elem? (w ∷ ws) j ≡ unit_at empty m n' (i + j)
  shifted w ws i left run at zero lt =
      let e : i + 0 ≡ i = omega arith in sym run ∙ ap (unit_at empty m n') (sym e)
  shifted w ws i left run at (suc j) lt =
      let e : i + 1 + j ≡ i + suc j = omega arith in at j (omega arith) ∙ ap (unit_at empty m n') e

  units_from-some :
      (i left : ℕ)
      → i + left ≤ get_num_work_units_by_asset_count n'
      → (ws : List (MerkleWorkUnit T)) × (units_from empty m n' i left ≡ some ws)
        × ((j : ℕ) → j < left → get_elem? ws j ≡ unit_at empty m n' (i + j))
  unfolding units_from
  units_from-some i zero h = ([], refl, λ j lt. absurd (omega arith))
  units_from-some i (suc left) h =
      let (w, run) = unit_at-some i (omega arith) in
      let (ws, rest, at) = units_from-some (i + 1) left (omega arith) in
      (w ∷ ws, rw (units_from, run, rest) refl, shifted w ws i left run at)

  not_refused : (ltb n' m.num_assets || leb (2 ^ 31) (get_num_work_units_by_asset_count n')) ≡ false
  not_refused = let lt = pairs_lt n' few in let e = num_pairs n' few in ground arith

  -- Take a manager that has a book for each pair of its assets, and a number of assets that is not
  -- smaller and at most 46341. Then the call does not throw, and each pair of old assets, at its new
  -- index, has the book that it had at its old one.
  pub increase_num_traded_assets-look_up_idx :
      (id : OfferCategory)
      → validate_category id m.num_assets ≡ true
      → (m' : MerkleWorkUnitManager T) × (old new : ℕ) × (w : MerkleWorkUnit T)
        × (increase_num_traded_assets empty m n' ≡ some m')
        × (look_up_idx m id ≡ some old)
        × (look_up_idx m' id ≡ some new)
        × (get_elem? m.work_units old ≡ some w)
        × (get_elem? m'.work_units new ≡ some w)
  unfolding increase_num_traded_assets look_up_idx
  increase_num_traded_assets-look_up_idx id valid =
      let n = get_num_work_units_by_asset_count n' in
      let (ws, run, at) = units_from-some 0 n (omega arith) in
      let (valid', both) = widen_assets id m.num_assets n' not_fewer valid in
      let (new, to', below', small', back') = category_from_idx-category_to_idx id n' few valid' in
      let (old, w, to, found, unit) = unit_at-old id new back' valid both in
      let start : 0 + new ≡ new = omega arith in
      (
        record { work_units = ws; num_assets = n' },
        old,
        new,
        w,
        rw (increase_num_traded_assets, not_refused, run) refl,
        to,
        to',
        found,
        at new below' ∙ ap (unit_at empty m n') start ∙ unit,
      )

-- From 46342 assets on the number of books is negative as an `int`.
too_many :
    (n : ℕ) → 46342 ≤ n → n < 2 ^ 16 → leb (2 ^ 31) (get_num_work_units_by_asset_count n) ≡ true
unfolding get_num_work_units_by_asset_count
too_many n le lt =
    let least : 46342 * 46341 ≤ n * (n - 1) =
      mul-le-mul {n₁ = 46342} {m₁ = 46341} le (omega arith) in
    let most : n * (n - 1) ≤ 65535 * 65534 =
      mul-le-mul {n₂ = 65535} {m₂ = 65534} (omega arith) (omega arith) in
    let small : n * (n - 1) % 2 ^ 32 ≡ n * (n - 1) = omega arith in rw small (ground arith)

-- Take a manager that has a book for each pair of its assets. For a number of assets that is a
-- `uint16_t` the call throws exactly when the number is smaller than before or above 46341.
pub increase_num_traded_assets-throws {ℓ} :
    {T : Type ℓ} (empty : T) (m : MerkleWorkUnitManager T) (n' : ℕ)
    → length m.work_units ≡ get_num_work_units_by_asset_count m.num_assets
    → n' < 2 ^ 16
    → (increase_num_traded_assets empty m n' ≡ none) ↔ ((n' < m.num_assets) ⊎ (46341 < n'))
unfolding increase_num_traded_assets
increase_num_traded_assets-throws empty m n' complete word = (
  (λ throws. elim (dec_lt n' m.num_assets) [
    | yes fewer ↦ inl fewer
    | no not_fewer ↦ elim (dec_lt 46341 n') [
      | yes many ↦ inr many
      | no few ↦
          let few' : n' ≤ 46341 = omega arith in
          let more : m.num_assets ≤ n' = omega arith in
          let (ws, run, _) =
            units_from-some empty m n' few' more complete 0 (get_num_work_units_by_asset_count n')
              (omega arith) in
          let guard = not_refused empty m n' few' more complete in
          absurd (cc (rw (increase_num_traded_assets, guard, run) at throws))
    ]
  ]),
  elim [ inl fewer ↦ ground arith | inr many ↦ let e = too_many n' many word in ground arith ],
)
