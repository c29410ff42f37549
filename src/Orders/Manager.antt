-- ===== src/Orders/Manager.antt =====
-- implementation/src/merkle_work_unit_manager.h and merkle_work_unit_manager.cc: all order books, one
-- for each ordered pair of assets. The rounds that are on disk are an argument. What runs in parallel
-- over the books runs here in their order, and the mutex is not modelled: each call is one step.
pub mod Clearing
pub mod Laws
use speedex_parallelize.Base.{
  ℕ, zero, ◌>>=◌, suc, ◌+◌, ◌^◌, ◌&&◌, ◌||◌, leb, Option, none, some, List, [], ◌∷◌, map, ltb,
  if◌then◌else◌, get_elem?, set, get_or, u64,
}
use speedex_parallelize.Xdr.{Offer, OfferCategory, SingleWorkUnitStateCommitment}
use speedex_parallelize.Category.{
  category_to_idx, category_from_idx, get_num_work_units_by_asset_count,
}
use speedex_parallelize.FixedPoint.{ceil}
use speedex_parallelize.Trie.{OfferTrie}
use speedex_parallelize.Orders.{MerkleWorkUnit}
use speedex_parallelize.Orders
use speedex_parallelize.Orders.Commit
use speedex_parallelize.Orders.Commit.{generate_metadata_index}
use speedex_parallelize.Orders.Smooth.{max_feasible_smooth_mult}
use speedex_parallelize.Xdr.{BlockStateUpdateStats}

pub record MerkleWorkUnitManager {ℓ} (T : Type ℓ) : Type ℓ where
  pub work_units : List (MerkleWorkUnit T)
  pub num_assets : ℕ

-- The book of index `i` for `new_asset_count` assets: the one that the pair has, or a new one.
unfoldable pub unit_at {ℓ} :
    {T : Type ℓ} → T → MerkleWorkUnitManager T → ℕ → ℕ → Option (MerkleWorkUnit T)
unfolding category_from_idx category_to_idx Orders.new
unit_at empty m new_asset_count i = do
  category ← category_from_idx i new_asset_count
  (if ltb category.buy_asset m.num_assets && ltb category.sell_asset m.num_assets
      then (do old_idx ← category_to_idx category m.num_assets; get_elem? m.work_units old_idx)
      else some (Orders.new empty category))

-- The loop from index `i`, with the number of books left.
unfoldable pub units_from {ℓ} :
    {T : Type ℓ} → T → MerkleWorkUnitManager T → ℕ → ℕ → ℕ → Option (List (MerkleWorkUnit T))
unfolding unit_at
units_from empty m new_asset_count i zero = some []
units_from empty m new_asset_count i (suc left) = do
  unit ← unit_at empty m new_asset_count i
  rest ← units_from empty m new_asset_count (i + 1) left
  some (unit ∷ rest)

-- `none` is the exception on fewer assets, or that of `reserve` on a number of books that is negative as
-- an `int`.
unfoldable pub increase_num_traded_assets {ℓ} :
    {T : Type ℓ} → T → MerkleWorkUnitManager T → ℕ → Option (MerkleWorkUnitManager T)
unfolding units_from get_num_work_units_by_asset_count
increase_num_traded_assets empty m new_asset_count =
    let new_work_unit_count = get_num_work_units_by_asset_count new_asset_count in
    if ltb new_asset_count m.num_assets || leb (2 ^ 31) new_work_unit_count then none else do
      units ← units_from empty m new_asset_count 0 new_work_unit_count
      some (record { work_units = units; num_assets = new_asset_count })

unfoldable pub new {ℓ} : {T : Type ℓ} → T → ℕ → Option (MerkleWorkUnitManager T)
unfolding increase_num_traded_assets
new empty num_new_assets =
    increase_num_traded_assets empty (record { work_units = []; num_assets = 0 }) num_new_assets

unfoldable pub get_num_work_units {ℓ} : {T : Type ℓ} → MerkleWorkUnitManager T → ℕ
unfolding get_num_work_units_by_asset_count
get_num_work_units m = get_num_work_units_by_asset_count m.num_assets

unfoldable pub look_up_idx {ℓ} : {T : Type ℓ} → MerkleWorkUnitManager T → OfferCategory → Option ℕ
unfolding category_to_idx
look_up_idx m id = category_to_idx id m.num_assets

-- A call of one book; `none` is an index out of range.
abbrev pub on_unit {ℓ κ} :
    {T : Type ℓ} {R : Type κ}
    → (MerkleWorkUnit T → MerkleWorkUnit T × R)
    → MerkleWorkUnitManager T
    → ℕ
    → Option (MerkleWorkUnitManager T × R)
on_unit call m idx = elim (get_elem? m.work_units idx) [
  | none ↦ none
  | some w ↦ let (w', r) = call w in some (record m { work_units = set m.work_units idx w' }, r)
]

unfoldable pub add_offers {ℓ} :
    {T : Type ℓ}
    → OfferTrie T
    → MerkleWorkUnitManager T
    → ℕ
    → T
    → Option (MerkleWorkUnitManager T × Unit {0})
add_offers ops m idx trie =
    on_unit (λ w. (record w { uncommitted_offers = ops.merge_in w.uncommitted_offers trie }, tt)) m
      idx

unfoldable pub mark_for_deletion {ℓ} :
    {T : Type ℓ}
    → OfferTrie T
    → MerkleWorkUnitManager T
    → ℕ
    → List ℕ
    → Option (MerkleWorkUnitManager T × Option Offer)
mark_for_deletion ops m idx key =
    on_unit
      (λ w.
        let (committed, found) = ops.mark_for_deletion key w.committed_offers in
        (record w { committed_offers = committed }, found))
      m idx

unfoldable pub unmark_for_deletion {ℓ} :
    {T : Type ℓ}
    → OfferTrie T
    → MerkleWorkUnitManager T
    → ℕ
    → List ℕ
    → Option (MerkleWorkUnitManager T × Option Offer)
unmark_for_deletion ops m idx key =
    on_unit
      (λ w.
        let (committed, found) = ops.unmark_for_deletion key w.committed_offers in
        (record w { committed_offers = committed }, found))
      m idx

-- `generic_map`; `none` is an exception of one of the books.
unfoldable pub generic_map {ℓ} :
    {T : Type ℓ}
    → (MerkleWorkUnit T → Option (MerkleWorkUnit T))
    → List (MerkleWorkUnit T)
    → Option (List (MerkleWorkUnit T))
generic_map func [] = some []
generic_map func (w ∷ ws) = do w' ← func w; ws' ← generic_map func ws; some (w' ∷ ws')

abbrev on_units {ℓ} :
    {T : Type ℓ}
    → (MerkleWorkUnit T → Option (MerkleWorkUnit T))
    → MerkleWorkUnitManager T
    → Option (MerkleWorkUnitManager T)
on_units func m = do ws ← generic_map func m.work_units; some (record m { work_units = ws })

unfoldable pub commit_for_production {ℓ} :
    {T : Type ℓ} → OfferTrie T → ℕ → MerkleWorkUnitManager T → Option (MerkleWorkUnitManager T)
unfolding generic_map
commit_for_production ops block m = on_units (Orders.Commit.commit_for_production ops block) m

unfoldable pub tentative_commit_for_validation {ℓ} :
    {T : Type ℓ} → OfferTrie T → ℕ → MerkleWorkUnitManager T → Option (MerkleWorkUnitManager T)
unfolding generic_map
tentative_commit_for_validation ops block m =
    on_units (Orders.Commit.tentative_commit_for_validation ops block) m

unfoldable pub finalize_validation {ℓ} :
    {T : Type ℓ} → OfferTrie T → MerkleWorkUnitManager T → Option (MerkleWorkUnitManager T)
unfolding generic_map
finalize_validation ops m = on_units (Orders.Commit.finalize_validation ops) m

unfoldable pub rollback_validation {ℓ} :
    {T : Type ℓ} → OfferTrie T → MerkleWorkUnitManager T → Option (MerkleWorkUnitManager T)
unfolding generic_map
rollback_validation ops m = on_units (Orders.Commit.rollback_validation ops) m

unfoldable pub generate_metadata_indices {ℓ} :
    {T : Type ℓ} → OfferTrie T → MerkleWorkUnitManager T → MerkleWorkUnitManager T
unfolding generate_metadata_index
generate_metadata_indices ops m = record m {
  work_units = map (generate_metadata_index ops) m.work_units;
}

-- Each book with the round that it has on disk.
unfoldable pub rollback_units {ℓ} :
    {T : Type ℓ}
    → OfferTrie T
    → ℕ
    → List ℕ
    → List (MerkleWorkUnit T)
    → Option (List (MerkleWorkUnit T))
rollback_units ops block (r ∷ rs) (w ∷ ws) = do
  w' ← Orders.Commit.rollback_thunks ops r block w
  ws' ← rollback_units ops block rs ws
  some (w' ∷ ws')
rollback_units ops block persisted ws = some ws

unfoldable pub rollback_thunks {ℓ} :
    {T : Type ℓ}
    → OfferTrie T
    → List ℕ
    → ℕ
    → MerkleWorkUnitManager T
    → Option (MerkleWorkUnitManager T)
unfolding rollback_units
rollback_thunks ops persisted block m = do
  ws ← rollback_units ops block persisted m.work_units
  some (record m { work_units = ws })

unfoldable pub num_open_offers {ℓ} : {T : Type ℓ} → OfferTrie T → List (MerkleWorkUnit T) → ℕ
num_open_offers ops [] = 0
num_open_offers ops (w ∷ ws) = ops.size w.committed_offers + num_open_offers ops ws

-- `get_max_feasible_smooth_mult`, over the books and the supply that is activated in each. The
-- numbers come out as the minimum, from 255 on.
unfoldable pub get_max_feasible_smooth_mult {ℓ} :
    {T : Type ℓ} → List (MerkleWorkUnit T) → List ℕ → List ℕ → ℕ → Option ℕ
unfolding max_feasible_smooth_mult
get_max_feasible_smooth_mult (w ∷ ws) (supply ∷ rest) prices max = do
  candidate ←
      max_feasible_smooth_mult w.indexed_metadata (u64 (ceil supply))
        (get_or prices w.category.sell_asset 0) (get_or prices w.category.buy_asset 0)
  get_max_feasible_smooth_mult ws rest prices (if ltb candidate max then candidate else max)
get_max_feasible_smooth_mult ws supplies prices max = some max
