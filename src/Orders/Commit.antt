-- ===== src/Orders/Commit.antt =====
-- How an order book moves from block to block: `tentative_commit_for_validation`, `undo_thunk`,
-- `finalize_validation`, `rollback_validation`, `commit_for_production` and `rollback_thunks`
-- (Orders).
pub mod Rollback
use speedex_parallelize.Base.{
  ℕ, ◌+◌, ◌-◌, ◌*◌, ◌%◌, ◌^◌, true, false, Option, none, some, List, [], ◌∷◌, ◌++◌, ltb, leb, ◌==◌,
  if◌then◌else◌, replicate, u64, add64, is_negative,
}
use speedex_parallelize.Xdr.{Offer}
use speedex_parallelize.Trie.{OfferTrie, PriceLevel}
use speedex_parallelize.Orders.{
  unset, no_partial_exec, partial_exec, WorkUnitThunk, new_thunk, EndowAccumulator, IndexedMetadata,
  MerkleWorkUnit, offer_key,
}

abbrev pub last {ℓ} : {A : Type ℓ} → List A → Option A
last [] = none
last (x ∷ []) = some x
last (x ∷ y ∷ ys) = last (y ∷ ys)

abbrev pub but_last {ℓ} : {A : Type ℓ} → List A → List A
but_last [] = []
but_last (x ∷ []) = []
but_last (x ∷ y ∷ ys) = x ∷ but_last (y ∷ ys)

-- `none` is the exception on a block number that does not follow the last one.
unfoldable pub add_new_thunk {ℓ} :
    {T : Type ℓ} → List (WorkUnitThunk T) → WorkUnitThunk T → Option (List (WorkUnitThunk T))
add_new_thunk thunks thunk = elim (last thunks) [
  | none ↦ some (thunk ∷ [])
  | some back ↦
      if u64 (back.current_block_number + 1) == thunk.current_block_number
      then some (thunks ++ thunk ∷ [])
      else none
]

unfoldable pub tentative_commit_for_validation {ℓ} :
    {T : Type ℓ} → OfferTrie T → ℕ → MerkleWorkUnit T → Option (MerkleWorkUnit T)
unfolding new_thunk add_new_thunk
tentative_commit_for_validation ops current_block_number w =
    let (committed, deleted) = ops.perform_marked_deletions w.committed_offers in
    let thunk = record (new_thunk ops.empty current_block_number) {
      uncommitted_offers_vec = ops.values w.uncommitted_offers;
      deleted_keys = deleted;
    } in
    elim (add_new_thunk w.thunks thunk) [
      | none ↦ none
      | some thunks ↦ some (record w {
        committed_offers = ops.merge_in committed w.uncommitted_offers;
        uncommitted_offers = ops.empty;
        thunks = thunks;
      })
    ]

abbrev pub insert_all {ℓ} : {T : Type ℓ} → OfferTrie T → List (List ℕ × Offer) → T → T
insert_all ops [] trie = trie
insert_all ops ((key, offer) ∷ rest) trie = insert_all ops rest (ops.insert key offer trie)

abbrev pub mark_all {ℓ} : {T : Type ℓ} → OfferTrie T → List Offer → T → T
mark_all ops [] trie = trie
mark_all ops (offer ∷ rest) trie =
    mark_all ops rest (ops.mark_for_deletion (offer_key offer) trie).0

-- What `undo_thunk` does before it puts back the offer that the block cleared in part.
unfoldable pub undo_clearing {ℓ} : {T : Type ℓ} → OfferTrie T → WorkUnitThunk T → List ℕ → T → T
unfolding offer_key
undo_clearing ops thunk partial_exec_key trie =
    let undeleted = insert_all ops thunk.deleted_keys trie in
    let cleared = ops.clean_singlechild_nodes partial_exec_key thunk.cleared_offers in
    let marked = mark_all ops thunk.uncommitted_offers_vec (ops.merge_in undeleted cleared) in
    (ops.perform_marked_deletions marked).0

-- `none` where the thunk was never told
-- whether there is one.
unfoldable pub undo_thunk {ℓ} : {T : Type ℓ} → OfferTrie T → WorkUnitThunk T → T → Option T
unfolding undo_clearing
undo_thunk ops thunk trie = elim thunk.partial [
  | unset ↦ none
  | no_partial_exec ↦ some (undo_clearing ops thunk (replicate 22 255) trie)
  | partial_exec key amount offer ↦ some (ops.insert key offer (undo_clearing ops thunk key trie))
]

-- `none` is an exception.
unfoldable pub finalize_validation {ℓ} :
    {T : Type ℓ} → OfferTrie T → MerkleWorkUnit T → Option (MerkleWorkUnit T)
finalize_validation ops w =
    if ops.size w.uncommitted_offers == 0
    then some (record w { committed_offers = ops.clear_rollback w.committed_offers })
    else none

unfoldable pub rollback_validation {ℓ} :
    {T : Type ℓ} → OfferTrie T → MerkleWorkUnit T → Option (MerkleWorkUnit T)
unfolding undo_thunk
rollback_validation ops w = elim (last w.thunks) [
  | none ↦ none
  | some thunk ↦
      elim (undo_thunk ops (record thunk { uncommitted_offers_vec = [] })
        (ops.do_rollback w.committed_offers)) [
          | none ↦ none
          | some committed ↦ some (record w {
            uncommitted_offers = ops.empty;
            committed_offers = committed;
            thunks = but_last w.thunks;
          })
        ]
]

-- An `int64` as an `int128`.
abbrev pub widen : ℕ → ℕ
widen n = if is_negative n then n + (2 ^ 128 - 2 ^ 64) else n

abbrev pub u128 : ℕ → ℕ
u128 n = n % 2 ^ 128

-- `EndowAccumulator(price, metadata)`.
unfoldable pub of_level : PriceLevel → EndowAccumulator
of_level l = record { endow = l.endow; endow_times_price = u128 (widen l.endow * l.price) }

-- `operator+=`.
unfoldable pub add : EndowAccumulator → EndowAccumulator → EndowAccumulator
add a b = record {
  endow = add64 a.endow b.endow;
  endow_times_price = u128 (a.endow_times_price + b.endow_times_price);
}

abbrev pub nothing : EndowAccumulator
nothing = record { endow = 0; endow_times_price = 0 }

-- The entries for the nodes at which the traversal stops, each with the sum up to it.
unfoldable pub accumulate : EndowAccumulator → List PriceLevel → List IndexedMetadata
unfolding of_level add
accumulate acc [] = []
accumulate acc (l ∷ ls) =
    let sum = add acc (of_level l) in record { key = l.price; metadata = sum } ∷ accumulate sum ls

-- `metadata_traversal`, which starts with an entry for the price 0.
unfoldable pub metadata_traversal : List PriceLevel → List IndexedMetadata
unfolding accumulate
metadata_traversal levels = record { key = 0; metadata = nothing } ∷ accumulate nothing levels

unfoldable pub generate_metadata_index {ℓ} :
    {T : Type ℓ} → OfferTrie T → MerkleWorkUnit T → MerkleWorkUnit T
unfolding metadata_traversal
generate_metadata_index ops w = record w {
  indexed_metadata = metadata_traversal (ops.price_levels w.committed_offers);
}

unfoldable pub commit_for_production {ℓ} :
    {T : Type ℓ} → OfferTrie T → ℕ → MerkleWorkUnit T → Option (MerkleWorkUnit T)
unfolding tentative_commit_for_validation generate_metadata_index
commit_for_production ops current_block_number w =
    elim (tentative_commit_for_validation ops current_block_number w) [
      | none ↦ none
      | some w' ↦ some (generate_metadata_index ops w')
    ]

-- The loop of `rollback_thunks`: the committed offers, and the thunks that are kept.
unfoldable pub undo_thunks {ℓ} :
    {T : Type ℓ}
    → OfferTrie T
    → ℕ
    → List (WorkUnitThunk T)
    → T
    → Option (T × List (WorkUnitThunk T))
unfolding undo_thunk
undo_thunks ops current_block_number [] trie = some (trie, [])
undo_thunks ops current_block_number (t ∷ ts) trie =
    elim (ltb current_block_number t.current_block_number) [
      | true ↦ elim (undo_thunk ops t trie) [
        | none ↦ none
        | some trie' ↦ undo_thunks ops current_block_number ts trie'
      ]
      | false ↦ elim (undo_thunks ops current_block_number ts trie) [
        | none ↦ none
        | some (trie', kept) ↦ some (trie', t ∷ kept)
      ]
    ]

-- `none` is an exception: also for a block that is on disk.
unfoldable pub rollback_thunks {ℓ} :
    {T : Type ℓ} → OfferTrie T → ℕ → ℕ → MerkleWorkUnit T → Option (MerkleWorkUnit T)
unfolding undo_thunks
rollback_thunks ops persisted_round_number current_block_number w =
    if leb current_block_number persisted_round_number
    then none
    else elim (undo_thunks ops current_block_number w.thunks w.committed_offers) [
      | none ↦ none
      | some (committed, kept) ↦ some (record w { committed_offers = committed; thunks = kept })
    ]
