-- ===== src/Orders/Commit/Rollback.antt =====
-- What `rollback_thunks` (Orders/Commit) undoes, and in which order.
use speedex_parallelize.Base.{
  ℕ, ◌>>=◌, ◌<◌, ◌≡◌, refl, inl, inr, false, Option, some, List, [], ◌∷◌, arith, ltb, leb,
  if◌then◌else◌, Bool-cases, Option-cases,
}
use speedex_parallelize.Trie.{OfferTrie}
use speedex_parallelize.Orders.{WorkUnitThunk, MerkleWorkUnit}
use speedex_parallelize.Orders.Commit.{undo_thunk, undo_thunks, rollback_thunks}

-- The thunks of blocks after `n`, oldest first.
abbrev pub newer {ℓ} : {T : Type ℓ} → ℕ → List (WorkUnitThunk T) → List (WorkUnitThunk T)
newer n [] = []
newer n (t ∷ ts) = let rest = newer n ts in if ltb n t.current_block_number then t ∷ rest else rest

-- The thunks of the blocks up to `n`.
abbrev pub older {ℓ} : {T : Type ℓ} → ℕ → List (WorkUnitThunk T) → List (WorkUnitThunk T)
older n [] = []
older n (t ∷ ts) = let rest = older n ts in if ltb n t.current_block_number then rest else t ∷ rest

-- The thunks are undone one after the other, the first of the list first.
abbrev pub undo_all {ℓ} : {T : Type ℓ} → OfferTrie T → List (WorkUnitThunk T) → T → Option T
undo_all ops [] trie = some trie
undo_all ops (t ∷ ts) trie = undo_thunk ops t trie >>= undo_all ops ts

undo_thunks_lem {ℓ} :
    {T : Type ℓ} (ops : OfferTrie T) (n : ℕ) (ts : List (WorkUnitThunk T)) (trie : T)
    → undo_thunks ops n ts trie
      ≡ (undo_all ops (newer n ts) trie >>= λ trie'. some (trie', older n ts))
unfolding undo_thunks
undo_thunks_lem ops n [] trie = refl
undo_thunks_lem ops n (t ∷ ts) trie = elim (Bool-cases (ltb n t.current_block_number)) [
  | inl after ↦ elim (Option-cases (undo_thunk ops t trie)) [
    | inl stops ↦ rw (undo_thunks, after, stops) refl
    | inr (trie', undone) ↦ rw (undo_thunks, after, undone, undo_thunks_lem ops n ts trie') refl
  ]
  | inr before ↦
      let ih = undo_thunks_lem ops n ts trie in
      elim (Option-cases (undo_all ops (newer n ts) trie)) [
        | inl stops ↦ rw (undo_thunks, before, ih, stops) refl
        | inr (trie', undone) ↦ rw (undo_thunks, before, ih, undone) refl
      ]
]

-- For a block that is not on disk, `rollback_thunks` undoes the thunks of all later blocks on the
-- committed offers, those of the oldest block first, and keeps the thunks of the other blocks; it
-- throws exactly when one of the thunks cannot be undone.
pub rollback_thunks_lem {ℓ} :
    {T : Type ℓ} (ops : OfferTrie T) (persisted n : ℕ) (w : MerkleWorkUnit T)
    → persisted < n
    → rollback_thunks ops persisted n w ≡ (
        undo_all ops (newer n w.thunks) w.committed_offers >>= λ trie.
        some (record w { committed_offers = trie; thunks = older n w.thunks }))
unfolding rollback_thunks
rollback_thunks_lem ops persisted n w lt =
    let not_on_disk : leb n persisted ≡ false = ground arith in
    let ih = undo_thunks_lem ops n w.thunks w.committed_offers in
    elim (Option-cases (undo_all ops (newer n w.thunks) w.committed_offers)) [
      | inl stops ↦ rw (rollback_thunks, not_on_disk, ih, stops) refl
      | inr (trie, undone) ↦ rw (rollback_thunks, not_on_disk, ih, undone) refl
    ]
