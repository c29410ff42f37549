-- ===== src/Mempool.antt =====
-- mempool.h, mempool.cc: the transactions that wait for a block, in chunks. The type of a transaction
-- is a parameter, since the mempool does not look into one. The two mutexes are not modelled: each
-- call is one step, and the loops over chunks that the source runs in parallel touch each chunk once.
pub mod Confirmed
pub mod Joining
use speedex_parallelize.Base.{
  ℕ, zero, suc, ◌+◌, Bool, true, false, Option, none, some, List, [], ◌∷◌, ◌++◌, map, ltb, ◌==◌,
  if◌then◌else◌, length, u64, add64, sub64,
}

pub record MempoolChunk {ℓ} (T : Type ℓ) : Type ℓ where
  pub txs : List T
  pub confirmed_txs_to_remove : List Bool

-- The last entry and what stands before it, of a vector with a first entry.
unfoldable pub back {ℓ} : {A : Type ℓ} → A → List A → A
back x [] = x
back x (y ∷ ys) = back y ys

unfoldable pub front {ℓ} : {A : Type ℓ} → A → List A → List A
front x [] = []
front x (y ∷ ys) = x ∷ front y ys

-- `v[i] = v.back(); v.pop_back()`, of the entries from `i` on, after the one at `i` is given up.
unfoldable pub move_back {ℓ} : {A : Type ℓ} → List A → List A
unfolding back front
move_back [] = []
move_back (x ∷ xs) = back x xs ∷ front x xs

-- The entries from `i` on, the bits from `i` on, and the number removed so far.
pub record Removal {ℓ} (T : Type ℓ) : Type ℓ where
  pub txs : List T
  pub bits : List Bool
  pub num_removed : ℕ

-- The loop of `remove_confirmed_txs`, on what stands from `i` on: what stands before is not touched
-- again. Each round takes one entry from this part, so the number of bits is enough fuel.
unfoldable pub remove_from {ℓ} : {T : Type ℓ} → ℕ → List T → List Bool → Removal T
remove_from zero txs bits = record { txs = txs; bits = bits; num_removed = 0 }
remove_from (suc fuel) txs [] = record { txs = txs; bits = []; num_removed = 0 }
remove_from (suc fuel) [] (b ∷ bits) = record { txs = []; bits = b ∷ bits; num_removed = 0 }
remove_from (suc fuel) (t ∷ txs) (b ∷ bits) = elim b [
  | true ↦
      let rest = remove_from fuel (move_back txs) (move_back bits) in
      record rest { num_removed = rest.num_removed + 1 }
  | false ↦
      let rest = remove_from fuel txs bits in
      record rest { txs = t ∷ rest.txs; bits = false ∷ rest.bits }
]

unfoldable pub remove_confirmed_txs {ℓ} : {T : Type ℓ} → MempoolChunk T → MempoolChunk T × ℕ
remove_confirmed_txs c =
    let r = remove_from (length c.confirmed_txs_to_remove) c.txs c.confirmed_txs_to_remove in
    (record { txs = r.txs; confirmed_txs_to_remove = r.bits }, r.num_removed)

unfoldable pub clear_confirmed_txs_bitmap {ℓ} : {T : Type ℓ} → MempoolChunk T → MempoolChunk T
clear_confirmed_txs_bitmap c = record c { confirmed_txs_to_remove = [] }

-- `none` is the exception on a size mismatch.
unfoldable pub set_confirmed_txs {ℓ} :
    {T : Type ℓ} → MempoolChunk T → List Bool → Option (MempoolChunk T)
set_confirmed_txs c bitmap =
    if length bitmap == length c.txs
    then some (record c { confirmed_txs_to_remove = bitmap })
    else none

unfoldable pub size {ℓ} : {T : Type ℓ} → MempoolChunk T → ℕ
size c = length c.txs

unfoldable pub join {ℓ} : {T : Type ℓ} → MempoolChunk T → MempoolChunk T → MempoolChunk T
join c other = record {
  txs = c.txs ++ other.txs;
  confirmed_txs_to_remove = c.confirmed_txs_to_remove ++ other.confirmed_txs_to_remove;
}

-- `mempool_size` is the atomic counter of 64 bits.
pub record Mempool {ℓ} (T : Type ℓ) : Type ℓ where
  pub mempool : List (MempoolChunk T)
  pub buffered_mempool : List (MempoolChunk T)
  pub mempool_size : ℕ
  pub target_chunk_size : ℕ

unfoldable pub new {ℓ} : {T : Type ℓ} → ℕ → Mempool T
new target = record {
  mempool = [];
  buffered_mempool = [];
  mempool_size = 0;
  target_chunk_size = target;
}

unfoldable pub add_to_mempool_buffer {ℓ} : {T : Type ℓ} → Mempool T → List T → Mempool T
add_to_mempool_buffer m chunk = record m {
  buffered_mempool =
      m.buffered_mempool ++ record { txs = chunk; confirmed_txs_to_remove = [] } ∷ [];
}

-- The loop of `push_mempool_buffer_to_mempool`.
unfoldable pub push_chunks {ℓ} :
    {T : Type ℓ} → List (MempoolChunk T) → List (MempoolChunk T) → ℕ → List (MempoolChunk T) × ℕ
unfolding size
push_chunks [] mempool total = (mempool, total)
push_chunks (c ∷ cs) mempool total = push_chunks cs (mempool ++ c ∷ []) (add64 total (size c))

unfoldable pub push_mempool_buffer_to_mempool {ℓ} : {T : Type ℓ} → Mempool T → Mempool T
push_mempool_buffer_to_mempool m =
    let (mempool, total) = push_chunks m.buffered_mempool m.mempool m.mempool_size in
    record m { mempool = mempool; buffered_mempool = []; mempool_size = total }

-- The loop of `join_small_chunks`, on the chunks from `i` on: the one at `i` and those after it.
-- Each round takes away a chunk or moves on, so the number of chunks after it is enough fuel.
unfoldable pub join_from {ℓ} :
    {T : Type ℓ} → ℕ → ℕ → MempoolChunk T → List (MempoolChunk T) → List (MempoolChunk T)
unfolding size join move_back
join_from zero target c rest = c ∷ rest
join_from (suc fuel) target c [] = c ∷ []
join_from (suc fuel) target c (d ∷ rest) = elim (ltb (size c + size d) target) [
  | true ↦ join_from fuel target (join c d) (move_back rest)
  | false ↦ c ∷ join_from fuel target d rest
]

-- `none` is the read past the end on an empty mempool, where `mempool.size() - 1` wraps around.
unfoldable pub join_small_chunks {ℓ} : {T : Type ℓ} → Mempool T → Option (Mempool T)
join_small_chunks m = elim m.mempool [
  | [] ↦ none
  | c ∷ rest ↦ some (record m { mempool = join_from (length rest) m.target_chunk_size c rest })
]

-- The loop over the chunks, with the number of transactions deleted.
unfoldable pub remove_from_chunks {ℓ} :
    {T : Type ℓ} → List (MempoolChunk T) → List (MempoolChunk T) × ℕ
unfolding remove_confirmed_txs
remove_from_chunks [] = ([], 0)
remove_from_chunks (c ∷ cs) =
    let (d, deleted) = remove_confirmed_txs c in
    let (ds, others) = remove_from_chunks cs in (d ∷ ds, deleted + others)

-- `Mempool::remove_confirmed_txs`.
unfoldable pub remove_all_confirmed_txs {ℓ} : {T : Type ℓ} → Mempool T → Mempool T
remove_all_confirmed_txs m =
    let (chunks, deleted) = remove_from_chunks m.mempool in
    record m { mempool = chunks; mempool_size = sub64 m.mempool_size (u64 deleted) }

unfoldable pub clear_confirmed_txs_bitmaps {ℓ} : {T : Type ℓ} → Mempool T → Mempool T
clear_confirmed_txs_bitmaps m = record m { mempool = map clear_confirmed_txs_bitmap m.mempool }
