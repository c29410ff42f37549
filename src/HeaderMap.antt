-- ===== src/HeaderMap.antt =====
-- block_header_hash_map.h, block_header_hash_map.cc: the hashes of the blocks so far, in a trie with
-- the block number as key. The trie is given by the operations that the map uses of it. lmdb is not
-- modelled.
pub mod Laws
pub mod OverTrie
use speedex_parallelize.Base.{
  ℕ, Bool, true, false, ◌&&◌, Option, none, some, List, [], ◌∷◌, ltb, ◌==◌, if◌then◌else◌, add64,
}
use speedex_parallelize.Price.BigEndian.{write_unsigned_big_endian}

-- What the map uses of `MerkleTrie`.
pub record HashTrie {ℓ} (T : Type ℓ) : Type ℓ where
  pub insert : List ℕ → List ℕ → T → T
  pub perform_deletion : List ℕ → T → T
  pub get_value : List ℕ → T → Option (List ℕ)
  pub trie_size : T → ℕ

pub record BlockHeaderHashMap {ℓ} (T : Type ℓ) : Type ℓ where
  pub block_map : T
  pub last_committed_block_number : ℕ

unfoldable pub block_key : ℕ → List ℕ
block_key block_number = write_unsigned_big_endian 8 block_number

-- Whether the 32 bytes of a hash are all 0.
unfoldable pub is_zero_hash : List ℕ → Bool
is_zero_hash [] = true
is_zero_hash (b ∷ bytes) = (b == 0) && is_zero_hash bytes

module _ {ℓ} {T : Type ℓ} (ops : HashTrie T) where
  -- The case of block 0 in both calls: whether it is accepted, else an exception.
  unfoldable pub genesis_ok : BlockHeaderHashMap T → List ℕ → Bool
  unfolding is_zero_hash
  genesis_ok m block_hash =
      (m.last_committed_block_number == 0)
      && (ops.trie_size m.block_map == 0)
      && is_zero_hash block_hash

  -- `none` is an exception.
  unfoldable pub insert_for_production :
      BlockHeaderHashMap T → ℕ → List ℕ → Option (BlockHeaderHashMap T)
  unfolding genesis_ok block_key
  insert_for_production m block_number block_hash =
      if block_number == 0
      then (if genesis_ok m block_hash then some m else none)
      else if block_number == add64 m.last_committed_block_number 1
      then some (record {
        block_map = ops.insert (block_key block_number) block_hash m.block_map;
        last_committed_block_number = block_number;
      })
      else none

  -- `none` is an exception.
  unfoldable pub tentative_insert_for_validation :
      BlockHeaderHashMap T → ℕ → List ℕ → Option (BlockHeaderHashMap T × Bool)
  unfolding genesis_ok block_key
  tentative_insert_for_validation m block_number block_hash =
      if block_number == 0
      then (if genesis_ok m block_hash then some (m, true) else none)
      else if block_number == m.last_committed_block_number
      then some (
        record m { block_map = ops.insert (block_key block_number) block_hash m.block_map },
        true,
      )
      else some (m, false)

  unfoldable pub rollback_validation : BlockHeaderHashMap T → BlockHeaderHashMap T
  unfolding block_key
  rollback_validation m = record m {
    block_map =
        ops.perform_deletion (block_key (add64 m.last_committed_block_number 1)) m.block_map;
  }

  -- `none` is an exception.
  unfoldable pub finalize_validation : BlockHeaderHashMap T → ℕ → Option (BlockHeaderHashMap T)
  finalize_validation m finalized_block_number =
      if ltb finalized_block_number m.last_committed_block_number
      then none
      else some (record m { last_committed_block_number = finalized_block_number })

  unfoldable pub hash_of : BlockHeaderHashMap T → ℕ → Option (List ℕ)
  unfolding block_key
  hash_of m block_number = ops.get_value (block_key block_number) m.block_map
