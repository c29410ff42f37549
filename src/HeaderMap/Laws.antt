-- ===== src/HeaderMap/Laws.antt =====
-- Which hash the map holds after a rollback of validation (HeaderMap).
use speedex_parallelize.Base.{
  ℕ, ◌+◌, ◌<◌, ◌≡◌, length, sym, ap, ◌∙◌, ◌≢◌, true, some, List, arith, add64, IsWord,
}
use speedex_parallelize.Price.BigEndian.{
  read_unsigned_big_endian, read-write_unsigned_big_endian, write_unsigned_big_endian,
  length-write_bytes,
}
use speedex_parallelize.HeaderMap.{
  HashTrie, BlockHeaderHashMap, block_key, tentative_insert_for_validation, rollback_validation,
  hash_of,
}

-- What the map relies on, in terms of the entries that a trie holds. A trie that `HasRoom` can take one
-- more key. `get_value` is only promised for a key that the trie holds.
pub record EntryLaws {ℓ} {T : Type ℓ} (ops : HashTrie T) : Type (ℓ ⊔ 1) where
  pub HasRoom : T → Type 0
  pub Holds : T → List ℕ → List ℕ → Type 0
  pub insert-Holds :
      (k v : List ℕ) (t : T) → length k ≡ 8 → HasRoom t → Holds (ops.insert k v t) k v
  pub perform_deletion-Holds :
      (k j v : List ℕ) (t : T)
      → length k ≡ 8
      → k ≢ j
      → Holds t j v
      → Holds (ops.perform_deletion k t) j v
  pub get_value-Holds : (k v : List ℕ) (t : T) → Holds t k v → ops.get_value k t ≡ some v

length-block_key : (n : ℕ) → length (block_key n) ≡ 8
unfolding block_key write_unsigned_big_endian
length-block_key n = length-write_bytes 8 n

block_key_ne : (m n : ℕ) → IsWord m → IsWord n → m ≢ n → block_key m ≢ block_key n
unfolding block_key
block_key_ne m n hm hn ne e = ne (
    sym (read-write_unsigned_big_endian 8 m (omega arith))
    ∙ (ap (λ (bytes : List ℕ). read_unsigned_big_endian 8 bytes) e
        ∙ read-write_unsigned_big_endian 8 n (omega arith)))

-- Over a trie with the laws of entries that has room for a key, and with a last committed block that is
-- not block 0: validation inserts a hash for that block, and the rollback of validation that follows
-- does not take it out again.
pub rollback_validation-tentative_insert {ℓ} :
    {T : Type ℓ} (ops : HashTrie T) (laws : EntryLaws ops) (m : BlockHeaderHashMap T)
    (hash : List ℕ)
    → laws.HasRoom m.block_map
    → 0 < m.last_committed_block_number
    → IsWord (m.last_committed_block_number + 1)
    → (m' : BlockHeaderHashMap T) × (tentative_insert_for_validation ops m
          m.last_committed_block_number hash
        ≡ some (m', true))
      × (hash_of ops (rollback_validation ops m') m.last_committed_block_number ≡ some hash)
unfolding tentative_insert_for_validation hash_of rollback_validation
rollback_validation-tentative_insert ops laws m hash room pos word =
    let n = m.last_committed_block_number in
    let t = ops.insert (block_key n) hash m.block_map in
    let next : add64 n 1 ≡ n + 1 = omega arith in
    (
      record m { block_map = t },
      ground arith,
      rw next (
          laws.get_value-Holds (block_key n) hash (ops.perform_deletion (block_key (n + 1)) t) (
            laws.perform_deletion-Holds (block_key (n + 1)) (block_key n) hash t
              (length-block_key (n + 1))
              (block_key_ne (n + 1) n word (omega arith) (λ e. omega arith))
              (laws.insert-Holds (block_key n) hash m.block_map (length-block_key n) room))),
    )
