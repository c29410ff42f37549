-- ===== src/Tests/Headers.antt =====
-- A concrete map of block hashes, over an empty trie.
use speedex_parallelize.Base.{◌≡◌, true, some, inl, refl, [], ◌∷◌, arith}
use speedex_parallelize.HeaderMap.{
  BlockHeaderHashMap, tentative_insert_for_validation, rollback_validation, hash_of,
}
use speedex_parallelize.HeaderMap.Laws.{rollback_validation-tentative_insert}
use speedex_parallelize.HeaderMap.OverTrie.{HashStore, over_trie, over_trie-EntryLaws}
use speedex_parallelize.MerkleTrie.{make_empty_node}

-- The map at block 3.
abbrev at_block_3 : BlockHeaderHashMap HashStore
at_block_3 = record {
  block_map = record { root = make_empty_node; hashes = [] };
  last_committed_block_number = 3;
}

rollback_validation-tentative_insert_example :
    (m' : BlockHeaderHashMap HashStore) × (tentative_insert_for_validation over_trie at_block_3 3
        (8 ∷ [])
      ≡ some (m', true))
    × (hash_of over_trie (rollback_validation over_trie m') 3 ≡ some (8 ∷ []))
rollback_validation-tentative_insert_example =
    rollback_validation-tentative_insert over_trie over_trie-EntryLaws at_block_3 (8 ∷ [])
      (inl refl, tt, omega arith) (omega arith) (omega arith)
