-- ===== src/Tests/Pending.antt =====
-- A concrete mempool, with numbers for transactions.
use speedex_parallelize.Base.{
  ℕ, ◌≡◌, refl, inl, inr, Bool, true, false, some, List, [], ◌∷◌, length,
}
use speedex_parallelize.Mempool.{
  MempoolChunk, Mempool, remove_confirmed_txs, remove_all_confirmed_txs,
  push_mempool_buffer_to_mempool, join_small_chunks, remove_from, move_back, front, back,
}
use speedex_parallelize.Mempool.Confirmed.{
  count_set, count, count_unconfirmed, SizeOk, remove_confirmed_txs_lem, mempool_size_lem,
}
use speedex_parallelize.Mempool.Joining.{NoSmallNeighbours, count_all, join_small_chunks_lem}

abbrev chunk_of_4 : MempoolChunk ℕ
chunk_of_4 = record {
  txs = 10 ∷ 20 ∷ 30 ∷ 40 ∷ [];
  confirmed_txs_to_remove = true ∷ false ∷ false ∷ true ∷ [];
}

abbrev chunk_of_2 : MempoolChunk ℕ
chunk_of_2 = record { txs = 50 ∷ 60 ∷ []; confirmed_txs_to_remove = [] }

abbrev three_chunks : Mempool ℕ
three_chunks = record {
  mempool = chunk_of_2 ∷ chunk_of_4 ∷ [];
  buffered_mempool = chunk_of_2 ∷ [];
  mempool_size = 6;
  target_chunk_size = 7;
}

remove_confirmed_txs_lem_example :
    let r = remove_confirmed_txs chunk_of_4 in
    (r.1 ≡ 2)
    × (count_set r.0.confirmed_txs_to_remove ≡ 0)
    × (length r.0.confirmed_txs_to_remove ≡ length r.0.txs)
    × ((f : ℕ → Bool)
        → count f r.0.txs ≡ count_unconfirmed f chunk_of_4.txs chunk_of_4.confirmed_txs_to_remove)
remove_confirmed_txs_lem_example = remove_confirmed_txs_lem chunk_of_4 refl

left_of_4 : (remove_confirmed_txs chunk_of_4).0.txs ≡ (30 ∷ 20 ∷ [])
unfolding remove_confirmed_txs remove_from move_back front back
left_of_4 = refl

mempool_size_lem_example :
    SizeOk (push_mempool_buffer_to_mempool three_chunks)
    × SizeOk (remove_all_confirmed_txs three_chunks)
mempool_size_lem_example = mempool_size_lem three_chunks refl (inr refl, (inl refl, tt))

join_small_chunks_lem_example :
    (first : MempoolChunk ℕ) × (others : List (MempoolChunk ℕ)) × (join_small_chunks three_chunks
      ≡ some (record three_chunks { mempool = first ∷ others }))
    × NoSmallNeighbours 7 first others
    × ((f : ℕ → Bool) → count_all f (first ∷ others) ≡ count_all f three_chunks.mempool)
join_small_chunks_lem_example = join_small_chunks_lem three_chunks chunk_of_2 (chunk_of_4 ∷ []) refl
