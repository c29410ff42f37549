-- ===== src/Tests/Rollback.antt =====
-- A rollback of an order book over two blocks (Orders/Commit).
use speedex_parallelize.Base.{◌>>=◌, ◌≡◌, refl, false, some, [], ◌∷◌, arith}
use speedex_parallelize.Xdr.{sell}
use speedex_parallelize.Orders.{MerkleWorkUnit, WorkUnitThunk, no_partial_exec, offer_key}
use speedex_parallelize.Orders.Commit.{undo_thunk, undo_thunks, undo_clearing, rollback_thunks}
use speedex_parallelize.Orders.Commit.Rollback.{undo_all, rollback_thunks_lem}
use speedex_parallelize.Tests.Books.{Entries, list_trie, an_offer}

-- Block 5 adds an offer, and block 6 deletes it.
abbrev adds : WorkUnitThunk Entries
adds = record {
  partial = no_partial_exec;
  uncommitted_offers_vec = an_offer 8 ∷ [];
  cleared_offers = [];
  deleted_keys = [];
  current_block_number = 5;
}

abbrev deletes : WorkUnitThunk Entries
deletes = record {
  partial = no_partial_exec;
  uncommitted_offers_vec = [];
  cleared_offers = [];
  deleted_keys = (offer_key (an_offer 8), an_offer 8) ∷ [];
  current_block_number = 6;
}

abbrev after_both : MerkleWorkUnit Entries
after_both = record {
  category = record { sell_asset = 1; buy_asset = 0; type = sell };
  committed_offers = [];
  uncommitted_offers = [];
  thunks = adds ∷ deletes ∷ [];
  indexed_metadata = [];
}

rollback_thunks_lem_example : rollback_thunks list_trie 3 4 after_both ≡ (
    undo_all list_trie (adds ∷ deletes ∷ []) [] >>= λ trie.
    some (record after_both { committed_offers = trie; thunks = [] }))
rollback_thunks_lem_example = rollback_thunks_lem list_trie 3 4 after_both (omega arith)

-- The book was empty before block 5, and has the offer after the rollback to block 4.
offer_stays :
    rollback_thunks list_trie 3 4 after_both
    ≡ some (record after_both {
      committed_offers = (offer_key (an_offer 8), (an_offer 8, false)) ∷ [];
      thunks = [];
    })
unfolding rollback_thunks undo_thunks undo_thunk undo_clearing
offer_stays = refl
