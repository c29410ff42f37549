-- ===== src/Tests/Tries.antt =====
-- Concrete tries, with keys of two digits.
use speedex_parallelize.Base.{ℕ, ◌≡◌, refl, inl, inr, true, false, ◌||◌, none, some, [], ◌∷◌, arith}
use speedex_parallelize.MerkleTrie.{
  Metadata, add, match_len, less, Node, leaf, branch, no_more, child, make_empty_node,
}
use speedex_parallelize.Xdr.{Offer}
use speedex_parallelize.MerkleTrie.Invariant.{entries, IsWellFormed, IsTrie}
use speedex_parallelize.MerkleTrie.Keys.{remove}
use speedex_parallelize.MerkleTrie.{new_metadata}
use speedex_parallelize.Xdr.{Offer, sell}
use speedex_parallelize.MerkleTrie.Insert.{insert_node}
use speedex_parallelize.MerkleTrie.Insert.Laws.{insert_node_lem}
use speedex_parallelize.MerkleTrie.Ordered.{put}
use speedex_parallelize.MerkleTrie.Read.{contains_key, get_value, endow_lt_key}
use speedex_parallelize.MerkleTrie.Read.Laws.{contains_key-has_key}
use speedex_parallelize.MerkleTrie.Read.Amounts.{endow_lt_key-entries_lt}
use speedex_parallelize.MerkleTrie.Delete.{delete_key}
use speedex_parallelize.MerkleTrie.Delete.Laws.{delete_key_lem}
use speedex_parallelize.MerkleTrie.Mark.{mark_for_deletion, unmark_for_deletion}
use speedex_parallelize.MerkleTrie.Mark.Counts.{exchange_at}
use speedex_parallelize.MerkleTrie.Mark.Back.{
  mark_for_deletion_lem, unmark_for_deletion-mark_for_deletion,
}
use speedex_parallelize.MerkleTrie.Sweep.{perform_marked_deletions, do_rollback}
use speedex_parallelize.MerkleTrie.Sweep.Marks.{unmarked_entries}
use speedex_parallelize.MerkleTrie.Sweep.Wrappers.{
  deleted, rolled_back, perform_marked_deletions_lem, do_rollback_lem,
  do_rollback-insert_node_empty,
}
use speedex_parallelize.MerkleTrie.Split.{split_trie}
use speedex_parallelize.MerkleTrie.Split.Wrapper.{Parted, split_trie-Parted}
use speedex_parallelize.MerkleTrie.Lookup.{contains_key-insert_node, delete_key-insert_node}

abbrev offer_of : ℕ → Offer
offer_of n = record {
  category = record { sell_asset = 0; buy_asset = 1; type = sell };
  offer_id = n;
  owner = 7;
  amount = n;
  min_price = 1;
}

abbrev counts : ℕ → ℕ → ℕ → ℕ → Metadata
counts d s r e = record { num_deleted_subnodes = d; size = s; num_rollback_subnodes = r; endow = e }

-- Offers of 10, 20 and 30, of which the first is marked for deletion and the second was put in by a block that may be rolled back.
abbrev three : Node
three = branch [] (counts 1 3 1 60) (
    child 1
      (branch (1 ∷ []) (counts 1 2 1 30) (
        child 2 (leaf (1 ∷ 2 ∷ []) (counts 1 1 0 10) (offer_of 10))
          (child 5 (leaf (1 ∷ 5 ∷ []) (counts 0 1 1 20) (offer_of 20)) no_more)))
      (child 3 (leaf (3 ∷ 0 ∷ []) (counts 0 1 0 30) (offer_of 30)) no_more))

three-IsWellFormed : IsWellFormed 2 three
unfolding add match_len
three-IsWellFormed = (
  omega arith,
  omega arith,
  refl,
  (
    omega arith,
    (refl, refl),
    (
      omega arith,
      omega arith,
      refl,
      (omega arith, (refl, refl), refl, (omega arith, (refl, refl), refl, tt)),
    ),
    (omega arith, (refl, refl), refl, tt),
  ),
)

-- The test runs the operations.
insert_runs :
    insert_node false (1 ∷ 7 ∷ []) (offer_of 5) three
    ≡ some (
      branch [] (counts 1 4 1 65) (
          child 1
            (branch (1 ∷ []) (counts 1 3 1 35) (
              child 2 (leaf (1 ∷ 2 ∷ []) (counts 1 1 0 10) (offer_of 10)) (
                child 5
                  (leaf (1 ∷ 5 ∷ []) (counts 0 1 1 20) (offer_of 20))
                  (child 7 (leaf (1 ∷ 7 ∷ []) (counts 0 1 0 5) (offer_of 5)) no_more))))
            (child 3 (leaf (3 ∷ 0 ∷ []) (counts 0 1 0 30) (offer_of 30)) no_more)),
      counts 0 1 0 5,
    )
unfolding insert_node
insert_runs = refl

-- A key that the trie does not contain has the value of another.
get_value_runs : get_value (3 ∷ 9 ∷ []) three ≡ some (offer_of 30)
unfolding get_value
get_value_runs = refl

-- A trie that is split at 15 gives its first entry.
split_runs :
    elim (split_trie 15 three) [ none ↦ [] | some r ↦ entries r.1 ]
    ≡ record { key = 1 ∷ 2 ∷ []; metadata = counts 1 1 0 10; value = offer_of 10 } ∷ []
unfolding split_trie
split_runs = refl

insert_node_lem_example :
    (root' : Node) × (delta : Metadata) × (insert_node true (1 ∷ 7 ∷ []) (offer_of 5) three
      ≡ some (root', delta))
    × IsWellFormed 2 root'
    × (entries root'
        ≡ put
            (record {
              key = 1 ∷ 7 ∷ [];
              metadata = new_metadata true (offer_of 5);
              value = offer_of 5;
            })
            (entries three))
insert_node_lem_example =
    insert_node_lem 2 true (1 ∷ 7 ∷ []) (offer_of 5) three refl (omega arith)
      (inr three-IsWellFormed)

contains_key-has_key_example : contains_key (1 ∷ 5 ∷ []) three ≡ true
contains_key-has_key_example =
    contains_key-has_key 2 (1 ∷ 5 ∷ []) three refl (inr three-IsWellFormed)

endow_lt_key-entries_lt_example : endow_lt_key (3 ∷ 0 ∷ []) three ≡ 30
unfolding less
endow_lt_key-entries_lt_example =
    endow_lt_key-entries_lt 2 (3 ∷ 0 ∷ []) three refl (inr three-IsWellFormed) (omega arith)

delete_key_lem_example :
    IsTrie 2 (delete_key (1 ∷ 5 ∷ []) three).0
    × (entries (delete_key (1 ∷ 5 ∷ []) three).0 ≡ remove (1 ∷ 5 ∷ []) (entries three))
    × ((delete_key (1 ∷ 5 ∷ []) three).1 ≡ some (offer_of 20))
delete_key_lem_example =
    delete_key_lem 2 (1 ∷ 5 ∷ []) three refl (inr three-IsWellFormed) (refl, (refl, (refl, tt)))
      (omega arith)

mark_for_deletion_lem_example :
    IsWellFormed 2 (mark_for_deletion (3 ∷ 0 ∷ []) three).node
    × (entries (mark_for_deletion (3 ∷ 0 ∷ []) three).node
        ≡ exchange_at 0 1 (3 ∷ 0 ∷ []) (entries three))
    × ((mark_for_deletion (3 ∷ 0 ∷ []) three).deleted_obj ≡ some (offer_of 30))
mark_for_deletion_lem_example = mark_for_deletion_lem 2 (3 ∷ 0 ∷ []) three refl three-IsWellFormed

mark_runs : (mark_for_deletion (3 ∷ 0 ∷ []) three).deleted_obj ≡ some (offer_of 30)
unfolding mark_for_deletion
mark_runs = refl

unmark_for_deletion-mark_for_deletion_example :
    ((unmark_for_deletion (3 ∷ 0 ∷ []) (mark_for_deletion (3 ∷ 0 ∷ []) three).node).deleted_obj
      ≡ some (offer_of 30))
    × (entries (unmark_for_deletion (3 ∷ 0 ∷ []) (mark_for_deletion (3 ∷ 0 ∷ []) three).node).node
        ≡ entries three)
unmark_for_deletion-mark_for_deletion_example =
    unmark_for_deletion-mark_for_deletion 2 (3 ∷ 0 ∷ []) three (offer_of 30) refl three-IsWellFormed
      mark_runs

perform_marked_deletions_lem_example :
    (root' : Node) × (perform_marked_deletions three ≡ some (root', (1 ∷ 2 ∷ [], offer_of 10) ∷ []))
    × IsTrie 2 root'
    × (entries root' ≡ unmarked_entries deleted (entries three))
perform_marked_deletions_lem_example =
    perform_marked_deletions_lem 2 three (inr three-IsWellFormed)
      (omega arith, (omega arith, (omega arith, tt))) (omega arith)

do_rollback_lem_example :
    (root' : Node) × (do_rollback three ≡ some root')
    × IsWellFormed 2 root'
    × (entries root' ≡ unmarked_entries rolled_back (entries three))
do_rollback_lem_example =
    do_rollback_lem 2 three three-IsWellFormed (omega arith, (omega arith, (omega arith, tt)))
      (omega arith) (λ e. cc)

alone_runs :
    insert_node true (1 ∷ 2 ∷ []) (offer_of 10) make_empty_node
    ≡ some (leaf (1 ∷ 2 ∷ []) (counts 0 1 1 10) (offer_of 10), counts 0 1 1 10)
unfolding insert_node
alone_runs = refl

not_in_empty : contains_key (1 ∷ 2 ∷ []) make_empty_node ≡ false
unfolding contains_key
not_in_empty = refl

do_rollback-insert_node_empty_example :
    (do_rollback (leaf (1 ∷ 2 ∷ []) (counts 0 1 1 10) (offer_of 10))
      ≡ some (leaf (1 ∷ 2 ∷ []) (counts 0 1 1 10) (offer_of 10)))
    × (some (offer_of 10) ≡ some (offer_of 10))
do_rollback-insert_node_empty_example =
    do_rollback-insert_node_empty (1 ∷ 2 ∷ []) (offer_of 10)
      (leaf (1 ∷ 2 ∷ []) (counts 0 1 1 10) (offer_of 10)) (counts 0 1 1 10) alone_runs

split_trie-Parted_example : (stay out : Node) × Parted 2 15 three stay out
split_trie-Parted_example =
    split_trie-Parted 2 15 three (inr three-IsWellFormed) (omega arith) (omega arith)

contains_key-insert_node_example :
    (root' : Node) × (delta : Metadata) × (insert_node true (1 ∷ 7 ∷ []) (offer_of 5) three
      ≡ some (root', delta))
    × (contains_key (1 ∷ 5 ∷ []) root' ≡ (false || contains_key (1 ∷ 5 ∷ []) three))
contains_key-insert_node_example =
    contains_key-insert_node 2 true (1 ∷ 7 ∷ []) (1 ∷ 5 ∷ []) (offer_of 5) three refl refl
      (omega arith) (inr three-IsWellFormed)

delete_key-insert_node_example :
    ((delete_key (1 ∷ 2 ∷ []) (leaf (1 ∷ 2 ∷ []) (counts 0 1 1 10) (offer_of 10))).1
      ≡ some (offer_of 10))
    × (entries (delete_key (1 ∷ 2 ∷ []) (leaf (1 ∷ 2 ∷ []) (counts 0 1 1 10) (offer_of 10))).0 ≡ [])
delete_key-insert_node_example =
    delete_key-insert_node 2 true (1 ∷ 2 ∷ []) (offer_of 10) make_empty_node
      (leaf (1 ∷ 2 ∷ []) (counts 0 1 1 10) (offer_of 10)) (counts 0 1 1 10) refl (omega arith)
      (inl refl) not_in_empty alone_runs (refl, tt) (omega arith)
