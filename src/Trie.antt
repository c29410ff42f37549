-- ===== src/Trie.antt =====
-- What the order books use of `MerkleTrie` (implementation/src/merkle_trie.h): an interface, over the
-- tries that hold offers by keys of 22 bytes. An operation that changes the trie gives the new trie
-- beside its result. Hashes are not part of it, and neither are the exceptions that `insert` and `merge_in`
-- can raise on a trie that is not well formed: on a well-formed one an insertion raises none
-- (MerkleTrie/Insert/Laws).
use speedex_parallelize.Base.{ℕ, Option, List}
use speedex_parallelize.Xdr.{Offer}

-- A price, and the sum of the amounts that the trie offers at it.
pub record PriceLevel : Type 0 where
  pub price : ℕ
  pub endow : ℕ

-- `insert` overwrites. `perform_marked_deletions` gives the keys and offers that it deletes.
-- `endow_split` gives the trie that stays and the one that is split off; `none` is an exception.
-- `values` has the offers in the order in which `apply` and `accumulate_values` meet them, and
-- `price_levels` the nodes at which `metadata_traversal` stops.
pub record OfferTrie {ℓ} (T : Type ℓ) : Type ℓ where
  pub empty : T
  pub insert : List ℕ → Offer → T → T
  pub perform_deletion : List ℕ → T → T × Option Offer
  pub mark_for_deletion : List ℕ → T → T × Option Offer
  pub unmark_for_deletion : List ℕ → T → T × Option Offer
  pub perform_marked_deletions : T → T × List (List ℕ × Offer)
  pub merge_in : T → T → T
  pub do_rollback : T → T
  pub clear_rollback : T → T
  pub clean_singlechild_nodes : List ℕ → T → T
  pub values : T → List Offer
  pub price_levels : T → List PriceLevel
  pub size : T → ℕ
  pub root_endow : T → ℕ
  pub endow_lt_key : List ℕ → T → ℕ
  pub endow_split : ℕ → T → Option (T × T)
  pub get_lowest_key : T → Option (List ℕ)
