-- ===== src/MerkleTrie/Sweep.antt =====
-- `perform_marked_deletions` and `do_rollback` (implementation/src/merkle_trie.h), which delete the leaves
-- that a count of their metadata marks.
pub mod Marks
pub mod Parts
pub mod Laws
pub mod Wrappers
use speedex_parallelize.Base.{
  ℕ, zero, ◌>>=◌, suc, ◌+◌, ◌-◌, ◌*◌, ◌/◌, ◌%◌, ◌^◌, ◌≤◌, ◌<◌, ◌≡◌, refl, sym, ap, ◌∙◌, ◌≢◌, ◌↔◌,
  ◌⊎◌, inl, inr, Bool, true, false, ◌&&◌, ◌||◌, not, Option, none, some, List, [], ◌∷◌, ◌++◌, map,
  arith, ltb, leb, ◌==◌, if◌then◌else◌, Bool-cases, Option-cases, length, get_elem?, set, get_or,
  take, drop, replicate, length-append, length-set, length-map, length-replicate, u64, add64, sub64,
  neg64, is_negative, IsWord, IsNonneg, get_or-set, get_or-append-replicate, get_or-append_right,
  get_or-append_left, set-append_right, set-append_left,
}
use speedex_parallelize.MerkleTrie.{
  Metadata, no_metadata, add, negate, match_len, less, Node, leaf, branch, Children, no_more, child,
  make_empty_node, metadata_of, prefix_of, is_empty, contract, Entry, count,
}
use speedex_parallelize.Xdr.{Offer}

-- The node, whether to delete it, the change of the metadata, and what the handler of side effects was
-- given, in order.
pub record Swept : Type 0 where
  pub node : Node
  pub delete : Bool
  pub metadata_delta : Metadata
  pub handled : List (List ℕ × Offer)

pub record SweptBelow : Type 0 where
  pub children : Children
  pub metadata_delta : Metadata
  pub handled : List (List ℕ × Offer)

abbrev pub untouched : Node → Swept
untouched n = record { node = n; delete = false; metadata_delta = no_metadata; handled = [] }

unfoldable pub sweep_leaf : ℕ → List ℕ → Metadata → Offer → Option Swept
unfolding negate
sweep_leaf marks p m v =
    if marks == 0
    then some (untouched (leaf p m v))
    else if marks == 1
    then some (record {
      node = leaf p m v;
      delete = true;
      metadata_delta = negate m;
      handled = (p, v) ∷ [];
    })
    else none

unfoldable pub sweep_branch : ℕ → List ℕ → Metadata → Children → Option SweptBelow → Option Swept
unfolding add
sweep_branch marks p m cs below = if marks == 0 then some (untouched (branch p m cs)) else do
  r ← below
  some (record {
    node = branch p (add m r.metadata_delta) r.children;
    delete = is_empty r.children;
    metadata_delta = r.metadata_delta;
    handled = r.handled;
  })

-- The child at `c` and those behind it.
unfoldable pub sweep_child : ℕ → Swept → SweptBelow → SweptBelow
unfolding add contract
sweep_child c r rest = record {
  children = if r.delete then rest.children else child c (contract r.node) rest.children;
  metadata_delta = add r.metadata_delta rest.metadata_delta;
  handled = r.handled ++ rest.handled;
}

-- `none` is an exception. The change of the metadata of children is the sum of theirs.
unfoldable mutual
  unfolding sweep_leaf sweep_branch sweep_child

  pub sweep : (Metadata → ℕ) → Node → Option Swept
  sweep marks (leaf p m v) = sweep_leaf (marks m) p m v
  sweep marks (branch p m cs) = sweep_branch (marks m) p m cs (sweep_below marks cs)

  pub sweep_below : (Metadata → ℕ) → Children → Option SweptBelow
  sweep_below marks no_more =
      some (record { children = no_more; metadata_delta = no_metadata; handled = [] })
  sweep_below marks (child c n cs) = do
    r ← sweep marks n
    rest ← sweep_below marks cs
    some (sweep_child c r rest)

-- `perform_marked_deletions` and `do_rollback` of a node. A negative count at a leaf is an exception here for
-- both; `do_rollback` does not test for it.
abbrev pub sweep_marked : Node → Option Swept
sweep_marked n = sweep (λ m. m.num_deleted_subnodes) n

abbrev pub sweep_rollback : Node → Option Swept
sweep_rollback n = sweep (λ m. m.num_rollback_subnodes) n

-- `MerkleTrie::perform_marked_deletions`.
unfoldable pub perform_marked_deletions : Node → Option (Node × List (List ℕ × Offer))
unfolding contract sweep
perform_marked_deletions root =
    if (metadata_of root).num_deleted_subnodes == 0 then some (root, []) else do
      r ← sweep_marked root
      some (contract (if r.delete then make_empty_node else r.node), r.handled)

-- `MerkleTrie::do_rollback`, which does not use what `do_rollback` of the root returns.
unfoldable pub do_rollback : Node → Option Node
unfolding contract sweep
do_rollback root = do r ← sweep_rollback root; some (contract r.node)
