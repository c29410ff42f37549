-- ===== src/MerkleTrie/Split.antt =====
-- `endow_split` (implementation/src/merkle_trie.h): the lowest keys of a trie, as far as their amounts go.
pub mod Amounts
pub mod Parts
pub mod Whole
pub mod Laws
pub mod Wrapper
use speedex_parallelize.Base.{
  signed_leb, signed_ltb, ℕ, zero, ◌>>=◌, suc, ◌+◌, ◌-◌, ◌*◌, ◌/◌, ◌%◌, ◌^◌, ◌≤◌, ◌<◌, ◌≡◌, refl,
  sym, ap, ◌∙◌, ◌≢◌, ◌↔◌, ◌⊎◌, inl, inr, Bool, true, false, ◌&&◌, ◌||◌, not, Option, none, some,
  List, [], ◌∷◌, ◌++◌, map, arith, ltb, leb, ◌==◌, if◌then◌else◌, Bool-cases, Option-cases, length,
  get_elem?, set, get_or, take, drop, replicate, length-append, length-set, length-map,
  length-replicate, u64, add64, sub64, neg64, is_negative, IsWord, IsNonneg, get_or-set,
  get_or-append-replicate, get_or-append_right, get_or-append_left, set-append_right,
  set-append_left,
}
use speedex_parallelize.MerkleTrie.{
  Metadata, no_metadata, add, negate, match_len, less, Node, leaf, branch, Children, no_more, child,
  make_empty_node, metadata_of, prefix_of, is_empty, contract, Entry, count,
}
use speedex_parallelize.Xdr.{Offer}
use speedex_parallelize.MerkleTrie.Invariant.{sum}

-- What stays, what is split off, and the change of the metadata of what stays.
pub record SplitBelow : Type 0 where
  pub stay : Children
  pub taken : Children
  pub delta : Metadata

abbrev pub nothing_taken : Children → SplitBelow
nothing_taken cs = record { stay = cs; taken = no_more; delta = no_metadata }

-- `duplicate_node_with_new_children` with `compute_partial_metadata_unsafe`, unless nothing is taken.
unfoldable pub split_branch : List ℕ → Metadata → SplitBelow → Node × Option Node
unfolding add
split_branch p m r = (
  branch p (add m r.delta) r.stay,
  if is_empty r.taken then none else some (branch p (sum r.taken) r.taken),
)

unfoldable pub take_child : ℕ → Node → SplitBelow → SplitBelow
unfolding add negate
take_child c n rest = record {
  stay = rest.stay;
  taken = child c n rest.taken;
  delta = add (negate (metadata_of n)) rest.delta;
}

unfoldable pub split_child : ℕ → Node × Option Node → SplitBelow → SplitBelow
unfolding add negate contract
split_child c (n, none) rest = record rest { stay = child c (contract n) rest.stay }
split_child c (n, some split_obj) rest = record {
  stay = child c (contract n) rest.stay;
  taken = child c split_obj rest.taken;
  delta = add (negate (metadata_of split_obj)) rest.delta;
}

-- Of the loop over the children the arguments are `endow_threshold` and `acc_endow`. `none` is an exception.
unfoldable mutual
  unfolding split_branch take_child split_child

  pub endow_split : ℕ → Node → Option (Node × Option Node)
  endow_split threshold (leaf p m v) = some (leaf p m v, none)
  endow_split threshold (branch p m cs) =
      let below = split_below threshold 0 cs in
      if is_empty cs
      then some (branch p m cs, none)
      else if signed_leb m.endow threshold || is_negative threshold
      then none
      else do r ← below; some (split_branch p m r)

  pub split_below : ℕ → ℕ → Children → Option SplitBelow
  split_below threshold acc no_more = some (nothing_taken no_more)
  split_below threshold acc (child c n cs) =
      let fully_consumed_subtree = add64 acc (metadata_of n).endow in
      let inside = endow_split (sub64 threshold acc) n in
      let behind = split_below threshold fully_consumed_subtree cs in
      if not (c == 0) && signed_leb threshold acc
      then some (nothing_taken (child c n cs))
      else if signed_leb fully_consumed_subtree threshold
      then (do rest ← behind; some (take_child c n rest))
      else do parts ← inside; rest ← behind; some (split_child c parts rest)

-- `MerkleTrie::endow_split`: what stays and what it returns. `none` is an exception.
unfoldable pub split_trie : ℕ → Node → Option (Node × Node)
unfolding contract endow_split
split_trie threshold root =
    if threshold == 0
    then some (root, make_empty_node)
    else if signed_ltb (metadata_of root).endow threshold
    then none
    else if threshold == (metadata_of root).endow
    then some (make_empty_node, root)
    else do
      (node, split_obj) ← endow_split threshold root
      some (contract node, (elim split_obj [ none ↦ make_empty_node | some out ↦ out ]))
