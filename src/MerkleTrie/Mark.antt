-- ===== src/MerkleTrie/Mark.antt =====
-- Marks for deletion (implementation/src/merkle_trie.h).
pub mod Counts
pub mod Laws
pub mod Back
use speedex_parallelize.Base.{
  ℕ, zero, ◌>>=◌, suc, ◌+◌, ◌-◌, ◌*◌, ◌/◌, ◌%◌, ◌^◌, ◌≤◌, ◌<◌, ◌≡◌, refl, sym, ap, ◌∙◌, ◌≢◌, ◌↔◌,
  ◌⊎◌, inl, inr, Bool, true, false, ◌&&◌, ◌||◌, not, Option, none, some, List, [], ◌∷◌, ◌++◌, map,
  arith, ltb, leb, ◌==◌, if◌then◌else◌, Bool-cases, Option-cases, length, get_elem?, set, get_or,
  take, drop, replicate, length-append, length-set, length-map, length-replicate, u64, add64, sub64,
  neg64, is_negative, IsWord, IsNonneg, get_or-set, get_or-append-replicate, get_or-append_right,
  get_or-append_left, set-append_right, set-append_left,
}
use speedex_parallelize.MerkleTrie.{
  Metadata, no_metadata, add, negate, match_len, less, Node, leaf, branch, Children, no_more, child,
  make_empty_node, metadata_of, prefix_of, is_empty, contract, Entry, count,
}
use speedex_parallelize.Xdr.{Offer}

-- `compare_exchange` of `num_deleted_subnodes`, which gives the metadata and whether it was as expected.
unfoldable pub compare_exchange : ℕ → ℕ → Metadata → Metadata × Bool
compare_exchange expect desired m =
    if m.num_deleted_subnodes == expect
    then (record m { num_deleted_subnodes = desired }, true)
    else (m, false)

-- The change of the metadata above a leaf.
unfoldable pub meta_out : ℕ → Bool → Metadata
meta_out change res = record no_metadata { num_deleted_subnodes = if res then change else 0 }

-- The node after it, the change of the metadata, and the offer.
pub record Marked : Type 0 where
  pub node : Node
  pub metadata_change : Metadata
  pub deleted_obj : Option Offer

pub record MarkedBelow : Type 0 where
  pub children : Children
  pub metadata_change : Metadata
  pub deleted_obj : Option Offer

abbrev pub unmarked : Node → Marked
unmarked n = record { node = n; metadata_change = no_metadata; deleted_obj = none }

-- At a leaf: `change` is what goes up when the count was as expected.
unfoldable pub mark_leaf : ℕ → ℕ → ℕ → List ℕ → Metadata → Offer → Marked
unfolding compare_exchange meta_out
mark_leaf expect desired change p m v =
    let (m', res) = compare_exchange expect desired m in
    record {
      node = leaf p m' v;
      metadata_change = meta_out change res;
      deleted_obj = if res then some v else none;
    }

unfoldable pub mark_in : List ℕ → Metadata → Children → Option MarkedBelow → Marked
unfolding add
mark_in p m cs none = unmarked (branch p m cs)
mark_in p m cs (some r) = record {
  node = branch p (add m r.metadata_change) r.children;
  metadata_change = r.metadata_change;
  deleted_obj = r.deleted_obj;
}

abbrev pub marked_here : ℕ → Children → Marked → MarkedBelow
marked_here c cs r = record {
  children = child c r.node cs;
  metadata_change = r.metadata_change;
  deleted_obj = r.deleted_obj;
}

abbrev pub marked_behind : ℕ → Node → MarkedBelow → MarkedBelow
marked_behind c n r = record {
  children = child c n r.children;
  metadata_change = r.metadata_change;
  deleted_obj = r.deleted_obj;
}

-- What `mark_for_deletion` and `unmark_for_deletion` share.
unfoldable mutual
  unfolding match_len mark_leaf mark_in

  pub mark_node : ℕ → ℕ → ℕ → List ℕ → Node → Marked
  mark_node expect desired change key (leaf p m v) =
      if match_len p key == length p
      then mark_leaf expect desired change p m v
      else unmarked (leaf p m v)
  mark_node expect desired change key (branch p m cs) =
      if match_len p key == length p
      then elim (get_elem? key (length p)) [
        | none ↦ unmarked (branch p m cs)
        | some b ↦ mark_in p m cs (mark_below b expect desired change key cs)
      ]
      else unmarked (branch p m cs)

  pub mark_below : ℕ → ℕ → ℕ → ℕ → List ℕ → Children → Option MarkedBelow
  mark_below b expect desired change key no_more = none
  mark_below b expect desired change key (child c n cs) =
      let here = mark_node expect desired change key n in
      let rest = mark_below b expect desired change key cs in
      if b == c then some (marked_here c cs here) else do r ← rest; some (marked_behind c n r)

unfoldable pub mark_for_deletion : List ℕ → Node → Marked
unfolding mark_node
mark_for_deletion key n = mark_node 0 1 1 key n

unfoldable pub unmark_for_deletion : List ℕ → Node → Marked
unfolding mark_node
unmark_for_deletion key n = mark_node 1 0 (2 ^ 32 - 1) key n

-- The node after it and the change of the metadata, which for children is the sum.
unfoldable mutual
  unfolding add compare_exchange meta_out

  pub mark_subtree_for_deletion : Node → Node × Metadata
  mark_subtree_for_deletion (leaf p m v) =
      let (m', res) = compare_exchange 0 1 m in (leaf p m' v, meta_out 1 res)
  mark_subtree_for_deletion (branch p m cs) =
      let (cs', delta) = mark_all_below cs in (branch p (add m delta) cs', delta)

  pub mark_all_below : Children → Children × Metadata
  mark_all_below no_more = (no_more, no_metadata)
  mark_all_below (child c n cs) =
      let (n', delta) = mark_subtree_for_deletion n in
      let (cs', rest) = mark_all_below cs in (child c n' cs', add delta rest)

-- `mark_subtree_lt_key_for_deletion`: the keys below `max_key`.
unfoldable mutual
  unfolding add less compare_exchange meta_out mark_subtree_for_deletion

  pub mark_subtree_lt_key : List ℕ → Node → Node × Metadata
  mark_subtree_lt_key max_key (leaf p m v) =
      if less p max_key
      then (let (m', res) = compare_exchange 0 1 m in (leaf p m' v, meta_out 1 res))
      else (leaf p m v, no_metadata)
  mark_subtree_lt_key max_key (branch p m cs) =
      let max_key_truncated = take (length p) max_key in
      if less p max_key_truncated
      then mark_subtree_for_deletion (branch p m cs)
      else if less max_key_truncated p
      then (branch p m cs, no_metadata)
      else elim (get_elem? max_key (length p)) [
        | none ↦ (branch p m cs, no_metadata)
        | some max_branch_bits ↦
            let (cs', delta) = mark_below_lt max_branch_bits max_key cs in
            (branch p (add m delta) cs', delta)
      ]

  pub mark_below_lt : ℕ → List ℕ → Children → Children × Metadata
  mark_below_lt max_branch_bits max_key no_more = (no_more, no_metadata)
  mark_below_lt max_branch_bits max_key (child c n cs) =
      let here = mark_subtree_lt_key max_key n in
      let (cs', rest) = mark_below_lt max_branch_bits max_key cs in
      if c == max_branch_bits
      then (child c here.0 cs', add here.1 rest)
      else if ltb c max_branch_bits
      then (let (n', delta) = mark_subtree_for_deletion n in (child c n' cs', add delta rest))
      else (child c n cs', rest)

-- `clear_marked_deletions` and `clear_rollback`, which stop where the count is 0.
unfoldable mutual
  pub clear_marked_deletions : Node → Node
  clear_marked_deletions (leaf p m v) = leaf p (record m { num_deleted_subnodes = 0 }) v
  clear_marked_deletions (branch p m cs) =
      let cs' = clear_marked_below cs in
      if m.num_deleted_subnodes == 0
      then branch p m cs
      else branch p (record m { num_deleted_subnodes = 0 }) cs'

  pub clear_marked_below : Children → Children
  clear_marked_below no_more = no_more
  clear_marked_below (child c n cs) = child c (clear_marked_deletions n) (clear_marked_below cs)

unfoldable mutual
  pub clear_rollback : Node → Node
  clear_rollback (leaf p m v) = leaf p (record m { num_rollback_subnodes = 0 }) v
  clear_rollback (branch p m cs) =
      let cs' = clear_rollback_below cs in
      if m.num_rollback_subnodes == 0
      then branch p m cs
      else branch p (record m { num_rollback_subnodes = 0 }) cs'

  pub clear_rollback_below : Children → Children
  clear_rollback_below no_more = no_more
  clear_rollback_below (child c n cs) = child c (clear_rollback n) (clear_rollback_below cs)
