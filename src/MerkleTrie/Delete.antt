-- ===== src/MerkleTrie/Delete.antt =====
-- `perform_deletion` (implementation/src/merkle_trie.h).
pub mod Parts
pub mod Laws
use speedex_parallelize.Base.{
  ℕ, zero, ◌>>=◌, suc, ◌+◌, ◌-◌, ◌*◌, ◌/◌, ◌%◌, ◌^◌, ◌≤◌, ◌<◌, ◌≡◌, refl, sym, ap, ◌∙◌, ◌≢◌, ◌↔◌,
  ◌⊎◌, inl, inr, Bool, true, false, ◌&&◌, ◌||◌, not, Option, none, some, List, [], ◌∷◌, ◌++◌, map,
  arith, ltb, leb, ◌==◌, if◌then◌else◌, Bool-cases, Option-cases, length, get_elem?, set, get_or,
  take, drop, replicate, length-append, length-set, length-map, length-replicate, u64, add64, sub64,
  neg64, is_negative, IsWord, IsNonneg, get_or-set, get_or-append-replicate, get_or-append_right,
  get_or-append_left, set-append_right, set-append_left,
}
use speedex_parallelize.MerkleTrie.{
  Metadata, no_metadata, add, negate, match_len, less, Node, leaf, branch, Children, no_more, child,
  make_empty_node, metadata_of, prefix_of, is_empty, contract, Entry, count,
}
use speedex_parallelize.Xdr.{Offer}

-- The node it leaves, and the tuple it returns.
pub record Deletion : Type 0 where
  pub node : Node
  pub delete_child : Bool
  pub deleted_obj : Option Offer
  pub metadata_delta : Metadata

pub record DeletionBelow : Type 0 where
  pub children : Children
  pub deleted_obj : Option Offer
  pub metadata_delta : Metadata

abbrev pub not_found : Node → Deletion
not_found n = record {
  node = n;
  delete_child = false;
  deleted_obj = none;
  metadata_delta = no_metadata;
}

-- The child at `c`, with those behind it, after the deletion in it.
unfoldable pub replace_child : ℕ → Children → Deletion → DeletionBelow
unfolding contract
replace_child c cs r = record {
  children = if r.delete_child then cs else child c (contract r.node) cs;
  deleted_obj = r.deleted_obj;
  metadata_delta = r.metadata_delta;
}

abbrev pub keep_child : ℕ → Node → DeletionBelow → DeletionBelow
keep_child c n r = record {
  children = child c n r.children;
  deleted_obj = r.deleted_obj;
  metadata_delta = r.metadata_delta;
}

unfoldable pub delete_in : List ℕ → Metadata → Children → Option DeletionBelow → Deletion
unfolding add
delete_in p m cs none = not_found (branch p m cs)
delete_in p m cs (some r) = record {
  node = branch p (add m r.metadata_delta) r.children;
  delete_child = false;
  deleted_obj = r.deleted_obj;
  metadata_delta = r.metadata_delta;
}

-- Of the deletion among the children the first argument is `branch_bits`, and the result is `none` when no
-- child has them.
unfoldable mutual
  unfolding negate match_len replace_child delete_in

  pub perform_deletion : List ℕ → Node → Deletion
  perform_deletion key (leaf p m v) =
      if match_len p key == length p
      then record {
        node = leaf p m v;
        delete_child = true;
        deleted_obj = some v;
        metadata_delta = negate m;
      }
      else not_found (leaf p m v)
  perform_deletion key (branch p m cs) =
      if match_len p key == length p
      then elim (get_elem? key (length p)) [
        | none ↦ not_found (branch p m cs)
        | some b ↦ delete_in p m cs (deletion_below b key cs)
      ]
      else not_found (branch p m cs)

  pub deletion_below : ℕ → List ℕ → Children → Option DeletionBelow
  deletion_below b key no_more = none
  deletion_below b key (child c n cs) =
      let here = perform_deletion key n in
      let rest = deletion_below b key cs in
      if b == c then some (replace_child c cs here) else do r ← rest; some (keep_child c n r)

-- `MerkleTrie::perform_deletion`.
unfoldable pub delete_key : List ℕ → Node → Node × Option Offer
unfolding contract perform_deletion
delete_key key root =
    let r = perform_deletion key root in
    let node = contract (if r.delete_child then make_empty_node else r.node) in
    (if (metadata_of node).size == 0 then make_empty_node else node, r.deleted_obj)
