-- ===== src/MerkleTrie.antt =====
-- implementation/src/merkle_trie.h and merkle_trie_utils.h: the trie of the order books, with its
-- metadata. Its operations are in the modules below.
pub mod Insert
pub mod Read
pub mod Delete
pub mod Mark
pub mod Sweep
pub mod Split
pub mod Clean
pub mod Lookup
pub mod Digits
pub mod Invariant
pub mod Sums
pub mod Ordered
pub mod Keys
pub mod Loose
pub mod Totals
pub mod Changes
use speedex_parallelize.Base.{
  ℕ, zero, suc, ◌+◌, ◌-◌, ◌%◌, ◌^◌, Bool, true, false, ◌&&◌, ◌||◌, List, [], ◌∷◌, ltb, ◌==◌, length,
  if◌then◌else◌,
}
use speedex_parallelize.Xdr.{Offer}

-- `CombinedMetadata<DeletableMixin, SizeMixin, RollbackMixin, WorkUnitMetadata>`: two words of 32 bits
-- and two of 64.
pub record Metadata : Type 0 where
  pub num_deleted_subnodes : ℕ
  pub size : ℕ
  pub num_rollback_subnodes : ℕ
  pub endow : ℕ

-- `MetadataType()`.
abbrev pub no_metadata : Metadata
no_metadata = record { num_deleted_subnodes = 0; size = 0; num_rollback_subnodes = 0; endow = 0 }

-- `operator+=`.
unfoldable pub add : Metadata → Metadata → Metadata
add m n = record {
  num_deleted_subnodes = (m.num_deleted_subnodes + n.num_deleted_subnodes) % 2 ^ 32;
  size = (m.size + n.size) % 2 ^ 64;
  num_rollback_subnodes = (m.num_rollback_subnodes + n.num_rollback_subnodes) % 2 ^ 32;
  endow = (m.endow + n.endow) % 2 ^ 64;
}

-- `operator-`.
unfoldable pub negate : Metadata → Metadata
negate m = record {
  num_deleted_subnodes = (2 ^ 32 - m.num_deleted_subnodes % 2 ^ 32) % 2 ^ 32;
  size = (2 ^ 64 - m.size % 2 ^ 64) % 2 ^ 64;
  num_rollback_subnodes = (2 ^ 32 - m.num_rollback_subnodes % 2 ^ 32) % 2 ^ 32;
  endow = (2 ^ 64 - m.endow % 2 ^ 64) % 2 ^ 64;
}

-- `operator-=`.
unfoldable pub subtract : Metadata → Metadata → Metadata
unfolding add negate
subtract m n = add m (negate n)

-- `InsertFn::new_metadata`, for `RollbackInsertFn` (true) and `OverwriteInsertFn`.
unfoldable pub new_metadata : Bool → Offer → Metadata
new_metadata rollback offer = record {
  num_deleted_subnodes = 0;
  size = 1;
  num_rollback_subnodes = if rollback then 1 else 0;
  endow = offer.amount;
}

-- The length of the longest prefix that two lists of digits share.
unfoldable pub match_len : List ℕ → List ℕ → ℕ
match_len [] ys = 0
match_len (x ∷ xs) [] = 0
match_len (x ∷ xs) (y ∷ ys) = let rest = match_len xs ys in if x == y then suc rest else 0

-- `operator<=>` on prefixes of one length.
unfoldable pub less : List ℕ → List ℕ → Bool
less [] ys = false
less (x ∷ xs) [] = false
less (x ∷ xs) (y ∷ ys) = ltb x y || ((x == y) && less xs ys)

-- A prefix is the list of its 4-bit digits, `prefix_len` of the source divided by 4 of them. A node
-- whose prefix has the length of a key is a leaf, and any other a branch; `FixedChildrenMap` has its
-- children in the order of their branch bits. The root of an empty trie is a branch that has no prefix and
-- no child. Locks and hashes are left out.
mutual
  pub data Node : Type 0 where
    leaf : List ℕ → Metadata → Offer → Node
    branch : List ℕ → Metadata → Children → Node

  pub data Children : Type 0 where
    no_more : Children
    child : ℕ → Node → Children → Children

abbrev pub make_empty_node : Node
make_empty_node = branch [] no_metadata no_more

abbrev pub prefix_of : Node → List ℕ
prefix_of (leaf p m v) = p
prefix_of (branch p m cs) = p

abbrev pub metadata_of : Node → Metadata
metadata_of (leaf p m v) = m
metadata_of (branch p m cs) = m

-- `children.size()`.
abbrev pub count : Children → ℕ
count no_more = 0
count (child b n cs) = suc (count cs)

abbrev pub is_empty : Children → Bool
is_empty no_more = true
is_empty (child b n cs) = false

-- `children.emplace(branch_bits, node)`.
unfoldable pub emplace : ℕ → Node → Children → Children
emplace b n no_more = child b n no_more
emplace b n (child c o cs) =
    if ltb b c
    then child b n (child c o cs)
    else if b == c
    then child b n cs
    else child c o (emplace b n cs)

-- `if (node->single_child()) node = node->get_single_child()`.
unfoldable pub contract : Node → Node
contract (leaf p m v) = leaf p m v
contract (branch p m no_more) = branch p m no_more
contract (branch p m (child b n no_more)) = n
contract (branch p m (child b n (child c o cs))) = branch p m (child b n (child c o cs))

-- A key with what is stored at it.
pub record Entry : Type 0 where
  pub key : List ℕ
  pub metadata : Metadata
  pub value : Offer
