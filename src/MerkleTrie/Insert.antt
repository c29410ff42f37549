-- ===== src/MerkleTrie/Insert.antt =====
-- `_insert` (implementation/src/merkle_trie.h), the single-threaded insertion into a trie.
pub mod Break
pub mod Walk
pub mod Laws
use speedex_parallelize.Base.{
  ℕ, zero, Bool, true, false, not, ◌&&◌, ◌==◌, Option, none, some, List, [], ◌∷◌, length, take,
  get_elem?, if◌then◌else◌, ◌>>=◌, ltb,
}
use speedex_parallelize.Xdr.{Offer}
use speedex_parallelize.MerkleTrie.{
  Metadata, no_metadata, add, subtract, new_metadata, match_len, Node, leaf, branch, Children,
  no_more, child, metadata_of, count, is_empty, emplace,
}

-- The branch at which the node of prefix `p` and a new leaf part, `at` digits from the root.
unfoldable pub break_node : ℕ → List ℕ → List ℕ → Metadata → Offer → Node → Option (Node × Metadata)
unfolding add emplace
break_node at p key new offer original = do
  branch_bits ← get_elem? key at
  old_branch_bits ← get_elem? p at
  (if branch_bits == old_branch_bits
      then none
      else some (
        branch (take at p) (add (add no_metadata new) (metadata_of original))
            (emplace old_branch_bits original (emplace branch_bits (leaf key new offer) no_more)),
        new,
      ))

-- `_insert` at a branch; `below` is the insertion into the children at the branch bits. The result has
-- the change of the metadata; `none` is an exception.
unfoldable pub insert_branch :
    Bool
    → List ℕ
    → Offer
    → List ℕ
    → Metadata
    → Children
    → (ℕ → Option (Children × Metadata))
    → Option (Node × Metadata)
unfolding add new_metadata match_len break_node
insert_branch rollback key offer p m cs below =
    let at = match_len p key in
    let new = new_metadata rollback offer in
    if count cs == 1
    then none
    else if is_empty cs
    then (if length p == 0
        then some (leaf key (add no_metadata new) offer, add no_metadata new)
        else none)
    else if at == length p
    then (do
      branch_bits ← get_elem? key at
      (cs', delta) ← below branch_bits
      some (branch p (add m delta) cs', delta))
    else break_node at p key new offer (branch p m cs)

-- The child `n` at `c`, and `cs` behind it, when the branch bits are `b`: `at_child` inserts into the
-- child, and `behind` into those behind it.
unfoldable pub insert_child :
    ℕ
    → Node
    → Metadata
    → ℕ
    → Node
    → Children
    → (Unit {0} → Option (Node × Metadata))
    → (Unit {0} → Option (Children × Metadata))
    → Option (Children × Metadata)
insert_child b new_child new c n cs at_child behind =
    if ltb b c
    then some (child b new_child (child c n cs), new)
    else if b == c
    then (do (n', delta) ← at_child tt; some (child c n' cs, delta))
    else do (cs', delta) ← behind tt; some (child c n cs', delta)

-- Of the insertion into the children the first argument is `branch_bits`.
unfoldable mutual
  unfolding subtract new_metadata match_len break_node insert_branch insert_child

  pub insert_node : Bool → List ℕ → Offer → Node → Option (Node × Metadata)
  insert_node rollback key offer (leaf p m v) =
      let at = match_len p key in
      let new = new_metadata rollback offer in
      if at == length p
      then some (leaf p new offer, subtract new m)
      else break_node at p key new offer (leaf p m v)
  insert_node rollback key offer (branch p m cs) =
      insert_branch rollback key offer p m cs λ b. insert_children b rollback key offer cs

  pub insert_children : ℕ → Bool → List ℕ → Offer → Children → Option (Children × Metadata)
  insert_children b rollback key offer no_more =
      let new = new_metadata rollback offer in some (child b (leaf key new offer) no_more, new)
  insert_children b rollback key offer (child c n cs) =
      let new = new_metadata rollback offer in
      insert_child b (leaf key new offer) new c n cs (λ u. insert_node rollback key offer n)
        λ u. insert_children b rollback key offer cs
