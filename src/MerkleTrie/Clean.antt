-- ===== src/MerkleTrie/Clean.antt =====
-- `clean_singlechild_nodes` (implementation/src/merkle_trie.h).
use speedex_parallelize.Base.{ℕ, Option, none, some, List, ◌==◌, if◌then◌else◌, length, get_elem?}
use speedex_parallelize.MerkleTrie.{
  Metadata, Node, leaf, branch, Children, no_more, child, is_empty,
}

-- What the loop over the children leaves of one: it is looked at again as long as it has a single child.
unfoldable mutual
  pub contract_all : Node → Node
  contract_all (leaf p m v) = leaf p m v
  contract_all (branch p m cs) = elim (contract_single cs) [ none ↦ branch p m cs | some n ↦ n ]

  pub contract_single : Children → Option Node
  contract_single no_more = none
  contract_single (child c n cs) =
      let below = contract_all n in if is_empty cs then some below else none

abbrev pub contract_children : Children → Children
unfolding contract_all
contract_children no_more = no_more
contract_children (child c n cs) = child c (contract_all n) (contract_children cs)

abbrev pub clean_branch : List ℕ → List ℕ → Metadata → Children → (ℕ → Children) → Node
clean_branch path p m cs below =
    branch p m
      (elim (get_elem? path (length p)) [ none ↦ contract_children cs | some bb ↦ below bb ])

-- `clean_child` is the contraction of a child with the walk into what is left of it.
unfoldable mutual
  unfolding contract_all

  pub clean_singlechild_nodes : List ℕ → Node → Node
  clean_singlechild_nodes path (leaf p m v) = leaf p m v
  clean_singlechild_nodes path (branch p m cs) =
      clean_branch path p m cs λ bb. clean_below bb path cs

  pub clean_below : ℕ → List ℕ → Children → Children
  clean_below bb path no_more = no_more
  clean_below bb path (child c n cs) =
      let cleaned = clean_child path n in
      let rest = clean_below bb path cs in
      child c (if c == bb then cleaned else contract_all n) rest

  pub clean_child : List ℕ → Node → Node
  clean_child path (leaf p m v) = leaf p m v
  clean_child path (branch p m cs) = elim (clean_single path cs) [
    | none ↦ clean_branch path p m cs λ bb. clean_below bb path cs
    | some n ↦ n
  ]

  pub clean_single : List ℕ → Children → Option Node
  clean_single path no_more = none
  clean_single path (child c n cs) =
      let below = clean_child path n in if is_empty cs then some below else none

-- `MerkleTrie::clean_singlechild_nodes`.
unfoldable pub clean_trie : List ℕ → Node → Node
unfolding contract_all clean_singlechild_nodes
clean_trie path root = contract_all (clean_singlechild_nodes path root)
