-- ===== src/MerkleTrie/Insert/Walk.antt =====
-- The single steps of `_insert` (MerkleTrie/Insert).
use speedex_parallelize.Base.{
  ℕ, ◌≤◌, ◌<◌, ◌≡◌, refl, Bool, true, false, Option, some, List, arith, ltb, ◌==◌, length,
  get_elem?,
}
use speedex_parallelize.Xdr.{Offer}
use speedex_parallelize.MerkleTrie.{
  Metadata, add, new_metadata, match_len, less, Node, branch, Children, no_more, child, prefix_of,
  count, is_empty, Entry,
}
use speedex_parallelize.MerkleTrie.Digits.{Continues, less-Continues}
use speedex_parallelize.MerkleTrie.Invariant.{
  entries, entries_below, sum, IsWellFormed, AreWellFormed, All, All-imp, Continues-Starts,
  Continues-lt, entries-KeyFrom, entries_below-KeyFrom,
}
use speedex_parallelize.MerkleTrie.Ordered.{put}
use speedex_parallelize.MerkleTrie.Insert.{break_node, insert_branch, insert_child}

-- The three cases of the walk over the children.
module _ (b : ℕ) (new_child : Node) (new : Metadata) (c : ℕ) (n : Node) (cs : Children)
    (at_child : Unit {0} → Option (Node × Metadata))
    (behind : Unit {0} → Option (Children × Metadata)) where
  pub child_before :
      ltb b c ≡ true
      → insert_child b new_child new c n cs at_child behind
        ≡ some (child b new_child (child c n cs), new)
  unfolding insert_child
  child_before e = rw (insert_child, e) refl

  pub child_here :
      (n' : Node) (delta : Metadata)
      → ltb b c ≡ false
      → (b == c) ≡ true
      → at_child tt ≡ some (n', delta)
      → insert_child b new_child new c n cs at_child behind ≡ some (child c n' cs, delta)
  unfolding insert_child
  child_here n' delta e1 e2 run = rw (insert_child, e1, e2, run) refl

  pub child_after :
      (cs' : Children) (delta : Metadata)
      → ltb b c ≡ false
      → (b == c) ≡ false
      → behind tt ≡ some (cs', delta)
      → insert_child b new_child new c n cs at_child behind ≡ some (child c n cs', delta)
  unfolding insert_child
  child_after cs' delta e1 e2 run = rw (insert_child, e1, e2, run) refl

pub count_many : (cs : Children) → 2 ≤ count cs → ((count cs == 1) ≡ false) × (is_empty cs ≡ false)
count_many no_more h = absurd (omega (arith, h))
count_many (child b n cs) h = (ground arith, refl)

-- The keys below a branch, from the branch bits `least` on, are above one with lower branch bits.
pub above :
    (len : ℕ) (p key : List ℕ) (b least : ℕ) (cs : Children)
    → Continues p b key
    → b < least
    → AreWellFormed len p least cs
    → All (λ e. less key e.key ≡ true) (entries_below cs)
above len p key b least cs on lt ws =
    All-imp (λ e h. less-Continues p key e.key b h.1.0 on (h.0.1, h.1.2) (omega (arith, lt, h.1.1)))
      (entries_below cs) (entries_below-KeyFrom len p least cs ws)

-- The keys of one child go on with its branch bits.
pub keys_go_on :
    (len : ℕ) (p : List ℕ) (c : ℕ) (n : Node)
    → Continues p c (prefix_of n)
    → IsWellFormed len n
    → All (λ e. Continues p c e.key) (entries n)
keys_go_on len p c n on w =
    All-imp
      (λ e k. Continues-Starts p (prefix_of n) e.key c on k.1 (Continues-lt p (prefix_of n) c on.1))
      (entries n) (entries-KeyFrom len n w)

-- The two cases of `_insert` at a branch with children.
pub branch_goes_on :
    (rollback : Bool) (key : List ℕ) (offer : Offer) (p : List ℕ) (m : Metadata) (cs cs' : Children)
    (below : ℕ → Option (Children × Metadata)) (b : ℕ) (delta : Metadata)
    → 2 ≤ count cs
    → (match_len p key == length p) ≡ true
    → get_elem? key (match_len p key) ≡ some b
    → below b ≡ some (cs', delta)
    → insert_branch rollback key offer p m cs below ≡ some (branch p (add m delta) cs', delta)
unfolding insert_branch
branch_goes_on rollback key offer p m cs cs' below b delta many whole at run =
    let (not_one, not_empty) = count_many cs many in
    rw (insert_branch, not_one, not_empty, whole, at, run) refl

pub branch_breaks :
    (rollback : Bool) (key : List ℕ) (offer : Offer) (p : List ℕ) (m : Metadata) (cs : Children)
    (below : ℕ → Option (Children × Metadata))
    → 2 ≤ count cs
    → (match_len p key == length p) ≡ false
    → insert_branch rollback key offer p m cs below
      ≡ break_node (match_len p key) p key (new_metadata rollback offer) offer (branch p m cs)
unfolding insert_branch
branch_breaks rollback key offer p m cs below many parts =
    let (not_one, not_empty) = count_many cs many in
    rw (insert_branch, not_one, not_empty, parts) refl

pub record GrownBelow (len : ℕ) (new : Entry) (p : List ℕ) (least : ℕ) (old : Children)
    (result : Option (Children × Metadata)) : Type 0 where
  pub children : Children
  pub delta : Metadata
  pub run : result ≡ some (children, delta)
  pub well_formed : AreWellFormed len p least children
  pub many : count old ≤ count children
  pub total : sum children ≡ add (sum old) delta
  pub held : entries_below children ≡ put new (entries_below old)
