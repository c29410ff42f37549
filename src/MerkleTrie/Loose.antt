-- ===== src/MerkleTrie/Loose.antt =====
-- Branches with a single child, and their contraction (MerkleTrie).
use speedex_parallelize.Base.{ℕ, ◌≤◌, ◌<◌, ◌≡◌, refl, sym, List, arith, length}
use mathlib.Core.List.{append-nil}
use speedex_parallelize.MerkleTrie.{
  Metadata, add, Node, leaf, branch, Children, no_more, child, metadata_of, prefix_of, contract,
  count,
}
use speedex_parallelize.MerkleTrie.Digits.{Continues}
use speedex_parallelize.MerkleTrie.Invariant.{
  entries, sum, IsWellFormed, AreWellFormed, Continues-Starts, Continues-lt,
}
use speedex_parallelize.MerkleTrie.Sums.{add_nothing_after, IsWide}

-- Well-formed, but for a root that may be a branch with a single child.
abbrev pub IsLoose : ℕ → Node → Type 0
IsLoose len (leaf p m v) = length p ≡ len
IsLoose len (branch p m cs) =
    (length p < len) × (1 ≤ count cs) × (m ≡ sum cs) × AreWellFormed len p 0 cs

pub IsWellFormed-IsLoose : (len : ℕ) (n : Node) → IsWellFormed len n → IsLoose len n
IsWellFormed-IsLoose len (leaf p m v) w = w
IsWellFormed-IsLoose len (branch p m cs) (short, many, e, ws) = (short, omega (arith, many), e, ws)

pub contract-IsWellFormed : (len : ℕ) (n : Node) → IsLoose len n → IsWellFormed len (contract n)
unfolding contract
contract-IsWellFormed len (leaf p m v) w = w
contract-IsWellFormed len (branch p m no_more) (short, some_child, e, ws) =
    absurd (omega (arith, some_child))
contract-IsWellFormed len (branch p m (child b n no_more)) (short, some_child, e, (le, on, w, ws)) =
    w
contract-IsWellFormed len (branch p m (child b n (child c o cs))) (short, some_child, e, ws) =
    (short, omega arith, e, ws)

pub entries-contract : (n : Node) → entries (contract n) ≡ entries n
unfolding contract
entries-contract (leaf p m v) = refl
entries-contract (branch p m no_more) = refl
entries-contract (branch p m (child b n no_more)) = sym (append-nil (entries n))
entries-contract (branch p m (child b n (child c o cs))) = refl

-- The contracted node counts as much in a sum.
pub add-contract :
    (len : ℕ) (n : Node) (x : Metadata)
    → IsLoose len n
    → add (metadata_of (contract n)) x ≡ add (metadata_of n) x
unfolding contract
add-contract len (leaf p m v) x w = refl
add-contract len (branch p m no_more) x w = refl
add-contract len (branch p m (child b n no_more)) x (short, some_child, e, ws) =
    sym (rw e (add_nothing_after (metadata_of n) x))
add-contract len (branch p m (child b n (child c o cs))) x w = refl

pub contract-Continues :
    (len : ℕ) (p : List ℕ) (b : ℕ) (n : Node)
    → Continues p b (prefix_of n)
    → IsLoose len n
    → Continues p b (prefix_of (contract n))
unfolding contract
contract-Continues len p b (leaf q m v) on w = on
contract-Continues len p b (branch q m no_more) on w = on
contract-Continues len p b (branch q m (child c n no_more)) on
      (short, some_child, e, (le, on_n, w, ws)) =
    Continues-Starts p q (prefix_of n) b on on_n.0 (Continues-lt p q b on.1)
contract-Continues len p b (branch q m (child c n (child d o cs))) on w = on

pub sum-IsWide : (cs : Children) → IsWide (sum cs)
unfolding add
sum-IsWide no_more = omega arith
sum-IsWide (child b n cs) = omega arith

pub AreWellFormed-from :
    (len : ℕ) (p : List ℕ) (least more : ℕ) (cs : Children)
    → least ≤ more
    → AreWellFormed len p more cs
    → AreWellFormed len p least cs
AreWellFormed-from len p least more no_more le ws = tt
AreWellFormed-from len p least more (child b n cs) le (le_b, on, w, ws) =
    (omega (arith, le, le_b), on, w, ws)
