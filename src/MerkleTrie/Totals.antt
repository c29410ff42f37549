-- ===== src/MerkleTrie/Totals.antt =====
-- The metadata of a trie as the sum of that of its entries (MerkleTrie/Invariant).
use speedex_parallelize.Base.{
  ℕ, suc, ◌%◌, ◌^◌, ◌≤◌, ◌<◌, ◌≡◌, refl, sym, ap, ◌∙◌, false, List, [], ◌∷◌, ◌++◌, arith, ◌==◌,
  length, length-append,
}
use speedex_parallelize.MerkleTrie.{
  Metadata, no_metadata, add, Node, leaf, branch, Children, no_more, child, metadata_of, Entry,
}
use speedex_parallelize.MerkleTrie.Invariant.{
  entries, entries_below, sum, IsWellFormed, AreWellFormed, All,
}
use speedex_parallelize.MerkleTrie.Sums.{add_assoc, add_nothing_after, IsWide, add_zero_left}

-- The sum of the metadata of the entries.
abbrev pub totals : List Entry → Metadata
totals [] = no_metadata
totals (e ∷ es) = add e.metadata (totals es)

pub totals-IsWide : (es : List Entry) → IsWide (totals es)
unfolding add
totals-IsWide [] = omega arith
totals-IsWide (e ∷ es) = omega arith

pub totals-append : (xs ys : List Entry) → totals (xs ++ ys) ≡ add (totals xs) (totals ys)
totals-append [] ys = sym (add_zero_left (totals ys) (totals-IsWide ys))
totals-append (x ∷ xs) ys =
    ap (add x.metadata) (totals-append xs ys) ∙ sym (add_assoc x.metadata (totals xs) (totals ys))

mutual
  pub metadata_of-totals :
      (len : ℕ) (n : Node) (x : Metadata)
      → IsWellFormed len n
      → add (metadata_of n) x ≡ add (totals (entries n)) x
  metadata_of-totals len (leaf p m v) x w = sym (add_nothing_after m x)
  metadata_of-totals len (branch p m cs) x (short, many, e, ws) =
      rw e (ap (λ s. add s x) (sum-totals len p 0 cs ws))

  pub sum-totals :
      (len : ℕ) (p : List ℕ) (least : ℕ) (cs : Children)
      → AreWellFormed len p least cs
      → sum cs ≡ totals (entries_below cs)
  sum-totals len p least no_more ws = refl
  sum-totals len p least (child b n cs) (le, on, w, ws) =
      metadata_of-totals len n (sum cs) w
      ∙ ap (add (totals (entries n))) (sum-totals len p (suc b) cs ws)
      ∙ sym (totals-append (entries n) (entries_below cs))

-- A well-formed trie has an entry.
pub some_entry : (len : ℕ) (n : Node) → IsWellFormed len n → 1 ≤ length (entries n)
some_entry len (leaf p m v) w = omega arith
some_entry len (branch p m no_more) (short, many, e, ws) = absurd (omega (arith, many))
some_entry len (branch p m (child b n cs)) (short, many, e, (le, on, w, ws)) =
    omega (arith, some_entry len n w, length-append (entries n) (entries_below cs))

-- Each entry counts as one.
abbrev pub AreCounted : List Entry → Type 0
AreCounted es = All (λ e. e.metadata.size ≡ 1) es

pub size-totals : (es : List Entry) → AreCounted es → (totals es).size ≡ length es % 2 ^ 64
unfolding add
size-totals [] a = refl
size-totals (e ∷ es) (one, a) = omega (arith, one, size-totals es a)

pub size-length :
    (len : ℕ) (n : Node)
    → IsWellFormed len n
    → AreCounted (entries n)
    → (metadata_of n).size % 2 ^ 64 ≡ length (entries n) % 2 ^ 64
unfolding add
size-length len n w a =
    let e = ap (λ m. m.size) (metadata_of-totals len n no_metadata w) in
    omega (arith, e, size-totals (entries n) a)

-- Of a trie of fewer than 2 ^ 64 entries the size is not 0.
pub size-positive :
    (len : ℕ) (n : Node)
    → IsWellFormed len n
    → AreCounted (entries n)
    → length (entries n) < 2 ^ 64
    → ((metadata_of n).size == 0) ≡ false
size-positive len n w a few = ground (arith, size-length len n w a, some_entry len n w)
