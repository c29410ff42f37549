-- ===== src/MerkleTrie/Read/Laws.antt =====
-- The queries of a trie (MerkleTrie/Read) in terms of its entries.
use speedex_parallelize.Base.{
  get_elem?-below, ℕ, suc, ◌≡◌, refl, sym, ◌∙◌, inl, inr, List, arith, ◌==◌, Bool-cases,
  Option-cases, length, get_elem?,
}
use speedex_parallelize.MerkleTrie.{match_len, Node, leaf, branch, Children, no_more, child}
use speedex_parallelize.MerkleTrie.Digits.{Starts, Continues, Starts-whole}
use speedex_parallelize.MerkleTrie.Invariant.{
  entries, entries_below, IsWellFormed, AreWellFormed, IsTrie,
}
use speedex_parallelize.MerkleTrie.Keys.{
  same_key_refl, has_key, has_key-AreApart, has_key-append_left, has_key-append_right,
  parts-AreApart, child-AreApart, behind-AreApart,
}
use speedex_parallelize.MerkleTrie.Read.{contains_key, contains_below}

module _ (len : ℕ) (key : List ℕ) (full : length key ≡ len) where
  mutual
    unfolding contains_key

    has_key-node : (n : Node) → IsWellFormed len n → contains_key key n ≡ has_key key (entries n)
    has_key-node (leaf p m v) w = elim (Bool-cases (match_len p key == length p)) [
      | inl whole ↦
          let e : p ≡ key = Starts-whole p key (ground arith) (w ∙ sym full) in
          rw (whole, e, same_key_refl key) refl
      | inr parts ↦ rw parts (
          sym (
            has_key-AreApart key (entries (leaf p m v))
              (parts-AreApart len key (leaf p m v) w parts)))
    ]
    has_key-node (branch p m cs) (short, many, e, ws) =
        elim (Bool-cases (match_len p key == length p)) [
          | inr parts ↦ rw parts (
              sym (
                has_key-AreApart key (entries_below cs)
                  (parts-AreApart len key (branch p m cs) (short, many, e, ws) parts)))
          | inl whole ↦
              let (b, at) = get_elem?-below key (length p) (omega (arith, short, full)) in
              let starts : Starts p key = ground arith in
              rw (whole, at) (has_key-below p 0 b cs (starts, at) ws)
        ]

    has_key-below :
        (p : List ℕ) (least b : ℕ) (cs : Children)
        → Continues p b key
        → AreWellFormed len p least cs
        → contains_below b key cs ≡ has_key key (entries_below cs)
    has_key-below p least b no_more on ws = refl
    has_key-below p least b (child c n cs) on (le, on_n, w, ws) = elim (Bool-cases (b == c)) [
      | inl here ↦ rw here (
          has_key-node n w
          ∙ sym (
              has_key-append_right key (entries n) (entries_below cs)
                (behind-AreApart len p key b (suc c) cs on (ground arith) ws)))
      | inr other ↦ rw other (
          has_key-below p (suc c) b cs on ws
          ∙ sym (
              has_key-append_left key (entries n) (entries_below cs)
                (child-AreApart len p key b c n on on_n w other)))
    ]

-- Take a trie, empty or not, with keys of `len` digits, and a key of that length. Then `contains_key`
-- is true just when one of the entries of the trie has the key.
pub contains_key-has_key :
    (len : ℕ) (key : List ℕ) (root : Node)
    → length key ≡ len
    → IsTrie len root
    → contains_key key root ≡ has_key key (entries root)
unfolding contains_key
contains_key-has_key len key root full (inl e) =
    rw e (elim (Option-cases (get_elem? key 0)) [ inl at ↦ rw at refl | inr (b, at) ↦ rw at refl ])
contains_key-has_key len key root full (inr w) = has_key-node len key full root w
