-- ===== src/MerkleTrie/Read/Values.antt =====
-- `get_value` of a key that the trie contains (MerkleTrie/Read).
use speedex_parallelize.Base.{
  get_elem?-below, ℕ, suc, ◌≡◌, sym, ◌∙◌, inl, inr, some, List, arith, ◌==◌, Bool-cases, length,
}
use speedex_parallelize.Xdr.{Offer}
use speedex_parallelize.MerkleTrie.{match_len, Node, leaf, branch, Children, no_more, child}
use speedex_parallelize.MerkleTrie.Digits.{Starts, Continues}
use speedex_parallelize.MerkleTrie.Invariant.{
  entries, entries_below, IsWellFormed, AreWellFormed, IsTrie,
}
use speedex_parallelize.MerkleTrie.Keys.{
  find_value, find_value-AreApart, find_value-append_left, find_value-append_right, parts-AreApart,
  child-AreApart, behind-AreApart,
}
use speedex_parallelize.MerkleTrie.Read.{get_value, get_value_below}

module _ (len : ℕ) (key : List ℕ) (full : length key ≡ len) (v : Offer) where
  mutual
    unfolding get_value

    value-node :
        (n : Node)
        → IsWellFormed len n
        → find_value key (entries n) ≡ some v
        → get_value key n ≡ some v
    value-node (leaf p m o) w found = ground arith
    value-node (branch p m cs) (short, many, e, ws) found =
        elim (Bool-cases (match_len p key == length p)) [
          | inr parts ↦
              let gone =
                find_value-AreApart key (entries_below cs)
                  (parts-AreApart len key (branch p m cs) (short, many, e, ws) parts) in
              absurd (cc (gone, found))
          | inl whole ↦
              let (b, at) = get_elem?-below key (length p) (omega (arith, short, full)) in
              let starts : Starts p key = ground arith in
              let below = value-below p 0 b cs (starts, at) ws found in ground (arith, at, below)
        ]

    value-below :
        (p : List ℕ) (least b : ℕ) (cs : Children)
        → Continues p b key
        → AreWellFormed len p least cs
        → find_value key (entries_below cs) ≡ some v
        → get_value_below b key cs ≡ some v
    value-below p least b no_more on ws found = absurd (cc)
    value-below p least b (child c n cs) on (le, on_n, w, ws) found = elim (Bool-cases (b == c)) [
      | inl here ↦ rw here (
          value-node n w (
            sym (
              find_value-append_right key (entries n) (entries_below cs)
                (behind-AreApart len p key b (suc c) cs on (ground arith) ws))
            ∙ found))
      | inr other ↦ rw other (
          value-below p (suc c) b cs on ws (
            sym (
              find_value-append_left key (entries n) (entries_below cs)
                (child-AreApart len p key b c n on on_n w other))
            ∙ found))
    ]

-- Take a trie, empty or not, with keys of `len` digits, and a key of that length that one of its
-- entries has. Then `get_value` finds the value of the entry.
pub get_value-find_value :
    (len : ℕ) (key : List ℕ) (root : Node) (v : Offer)
    → length key ≡ len
    → IsTrie len root
    → find_value key (entries root) ≡ some v
    → get_value key root ≡ some v
get_value-find_value len key root v full (inl e) found = absurd (cc (found, e))
get_value-find_value len key root v full (inr w) found = value-node len key full v root w found
