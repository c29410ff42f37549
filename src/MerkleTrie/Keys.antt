-- ===== src/MerkleTrie/Keys.antt =====
-- The entry at a key, in lists of entries and in a trie (MerkleTrie/Invariant).
use speedex_parallelize.Base.{
  ℕ, ◌<◌, ◌≡◌, refl, sym, ap, ◌∙◌, ◌≢◌, inl, inr, Bool, true, false, ◌&&◌, ◌||◌, Option, none, some,
  List, [], ◌∷◌, ◌++◌, arith, ◌==◌, if◌then◌else◌, Bool-cases, length, get_elem?,
}
use speedex_parallelize.MerkleTrie.{match_len, Node, Children, prefix_of, Entry}
use speedex_parallelize.Xdr.{Offer}
use speedex_parallelize.MerkleTrie.Digits.{Continues}
use speedex_parallelize.MerkleTrie.Invariant.{
  entries, entries_below, IsWellFormed, AreWellFormed, All, All-imp, Continues-Starts, Continues-lt,
  entries-KeyFrom, entries_below-KeyFrom,
}

-- Whether two keys are the same.
abbrev pub same_key : List ℕ → List ℕ → Bool
same_key [] [] = true
same_key [] (y ∷ k) = false
same_key (x ∷ j) [] = false
same_key (x ∷ j) (y ∷ k) = (x == y) && same_key j k

pub same_key_refl : (k : List ℕ) → same_key k k ≡ true
same_key_refl [] = refl
same_key_refl (x ∷ k) = ground (arith, same_key_refl k)

pub same_key_sound : (j k : List ℕ) → same_key j k ≡ true → j ≡ k
same_key_sound [] [] h = refl
same_key_sound [] (y ∷ k) h = cc
same_key_sound (x ∷ j) [] h = cc
same_key_sound (x ∷ j) (y ∷ k) h = ground (arith, same_key_sound j k)

-- The offer at a key, the entries but that at a key, and the entries with the metadata at a key changed.
abbrev pub find_value : List ℕ → List Entry → Option Offer
find_value key [] = none
find_value key (e ∷ es) = if same_key key e.key then some e.value else find_value key es

abbrev pub has_key : List ℕ → List Entry → Bool
has_key key [] = false
has_key key (e ∷ es) = same_key key e.key || has_key key es

abbrev pub remove : List ℕ → List Entry → List Entry
remove key [] = []
remove key (e ∷ es) = if same_key key e.key then remove key es else e ∷ remove key es

-- None of the entries is at the key.
abbrev pub AreApart : List ℕ → List Entry → Type 0
AreApart key es = All (λ e. same_key key e.key ≡ false) es

pub has_key-AreApart : (key : List ℕ) (es : List Entry) → AreApart key es → has_key key es ≡ false
has_key-AreApart key [] a = refl
has_key-AreApart key (e ∷ es) (d, a) = rw d (has_key-AreApart key es a)

pub find_value-AreApart :
    (key : List ℕ) (es : List Entry) → AreApart key es → find_value key es ≡ none
find_value-AreApart key [] a = refl
find_value-AreApart key (e ∷ es) (d, a) = rw d (find_value-AreApart key es a)

pub remove-AreApart : (key : List ℕ) (es : List Entry) → AreApart key es → remove key es ≡ es
remove-AreApart key [] a = refl
remove-AreApart key (e ∷ es) (d, a) = rw d (ap (λ r. e ∷ r) (remove-AreApart key es a))

pub has_key-append_left :
    (key : List ℕ) (xs ys : List Entry) → AreApart key xs → has_key key (xs ++ ys) ≡ has_key key ys
has_key-append_left key [] ys a = refl
has_key-append_left key (x ∷ xs) ys (d, a) = rw d (has_key-append_left key xs ys a)

pub has_key-append_right :
    (key : List ℕ) (xs ys : List Entry) → AreApart key ys → has_key key (xs ++ ys) ≡ has_key key xs
has_key-append_right key [] ys a = has_key-AreApart key ys a
has_key-append_right key (x ∷ xs) ys a =
    ap (λ r. same_key key x.key || r) (has_key-append_right key xs ys a)

pub find_value-append_left :
    (key : List ℕ) (xs ys : List Entry)
    → AreApart key xs
    → find_value key (xs ++ ys) ≡ find_value key ys
find_value-append_left key [] ys a = refl
find_value-append_left key (x ∷ xs) ys (d, a) = rw d (find_value-append_left key xs ys a)

pub find_value-append_right :
    (key : List ℕ) (xs ys : List Entry)
    → AreApart key ys
    → find_value key (xs ++ ys) ≡ find_value key xs
find_value-append_right key [] ys a = find_value-AreApart key ys a
find_value-append_right key (x ∷ xs) ys a =
    ap (λ r. if same_key key x.key then some x.value else r) (find_value-append_right key xs ys a)

pub remove-append :
    (key : List ℕ) (xs ys : List Entry) → remove key (xs ++ ys) ≡ remove key xs ++ remove key ys
remove-append key [] ys = refl
remove-append key (x ∷ xs) ys = elim (Bool-cases (same_key key x.key)) [
  | inl same ↦ rw same (remove-append key xs ys)
  | inr other ↦ rw other (ap (λ r. x ∷ r) (remove-append key xs ys))
]

other_digit :
    (key k : List ℕ) (i b c : ℕ)
    → get_elem? key i ≡ some b
    → get_elem? k i ≡ some c
    → b ≢ c
    → same_key key k ≡ false
other_digit key k i b c at_key at_k ne = elim (Bool-cases (same_key key k)) [
  | inr other ↦ other
  | inl same ↦
      let e : some b ≡ some c =
        sym at_key ∙ ap (λ j. get_elem? j i) (same_key_sound key k same) ∙ at_k in
      absurd (ne (ground arith))
]

-- A node with a prefix that the key does not begin with.
pub parts-AreApart :
    (len : ℕ) (key : List ℕ) (n : Node)
    → IsWellFormed len n
    → (match_len (prefix_of n) key == length (prefix_of n)) ≡ false
    → AreApart key (entries n)
parts-AreApart len key n w parts =
    All-imp
      (λ e k. elim (Bool-cases (same_key key e.key)) [
        | inr other ↦ other
        | inl same ↦
            let e : match_len (prefix_of n) key ≡ length (prefix_of n) =
              rw (same_key_sound key e.key same) k.1 in
            absurd (ground arith)
      ])
      (entries n) (entries-KeyFrom len n w)

-- A child at other branch bits.
pub child-AreApart :
    (len : ℕ) (p key : List ℕ) (b c : ℕ) (n : Node)
    → Continues p b key
    → Continues p c (prefix_of n)
    → IsWellFormed len n
    → (b == c) ≡ false
    → AreApart key (entries n)
child-AreApart len p key b c n on on_n w ne =
    All-imp
      (λ e k.
        let on_e =
          Continues-Starts p (prefix_of n) e.key c on_n k.1
            (Continues-lt p (prefix_of n) c on_n.1) in
        other_digit key e.key (length p) b c on.1 on_e.1 (ground arith))
      (entries n) (entries-KeyFrom len n w)

-- Children with higher branch bits.
pub behind-AreApart :
    (len : ℕ) (p key : List ℕ) (b least : ℕ) (cs : Children)
    → Continues p b key
    → b < least
    → AreWellFormed len p least cs
    → AreApart key (entries_below cs)
behind-AreApart len p key b least cs on lt ws =
    All-imp (λ e h. other_digit key e.key (length p) b h.1.0 on.1 h.1.2 (ground (arith, h.1.1)))
      (entries_below cs) (entries_below-KeyFrom len p least cs ws)
