-- ===== src/MerkleTrie/Invariant.antt =====
-- Well-formed tries (MerkleTrie): the entries of a trie in order, and its invariant.
use speedex_parallelize.Base.{
  ℕ, zero, suc, ◌≤◌, ◌<◌, ◌≡◌, ◌∙◌, ◌⊎◌, some, List, [], ◌∷◌, ◌++◌, arith, length, get_elem?,
}
use speedex_parallelize.MerkleTrie.{
  Metadata, no_metadata, add, Node, leaf, branch, Children, no_more, child, prefix_of, metadata_of,
  count, Entry, make_empty_node,
}
use speedex_parallelize.MerkleTrie.Digits.{
  Starts, Continues, Starts-refl, Starts-trans, get_elem?-Starts,
}

-- The leaves, in the order in which a traversal meets them.
abbrev mutual
  pub entries : Node → List Entry
  entries (leaf p m v) = record { key = p; metadata = m; value = v } ∷ []
  entries (branch p m cs) = entries_below cs

  pub entries_below : Children → List Entry
  entries_below no_more = []
  entries_below (child b n cs) = entries n ++ entries_below cs

-- The sum of the metadata of the children.
abbrev pub sum : Children → Metadata
sum no_more = no_metadata
sum (child b n cs) = add (metadata_of n) (sum cs)

-- Of a trie that is not empty, with keys of `len` digits: a leaf has a whole key, and a branch a
-- shorter prefix, at least two children, and the sum of their metadata. The children's branch bits
-- go up, and the prefix of each child goes on with that of the branch and the branch bits.
abbrev mutual
  pub IsWellFormed : ℕ → Node → Type 0
  IsWellFormed len (leaf p m v) = length p ≡ len
  IsWellFormed len (branch p m cs) =
      (length p < len) × (2 ≤ count cs) × (m ≡ sum cs) × AreWellFormed len p 0 cs

  pub AreWellFormed : ℕ → List ℕ → ℕ → Children → Type 0
  AreWellFormed len p least no_more = Unit
  AreWellFormed len p least (child b n cs) =
      (least ≤ b)
      × Continues p b (prefix_of n)
      × IsWellFormed len n
      × AreWellFormed len p (suc b) cs

-- A trie that may be empty.
abbrev pub IsTrie : ℕ → Node → Type 0
IsTrie len root = (root ≡ make_empty_node) ⊎ IsWellFormed len root

abbrev pub All {ℓ κ} : {A : Type ℓ} → (A → Type κ) → List A → Type κ
All P [] = Unit
All P (x ∷ xs) = P x × All P xs

pub All-append {ℓ κ} :
    {A : Type ℓ} (P : A → Type κ) (xs ys : List A) → All P xs → All P ys → All P (xs ++ ys)
All-append P [] ys a b = b
All-append P (x ∷ xs) ys (p, a) b = (p, All-append P xs ys a b)

pub All-imp {ℓ κ μ} :
    {A : Type ℓ} {P : A → Type κ} {Q : A → Type μ} (f : (x : A) → P x → Q x) (xs : List A)
    → All P xs
    → All Q xs
All-imp f [] a = tt
All-imp f (x ∷ xs) (p, a) = (f x p, All-imp f xs a)

-- What the entries below a node of prefix `p` have in common.
abbrev pub KeyFrom : ℕ → List ℕ → Entry → Type 0
KeyFrom len p e = (length e.key ≡ len) × Starts p e.key

pub Continues-Starts :
    (p q k : List ℕ) (b : ℕ) → Continues p b q → Starts q k → length p < length q → Continues p b k
Continues-Starts p q k b (pq, at) qk lt =
    (Starts-trans p q k pq qk, get_elem?-Starts q k (length p) qk lt ∙ at)

pub Continues-lt : (p q : List ℕ) (b : ℕ) → get_elem? q (length p) ≡ some b → length p < length q
Continues-lt p q b at = in_range q (length p) at
  where
    in_range : (q : List ℕ) (i : ℕ) {b : ℕ} → get_elem? q i ≡ some b → i < length q
    in_range [] i at = cc
    in_range (x ∷ q) zero at = omega arith
    in_range (x ∷ q) (suc i) at = omega (arith, in_range q i at)

mutual
  pub entries-KeyFrom :
      (len : ℕ) (n : Node) → IsWellFormed len n → All (KeyFrom len (prefix_of n)) (entries n)
  entries-KeyFrom len (leaf p m v) w = ((w, Starts-refl p), tt)
  entries-KeyFrom len (branch p m cs) (lt, many, e, w) =
      All-imp (λ x h. h.0) (entries_below cs) (entries_below-KeyFrom len p 0 cs w)

  -- Their keys go on with branch bits of at least `least`.
  pub entries_below-KeyFrom :
      (len : ℕ) (p : List ℕ) (least : ℕ) (cs : Children)
      → AreWellFormed len p least cs
      → All
          (λ e. KeyFrom len p e × ((b : ℕ) × (least ≤ b) × (get_elem? e.key (length p) ≡ some b)))
          (entries_below cs)
  entries_below-KeyFrom len p least no_more w = tt
  entries_below-KeyFrom len p least (child b n cs) (le, on, w, ws) =
      All-append _ (entries n) (entries_below cs)
        (All-imp
          (λ e k.
            let on' =
              Continues-Starts p (prefix_of n) e.key b on k.1
                (Continues-lt p (prefix_of n) b on.1) in
            ((k.0, on'.0), (b, le, on'.1)))
          (entries n) (entries-KeyFrom len n w))
        (All-imp (λ e h. (h.0, (h.1.0, omega (arith, h.1.1), h.1.2))) (entries_below cs)
          (entries_below-KeyFrom len p (suc b) cs ws))
