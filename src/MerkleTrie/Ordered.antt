-- ===== src/MerkleTrie/Ordered.antt =====
-- Lists of entries in the order of their keys, which is what a trie holds (MerkleTrie/Invariant).
use speedex_parallelize.Base.{
  ◌≡◌, refl, true, List, [], ◌∷◌, ◌++◌, if◌then◌else◌, Bool-cases, inl, inr,
}
use speedex_parallelize.MerkleTrie.{less, Entry}
use speedex_parallelize.MerkleTrie.Digits.{less_asym}
use speedex_parallelize.MerkleTrie.Invariant.{All}

-- The entry at its place, instead of one with the same key.
abbrev pub put : Entry → List Entry → List Entry
put e [] = e ∷ []
put e (f ∷ fs) =
    let rest = put e fs in
    if less e.key f.key then e ∷ f ∷ fs else if less f.key e.key then f ∷ rest else e ∷ fs

pub put_front :
    (e : Entry) (fs : List Entry) → All (λ f. less e.key f.key ≡ true) fs → put e fs ≡ e ∷ fs
put_front e [] below = refl
put_front e (f ∷ fs) (lt, below) = rw lt refl

pub put-append_left :
    (e : Entry) (xs ys : List Entry)
    → All (λ f. less e.key f.key ≡ true) ys
    → put e (xs ++ ys) ≡ put e xs ++ ys
put-append_left e [] ys below = put_front e ys below
put-append_left e (x ∷ xs) ys below = elim (Bool-cases (less e.key x.key)) [
  | inl lt ↦ rw lt refl
  | inr ge ↦ elim (Bool-cases (less x.key e.key)) [
    | inl gt ↦ rw (ge, gt, put-append_left e xs ys below) refl
    | inr le ↦ rw (ge, le) refl
  ]
]

pub put-append_right :
    (e : Entry) (xs ys : List Entry)
    → All (λ f. less f.key e.key ≡ true) xs
    → put e (xs ++ ys) ≡ xs ++ put e ys
put-append_right e [] ys above = refl
put-append_right e (x ∷ xs) ys (gt, above) =
    rw (less_asym x.key e.key gt, gt, put-append_right e xs ys above) refl
