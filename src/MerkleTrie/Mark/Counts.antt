-- ===== src/MerkleTrie/Mark/Counts.antt =====
-- The count of deletions of the entry at a key, in lists of entries (MerkleTrie/Mark).
use speedex_parallelize.Base.{
  ℕ, ◌≡◌, refl, ap, inl, inr, Option, none, some, List, [], ◌∷◌, ◌++◌, ◌==◌, if◌then◌else◌,
  Bool-cases,
}
use speedex_parallelize.MerkleTrie.{Entry}
use speedex_parallelize.Xdr.{Offer}
use speedex_parallelize.MerkleTrie.Keys.{same_key, AreApart}

-- The entry with its count exchanged, if it was as expected, and the same at a key in a list.
abbrev pub exchange : ℕ → ℕ → Entry → Entry
exchange expect desired e = record e {
  metadata =
      if e.metadata.num_deleted_subnodes == expect
      then record e.metadata { num_deleted_subnodes = desired }
      else e.metadata;
}

abbrev pub exchange_at : ℕ → ℕ → List ℕ → List Entry → List Entry
exchange_at expect desired key [] = []
exchange_at expect desired key (e ∷ es) =
    if same_key key e.key
    then exchange expect desired e ∷ es
    else e ∷ exchange_at expect desired key es

-- The offer at a key whose count is as expected.
abbrev pub find_counted : ℕ → List ℕ → List Entry → Option Offer
find_counted expect key [] = none
find_counted expect key (e ∷ es) =
    if same_key key e.key
    then if e.metadata.num_deleted_subnodes == expect then some e.value else none
    else find_counted expect key es

module _ (expect desired : ℕ) (key : List ℕ) where
  pub exchange_at-AreApart :
      (es : List Entry) → AreApart key es → exchange_at expect desired key es ≡ es
  exchange_at-AreApart [] a = refl
  exchange_at-AreApart (e ∷ es) (d, a) = rw d (ap (λ r. e ∷ r) (exchange_at-AreApart es a))

  pub find_counted-AreApart :
      (es : List Entry) → AreApart key es → find_counted expect key es ≡ none
  find_counted-AreApart [] a = refl
  find_counted-AreApart (e ∷ es) (d, a) = rw d (find_counted-AreApart es a)

  pub exchange_at-append_left :
      (xs ys : List Entry)
      → AreApart key xs
      → exchange_at expect desired key (xs ++ ys) ≡ xs ++ exchange_at expect desired key ys
  exchange_at-append_left [] ys a = refl
  exchange_at-append_left (x ∷ xs) ys (d, a) =
      rw d (ap (λ r. x ∷ r) (exchange_at-append_left xs ys a))

  pub exchange_at-append_right :
      (xs ys : List Entry)
      → AreApart key ys
      → exchange_at expect desired key (xs ++ ys) ≡ exchange_at expect desired key xs ++ ys
  exchange_at-append_right [] ys a = exchange_at-AreApart ys a
  exchange_at-append_right (x ∷ xs) ys a = elim (Bool-cases (same_key key x.key)) [
    | inl same ↦ rw same refl
    | inr other ↦ rw other (ap (λ r. x ∷ r) (exchange_at-append_right xs ys a))
  ]

  pub find_counted-append_left :
      (xs ys : List Entry)
      → AreApart key xs
      → find_counted expect key (xs ++ ys) ≡ find_counted expect key ys
  find_counted-append_left [] ys a = refl
  find_counted-append_left (x ∷ xs) ys (d, a) = rw d (find_counted-append_left xs ys a)

  pub find_counted-append_right :
      (xs ys : List Entry)
      → AreApart key ys
      → find_counted expect key (xs ++ ys) ≡ find_counted expect key xs
  find_counted-append_right [] ys a = find_counted-AreApart ys a
  find_counted-append_right (x ∷ xs) ys a =
      ap
        (λ r.
          if same_key key x.key
          then if x.metadata.num_deleted_subnodes == expect then some x.value else none
          else r)
        (find_counted-append_right xs ys a)
