-- ===== src/MerkleTrie/Sweep/Marks.antt =====
-- Entries that a count of their metadata marks (MerkleTrie/Sweep).
use speedex_parallelize.Base.{
  ℕ, ◌≤◌, ◌≡◌, refl, ap, inl, inr, List, [], ◌∷◌, ◌++◌, ◌==◌, if◌then◌else◌, Bool-cases,
}
use speedex_parallelize.MerkleTrie.{Metadata, Entry}
use speedex_parallelize.Xdr.{Offer}
use speedex_parallelize.MerkleTrie.Invariant.{All}

-- The entries that a count does not mark, and the keys and offers of those that it marks.
abbrev pub unmarked_entries : (Metadata → ℕ) → List Entry → List Entry
unmarked_entries marks [] = []
unmarked_entries marks (e ∷ es) =
    if marks e.metadata == 0 then e ∷ unmarked_entries marks es else unmarked_entries marks es

abbrev pub marked_offers : (Metadata → ℕ) → List Entry → List (List ℕ × Offer)
marked_offers marks [] = []
marked_offers marks (e ∷ es) =
    if marks e.metadata == 0
    then marked_offers marks es
    else (e.key, e.value) ∷ marked_offers marks es

-- The count of each entry is 0 or 1.
abbrev pub AreMarks : (Metadata → ℕ) → List Entry → Type 0
AreMarks marks es = All (λ e. marks e.metadata ≤ 1) es

pub unmarked_entries-append :
    (marks : Metadata → ℕ) (xs ys : List Entry)
    → unmarked_entries marks (xs ++ ys) ≡ unmarked_entries marks xs ++ unmarked_entries marks ys
unmarked_entries-append marks [] ys = refl
unmarked_entries-append marks (x ∷ xs) ys = elim (Bool-cases (marks x.metadata == 0)) [
  | inl z ↦ rw z (ap (λ r. x ∷ r) (unmarked_entries-append marks xs ys))
  | inr z ↦ rw z (unmarked_entries-append marks xs ys)
]

pub marked_offers-append :
    (marks : Metadata → ℕ) (xs ys : List Entry)
    → marked_offers marks (xs ++ ys) ≡ marked_offers marks xs ++ marked_offers marks ys
marked_offers-append marks [] ys = refl
marked_offers-append marks (x ∷ xs) ys = elim (Bool-cases (marks x.metadata == 0)) [
  | inl z ↦ rw z (marked_offers-append marks xs ys)
  | inr z ↦ rw z (ap (λ r. (x.key, x.value) ∷ r) (marked_offers-append marks xs ys))
]

-- No entry is marked.
abbrev pub AreUnmarked : (Metadata → ℕ) → List Entry → Type 0
AreUnmarked marks es = All (λ e. marks e.metadata ≡ 0) es

pub unmarked_entries-AreUnmarked :
    (marks : Metadata → ℕ) (es : List Entry)
    → AreUnmarked marks es
    → (unmarked_entries marks es ≡ es) × (marked_offers marks es ≡ [])
unmarked_entries-AreUnmarked marks [] a = (refl, refl)
unmarked_entries-AreUnmarked marks (e ∷ es) (z, a) =
    let (l, r) = unmarked_entries-AreUnmarked marks es a in rw z (ap (λ t. e ∷ t) l, r)

pub All-append_parts {ℓ κ} :
    {A : Type ℓ} (P : A → Type κ) (xs ys : List A) → All P (xs ++ ys) → All P xs × All P ys
All-append_parts P [] ys a = (tt, a)
All-append_parts P (x ∷ xs) ys (p, a) = let (l, r) = All-append_parts P xs ys a in ((p, l), r)
