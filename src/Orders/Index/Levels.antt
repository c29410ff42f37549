-- ===== src/Orders/Index/Levels.antt =====
-- The entries that `metadata_traversal` leaves for price levels in ascending order, and the place at
-- which the search of Orders/Index ends in them.
use speedex_parallelize.Base.{
  ℕ, zero, suc, ◌-◌, ◌≤◌, ◌<◌, ◌≡◌, refl, sym, ap, ◌∙◌, true, false, some, List, [], ◌∷◌, arith,
  leb, if◌then◌else◌, length,
}
use speedex_parallelize.Trie.{PriceLevel}
use speedex_parallelize.Orders.{EndowAccumulator, IndexedMetadata}
use speedex_parallelize.Orders.Commit.{nothing, add, of_level, accumulate, metadata_traversal}
use speedex_parallelize.Orders.Index.{entry, search}
use speedex_parallelize.Orders.Index.Search.{Divides, search-Divides}

abbrev pub price_at : List PriceLevel → ℕ → ℕ
price_at [] i = 0
price_at (l ∷ ls) zero = l.price
price_at (l ∷ ls) (suc i) = price_at ls i

-- Each level costs more than the one before it, as the keys of a trie are ordered.
abbrev pub IsAscending : List PriceLevel → Type 0
IsAscending [] = Unit {0}
IsAscending (l ∷ []) = Unit {0}
IsAscending (l ∷ m ∷ ls) = (l.price < m.price) × IsAscending (m ∷ ls)

-- What the book offers at the price `p` or below, by a scan of all price levels.
abbrev pub offered_up_to : ℕ → EndowAccumulator → List PriceLevel → EndowAccumulator
offered_up_to p acc [] = acc
offered_up_to p acc (l ∷ ls) =
    offered_up_to p (if leb l.price p then add acc (of_level l) else acc) ls

pub IsAscending-le :
    (ls : List PriceLevel) (i j : ℕ)
    → IsAscending ls
    → i ≤ j
    → j < length ls
    → price_at ls i ≤ price_at ls j
IsAscending-le [] i j s le lt = omega arith
IsAscending-le (l ∷ []) zero zero s le lt = omega arith
IsAscending-le (l ∷ []) i (suc j) s le lt = omega arith
IsAscending-le (l ∷ []) (suc i) zero s le lt = omega arith
IsAscending-le (l ∷ m ∷ ls) zero zero s le lt = omega arith
IsAscending-le (l ∷ m ∷ ls) zero (suc j) s le lt =
    omega (arith, s.0, IsAscending-le (m ∷ ls) zero j s.1 (omega arith) (omega arith))
IsAscending-le (l ∷ m ∷ ls) (suc i) zero s le lt = omega arith
IsAscending-le (l ∷ m ∷ ls) (suc i) (suc j) s le lt =
    IsAscending-le (m ∷ ls) i j s.1 (omega arith) (omega arith)

pub entry_key :
    (acc : EndowAccumulator) (ls : List PriceLevel) (e : IndexedMetadata) (i : ℕ)
    → (entry (e ∷ accumulate acc ls) (suc i)).key ≡ price_at ls i
unfolding accumulate
entry_key acc [] e i = refl
entry_key acc (l ∷ ls) e zero = refl
entry_key acc (l ∷ ls) e (suc i) = entry_key (add acc (of_level l)) ls e i

pub length-accumulate :
    (acc : EndowAccumulator) (ls : List PriceLevel) → length (accumulate acc ls) ≡ length ls
unfolding accumulate
length-accumulate acc [] = refl
length-accumulate acc (l ∷ ls) = ap suc (length-accumulate (add acc (of_level l)) ls)

pub offered_none :
    (p : ℕ) (acc : EndowAccumulator) (ls : List PriceLevel)
    → ((i : ℕ) → i < length ls → p < price_at ls i)
    → offered_up_to p acc ls ≡ acc
offered_none p acc [] high = refl
offered_none p acc (l ∷ ls) high =
    let h : leb l.price p ≡ false = ground (arith, high 0 (omega arith)) in
    rw h (offered_none p acc ls (λ i lt. high (suc i) (omega arith)))

-- The entry `k` has what the first `k` levels offer.
pub entry-offered :
    (p k : ℕ) (acc : EndowAccumulator) (ls : List PriceLevel) (e : IndexedMetadata)
    → e.metadata ≡ acc
    → k ≤ length ls
    → ((i : ℕ) → i < k → price_at ls i ≤ p)
    → ((i : ℕ) → k ≤ i → i < length ls → p < price_at ls i)
    → (entry (e ∷ accumulate acc ls) k).metadata ≡ offered_up_to p acc ls
unfolding accumulate
entry-offered p zero acc ls e has in_range low high =
    has ∙ sym (offered_none p acc ls (λ i lt. high i (omega arith) lt))
entry-offered p (suc k) acc [] e has in_range low high = absurd (omega arith)
entry-offered p (suc k) acc (l ∷ ls) e has in_range low high =
    let sum = add acc (of_level l) in
    let h : leb l.price p ≡ true = ground (arith, low 0 (omega arith)) in
    rw h (
      entry-offered p k sum ls (record { key = l.price; metadata = sum }) refl (omega arith)
        (λ i lt. low (suc i) (omega arith)) (λ i le lt. high (suc i) (omega arith) (omega arith)))

abbrev pub top_price : List PriceLevel → ℕ
top_price levels = price_at levels (length levels - 1)

-- The test of the search, at the entry of level `i`.
pub right_at :
    (levels : List PriceLevel) (p i : ℕ)
    → leb (entry (metadata_traversal levels) (suc i)).key p ≡ leb (price_at levels i) p
unfolding metadata_traversal
right_at levels p i =
    ap (λ k. leb k p) (entry_key nothing levels (record { key = 0; metadata = nothing }) i)

pub right_down :
    (levels : List PriceLevel) (p i j : ℕ)
    → IsAscending levels
    → i ≤ j
    → j ≤ length levels
    → leb (entry (metadata_traversal levels) j).key p ≡ true
    → leb (entry (metadata_traversal levels) i).key p ≡ true
unfolding metadata_traversal
right_down levels p zero j s le in_range t = ground arith
right_down levels p (suc i) zero s le in_range t = absurd (omega arith)
right_down levels p (suc i) (suc j) s le in_range t =
    let lower = IsAscending-le levels i j s (omega arith) (omega arith) in
    let upper : leb (price_at levels j) p ≡ true = sym (right_at levels p j) ∙ t in
    right_at levels p i ∙ ground (arith, lower, upper)

-- Where the search ends, for a price below that of the last level.
pub searched :
    (levels : List PriceLevel) (p : ℕ)
    → IsAscending levels
    → 0 < length levels
    → (r : ℕ) × (search
          (λ i. leb (entry (metadata_traversal levels) i).key p)
          (suc (length levels))
          1
          (length levels)
        ≡ some r)
      × Divides (λ i. leb (entry (metadata_traversal levels) i).key p) 1 (length levels) r
searched levels p s some_level =
    search-Divides (λ i. leb (entry (metadata_traversal levels) i).key p) (suc (length levels)) 1
      (length levels) (length levels) (λ i j le in_range t. right_down levels p i j s le in_range t)
      (omega arith) (omega arith) (omega arith)

pub IsAscending-lt :
    (ls : List PriceLevel) (i j : ℕ)
    → IsAscending ls
    → i < j
    → j < length ls
    → price_at ls i < price_at ls j
IsAscending-lt [] i j s lt in_range = omega arith
IsAscending-lt (l ∷ []) i zero s lt in_range = omega arith
IsAscending-lt (l ∷ []) i (suc j) s lt in_range = omega arith
IsAscending-lt (l ∷ m ∷ ls) i zero s lt in_range = omega arith
IsAscending-lt (l ∷ m ∷ ls) zero (suc j) s lt in_range =
    omega (arith, s.0, IsAscending-le (m ∷ ls) zero j s.1 (omega arith) (omega arith))
IsAscending-lt (l ∷ m ∷ ls) (suc i) (suc j) s lt in_range =
    IsAscending-lt (m ∷ ls) i j s.1 (omega arith) (omega arith)

pub length-metadata_traversal :
    (levels : List PriceLevel) → length (metadata_traversal levels) - 1 ≡ length levels
unfolding metadata_traversal
length-metadata_traversal levels = omega (arith, length-accumulate nothing levels)

-- The first `k` levels cost at most `p`, and the others cost more.
pub entry_lem :
    (levels : List PriceLevel) (p k : ℕ)
    → k ≤ length levels
    → ((i : ℕ) → i < k → price_at levels i ≤ p)
    → ((i : ℕ) → k ≤ i → i < length levels → p < price_at levels i)
    → (entry (metadata_traversal levels) k).metadata ≡ offered_up_to p nothing levels
unfolding metadata_traversal
entry_lem levels p k in_range low high =
    entry-offered p k nothing levels (record { key = 0; metadata = nothing }) refl in_range low high
