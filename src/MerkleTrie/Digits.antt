-- ===== src/MerkleTrie/Digits.antt =====
-- Prefixes and keys as lists of digits (MerkleTrie): where two of them part, and their order.
use speedex_parallelize.Base.{
  ℕ, zero, suc, ◌≤◌, ◌<◌, ◌≡◌, refl, ◌≢◌, inl, inr, true, false, some, List, [], ◌∷◌, arith, ◌==◌,
  Bool-cases, length, get_elem?, take,
}
use speedex_parallelize.MerkleTrie.{match_len, less}

pub match_len-le : (p k : List ℕ) → (match_len p k ≤ length p) × (match_len p k ≤ length k)
unfolding match_len
match_len-le [] k = omega arith
match_len-le (x ∷ p) [] = omega arith
match_len-le (x ∷ p) (y ∷ k) = ground (arith, match_len-le p k)

-- Two lists part at two digits that differ.
pub match_len_parts :
    (p k : List ℕ)
    → match_len p k < length p
    → match_len p k < length k
    → (x y : ℕ) × (get_elem? p (match_len p k) ≡ some x)
      × (get_elem? k (match_len p k) ≡ some y)
      × (x ≢ y)
unfolding match_len
match_len_parts [] k lt lt' = absurd (omega arith)
match_len_parts (x ∷ p) [] lt lt' = absurd (omega arith)
match_len_parts (x ∷ p) (y ∷ k) lt lt' = elim (Bool-cases (x == y)) [
  | inl same ↦
      let e : match_len (x ∷ p) (y ∷ k) ≡ suc (match_len p k) = rw (match_len, same) refl in
      let (a, b, at_p, at_k, ne) =
        match_len_parts p k (omega (arith, lt, e)) (omega (arith, lt', e)) in
      (a, b, rw e at_p, rw e at_k, ne)
  | inr other ↦ rw (match_len, other) (x, y, refl, refl, ground arith)
]

-- The list `k` begins with the list `p`.
abbrev pub Starts : List ℕ → List ℕ → Type 0
Starts p k = match_len p k ≡ length p

pub Starts-refl : (p : List ℕ) → Starts p p
unfolding match_len
Starts-refl [] = refl
Starts-refl (x ∷ p) = ground (arith, Starts-refl p)

pub Starts-trans : (p q k : List ℕ) → Starts p q → Starts q k → Starts p k
unfolding match_len
Starts-trans [] q k pq qk = refl
Starts-trans (x ∷ p) [] k pq qk = absurd (omega (arith, pq))
Starts-trans (x ∷ p) (y ∷ q) [] pq qk = absurd (omega (arith, qk))
Starts-trans (x ∷ p) (y ∷ q) (z ∷ k) pq qk = ground (arith, Starts-trans p q k)

pub get_elem?-Starts :
    (q k : List ℕ) (i : ℕ) → Starts q k → i < length q → get_elem? k i ≡ get_elem? q i
unfolding match_len
get_elem?-Starts [] k i s lt = absurd (omega arith)
get_elem?-Starts (x ∷ q) [] i s lt = absurd (omega (arith, s))
get_elem?-Starts (x ∷ q) (y ∷ k) zero s lt = ground arith
get_elem?-Starts (x ∷ q) (y ∷ k) (suc i) s lt = ground (arith, get_elem?-Starts q k i)

pub Starts-whole : (p k : List ℕ) → Starts p k → length p ≡ length k → p ≡ k
unfolding match_len
Starts-whole [] [] s e = refl
Starts-whole [] (y ∷ k) s e = absurd (omega (arith, e))
Starts-whole (x ∷ p) [] s e = absurd (omega (arith, e))
Starts-whole (x ∷ p) (y ∷ k) s e = ground (arith, Starts-whole p k)

-- What two lists share, both begin with.
pub take-match_len :
    (p k : List ℕ)
    → (length (take (match_len p k) p) ≡ match_len p k)
      × Starts (take (match_len p k) p) p
      × Starts (take (match_len p k) p) k
unfolding match_len
take-match_len [] k = (refl, refl, refl)
take-match_len (x ∷ p) [] = (refl, refl, refl)
take-match_len (x ∷ p) (y ∷ k) = ground (arith, take-match_len p k)

-- The list `k` begins with `p` and then has the digit `b`.
abbrev pub Continues : List ℕ → ℕ → List ℕ → Type 0
Continues p b k = Starts p k × (get_elem? k (length p) ≡ some b)

pub less-Continues :
    (p q k : List ℕ) (b c : ℕ) → Continues p b q → Continues p c k → b < c → less q k ≡ true
unfolding match_len less
less-Continues [] [] k b c cq ck lt = cc
less-Continues [] (x ∷ q) [] b c cq ck lt = cc
less-Continues [] (x ∷ q) (y ∷ k) b c cq ck lt = ground arith
less-Continues (z ∷ p) [] k b c cq ck lt = cc
less-Continues (z ∷ p) (x ∷ q) [] b c cq ck lt = cc
less-Continues (z ∷ p) (x ∷ q) (y ∷ k) b c cq ck lt = ground (arith, less-Continues p q k b c)

pub less_asym : (q k : List ℕ) → less q k ≡ true → less k q ≡ false
unfolding less
less_asym [] k h = cc
less_asym (x ∷ q) [] h = cc
less_asym (x ∷ q) (y ∷ k) h = ground (arith, less_asym q k)

pub less_irrefl : (q : List ℕ) → less q q ≡ false
unfolding less
less_irrefl [] = refl
less_irrefl (x ∷ q) = ground (arith, less_irrefl q)

-- Lists that go on with the same digit share more than that prefix.
pub match_len-Continues :
    (p q k : List ℕ) (b : ℕ)
    → Continues p b q
    → Continues p b k
    → (length p < match_len q k) × Continues p b (take (match_len q k) q)
unfolding match_len
match_len-Continues [] [] k b cq ck = cc
match_len-Continues [] (x ∷ q) [] b cq ck = cc
match_len-Continues [] (x ∷ q) (y ∷ k) b cq ck = ground arith
match_len-Continues (z ∷ p) [] k b cq ck = cc
match_len-Continues (z ∷ p) (x ∷ q) [] b cq ck = cc
match_len-Continues (z ∷ p) (x ∷ q) (y ∷ k) b cq ck = ground (arith, match_len-Continues p q k b)
