-- ===== src/Mempool/Joining.antt =====
-- What joining small chunks leaves (Mempool).
use speedex_parallelize.Base.{
  ℕ, zero, suc, ◌+◌, ◌≤◌, ◌≡◌, refl, sym, ap, ◌∙◌, inl, inr, Bool, some, List, [], ◌∷◌, ◌++◌, arith,
  ltb, Bool-cases, length, length-append,
}
use speedex_parallelize.Mempool.{
  MempoolChunk, Mempool, back, front, move_back, join, size, join_from, join_small_chunks,
}
use speedex_parallelize.Mempool.Confirmed.{count, length-move_back}

-- How many transactions of all chunks pass a test.
abbrev pub count_all {ℓ} : {T : Type ℓ} → (T → Bool) → List (MempoolChunk T) → ℕ
count_all f [] = 0
count_all f (c ∷ cs) = count f c.txs + count_all f cs

-- Any two neighbours hold at least `target` transactions together.
abbrev pub NoSmallNeighbours {ℓ} :
    {T : Type ℓ} → ℕ → MempoolChunk T → List (MempoolChunk T) → Type 0
NoSmallNeighbours target c [] = Unit {0}
NoSmallNeighbours target c (d ∷ rest) =
    (target ≤ length c.txs + length d.txs) × NoSmallNeighbours target d rest

count-append {ℓ} :
    {A : Type ℓ} (f : A → Bool) (xs ys : List A) → count f (xs ++ ys) ≡ count f xs + count f ys
count-append f [] ys = omega arith
count-append f (x ∷ xs) ys = omega (arith, count-append f xs ys)

count_all-front {ℓ} :
    {T : Type ℓ} (f : T → Bool) (c : MempoolChunk T) (cs : List (MempoolChunk T))
    → count_all f (back c cs ∷ front c cs) ≡ count_all f (c ∷ cs)
unfolding back front
count_all-front f c [] = refl
count_all-front f c (d ∷ ds) = omega (arith, count_all-front f d ds)

count_all-move_back {ℓ} :
    {T : Type ℓ} (f : T → Bool) (cs : List (MempoolChunk T))
    → count_all f (move_back cs) ≡ count_all f cs
unfolding move_back
count_all-move_back f [] = refl
count_all-move_back f (c ∷ cs) = count_all-front f c cs

-- The result of the loop: its first chunk holds at least the transactions of the first chunk before.
pub record Joined {ℓ} {T : Type ℓ} (target : ℕ) (c : MempoolChunk T)
    (rest result : List (MempoolChunk T)) : Type ℓ where
  pub first : MempoolChunk T
  pub others : List (MempoolChunk T)
  pub shape : result ≡ first ∷ others
  pub larger : length c.txs ≤ length first.txs
  pub spread : NoSmallNeighbours target first others
  pub same : (f : T → Bool) → count_all f result ≡ count_all f (c ∷ rest)

alone {ℓ} : {T : Type ℓ} (target : ℕ) (c : MempoolChunk T) → Joined target c [] (c ∷ [])
alone target c = record {
  first = c;
  others = [];
  shape = refl;
  larger = omega arith;
  spread = tt;
  same = λ f. refl;
}

merged {ℓ} :
    {T : Type ℓ} (target : ℕ) (c d : MempoolChunk T) (rest result : List (MempoolChunk T))
    → Joined target (join c d) (move_back rest) result
    → Joined target c (d ∷ rest) result
unfolding join
merged target c d rest result j = record {
  first = j.first;
  others = j.others;
  shape = j.shape;
  larger = omega (arith, j.larger, length-append c.txs d.txs);
  spread = j.spread;
  same = λ f. omega (arith, j.same f, count-append f c.txs d.txs, count_all-move_back f rest);
}

moved_on {ℓ} :
    {T : Type ℓ} (target : ℕ) (c d : MempoolChunk T) (rest result : List (MempoolChunk T))
    → target ≤ length c.txs + length d.txs
    → Joined target d rest result
    → Joined target c (d ∷ rest) (c ∷ result)
moved_on target c d rest result large j = record {
  first = c;
  others = j.first ∷ j.others;
  shape = ap (◌∷◌ c) j.shape;
  larger = omega arith;
  spread = (omega (arith, j.larger), j.spread);
  same = λ f. ap (λ (n : ℕ). count f c.txs + n) (j.same f);
}

join_from-Joined {ℓ} :
    {T : Type ℓ} (fuel target : ℕ) (c : MempoolChunk T) (rest : List (MempoolChunk T))
    → length rest ≤ fuel
    → Joined target c rest (join_from fuel target c rest)
unfolding join_from size
join_from-Joined zero target c [] h = alone target c
join_from-Joined zero target c (d ∷ rest) h = absurd (omega arith)
join_from-Joined (suc fuel) target c [] h = alone target c
join_from-Joined (suc fuel) target c (d ∷ rest) h =
    elim (Bool-cases (ltb (length c.txs + length d.txs) target)) [
      | inl small ↦
          rw (join_from, small)
            (merged target c d rest _ (
              join_from-Joined fuel target (join c d) (move_back rest)
                (omega (arith, length-move_back rest))))
      | inr large ↦
          rw (join_from, large)
            (moved_on target c d rest _ (ground arith)
              (join_from-Joined fuel target d rest (omega arith)))
    ]

-- On a mempool that is not empty the joining returns; every test passes for as many transactions as
-- before, the counter and the buffer are as before, and any two neighbouring chunks hold at least
-- the target number of transactions together.
pub join_small_chunks_lem {ℓ} :
    {T : Type ℓ} (m : Mempool T) (c : MempoolChunk T) (rest : List (MempoolChunk T))
    → m.mempool ≡ c ∷ rest
    → (first : MempoolChunk T) × (others : List (MempoolChunk T)) × (join_small_chunks m
        ≡ some (record m { mempool = first ∷ others }))
      × NoSmallNeighbours m.target_chunk_size first others
      × ((f : T → Bool) → count_all f (first ∷ others) ≡ count_all f m.mempool)
unfolding join_small_chunks
join_small_chunks_lem m c rest e =
    let j = join_from-Joined (length rest) m.target_chunk_size c rest (omega arith) in
    (
      j.first,
      j.others,
      rw (join_small_chunks, e, j.shape),
      j.spread,
      λ f. rw e (ap (λ cs. count_all f cs) (sym j.shape) ∙ j.same f),
    )
