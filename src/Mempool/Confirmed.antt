-- ===== src/Mempool/Confirmed.antt =====
-- What the removal of confirmed transactions leaves, and the counter of the mempool (Mempool).
use speedex_parallelize.Base.{
  ℕ, zero, suc, ◌+◌, ◌%◌, ◌^◌, ◌≤◌, ◌≡◌, refl, ap, ◌⊎◌, inl, inr, Bool, true, false, List, [], ◌∷◌,
  ◌++◌, arith, if◌then◌else◌, length, add64,
}
use speedex_parallelize.Mempool.{
  MempoolChunk, Mempool, back, front, move_back, Removal, remove_from, remove_confirmed_txs, size,
  push_mempool_buffer_to_mempool, push_chunks, remove_from_chunks, remove_all_confirmed_txs,
}

-- How many bits are set.
abbrev pub count_set : List Bool → ℕ
count_set [] = 0
count_set (b ∷ bs) = (if b then 1 else 0) + count_set bs

-- How many entries pass a test.
abbrev pub count {ℓ} : {A : Type ℓ} → (A → Bool) → List A → ℕ
count f [] = 0
count f (x ∷ xs) = (if f x then 1 else 0) + count f xs

-- How many entries that are not confirmed pass a test; an entry without a bit is not confirmed.
abbrev pub count_unconfirmed {ℓ} : {A : Type ℓ} → (A → Bool) → List A → List Bool → ℕ
count_unconfirmed f [] bits = 0
count_unconfirmed f (x ∷ xs) [] = count f (x ∷ xs)
count_unconfirmed f (x ∷ xs) (b ∷ bits) =
    (if b then 0 else if f x then 1 else 0) + count_unconfirmed f xs bits

length-front {ℓ} : {A : Type ℓ} (x : A) (xs : List A) → length (front x xs) ≡ length xs
unfolding front
length-front x [] = refl
length-front x (y ∷ ys) = ap suc (length-front y ys)

pub length-move_back {ℓ} : {A : Type ℓ} (xs : List A) → length (move_back xs) ≡ length xs
unfolding move_back
length-move_back [] = refl
length-move_back (x ∷ xs) = ap suc (length-front x xs)

set-front : (b : Bool) (bs : List Bool) → count_set (back b bs ∷ front b bs) ≡ count_set (b ∷ bs)
unfolding back front
set-front b [] = refl
set-front b (c ∷ cs) = omega (arith, set-front c cs)

set-move_back : (bs : List Bool) → count_set (move_back bs) ≡ count_set bs
unfolding move_back
set-move_back [] = refl
set-move_back (b ∷ bs) = set-front b bs

unconfirmed-front {ℓ} :
    {A : Type ℓ} (f : A → Bool) (x : A) (xs : List A) (b : Bool) (bs : List Bool)
    → length bs ≡ length xs
    → count_unconfirmed f (back x xs ∷ front x xs) (back b bs ∷ front b bs)
      ≡ count_unconfirmed f (x ∷ xs) (b ∷ bs)
unfolding back front
unconfirmed-front f x [] b [] e = refl
unconfirmed-front f x [] b (c ∷ cs) e = absurd (omega arith)
unconfirmed-front f x (y ∷ ys) b [] e = absurd (omega arith)
unconfirmed-front f x (y ∷ ys) b (c ∷ cs) e =
    omega (arith, unconfirmed-front f y ys c cs (omega arith))

unconfirmed-move_back {ℓ} :
    {A : Type ℓ} (f : A → Bool) (xs : List A) (bs : List Bool)
    → length bs ≡ length xs
    → count_unconfirmed f (move_back xs) (move_back bs) ≡ count_unconfirmed f xs bs
unfolding move_back
unconfirmed-move_back f [] bs e = ground (arith)
unconfirmed-move_back f (x ∷ xs) [] e = absurd (omega arith)
unconfirmed-move_back f (x ∷ xs) (b ∷ bs) e = unconfirmed-front f x xs b bs (omega arith)

-- What a removal leaves of entries with their bits.
pub record Removed {ℓ} {T : Type ℓ} (txs : List T) (bits : List Bool) (r : Removal T) : Type ℓ where
  pub number : r.num_removed ≡ count_set bits
  pub all_clear : count_set r.bits ≡ 0
  pub same_length : length r.bits ≡ length r.txs
  pub total : length r.txs + r.num_removed ≡ length txs
  pub kept : (f : T → Bool) → count f r.txs ≡ count_unconfirmed f txs bits

remove_from-Removed {ℓ} :
    {T : Type ℓ} (fuel : ℕ) (txs : List T) (bits : List Bool)
    → length bits ≡ length txs
    → length bits ≤ fuel
    → Removed txs bits (remove_from fuel txs bits)
unfolding remove_from
remove_from-Removed zero [] [] e h = record {
  number = refl;
  all_clear = refl;
  same_length = refl;
  total = refl;
  kept = λ f. refl;
}
remove_from-Removed zero [] (b ∷ bits) e h = absurd (omega arith)
remove_from-Removed zero (t ∷ txs) [] e h = absurd (omega arith)
remove_from-Removed zero (t ∷ txs) (b ∷ bits) e h = absurd (omega arith)
remove_from-Removed (suc fuel) [] [] e h = record {
  number = refl;
  all_clear = refl;
  same_length = refl;
  total = refl;
  kept = λ f. refl;
}
remove_from-Removed (suc fuel) (t ∷ txs) [] e h = absurd (omega arith)
remove_from-Removed (suc fuel) [] (b ∷ bits) e h = absurd (omega arith)
remove_from-Removed (suc fuel) (t ∷ txs) (true ∷ bits) e h =
    let le = length-move_back bits in
    let lt = length-move_back txs in
    let r = remove_from-Removed fuel (move_back txs) (move_back bits) (omega arith) (omega arith) in
    record {
      number = omega (arith, r.number, set-move_back bits);
      all_clear = r.all_clear;
      same_length = r.same_length;
      total = omega (arith, r.total);
      kept = λ f. omega (arith, r.kept f, unconfirmed-move_back f txs bits (omega arith));
    }
remove_from-Removed (suc fuel) (t ∷ txs) (false ∷ bits) e h =
    let r = remove_from-Removed fuel txs bits (omega arith) (omega arith) in
    record {
      number = omega (arith, r.number);
      all_clear = omega (arith, r.all_clear);
      same_length = ap suc r.same_length;
      total = omega (arith, r.total);
      kept = λ f. ap (λ (n : ℕ). (if f t then 1 else 0) + n) (r.kept f);
    }

-- For a chunk with a bit for each transaction, the removal reports the number of set bits, leaves
-- only clear bits and one for each transaction left, and every test passes for as many of the
-- transactions left as of those that were not confirmed.
pub remove_confirmed_txs_lem {ℓ} :
    {T : Type ℓ} (c : MempoolChunk T)
    → length c.confirmed_txs_to_remove ≡ length c.txs
    → let r = remove_confirmed_txs c in
      (r.1 ≡ count_set c.confirmed_txs_to_remove)
      × (count_set r.0.confirmed_txs_to_remove ≡ 0)
      × (length r.0.confirmed_txs_to_remove ≡ length r.0.txs)
      × ((f : T → Bool) → count f r.0.txs ≡ count_unconfirmed f c.txs c.confirmed_txs_to_remove)
unfolding remove_confirmed_txs
remove_confirmed_txs_lem c e =
    let bits = c.confirmed_txs_to_remove in
    let r = remove_from-Removed (length bits) c.txs bits e (omega arith) in
    (r.number, r.all_clear, r.same_length, r.kept)

-- A chunk has a bit for each transaction or none at all.
abbrev pub HasBitmap {ℓ} : {T : Type ℓ} → MempoolChunk T → Type 0
HasBitmap c = (length c.confirmed_txs_to_remove ≡ length c.txs) ⊎ (c.confirmed_txs_to_remove ≡ [])

abbrev pub AllHaveBitmaps {ℓ} : {T : Type ℓ} → List (MempoolChunk T) → Type 0
AllHaveBitmaps [] = Unit {0}
AllHaveBitmaps (c ∷ cs) = HasBitmap c × AllHaveBitmaps cs

-- The number of transactions in all chunks.
abbrev pub total_size {ℓ} : {T : Type ℓ} → List (MempoolChunk T) → ℕ
total_size [] = 0
total_size (c ∷ cs) = length c.txs + total_size cs

remove_confirmed_txs-total {ℓ} :
    {T : Type ℓ} (c : MempoolChunk T)
    → HasBitmap c
    → length (remove_confirmed_txs c).0.txs + (remove_confirmed_txs c).1 ≡ length c.txs
unfolding remove_confirmed_txs remove_from
remove_confirmed_txs-total c (inl e) =
    (remove_from-Removed (length c.confirmed_txs_to_remove) c.txs c.confirmed_txs_to_remove e
      (omega arith)).total
remove_confirmed_txs-total c (inr e) = rw e (omega arith)

remove_from_chunks-total {ℓ} :
    {T : Type ℓ} (cs : List (MempoolChunk T))
    → AllHaveBitmaps cs
    → total_size (remove_from_chunks cs).0 + (remove_from_chunks cs).1 ≡ total_size cs
unfolding remove_from_chunks
remove_from_chunks-total [] h = refl
remove_from_chunks-total (c ∷ cs) h =
    omega (arith, remove_confirmed_txs-total c h.0, remove_from_chunks-total cs h.1)

-- The counter is the number of transactions in all chunks of the mempool, modulo 2 ^ 64.
abbrev pub SizeOk {ℓ} : {T : Type ℓ} → Mempool T → Type 0
SizeOk m = m.mempool_size ≡ total_size m.mempool % 2 ^ 64

total_size-append {ℓ} :
    {T : Type ℓ} (cs ds : List (MempoolChunk T))
    → total_size (cs ++ ds) ≡ total_size cs + total_size ds
total_size-append [] ds = omega arith
total_size-append (c ∷ cs) ds = omega (arith, total_size-append cs ds)

push_chunks-total {ℓ} :
    {T : Type ℓ} (cs mempool : List (MempoolChunk T)) (total : ℕ)
    → total ≡ total_size mempool % 2 ^ 64
    → (push_chunks cs mempool total).1 ≡ total_size (push_chunks cs mempool total).0 % 2 ^ 64
unfolding push_chunks size
push_chunks-total [] mempool total e = e
push_chunks-total (c ∷ cs) mempool total e =
    push_chunks-total cs (mempool ++ c ∷ []) (add64 total (length c.txs))
      (omega (arith, e, total_size-append mempool (c ∷ [])))

-- Take a mempool whose counter is the number of its transactions, modulo 2 ^ 64, and in which each
-- chunk has a bit for each transaction or none at all. The counter is right again after the buffer
-- is pushed, and after the confirmed transactions are removed.
pub mempool_size_lem {ℓ} :
    {T : Type ℓ} (m : Mempool T)
    → SizeOk m
    → AllHaveBitmaps m.mempool
    → SizeOk (push_mempool_buffer_to_mempool m) × SizeOk (remove_all_confirmed_txs m)
unfolding push_mempool_buffer_to_mempool remove_all_confirmed_txs
mempool_size_lem m ok bitmaps = (
  push_chunks-total m.buffered_mempool m.mempool m.mempool_size ok,
  omega (arith, remove_from_chunks-total m.mempool bitmaps, ok),
)
