-- ===== src/Asset/CasLoop.antt =====
-- The compare-and-swap loop of `conditional_transfer_available`, with what other threads do to the
-- balance between its load and its compare-and-swap written out as a sequence of events.
use speedex_parallelize.Base.{
  ℕ, ◌≡◌, refl, Bool, true, false, ◌||◌, not, List, [], ◌∷◌, ◌⊎◌, inl, inr, arith, add64,
  is_negative, ◌==◌, if◌then◌else◌, Bool-cases, IsNonneg,
}

-- What happens in one round, between the load and the compare-and-swap: the values that other
-- threads store, in order, and whether the weak compare-and-swap fails for no reason.
pub record Round : Type 0 where
  pub stores : List ℕ
  pub spurious : Bool

-- The value that the others leave, from the value that was loaded.
unfoldable pub last_store : ℕ → List ℕ → ℕ
last_store v [] = v
last_store v (x ∷ xs) = last_store x xs

-- The loop over the rounds that are disturbed; after those it is alone.
-- The result is the value left in the balance, and the answer of the call.
unfoldable pub cas_loop : List Round → ℕ → ℕ → ℕ × Bool
cas_loop [] available amount =
    let tentative_available = add64 available amount in
    if is_negative tentative_available then (available, false) else (tentative_available, true)
cas_loop (r ∷ rs) available amount =
    let tentative_available = add64 available amount in
    let found = last_store available r.stores in
    let again = cas_loop rs found amount in
    if is_negative tentative_available
    then (found, false)
    else if r.spurious || not (found == available)
    then again
    else (tentative_available, true)

-- `Seen rs a v w`: in some round the balance is `v` at the load, and `w` when the other threads
-- have stored what they store in that round.
pub data Seen : List Round → ℕ → ℕ → ℕ → Type 0 where
  alone : {a : ℕ} → Seen [] a a a
  now : {r : Round} {rs : List Round} {a w : ℕ} → w ≡ last_store a r.stores → Seen (r ∷ rs) a a w
  later :
      {r : Round} {rs : List Round} {a v w : ℕ}
      → Seen rs (last_store a r.stores) v w
      → Seen (r ∷ rs) a v w

-- The answer `result` is that of one atomic step taken in a round that loaded `v`.
abbrev pub AtomicAt : ℕ → ℕ → ℕ → ℕ × Bool → Type 0
AtomicAt v w amount result =
    ((is_negative (add64 v amount) ≡ true) × (result ≡ (w, false)))
    ⊎ ((is_negative (add64 v amount) ≡ false) × (w ≡ v) × (result ≡ (add64 v amount, true)))

-- Whatever the other threads store, and however often the compare-and-swap fails, the call has the
-- effect of one atomic step: it fails if the balance that some round loaded does not cover the
-- amount, and leaves what the others stored; or it succeeds on a balance that is the one that it
-- loaded, so that no store is lost.
pub cas_loop-AtomicAt :
    (rs : List Round) (a amount : ℕ)
    → (v : ℕ) × (w : ℕ) × Seen rs a v w × AtomicAt v w amount (cas_loop rs a amount)
unfolding cas_loop
cas_loop-AtomicAt [] a amount = (a, a, alone, ground arith)
cas_loop-AtomicAt (r ∷ rs) a amount = elim (Bool-cases (is_negative (add64 a amount))) [
  | inl low ↦ (a, last_store a r.stores, now refl, inl (low, rw low))
  | inr enough ↦ elim (Bool-cases (r.spurious || not (last_store a r.stores == a))) [
    | inl again ↦
        let (v, w, seen, at) = cas_loop-AtomicAt rs (last_store a r.stores) amount in
        (v, w, later seen, rw (enough, again) at)
    | inr done ↦ (a, last_store a r.stores, now refl, inr (enough, ground arith, rw (enough, done)))
  ]
]

-- All the values that the other threads store are `int64_t` that are not negative.
abbrev pub AllNonneg : List ℕ → Type 0
AllNonneg [] = Unit {0}
AllNonneg (x ∷ xs) = IsNonneg x × AllNonneg xs

abbrev pub RoundsNonneg : List Round → Type 0
RoundsNonneg [] = Unit {0}
RoundsNonneg (r ∷ rs) = AllNonneg r.stores × RoundsNonneg rs

last_store-IsNonneg : (a : ℕ) (xs : List ℕ) → IsNonneg a → AllNonneg xs → IsNonneg (last_store a xs)
unfolding last_store
last_store-IsNonneg a [] h k = h
last_store-IsNonneg a (x ∷ xs) h k = last_store-IsNonneg x xs k.0 k.1

-- If the balance is not negative and no other thread stores a negative one, the call does not
-- leave a negative one either, whatever it is asked to transfer.
pub cas_loop-IsNonneg :
    (rs : List Round) (a amount : ℕ)
    → IsNonneg a
    → RoundsNonneg rs
    → IsNonneg (cas_loop rs a amount).0
unfolding cas_loop
cas_loop-IsNonneg [] a amount h k = ground arith
cas_loop-IsNonneg (r ∷ rs) a amount h k = ground (
  arith,
  last_store-IsNonneg a r.stores h k.0,
  cas_loop-IsNonneg rs (last_store a r.stores) amount,
)
