-- ===== src/Base/Vectors.antt =====
-- Reads and writes in lists that stand for C++ vectors, across `++` and past the end.
use Prim.Native.Nat.{ℕ, zero, suc, ◌-◌, ◌≤◌, ◌<◌}
use mathlib.Core.Path.{◌≡◌, refl, ap}
use mathlib.Core.List.{List, [], ◌∷◌, ◌++◌}
use native.Mathlib.Omega.{arith}
use speedex_parallelize.Base.Tests.{◌==◌, if◌then◌else◌}
use speedex_parallelize.Base.Lists.{length, get_or, set, replicate}

module _ {ℓ} {A : Type ℓ} where
  get_or-replicate : (k i : ℕ) (d : A) → get_or (replicate k d) i d ≡ d
  get_or-replicate zero i d = refl
  get_or-replicate (suc k) zero d = refl
  get_or-replicate (suc k) (suc i) d = get_or-replicate k i d

  -- Default elements at the end change no read.
  pub get_or-append-replicate :
      (xs : List A) (k i : ℕ) (d : A) → get_or (xs ++ replicate k d) i d ≡ get_or xs i d
  get_or-append-replicate [] k i d = get_or-replicate k i d
  get_or-append-replicate (x ∷ xs) k zero d = refl
  get_or-append-replicate (x ∷ xs) k (suc i) d = get_or-append-replicate xs k i d

  pub get_or-append_right :
      (xs ys : List A) (i : ℕ) (d : A)
      → length xs ≤ i
      → get_or ys (i - length xs) d ≡ get_or (xs ++ ys) i d
  get_or-append_right [] ys i d h = ground arith
  get_or-append_right (x ∷ xs) ys zero d h = absurd (omega arith)
  get_or-append_right (x ∷ xs) ys (suc i) d h = ground (arith, get_or-append_right xs ys i d)

  pub get_or-append_left :
      (xs ys : List A) (i : ℕ) (d : A) → i < length xs → get_or xs i d ≡ get_or (xs ++ ys) i d
  get_or-append_left [] ys i d h = absurd (omega arith)
  get_or-append_left (x ∷ xs) ys zero d h = refl
  get_or-append_left (x ∷ xs) ys (suc i) d h = get_or-append_left xs ys i d (omega arith)

  pub set-append_right :
      (xs ys : List A) (i : ℕ) (v : A)
      → length xs ≤ i
      → xs ++ set ys (i - length xs) v ≡ set (xs ++ ys) i v
  set-append_right [] ys i v h = ground arith
  set-append_right (x ∷ xs) ys zero v h = absurd (omega arith)
  set-append_right (x ∷ xs) ys (suc i) v h = ground (arith, set-append_right xs ys i v)

  pub set-append_left :
      (xs ys : List A) (i : ℕ) (v : A) → i < length xs → set xs i v ++ ys ≡ set (xs ++ ys) i v
  set-append_left [] ys i v h = absurd (omega arith)
  set-append_left (x ∷ xs) ys zero v h = refl
  set-append_left (x ∷ xs) ys (suc i) v h = ap (◌∷◌ x) (set-append_left xs ys i v (omega arith))

  pub get_or-set :
      (xs : List A) (i j : ℕ) (v d : A)
      → i < length xs
      → get_or (set xs i v) j d ≡ (if i == j then v else get_or xs j d)
  get_or-set [] i j v d h = absurd (omega arith)
  get_or-set (x ∷ xs) zero zero v d h = refl
  get_or-set (x ∷ xs) zero (suc j) v d h = ground arith
  get_or-set (x ∷ xs) (suc i) zero v d h = ground arith
  get_or-set (x ∷ xs) (suc i) (suc j) v d h = ground (arith, get_or-set xs i j v d)
