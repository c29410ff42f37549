-- ===== src/Base/Maps.antt =====
-- Maps with numbers as keys, as association lists: `std::map` and `std::unordered_map`, whose order of
-- iteration is that of the list.
use Prim.Native.Nat.{ℕ, ◌+◌}
use mathlib.Core.Path.{◌≡◌, refl}
use mathlib.Core.List.{List, [], ◌∷◌}
use mathlib.Core.Option.{Option, none, some}
use native.Mathlib.Omega.{arith}
use speedex_parallelize.Base.Tests.{◌==◌, if◌then◌else◌}

abbrev pub Map {ℓ} : Type ℓ → Type ℓ
Map V = List (ℕ × V)

module _ {ℓ} {V : Type ℓ} where
  unfoldable pub find : ℕ → Map V → Option V
  find k [] = none
  find k ((j, v) ∷ m) = if j == k then some v else find k m

  -- `m[k] = v`.
  unfoldable pub insert : ℕ → V → Map V → Map V
  insert k v [] = (k, v) ∷ []
  insert k v ((j, w) ∷ m) = if j == k then (k, v) ∷ m else (j, w) ∷ insert k v m

  -- `m.emplace(k, v)`, which keeps an entry that is there.
  unfoldable pub emplace : ℕ → V → Map V → Map V
  emplace k v [] = (k, v) ∷ []
  emplace k v ((j, w) ∷ m) = if j == k then (j, w) ∷ m else (j, w) ∷ emplace k v m

  -- `m.erase(k)`.
  unfoldable pub erase : ℕ → Map V → Map V
  erase k [] = []
  erase k ((j, w) ∷ m) = if j == k then m else (j, w) ∷ erase k m

  pub find-insert :
      (k j : ℕ) (v : V) (m : Map V) → find j (insert k v m) ≡ (if k == j then some v else find j m)
  unfolding find insert
  find-insert k j v [] = refl
  find-insert k j v ((i, w) ∷ m) = ground (arith, find-insert k j v m)

  -- No key stands twice.
  abbrev pub Unique : Map V → Type ℓ
  Unique [] = Unit
  Unique ((k, v) ∷ m) = (find k m ≡ none) × Unique m

  pub insert-Unique : (k : ℕ) (v : V) (m : Map V) → Unique m → Unique (insert k v m)
  unfolding insert find
  insert-Unique k v [] u = (refl, tt)
  insert-Unique k v ((j, w) ∷ m) u = ground (arith, find-insert k j v m, insert-Unique k v m u.1)

-- The value at a key, 0 if there is none: `m[k]` of a map of numbers.
unfoldable pub at_or_zero : ℕ → Map ℕ → ℕ
unfolding find
at_or_zero k m = elim (find k m) [ none ↦ 0 | some v ↦ v ]

-- The read `m[k]` makes an entry of 0 where there is none.
unfoldable pub index : ℕ → Map ℕ → Map ℕ × ℕ
index k m = elim (find k m) [ none ↦ (insert k 0 m, 0) | some v ↦ (m, v) ]

pub at_or_zero-insert :
    (k j v : ℕ) (m : Map ℕ) → at_or_zero j (insert k v m) ≡ (if k == j then v else at_or_zero j m)
unfolding at_or_zero
at_or_zero-insert k j v m = ground (arith, find-insert k j v m)

pub index_lem :
    (k j : ℕ) (m : Map ℕ)
    → ((index k m).1 ≡ at_or_zero k m) × (at_or_zero j (index k m).0 ≡ at_or_zero j m)
unfolding index at_or_zero
index_lem k j m = ground (arith, find-insert k j 0 m)

pub index-Unique : (k : ℕ) (m : Map ℕ) → Unique m → Unique (index k m).0
unfolding index
index-Unique k m u = ground (arith, insert-Unique k 0 m u)

-- The sum of the values of all entries at a key.
abbrev pub sum_at : ℕ → Map ℕ → ℕ
sum_at k [] = 0
sum_at k ((j, v) ∷ m) = (if j == k then v else 0) + sum_at k m

sum_at_missing : (k : ℕ) (m : Map ℕ) → find k m ≡ none → sum_at k m ≡ 0
unfolding find
sum_at_missing k [] e = refl
sum_at_missing k ((j, v) ∷ m) e = ground (arith, sum_at_missing k m)

pub sum_at-at_or_zero : (k : ℕ) (m : Map ℕ) → Unique m → sum_at k m ≡ at_or_zero k m
unfolding at_or_zero find
sum_at-at_or_zero k [] u = refl
sum_at-at_or_zero k ((j, v) ∷ m) u =
    ground (arith, sum_at_missing j m u.0, sum_at-at_or_zero k m u.1)
