-- ===== src/Base/Bits.antt =====
-- Single bits of words under the native `&` and `|`, at every width, and the bit length.
use Prim.Native.Nat.{
  ℕ, zero, suc, ◌+◌, ◌-◌, ◌*◌, ◌/◌, ◌%◌, ◌^◌, ◌≤◌, ◌<◌, min, max, bit_and, bit_or, digits,
  bit_and-bitwise, bit_or-bitwise,
}
use mathlib.Core.Path.{◌≡◌, refl, ap, ◌∙◌}
use mathlib.Core.Logic.{◌↔◌, ◌⊎◌}
use native.Mathlib.Nat.{
  pow-suc, one-le-pow, pow-le-pow_right, div-add-mod', mod-lt, add-mul-mod_self_right, mod-eq_of_lt,
}
use native.Mathlib.Omega.{arith}
use speedex_parallelize.Base.Tests.{◌==◌, if◌then◌else◌}

-- Any two counts that cover the first number give the same digits.
module _ (z : ℕ → ℕ) (f : ℕ → ℕ → ℕ) where
  digits_count : (m n a b : ℕ) → a ≤ m → a ≤ n → digits z f m a b ≡ digits z f n a b
  digits_count zero zero a b hm hn = refl
  digits_count zero (suc n) zero b hm hn = refl
  digits_count zero (suc n) (suc a) b hm hn = absurd (omega arith)
  digits_count (suc m) zero zero b hm hn = refl
  digits_count (suc m) zero (suc a) b hm hn = absurd (omega arith)
  digits_count (suc m) (suc n) zero b hm hn = refl
  digits_count (suc m) (suc n) (suc a) b hm hn =
      ap (λ (d : ℕ). d * 2 + f (suc a % 2) (b % 2))
        (digits_count m n (suc a / 2) (b / 2) (omega arith) (omega arith))

bit_and_low : (a b : ℕ) → bit_and a b ≡ bit_and (a / 2) (b / 2) * 2 + min (a % 2) (b % 2)
bit_and_low zero b = omega (arith, bit_and-bitwise 0 b, bit_and-bitwise 0 (b / 2))
bit_and_low (suc a) b = omega (
  arith,
  bit_and-bitwise (suc a) b,
  bit_and-bitwise (suc a / 2) (b / 2),
  digits_count (λ y. 0) min a (suc a / 2) (suc a / 2) (b / 2) (omega arith) (omega arith),
)

bit_or_low : (a b : ℕ) → bit_or a b ≡ bit_or (a / 2) (b / 2) * 2 + max (a % 2) (b % 2)
bit_or_low zero b = omega (arith, bit_or-bitwise 0 b, bit_or-bitwise 0 (b / 2))
bit_or_low (suc a) b = omega (
  arith,
  bit_or-bitwise (suc a) b,
  bit_or-bitwise (suc a / 2) (b / 2),
  digits_count (λ y. y) max a (suc a / 2) (suc a / 2) (b / 2) (omega arith) (omega arith),
)

-- `a` halves until it is 0.
bit_or-zero_below : (n a : ℕ) → a ≤ n → bit_or a 0 ≡ a
bit_or-zero_below n zero h = refl
bit_or-zero_below zero (suc a) h = absurd (omega arith)
bit_or-zero_below (suc n) (suc a) h =
    omega (arith, bit_or_low (suc a) 0, bit_or-zero_below n (suc a / 2) (omega arith))

bit_and-zero_below : (n a : ℕ) → a ≤ n → bit_and a 0 ≡ 0
bit_and-zero_below n zero h = refl
bit_and-zero_below zero (suc a) h = absurd (omega arith)
bit_and-zero_below (suc n) (suc a) h =
    omega (arith, bit_and_low (suc a) 0, bit_and-zero_below n (suc a / 2) (omega arith))

-- Bit `k` of `v`, as 0 or 1.
unfoldable pub bit_at : ℕ → ℕ → ℕ
bit_at zero v = v % 2
bit_at (suc k) v = bit_at k (v / 2)

pub bit_at_cases : (k v : ℕ) → (bit_at k v ≡ 0) ⊎ (bit_at k v ≡ 1)
unfolding bit_at
bit_at_cases zero v = omega arith
bit_at_cases (suc k) v = bit_at_cases k (v / 2)

pub bit_at-zero : (k : ℕ) → bit_at k 0 ≡ 0
unfolding bit_at
bit_at-zero zero = refl
bit_at-zero (suc k) = bit_at-zero k

two_pow_half : (k : ℕ) → 2 ^ suc k / 2 ≡ 2 ^ k
two_pow_half k = omega (arith, pow-suc 2 k)

-- `v & (1 << k)` tests bit `k`.
pub bit_and_test : (k v : ℕ) → (bit_and v (2 ^ k) ≡ 0) ↔ (bit_at k v ≡ 0)
unfolding bit_at
bit_and_test zero v =
    let low = bit_and_low v 1 in
    let rest = bit_and-zero_below (v / 2) (v / 2) (omega arith) in
    (λ h. omega arith, λ h. omega arith)
bit_and_test (suc k) v =
    let low = bit_and_low v (2 ^ suc k) in
    let p = pow-suc 2 k in
    let half : 2 ^ suc k / 2 ≡ 2 ^ k = omega arith in
    let low' : bit_and v (2 ^ suc k) ≡ bit_and (v / 2) (2 ^ k) * 2 =
      omega (arith, low, ap (bit_and (v / 2)) half) in
    let ih = bit_and_test k (v / 2) in (λ h. ih.0 (omega arith), λ h. let e = ih.1 h in omega arith)

-- `v | (1 << k)` sets bit `k` and keeps the others.
pub bit_at-bit_or : (k j v : ℕ) → bit_at j (bit_or v (2 ^ k)) ≡ (if k == j then 1 else bit_at j v)
unfolding bit_at
bit_at-bit_or zero zero v = let low = bit_or_low v 1 in omega arith
bit_at-bit_or zero (suc j) v =
    let low = bit_or_low v 1 in
    let rest = bit_or-zero_below (v / 2) (v / 2) (omega arith) in
    let half : bit_or v 1 / 2 ≡ v / 2 = omega arith in ground (arith, ap (bit_at j) half)
bit_at-bit_or (suc k) zero v =
    let low = bit_or_low v (2 ^ suc k) in let p = pow-suc 2 k in ground arith
bit_at-bit_or (suc k) (suc j) v =
    let low = bit_or_low v (2 ^ suc k) in
    let p = pow-suc 2 k in
    let half : bit_or v (2 ^ suc k) / 2 ≡ bit_or (v / 2) (2 ^ k) =
      omega (arith, low, ap (bit_or (v / 2)) (two_pow_half k)) in
    ground (arith, ap (bit_at j) half, bit_at-bit_or k j (v / 2))

-- `v | (1 << k)` stays a word of `n` bits.
pub bit_or-lt : (n k v : ℕ) → k < n → v < 2 ^ n → bit_or v (2 ^ k) < 2 ^ n
bit_or-lt zero k v hk hv = absurd (omega arith)
bit_or-lt (suc n) zero v hk hv =
    let p = pow-suc 2 n in
    omega (arith, bit_or_low v 1, bit_or-zero_below (v / 2) (v / 2) (omega arith))
bit_or-lt (suc n) (suc k) v hk hv =
    let p = pow-suc 2 n in
    let q = pow-suc 2 k in
    omega (
      arith,
      bit_or_low v (2 ^ suc k),
      ap (bit_or (v / 2)) (two_pow_half k),
      bit_or-lt n k (v / 2) (omega arith) (omega arith),
    )

-- The lowest digit of a remainder, and its other digits.
mod_low : (n v : ℕ) → v % 2 ^ suc n ≡ v / 2 % 2 ^ n * 2 + v % 2
mod_low n v =
    let q = v / 2 / 2 ^ n in
    let r = v / 2 % 2 ^ n in
    let p = pow-suc 2 n in
    let split : v ≡ r * 2 + v % 2 + q * 2 ^ suc n =
      omega (arith, div-add-mod' (v / 2) (2 ^ n), ap (λ (t : ℕ). q * t) p) in
    let small : r * 2 + v % 2 < 2 ^ suc n =
      omega (arith, mod-lt (v / 2) (one-le-pow n 2 (omega arith))) in
    ap (λ (t : ℕ). t % 2 ^ suc n) split
    ∙ (add-mul-mod_self_right (r * 2 + v % 2) q (2 ^ suc n) ∙ mod-eq_of_lt small)

-- `v & (2 ^ n - 1)` is the remainder by `2 ^ n`.
pub bit_and-mask : (n v : ℕ) → bit_and v (2 ^ n - 1) ≡ v % 2 ^ n
bit_and-mask zero v = omega (arith, bit_and-zero_below v v (omega arith))
bit_and-mask (suc n) v =
    let p = pow-suc 2 n in
    let q = one-le-pow n 2 (omega arith) in
    let half : (2 ^ suc n - 1) / 2 ≡ 2 ^ n - 1 = omega arith in
    omega (
      arith,
      bit_and_low v (2 ^ suc n - 1),
      ap (bit_and (v / 2)) half,
      bit_and-mask n (v / 2),
      mod_low n v,
    )

-- A number below `2 ^ n` is kept by the mask of `n` ones.
bit_and-ones : (n v : ℕ) → v < 2 ^ n → bit_and v (2 ^ n - 1) ≡ v
bit_and-ones zero v h = let e : v ≡ 0 = omega arith in rw e
bit_and-ones (suc n) v h =
    let p = pow-suc 2 n in
    let q = one-le-pow n 2 (omega arith) in
    let half : (2 ^ suc n - 1) / 2 ≡ 2 ^ n - 1 = omega arith in
    omega (
      arith,
      bit_and_low v (2 ^ suc n - 1),
      ap (bit_and (v / 2)) half,
      bit_and-ones n (v / 2) (omega arith),
    )

-- The lowest digit of a mask that clears a higher one, and its other digits.
mask_high :
    (n k : ℕ)
    → k < n
    → ((2 ^ suc n - 1 - 2 ^ suc k) % 2 ≡ 1) × ((2 ^ suc n - 1 - 2 ^ suc k) / 2 ≡ 2 ^ n - 1 - 2 ^ k)
mask_high n k h =
    let p = pow-suc 2 n in
    let q = pow-suc 2 k in
    let r : 2 ^ suc k ≤ 2 ^ n = pow-le-pow_right (omega arith) h in
    let o = one-le-pow k 2 (omega arith) in omega arith

-- `v & ~(1 << k)`, at width `n`, clears bit `k` and keeps the others.
pub bit_at-bit_and_clear :
    (n k j v : ℕ)
    → k < n
    → v < 2 ^ n
    → bit_at j (bit_and v (2 ^ n - 1 - 2 ^ k)) ≡ (if k == j then 0 else bit_at j v)
unfolding bit_at
bit_at-bit_and_clear zero k j v hk hv = absurd (omega arith)
bit_at-bit_and_clear (suc n) zero j v hk hv = clear_low j
  where
    p : 2 ^ suc n ≡ 2 ^ n * 2
    p = pow-suc 2 n

    q : 1 ≤ 2 ^ n
    q = one-le-pow n 2 (omega arith)

    half : (2 ^ suc n - 1 - 1) / 2 ≡ 2 ^ n - 1
    half = omega (arith, p, q)

    value : bit_and v (2 ^ suc n - 1 - 1) ≡ v / 2 * 2
    value = omega (
      arith,
      p,
      q,
      bit_and_low v (2 ^ suc n - 1 - 1),
      ap (bit_and (v / 2)) half,
      bit_and-ones n (v / 2) (omega (arith, p)),
    )

    halved : bit_and v (2 ^ suc n - 1 - 1) / 2 ≡ v / 2
    halved = omega (arith, value)

    clear_low :
        (i : ℕ) → bit_at i (bit_and v (2 ^ suc n - 1 - 2 ^ 0)) ≡ (if 0 == i then 0 else bit_at i v)
    clear_low zero = ground (arith, value)
    clear_low (suc i) = ground (arith, ap (bit_at i) halved)
bit_at-bit_and_clear (suc n) (suc k) zero v hk hv =
    let (odd, half) = mask_high n k (omega arith) in
    ground (arith, bit_and_low v (2 ^ suc n - 1 - 2 ^ suc k))
bit_at-bit_and_clear (suc n) (suc k) (suc j) v hk hv =
    let (odd, half) = mask_high n k (omega arith) in
    let p = pow-suc 2 n in
    let halved : bit_and v (2 ^ suc n - 1 - 2 ^ suc k) / 2 ≡ bit_and (v / 2) (2 ^ n - 1 - 2 ^ k) =
      omega (arith, bit_and_low v (2 ^ suc n - 1 - 2 ^ suc k), ap (bit_and (v / 2)) half) in
    ground
      (arith, ap (bit_at j) halved, bit_at-bit_and_clear n k j (v / 2) (omega arith) (omega arith))

pub bit_and-le : (n a b : ℕ) → a ≤ n → bit_and a b ≤ a
bit_and-le n zero b h = omega (arith, bit_and-bitwise 0 b)
bit_and-le zero (suc a) b h = absurd (omega arith)
bit_and-le (suc n) (suc a) b h =
    omega (arith, bit_and_low (suc a) b, bit_and-le n (suc a / 2) (b / 2) (omega arith))

-- The number of binary digits, 0 for 0; the first argument is fuel, at least the answer.
unfoldable pub bit_length : ℕ → ℕ → ℕ
bit_length zero v = 0
bit_length (suc f) v = let rest = bit_length f (v / 2) in if v == 0 then 0 else suc rest

-- A set bit stands below the bit length.
pub bit_at-lt-bit_length : (f k v : ℕ) → v < 2 ^ f → bit_at k v ≡ 1 → k < bit_length f v
unfolding bit_at bit_length
bit_at-lt-bit_length zero k v h e =
    let zero_word : v ≡ 0 = omega arith in omega (arith, ap (bit_at k) zero_word, bit_at-zero k)
bit_at-lt-bit_length (suc f) zero v h e = ground arith
bit_at-lt-bit_length (suc f) (suc k) v h e =
    let p = pow-suc 2 f in
    ground (arith, bit_at-lt-bit_length f k (v / 2) (omega arith) e, bit_at-zero (suc k))

bit_length_zero : (f v : ℕ) → v < 2 ^ f → bit_length f v ≡ 0 → v ≡ 0
unfolding bit_length
bit_length_zero zero v h e = omega arith
bit_length_zero (suc f) v h e = ground arith

pub bit_length-of_zero : (f : ℕ) → bit_length f 0 ≡ 0
unfolding bit_length
bit_length-of_zero zero = refl
bit_length-of_zero (suc f) = refl

pub bit_length-le : (f v : ℕ) → bit_length f v ≤ f
unfolding bit_length
bit_length-le zero v = omega arith
bit_length-le (suc f) v = ground (arith, bit_length-le f (v / 2))

-- The bit length is that of the highest set bit.
pub bit_at_top : (f v k : ℕ) → v < 2 ^ f → bit_length f v ≡ suc k → bit_at k v ≡ 1
unfolding bit_at bit_length
bit_at_top zero v k h e = absurd (omega arith)
bit_at_top (suc f) v zero h e = let p = pow-suc 2 f in ground (arith, bit_length_zero f (v / 2))
bit_at_top (suc f) v (suc k) h e = let p = pow-suc 2 f in ground (arith, bit_at_top f (v / 2) k)
