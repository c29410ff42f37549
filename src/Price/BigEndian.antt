-- ===== src/Price/BigEndian.antt =====
-- The big-endian encoding of unsigned numbers and prices, which gives the keys of all tries:
-- `write_unsigned_big_endian`, `append_unsigned_big_endian`, `write_price_big_endian` and the reads.
-- Buffers are lists of bytes.
use native.Mathlib.Nat.{
  div-div-eq-div-mul, pow-suc, div-eq_of_lt, mod-eq_of_lt, one-le-pow, le-div_iff_mul-le,
  div-mul-le_self, div-le_self, le_trans, lt_trans,
}
use native.Mathlib.Numerals.{towards_suc}
use speedex_parallelize.Base.Bits.{bit_and-mask}
use speedex_parallelize.Price.{price_bytes, price_bit_len}
use speedex_parallelize.Base.{
  ℕ, zero, suc, ◌+◌, ◌*◌, ◌/◌, ◌%◌, ◌^◌, ◌≤◌, ◌<◌, ◌≡◌, refl, sym, ap, ◌∙◌, ◌⊎◌, inl, inr, List, [],
  ◌∷◌, ◌++◌, arith, length, take,
}
use Prim.Native.Nat.{bit_and}
use native.Mathlib.Decide.{dec_lt}

-- The loop over the bytes of `value`, with `k` bytes to go: byte `loc = sz - k` is
-- `(value >> ((sz - loc - 1) * 8)) & 0xFF`.
unfoldable pub write_bytes : ℕ → ℕ → List ℕ
write_bytes zero value = []
write_bytes (suc k) value = bit_and (value / 2 ^ (k * 8)) 255 ∷ write_bytes k value

-- `p <<= 8; p += byte` for each byte, in an unsigned type of `width` bits.
unfoldable pub read_bytes : ℕ → ℕ → List ℕ → ℕ
read_bytes width p [] = p
read_bytes width p (byte ∷ bytes) =
    read_bytes width ((p * 2 ^ 8 % 2 ^ width + byte) % 2 ^ width) bytes

-- A type of `sz` bytes is written and read with `sz` bytes, a price with six.
unfoldable pub write_unsigned_big_endian : ℕ → ℕ → List ℕ
write_unsigned_big_endian sz value = write_bytes sz value

unfoldable pub read_unsigned_big_endian : ℕ → List ℕ → ℕ
read_unsigned_big_endian sz bytes = read_bytes (sz * 8) 0 (take sz bytes)

unfoldable pub append_unsigned_big_endian : ℕ → List ℕ → ℕ → List ℕ
append_unsigned_big_endian sz buf value = buf ++ write_bytes sz value

unfoldable pub write_price_big_endian : ℕ → List ℕ
write_price_big_endian price = write_bytes price_bytes price

unfoldable pub read_price_big_endian : List ℕ → ℕ
read_price_big_endian buf = read_bytes 64 0 (take price_bytes buf)

two_pow_byte : (k : ℕ) → 2 ^ (suc k * 8) ≡ 2 ^ (k * 8) * 256
two_pow_byte k =
    let e : suc k * 8 ≡ k * 8 + 8 = omega arith in rw e (simp (towards_suc, pow-suc) (omega arith))

shift_byte : (k v : ℕ) → v / 2 ^ (suc k * 8) ≡ v / 2 ^ (k * 8) / 256
shift_byte k v = rw (two_pow_byte k, div-div-eq-div-mul v (2 ^ (k * 8)) 256)

read_bytes-write_bytes :
    (width k v : ℕ) → v < 2 ^ width → read_bytes width (v / 2 ^ (k * 8)) (write_bytes k v) ≡ v
unfolding read_bytes write_bytes
read_bytes-write_bytes width zero v h = omega arith
read_bytes-write_bytes width (suc k) v h =
    let q = v / 2 ^ (k * 8) in
    let small : q < 2 ^ width = omega (arith, div-le_self v (2 ^ (k * 8))) in
    let inner : q / 256 * 256 % 2 ^ width ≡ q / 256 * 256 = mod-eq_of_lt (omega arith) in
    let whole : q / 256 * 256 + q % 256 ≡ q = omega arith in
    rw (shift_byte k v, read_bytes, write_bytes, bit_and-mask 8 q, inner, whole, mod-eq_of_lt small)
      (read_bytes-write_bytes width k v h)

pub length-write_bytes : (k v : ℕ) → length (write_bytes k v) ≡ k
unfolding write_bytes
length-write_bytes zero v = refl
length-write_bytes (suc k) v = ap suc (length-write_bytes k v)

take-length : (bytes : List ℕ) (n : ℕ) → length bytes ≡ n → take n bytes ≡ bytes
take-length [] zero e = refl
take-length [] (suc n) e = refl
take-length (b ∷ bytes) zero e = absurd (omega arith)
take-length (b ∷ bytes) (suc n) e = ap (◌∷◌ b) (take-length bytes n (omega arith))

-- A number below 2 ^ (8 sz) is read back from the `sz` bytes that are written for it.
pub read-write_unsigned_big_endian :
    (sz v : ℕ) → v < 2 ^ (sz * 8) → read_unsigned_big_endian sz (write_unsigned_big_endian sz v) ≡ v
unfolding read_unsigned_big_endian write_unsigned_big_endian
read-write_unsigned_big_endian sz v h =
    let start : 0 ≡ v / 2 ^ (sz * 8) = sym (div-eq_of_lt h) in
    rw (take-length (write_bytes sz v) sz (length-write_bytes sz v)) (
      ap (λ (p : ℕ). read_bytes (sz * 8) p (write_bytes sz v)) start
      ∙ read_bytes-write_bytes (sz * 8) sz v h)

-- A price of 48 bits is read back from the six bytes that are written for it.
pub read-write_price_big_endian :
    (p : ℕ) → p < 2 ^ price_bit_len → read_price_big_endian (write_price_big_endian p) ≡ p
unfolding read_price_big_endian write_price_big_endian
read-write_price_big_endian p h =
    let start : 0 ≡ p / 2 ^ (6 * 8) = sym (div-eq_of_lt h) in
    rw (take-length (write_bytes 6 p) 6 (length-write_bytes 6 p)) (
      ap (λ (q : ℕ). read_bytes 64 q (write_bytes 6 p)) start
      ∙ read_bytes-write_bytes 64 6 p (omega arith))

-- The order of keys in a trie: the first byte that differs decides.
abbrev pub LexLt : List ℕ → List ℕ → Type 0
LexLt [] bs = ⊥
LexLt (a ∷ as') [] = ⊥
LexLt (a ∷ as') (b ∷ bs) = (a < b) ⊎ ((a ≡ b) × LexLt as' bs)

write_bytes-LexLt :
    (k v w : ℕ)
    → v / 2 ^ (k * 8) ≡ w / 2 ^ (k * 8)
    → v < w
    → LexLt (write_bytes k v) (write_bytes k w)
unfolding write_bytes
write_bytes-LexLt zero v w e h = absurd (omega arith)
write_bytes-LexLt (suc k) v w e h =
    let b = 2 ^ (k * 8) in
    let pos = one-le-pow (k * 8) 2 (omega arith) in
    let ordered : v / b ≤ w / b =
      (le-div_iff_mul-le pos).1 (le_trans (div-mul-le_self v b) (omega arith)) in
    let high : v / b / 256 ≡ w / b / 256 = sym (shift_byte k v) ∙ (e ∙ shift_byte k w) in
    rw (bit_and-mask 8 (v / b), bit_and-mask 8 (w / b))
      (elim (dec_lt (v / b) (w / b)) [
        | yes lt ↦ inl (omega arith)
        | no ge ↦
            let same : v / b ≡ w / b = omega arith in
            inr (ap (λ (q : ℕ). q % 256) same, write_bytes-LexLt k v w same h)
      ])

-- If one number is below another, which is below 2 ^ (8 sz), its `sz` bytes are below those of
-- the other in lexicographic order.
pub write_unsigned_big_endian-LexLt :
    (sz v w : ℕ)
    → w < 2 ^ (sz * 8)
    → v < w
    → LexLt (write_unsigned_big_endian sz v) (write_unsigned_big_endian sz w)
unfolding write_unsigned_big_endian
write_unsigned_big_endian-LexLt sz v w hw h =
    write_bytes-LexLt sz v w (div-eq_of_lt (lt_trans h hw) ∙ sym (div-eq_of_lt hw)) h
