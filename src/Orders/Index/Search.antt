-- ===== src/Orders/Index/Search.antt =====
-- The binary search of the order books (Orders/Index).
use speedex_parallelize.Base.{
  leb→le, ltb→lt, ℕ, zero, suc, ◌+◌, ◌/◌, ◌≤◌, ◌<◌, ◌≡◌, refl, inl, inr, Bool, true, false, some,
  arith, ltb, leb, ◌==◌, Bool-cases,
}
use speedex_parallelize.Orders.Index.{search}

-- `r` divides the numbers from `lo` to `hi` into those on the right side of the search and the others.
pub record Divides (right : ℕ → Bool) (lo hi r : ℕ) : Type 0 where
  pub from_lo : lo ≤ r
  pub to_hi : r ≤ hi
  pub below : (i : ℕ) → lo ≤ i → i < r → right i ≡ true
  pub above : (i : ℕ) → r ≤ i → i < hi → right i ≡ false

false_above :
    (right : ℕ → Bool) (i j : ℕ)
    → (right j ≡ true → right i ≡ true)
    → right i ≡ false
    → right j ≡ false
false_above right i j down e = elim (Bool-cases (right j)) [ inl t ↦ cc (down t) | inr f ↦ f ]

pub search-Divides :
    (right : ℕ → Bool) (fuel start end top : ℕ)
    → ((i j : ℕ) → i ≤ j → j ≤ top → right j ≡ true → right i ≡ true)
    → end ≤ top
    → start ≤ end
    → end < fuel + start
    → (r : ℕ) × (search right fuel start end ≡ some r) × Divides right start end r
unfolding search
search-Divides right zero start end top down in_range le enough = absurd (omega arith)
search-Divides right (suc fuel) start end top down in_range le enough =
    let mp = (end + start) / 2 in
    elim (Bool-cases (end == start)) [
      | inl e ↦ (
        end,
        rw (search, e) refl,
        record {
          from_lo = le;
          to_hi = omega arith;
          below = (λ i a b. absurd (ground arith));
          above = (λ i a b. absurd (ground arith));
        },
      )
      | inr e ↦
          let apart : start < end = ground arith in
          elim (Bool-cases (right mp)) [
            | inl t ↦
                let (r, run, d) =
                  search-Divides right fuel (mp + 1) end top down in_range (omega arith)
                    (omega arith) in
                (
                  r,
                  rw (search, e, t) run,
                  record {
                    from_lo = omega (arith, d.from_lo);
                    to_hi = d.to_hi;
                    below = (λ i a b. elim (Bool-cases (leb i mp)) [
                      | inl h ↦ down i mp (leb→le _ _ h) (omega arith) t
                      | inr h ↦ d.below i (ground arith) b
                    ]);
                    above = d.above;
                  },
                )
            | inr f ↦
                let (r, run, d) =
                  search-Divides right fuel start mp top down (omega arith) (omega arith)
                    (omega arith) in
                (
                  r,
                  rw (search, e, f) run,
                  record {
                    from_lo = d.from_lo;
                    to_hi = omega (arith, d.to_hi);
                    below = d.below;
                    above = (λ i a b. elim (Bool-cases (ltb i mp)) [
                      | inl h ↦ d.above i a (ltb→lt _ _ h)
                      | inr h ↦ false_above right mp i (down mp i (ground arith) (omega arith)) f
                    ]);
                  },
                )
          ]
    ]
