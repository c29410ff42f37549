-- ===== src/Orders/Smooth/Laws.antt =====
-- The loop of `max_feasible_smooth_mult` (Orders/Smooth).
use native.Mathlib.Nat.{div-eq_of_lt}
use speedex_parallelize.Base.{
  ltb→lt, leb→le, lt→ltb, ℕ, zero, suc, ◌+◌, ◌-◌, ◌/◌, ◌^◌, ◌≤◌, ◌<◌, ◌≡◌, refl, ap, ◌≢◌, inl, inr,
  true, false, some, arith, ltb, leb, ◌==◌, Bool-cases,
}
use speedex_parallelize.Orders.Smooth.{count_shifts, feasible_mult}

-- What `count_shifts` finds: the first shift that brings the rate below the difference.
pub record FirstShift (raw exact from out : ℕ) : Type 0 where
  pub from_on : from ≤ out
  pub before : (j : ℕ) → from ≤ j → j < out → raw ≤ exact / 2 ^ j
  pub there : exact / 2 ^ out < raw

count_shifts_lem :
    (fuel raw exact out top : ℕ)
    → exact / 2 ^ top < raw
    → out ≤ top
    → top < fuel + out
    → (k : ℕ) × (count_shifts fuel raw exact out ≡ some k) × FirstShift raw exact out k × (k ≤ top)
unfolding count_shifts
count_shifts_lem zero raw exact out top small le enough = absurd (omega arith)
count_shifts_lem (suc fuel) raw exact out top small le enough =
    elim (Bool-cases (leb raw (exact / 2 ^ out))) [
      | inl fits ↦
          let ne : out ≢ top =
            λ e. omega (arith, small, leb→le _ _ fits, ap (λ k. exact / 2 ^ k) e) in
          let (k, run, first, in_range) =
            count_shifts_lem fuel raw exact (out + 1) top small (omega arith) (omega arith) in
          (
            k,
            rw (count_shifts, fits) run,
            record {
              from_on = omega (arith, first.from_on);
              before = (λ j a b. elim (Bool-cases (j == out)) [
                | inl e ↦ let e1 : j ≡ out = ground arith in rw (e1) (leb→le _ _ fits)
                | inr e ↦ first.before j (ground arith) b
              ]);
              there = first.there;
            },
            in_range,
          )
      | inr over ↦ (
        out,
        rw (count_shifts, over) refl,
        record {
          from_on = omega arith;
          before = (λ j a b. absurd (omega arith));
          there = ground arith;
        },
        le,
      )
    ]

not_positive : (n : ℕ) → ltb 0 n ≡ false → n ≡ 0
not_positive n e = ground arith

small_enough : (exact raw : ℕ) → exact < 2 ^ 64 → 0 < raw → exact / 2 ^ 64 < raw
small_enough exact raw word positive = rw (div-eq_of_lt word) positive

-- Take an exchange rate of 64 bits, above the price `max_activated`. `feasible_mult` gives a number
-- `k` below 64 such that `exact - (exact >> k)`, the price from which offers are smoothed, is at most
-- the price; with `k + 1` it would be above the price.
pub feasible_mult_lem :
    (exact max_activated : ℕ)
    → max_activated < exact
    → exact < 2 ^ 64
    → (k : ℕ) × (feasible_mult exact max_activated ≡ some k)
      × (k < 64)
      × (exact - exact / 2 ^ k ≤ max_activated)
      × (max_activated < exact - exact / 2 ^ (k + 1))
unfolding feasible_mult
feasible_mult_lem exact max_activated below word =
    let raw = exact - max_activated in
    let (out, run, first, in_range) =
      count_shifts_lem 65 raw exact 0 64 (small_enough exact raw word (omega arith)) (omega arith)
        (omega arith) in
    let over : leb exact max_activated ≡ false = ground arith in
    let whole : exact / 1 ≡ exact = omega arith in
    let some_shift : 0 < out = elim (Bool-cases (ltb 0 out)) [
      | inl e ↦ ltb→lt _ _ e
      | inr e ↦
          let z : out ≡ 0 = not_positive out e in
          absurd (omega (arith, first.there, ap (λ k. exact / 2 ^ k) z, whole))
    ] in
    let positive : ltb 0 out ≡ true = lt→ltb _ _ some_shift in
    let e : out - 1 + 1 ≡ out = omega arith in
    (
      out - 1,
      rw (feasible_mult, over, run, positive) refl,
      omega arith,
      omega (arith, first.before (out - 1) (omega arith) (omega arith)),
      rw e (omega (arith, first.there)),
    )
