-- ===== src/Orders/Smooth.antt =====
-- `max_feasible_smooth_mult` and `max_feasible_smooth_mult_double` (Orders): how far below the
-- exchange rate the first price lies that `amount` does not reach, as a power of two or a quotient.
pub mod Laws
use speedex_parallelize.Base.{
  signed_ltb, signed_leb, ℕ, zero, ◌>>=◌, suc, ◌+◌, ◌-◌, ◌/◌, ◌%◌, ◌^◌, Bool, true, false, Option,
  none, some, List, ltb, leb, ◌==◌, if◌then◌else◌, length,
}
use speedex_parallelize.Orders.{IndexedMetadata, EndowAccumulator}
use speedex_parallelize.Orders.Index.{entry, search, divide_prices}

abbrev pub endow_at : List IndexedMetadata → ℕ → ℕ
endow_at index i = (entry index i).metadata.endow

-- Both functions return at once where there is no such price (`not_reached`).
pub data Activated : Type 0 where
  not_reached : Activated
  at_price : ℕ → Activated

-- `none` is a read past the end, of a book without an index.
unfoldable pub max_activated_price : List IndexedMetadata → ℕ → Option Activated
unfolding search
max_activated_price index amount =
    let end = length index - 1 in
    if length index == 0
    then none
    else if end == 0
    then some not_reached
    else if signed_ltb (endow_at index end) amount
    then some not_reached
    else elim (search (λ i. signed_leb (endow_at index i) amount) (suc end) 1 end) [
      | none ↦ none
      | some i ↦
          if signed_ltb amount (endow_at index i)
          then some (at_price (entry index i).key)
          else if i + 1 == length index
          then some not_reached
          else some (at_price (entry index (i + 1)).key)
    ]

-- `while (raw_difference <= (exact_exchange_rate >> out)) out++`; `none` is out of fuel.
unfoldable pub count_shifts : ℕ → ℕ → ℕ → ℕ → Option ℕ
count_shifts zero raw_difference exact_exchange_rate out = none
count_shifts (suc fuel) raw_difference exact_exchange_rate out =
    elim (leb raw_difference (exact_exchange_rate / 2 ^ out)) [
      | true ↦ count_shifts fuel raw_difference exact_exchange_rate (out + 1)
      | false ↦ some out
    ]

-- Fuel for 64 rounds, after which nothing of the rate is left.
unfoldable pub feasible_mult : ℕ → ℕ → Option ℕ
unfolding count_shifts
feasible_mult exact_exchange_rate max_activated =
    if leb exact_exchange_rate max_activated
    then some 255
    else elim (count_shifts 65 (exact_exchange_rate - max_activated) exact_exchange_rate 0) [
      | none ↦ none
      | some out ↦ some (if ltb 0 out then out - 1 else 0)
    ]

unfoldable pub max_feasible_smooth_mult : List IndexedMetadata → ℕ → ℕ → ℕ → Option ℕ
unfolding divide_prices max_activated_price feasible_mult
max_feasible_smooth_mult index amount sell_price buy_price = do
  exact_exchange_rate ← divide_prices sell_price buy_price
  activated ← max_activated_price index amount
  elim activated [
    | not_reached ↦ some 255
    | at_price price ↦ feasible_mult exact_exchange_rate price
  ]

-- The dividend and the divisor of the quotient that is returned as a `double`; 0 is (0, 1).
unfoldable pub max_feasible_smooth_mult_double : List IndexedMetadata → ℕ → ℕ → ℕ → Option (ℕ × ℕ)
unfolding divide_prices max_activated_price
max_feasible_smooth_mult_double index amount sell_price buy_price = do
  exact_exchange_rate ← divide_prices sell_price buy_price
  activated ← max_activated_price index amount
  elim activated [
    | not_reached ↦ some (0, 1)
    | at_price price ↦
        if leb exact_exchange_rate price
        then some (0, 1)
        else some (exact_exchange_rate - price, exact_exchange_rate)
  ]
