-- ===== src/View/Account/Laws.antt =====
-- The calls of a view of one account, over the balances that it shows (View/Account).
use mathlib.Core.Path.{fun_ext}
use speedex_parallelize.Base.{
  refl, true, ◌||◌, ℕ, ◌^◌, ◌<◌, ◌≡◌, ap, inl, inr, arith, Bool-cases, add64, neg64, is_negative,
  IsWord, IsNonneg,
}
use speedex_parallelize.Base.Maps.{at_or_zero, index, at_or_zero-insert, index_lem, insert-Unique}
use speedex_parallelize.Xdr.{success}
use speedex_parallelize.Asset.{RevertableAsset}
use speedex_parallelize.Asset
use speedex_parallelize.Account.{UserAccount, operate_on_asset}
use speedex_parallelize.Account
use speedex_parallelize.View.Account.{
  UserAccountView, add_to, transfer_available, conditional_escrow,
}
use speedex_parallelize.View.Account.Balances.{covers, seen, IsViewOf, Moves, plus}
use speedex_parallelize.View.Account.Settle.{
  buffer, new_buffer, taken, settle-Moves, settle_covered,
}

module _ (orig : ℕ → ℕ) (main : UserAccount) (view : UserAccountView) (v : IsViewOf orig main view)
    (asset amount : ℕ) where
  -- For a view that belongs to its account, a transfer fails exactly when the buffer with the
  -- amount added is negative and the account does not cover the shortfall. If it succeeds it adds
  -- the amount, modulo 2 ^ 64, to the balance that the transaction sees of that asset and changes
  -- no other; if it fails it changes none. The view still belongs to the account.
  pub transfer_available-Moves :
      Moves orig
        (seen main view)
        (plus (seen main view) asset amount)
        (covers main asset (add64 (at_or_zero asset view.available_buffer) amount))
        (transfer_available main view asset amount)
  transfer_available-Moves = rw (← (index_lem asset 0 view.available_buffer).0) (
      unfold transfer_available buffer new_buffer taken in
      settle-Moves orig main view v asset amount)

  escrow_freed :
      IsWord amount
      → Moves orig (seen main view) (plus (seen main view) asset (neg64 amount)) true (record {
        main = main;
        view = record view { available_buffer = add_to asset (neg64 amount) view.available_buffer };
        status = success;
      })
  unfolding seen add_to
  escrow_freed word =
      let held = view.available_buffer in
      let freed = add64 (at_or_zero asset held) (neg64 amount) in
      record {
        is_view = record {
          buffer_unique = insert-Unique asset freed held v.buffer_unique;
          effects_unique = v.effects_unique;
          orig_word = v.orig_word;
          buffer_word = λ b. ground (arith, at_or_zero-insert asset b freed held, v.buffer_word b);
          effects_word = v.effects_word;
          accounted = v.accounted;
        };
        answered = refl;
        shown = λ b. ground (arith, at_or_zero-insert asset b freed held);
      }

-- Escrow of the complement of a negative word other than the least one is a conditional transfer.
escrow_is_transfer :
    (acc : UserAccount) (asset n : ℕ)
    → 2 ^ 63 < n
    → n < 2 ^ 64
    → Account.conditional_escrow acc asset (neg64 n)
      ≡ Account.conditional_transfer_available acc asset n
unfolding Account.conditional_escrow Account.conditional_transfer_available operate_on_asset
    Asset.conditional_escrow
escrow_is_transfer acc asset n h k =
    ap (λ step. operate_on_asset acc asset 0 (λ a _. step a))
      (fun_ext {f = λ a. Asset.conditional_escrow a (neg64 n)}
        {g = λ a. Asset.conditional_transfer_available a n} (λ a. ground arith))

-- For a view that belongs to its account and holds no negative amount of the asset in its buffer,
-- escrow of a negative amount succeeds, and that of any other fails exactly when the buffer less
-- the amount is negative and the account does not cover the shortfall. If escrow succeeds it
-- takes the amount, modulo 2 ^ 64, from the balance that the transaction sees of that asset and
-- changes no other; if it fails it changes none. The view still belongs to the account.
pub conditional_escrow-Moves :
    (orig : ℕ → ℕ) (main : UserAccount) (view : UserAccountView)
    → IsViewOf orig main view
    → (asset amount : ℕ) → IsWord amount
    → IsNonneg (at_or_zero asset view.available_buffer)
    → Moves orig
        (seen main view)
        (plus (seen main view) asset (neg64 amount))
        (is_negative amount
          || covers main asset (add64 (at_or_zero asset view.available_buffer) (neg64 amount)))
        (conditional_escrow main view asset amount)
unfolding conditional_escrow
conditional_escrow-Moves orig main view v asset amount word held =
    elim (Bool-cases (is_negative amount)) [
      | inl freed ↦ rw freed (escrow_freed orig main view v asset amount word)
      | inr takes ↦
          let left : ℕ = add64 (index asset view.available_buffer).1 (neg64 amount) in
          let same = (index_lem asset 0 view.available_buffer).0 in
          let moves = settle-Moves orig main view v asset (neg64 amount) in
          elim (Bool-cases (is_negative left)) [
            | inl short ↦
                rw
                  (
                    ← same,
                    takes,
                    escrow_is_transfer main asset left (ground (arith, same)) omega arith,
                  )
                  (unfold buffer new_buffer taken in moves)
            | inr covered ↦
                rw (← same, takes, covered)
                  (unfold buffer new_buffer in settle_covered orig main view v asset (neg64 amount))
          ]
    ]
