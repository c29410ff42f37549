-- ===== src/View/Account/Balances.antt =====
-- What a view of one account shows: a balance for each asset, and the relation of the view to the
-- account (View/Account).
use speedex_parallelize.Base.{
  ◌||◌, is_negative, not, ℕ, ◌≡◌, Bool, true, false, ◌==◌, if◌then◌else◌, add64, IsWord,
}
use speedex_parallelize.Base.Maps.{at_or_zero, Unique}
use speedex_parallelize.Xdr.{TransactionProcessingStatus, success}
use speedex_parallelize.Account.{UserAccount}
use speedex_parallelize.Account.Laws.{available}
use speedex_parallelize.View.Account.{UserAccountView, Outcome}

-- The balance that the transaction sees.
unfoldable pub seen : UserAccount → UserAccountView → ℕ → ℕ
seen main view asset = add64 (available main asset) (at_or_zero asset view.available_buffer)

-- The view belongs to an account that held the amounts `orig` when the view was made: the account
-- differs from that by the side effects.
pub record IsViewOf (orig : ℕ → ℕ) (main : UserAccount) (view : UserAccountView) : Type 0 where
  pub buffer_unique : Unique view.available_buffer
  pub effects_unique : Unique view.available_side_effects
  pub orig_word : (a : ℕ) → IsWord (orig a)
  pub buffer_word : (a : ℕ) → IsWord (at_or_zero a view.available_buffer)
  pub effects_word : (a : ℕ) → IsWord (at_or_zero a view.available_side_effects)
  pub accounted :
      (a : ℕ) → available main a ≡ add64 (orig a) (at_or_zero a view.available_side_effects)

abbrev pub is_success : TransactionProcessingStatus → Bool
is_success success = true
is_success _ = false

-- After a call that should succeed if `ok`: the view still belongs to the account, and the balances
-- that it shows are `after` on success and as before on failure.
pub record Moves (orig : ℕ → ℕ) (before after : ℕ → ℕ) (ok : Bool) (o : Outcome) : Type 0 where
  pub is_view : IsViewOf orig o.main o.view
  pub answered : is_success o.status ≡ ok
  pub shown : (b : ℕ) → seen o.main o.view b ≡ (if is_success o.status then after b else before b)

-- The balances with `amount` added to one asset.
abbrev pub plus : (ℕ → ℕ) → ℕ → ℕ → ℕ → ℕ
plus f asset amount b = if asset == b then add64 (f b) amount else f b

-- Whether the account covers what the buffer lacks when it holds `amount` of the asset.
abbrev pub covers : UserAccount → ℕ → ℕ → Bool
covers main asset amount =
    not (is_negative amount) || not (is_negative (add64 (available main asset) amount))
