-- ===== src/View/Account.antt =====
-- `UserAccountView`: the changes that one transaction makes to one account. What the transaction
-- takes out is taken from the account at once, and what it puts in is kept in a buffer until commit,
-- so that no other transaction can spend it. The account itself, which the source holds by reference,
-- is an argument and a result of each call.
pub mod Balances
pub mod Settle
pub mod Laws
pub mod Close
pub mod Escrow
use speedex_parallelize.Base.{ℕ, Bool, [], ◌∷◌, if◌then◌else◌, add64, neg64, is_negative}
use speedex_parallelize.Base.Maps.{Map, at_or_zero, index, insert}
use speedex_parallelize.Xdr.{TransactionProcessingStatus, success, insufficient_balance}
use speedex_parallelize.Account.{UserAccount}
use speedex_parallelize.Account

pub record UserAccountView : Type 0 where
  pub available_buffer : Map ℕ
  pub available_side_effects : Map ℕ

unfoldable pub new : UserAccountView
new = record { available_buffer = []; available_side_effects = [] }

-- `m[asset] += amount`.
unfoldable pub add_to : ℕ → ℕ → Map ℕ → Map ℕ
add_to asset amount m = insert asset (add64 (at_or_zero asset m) amount) m

-- The account, the view and the status after a call.
pub record Outcome : Type 0 where
  pub main : UserAccount
  pub view : UserAccountView
  pub status : TransactionProcessingStatus

-- What both calls do once they know the new value of the buffer: the part that the buffer does not
-- cover is taken from the account by `take`.
abbrev pub settle : UserAccount × Bool → UserAccount → UserAccountView → Map ℕ → ℕ → ℕ → Outcome
settle taken main view buffer asset new_buffer =
    if is_negative new_buffer
    then (if taken.1
        then record {
          main = taken.0;
          view = record {
            available_buffer = insert asset 0 buffer;
            available_side_effects = add_to asset new_buffer view.available_side_effects;
          };
          status = success;
        }
        else record {
          main = taken.0;
          view = record view { available_buffer = buffer };
          status = insufficient_balance;
        })
    else record {
      main = main;
      view = record view { available_buffer = insert asset new_buffer buffer };
      status = success;
    }

unfoldable pub transfer_available : UserAccount → UserAccountView → ℕ → ℕ → Outcome
transfer_available main view asset amount =
    let (buffer, current_buffer) = index asset view.available_buffer in
    let new_buffer = add64 current_buffer amount in
    settle (Account.conditional_transfer_available main asset new_buffer) main view buffer asset
      new_buffer

unfoldable pub conditional_escrow : UserAccount → UserAccountView → ℕ → ℕ → Outcome
conditional_escrow main view asset amount =
    let (buffer, current_available_buffer) = index asset view.available_buffer in
    let new_buffer = add64 current_available_buffer (neg64 amount) in
    if is_negative amount
    then record {
      main = main;
      view = record view { available_buffer = add_to asset (neg64 amount) view.available_buffer };
      status = success;
    }
    else settle (Account.conditional_escrow main asset (neg64 new_buffer)) main view buffer asset
        new_buffer

unfoldable pub lookup_available_balance :
    UserAccount → UserAccountView → ℕ → UserAccount × UserAccountView × ℕ
lookup_available_balance main view asset =
    let (main', available) = Account.lookup_available_balance main asset in
    let (buffer, buffered) = index asset view.available_buffer in
    (main', record view { available_buffer = buffer }, add64 available buffered)

-- `main.transfer_available(asset, amount)` for each entry of the buffer.
unfoldable pub commit_entries : UserAccount → Map ℕ → UserAccount
commit_entries main [] = main
commit_entries main ((asset, amount) ∷ rest) =
    commit_entries (Account.transfer_available main asset amount) rest

unfoldable pub commit : UserAccount → UserAccountView → UserAccount
unfolding commit_entries
commit main view = commit_entries main view.available_buffer

-- `main.transfer_available(asset, -amount)` for each side effect.
unfoldable pub unwind_entries : UserAccount → Map ℕ → UserAccount
unwind_entries main [] = main
unwind_entries main ((asset, amount) ∷ rest) =
    unwind_entries (Account.transfer_available main asset (neg64 amount)) rest

unfoldable pub unwind : UserAccount → UserAccountView → UserAccount
unfolding unwind_entries
unwind main view = unwind_entries main view.available_side_effects
