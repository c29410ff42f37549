-- ===== src/View/Unbuffered.antt =====
-- `UnbufferedMemoryDatabaseView`, by which a block that is checked changes the accounts at once, and
-- `UnlimitedMoneyBufferedMemoryDatabaseView`, which hands out what an account would lack. Their state
-- is that of `AccountCreationView`; the buffered part of the first stays empty.
use speedex_parallelize.Base.{
  ℕ, Bool, true, ◌&&◌, not, Option, none, some, ltb, leb, ◌==◌, if◌then◌else◌, neg64, is_negative,
}
use speedex_parallelize.Xdr.{success}
use speedex_parallelize.Account
use speedex_parallelize.Database.{MemoryDatabase}
use speedex_parallelize.Database
use speedex_parallelize.View.Account as AccountView
use speedex_parallelize.View.Buffered.{BufferedView, Called, with_new, with_view, commit_new}
use speedex_parallelize.View.Buffered

-- The two calls have one shape: `main_call` on the table, `new_call` on an account of the view.
abbrev pub unbuffered {ℓ} :
    {T : Type ℓ}
    → Option (MemoryDatabase T × Unit {0})
    → Option (MemoryDatabase T × BufferedView × Bool)
    → BufferedView
    → ℕ
    → Option (Called T)
unbuffered main_call new_call v account =
    if ltb account v.db_size
    then elim main_call [
      | none ↦ none
      | some (db', u) ↦ some (record { db = db'; view = v; status = success })
    ]
    else elim new_call [
      | none ↦ none
      | some (db', v', ok) ↦ some (record { db = db'; view = v'; status = success })
    ]

unfoldable pub escrow {ℓ} :
    {T : Type ℓ} → MemoryDatabase T → BufferedView → ℕ → ℕ → ℕ → Option (Called T)
unfolding with_new Database.escrow
escrow db v account asset amount =
    unbuffered (Database.escrow db account asset amount)
      (with_new db v account (λ a. (Account.escrow a asset amount, true))) v account

unfoldable pub transfer_available {ℓ} :
    {T : Type ℓ} → MemoryDatabase T → BufferedView → ℕ → ℕ → ℕ → Option (Called T)
unfolding with_new Database.transfer_available
transfer_available db v account asset amount =
    unbuffered (Database.transfer_available db account asset amount)
      (with_new db v account (λ a. (Account.transfer_available a asset amount, true))) v account

-- `AccountCreationView::commit`.
unfoldable pub commit {ℓ} : {T : Type ℓ} → MemoryDatabase T → BufferedView → MemoryDatabase T
unfolding commit_new
commit db v = commit_new v.new_accounts db

-- `amount > 0` for an `int64`.
abbrev pub is_positive : ℕ → Bool
is_positive amount = not (is_negative amount) && not (amount == 0)

-- The amount that `UnlimitedMoneyBufferedMemoryDatabaseView` puts in before a call.
unfoldable pub hand_out {ℓ} :
    {T : Type ℓ} → MemoryDatabase T → BufferedView → ℕ → ℕ → ℕ → Option (Called T)
unfolding with_new with_view
hand_out db v account asset amount =
    if leb v.db_size account
    then elim (with_new db v account (λ a. (Account.transfer_available a asset amount, true))) [
      | none ↦ none
      | some (db', v', ok) ↦ some (record { db = db'; view = v'; status = success })
    ]
    else with_view db v account (λ main u. AccountView.transfer_available main u asset amount)

unfoldable pub unlimited_escrow {ℓ} :
    {T : Type ℓ} → MemoryDatabase T → BufferedView → ℕ → ℕ → ℕ → Option (Called T)
unfolding hand_out Buffered.escrow
unlimited_escrow db v account asset amount =
    if is_positive amount
    then elim (hand_out db v account asset amount) [
      | none ↦ none
      | some c ↦ Buffered.escrow c.db c.view account asset amount
    ]
    else Buffered.escrow db v account asset amount

unfoldable pub unlimited_transfer_available {ℓ} :
    {T : Type ℓ} → MemoryDatabase T → BufferedView → ℕ → ℕ → ℕ → Option (Called T)
unfolding hand_out Buffered.transfer_available
unlimited_transfer_available db v account asset amount =
    if is_negative amount
    then elim (hand_out db v account asset (neg64 amount)) [
      | none ↦ none
      | some c ↦ Buffered.transfer_available c.db c.view account asset amount
    ]
    else Buffered.transfer_available db v account asset amount
