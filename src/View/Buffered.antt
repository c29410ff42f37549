-- ===== src/View/Buffered.antt =====
-- `AccountCreationView` and `BufferedMemoryDatabaseView`: the changes of one transaction to the
-- database. An account of the table is changed through its own view (View/Account); an account that
-- the transaction creates lives in the view until commit. The database, which the source holds by
-- reference, is an argument and a result of each call.
pub mod Release
pub mod Restore
use speedex_parallelize.Base.{
  ℕ, ◌+◌, Bool, true, false, Option, none, some, List, [], ◌∷◌, leb, if◌then◌else◌, length,
  get_elem?, set,
}
use speedex_parallelize.Base.Maps.{Map, find, insert, emplace}
use speedex_parallelize.Xdr.{TransactionProcessingStatus, success, insufficient_balance}
use speedex_parallelize.Account.{UserAccount}
use speedex_parallelize.Account
use speedex_parallelize.Database.{
  MemoryDatabase, lookup_user_id, reserve_account_creation, release_account_creation,
  commit_account_creation,
}
use speedex_parallelize.View.Account.{UserAccountView, Outcome}
use speedex_parallelize.View.Account as AccountView

-- `new_accounts` has the id beside each account; its keys are indices from `db_size` on.
pub record BufferedView : Type 0 where
  pub db_size : ℕ
  pub new_accounts : Map (ℕ × UserAccount)
  pub temporary_idxs : Map ℕ
  pub accounts : Map UserAccountView

unfoldable pub new {ℓ} : {T : Type ℓ} → MemoryDatabase T → BufferedView
new db = record {
  db_size = length db.database;
  new_accounts = [];
  temporary_idxs = [];
  accounts = [];
}

unfoldable pub find_user_id {ℓ} : {T : Type ℓ} → MemoryDatabase T → BufferedView → ℕ → Option ℕ
unfolding lookup_user_id
find_user_id db v account = elim (lookup_user_id db account) [
  | some idx ↦ some idx
  | none ↦ find account v.temporary_idxs
]

-- The database, the view, the status, and on success the index of the new account.
pub record Creation {ℓ} (T : Type ℓ) : Type ℓ where
  pub db : MemoryDatabase T
  pub view : BufferedView
  pub status : TransactionProcessingStatus
  pub out : Option ℕ

abbrev pub succeeded : TransactionProcessingStatus → Bool
succeeded success = true
succeeded _ = false

unfoldable pub create_new_account {ℓ} :
    {T : Type ℓ} → MemoryDatabase T → BufferedView → ℕ → List ℕ → Creation T
create_new_account db v account pk =
    let (db', status) = reserve_account_creation db account in
    let new_idx = length v.temporary_idxs + v.db_size in
    if succeeded status
    then record {
      db = db';
      view = record v {
        temporary_idxs = emplace account new_idx v.temporary_idxs;
        new_accounts = emplace new_idx (account, Account.new account pk) v.new_accounts;
      };
      status = status;
      out = some new_idx;
    }
    else record { db = db'; view = v; status = status; out = none }

-- `UserAccountView` of an account of the table, made when it is first used.
unfoldable pub get_existing_account : BufferedView → ℕ → UserAccountView
unfolding find
get_existing_account v account = elim (find account v.accounts) [
  | some view ↦ view
  | none ↦ AccountView.new
]

-- The database and the view after a call, and its status.
pub record Called {ℓ} (T : Type ℓ) : Type ℓ where
  pub db : MemoryDatabase T
  pub view : BufferedView
  pub status : TransactionProcessingStatus

-- A call of the view of an account of the table; `none` is the exception of `find_account`.
unfoldable pub with_view {ℓ} :
    {T : Type ℓ}
    → MemoryDatabase T
    → BufferedView
    → ℕ
    → (UserAccount → UserAccountView → Outcome)
    → Option (Called T)
unfolding get_existing_account
with_view db v account call = elim (get_elem? db.database account) [
  | none ↦ none
  | some main ↦
      let o = call main (get_existing_account v account) in
      some (record {
        db = record db { database = set db.database account o.main };
        view = record v { accounts = insert account o.view v.accounts };
        status = o.status;
      })
]

-- A call of an account that the transaction has created; `none` is an index that is not there.
unfoldable pub with_new {ℓ} :
    {T : Type ℓ}
    → MemoryDatabase T
    → BufferedView
    → ℕ
    → (UserAccount → UserAccount × Bool)
    → Option (MemoryDatabase T × BufferedView × Bool)
with_new db v account call = elim (find account v.new_accounts) [
  | none ↦ none
  | some (id, acc) ↦
      let (acc', result) = call acc in
      some (db, record v { new_accounts = insert account (id, acc') v.new_accounts }, result)
]

unfoldable pub escrow {ℓ} :
    {T : Type ℓ} → MemoryDatabase T → BufferedView → ℕ → ℕ → ℕ → Option (Called T)
unfolding with_view with_new
escrow db v account asset amount =
    if leb v.db_size account
    then elim (with_new db v account (λ a. Account.conditional_escrow a asset amount)) [
      | none ↦ none
      | some (db', v', ok) ↦
          some (record {
            db = db';
            view = v';
            status = (if ok then success else insufficient_balance);
          })
    ]
    else with_view db v account (λ main u. AccountView.conditional_escrow main u asset amount)

-- A new account that does not cover the amount is an exception here.
unfoldable pub transfer_available {ℓ} :
    {T : Type ℓ} → MemoryDatabase T → BufferedView → ℕ → ℕ → ℕ → Option (Called T)
unfolding with_view with_new
transfer_available db v account asset amount =
    if leb v.db_size account
    then elim (with_new db v account (λ a. Account.conditional_transfer_available a asset amount)) [
      | none ↦ none
      | some (db', v', ok) ↦
          if ok then some (record { db = db'; view = v'; status = success }) else none
    ]
    else with_view db v account (λ main u. AccountView.transfer_available main u asset amount)

-- `iter->second.commit()`, or `unwind()`, of the view of each account.
unfoldable pub end_views {ℓ} :
    {T : Type ℓ}
    → (UserAccount → UserAccountView → UserAccount)
    → Map UserAccountView
    → MemoryDatabase T
    → MemoryDatabase T
end_views close [] db = db
end_views close ((idx, u) ∷ rest) db = elim (get_elem? db.database idx) [
  | none ↦ end_views close rest db
  | some main ↦ end_views close rest (record db { database = set db.database idx (close main u) })
]

unfoldable pub commit_new {ℓ} :
    {T : Type ℓ} → Map (ℕ × UserAccount) → MemoryDatabase T → MemoryDatabase T
commit_new [] db = db
commit_new ((idx, (id, acc)) ∷ rest) db = commit_new rest (commit_account_creation db id acc)

unfoldable pub commit {ℓ} : {T : Type ℓ} → MemoryDatabase T → BufferedView → MemoryDatabase T
unfolding end_views commit_new
commit db v = commit_new v.new_accounts (end_views AccountView.commit v.accounts db)

-- `main_db.release_account_creation(iter->first)`: the key is the index, not the id.
unfoldable pub release_new {ℓ} :
    {T : Type ℓ} → Map (ℕ × UserAccount) → MemoryDatabase T → MemoryDatabase T
release_new [] db = db
release_new ((idx, (id, acc)) ∷ rest) db = release_new rest (release_account_creation db idx)

unfoldable pub unwind {ℓ} : {T : Type ℓ} → MemoryDatabase T → BufferedView → MemoryDatabase T
unfolding end_views release_new
unwind db v = release_new v.new_accounts (end_views AccountView.unwind v.accounts db)
