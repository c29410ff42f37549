-- ===== src/View/Buffered/Release.antt =====
-- A created account of a transaction that is unwound (View/Buffered).
use speedex_parallelize.Base.{ℕ, ◌+◌, ◌≡◌, refl, ◌≢◌, false, none, List, ◌∷◌, arith, length}
use speedex_parallelize.Base.Maps.{emplace}
use speedex_parallelize.Xdr.{success, new_account_temp_reserved}
use speedex_parallelize.Database.{
  MemoryDatabase, lookup_user_id, contains, remove, reserve_account_creation,
  release_account_creation,
}
use speedex_parallelize.View.Buffered.{new, create_new_account, end_views, release_new, unwind}

reserves {ℓ} :
    {T : Type ℓ} (db : MemoryDatabase T) (account : ℕ)
    → lookup_user_id db account ≡ none
    → contains account db.reserved_account_ids ≡ false
    → reserve_account_creation db account
      ≡ (record db { reserved_account_ids = account ∷ db.reserved_account_ids }, success)
unfolding lookup_user_id reserve_account_creation
reserves db account free fresh = rw (reserve_account_creation, free, fresh)

still_reserved {ℓ} :
    {T : Type ℓ} (db : MemoryDatabase T) (account idx : ℕ)
    → lookup_user_id db account ≡ none
    → account ≢ idx
    → (reserve_account_creation
        (release_account_creation
          (record db { reserved_account_ids = account ∷ db.reserved_account_ids })
          idx)
        account).1
      ≡ new_account_temp_reserved
unfolding lookup_user_id reserve_account_creation release_account_creation contains remove
still_reserved db account idx free ne = ground arith

-- Take an id that no account has, that is not reserved, and that is not the number of accounts in the
-- table. A transaction creates an account with this id and is unwound. Then the id is still
-- reserved: no other transaction can create the account.
pub unwind-create_new_account {ℓ} :
    {T : Type ℓ} (db : MemoryDatabase T) (account : ℕ) (pk : List ℕ)
    → lookup_user_id db account ≡ none
    → contains account db.reserved_account_ids ≡ false
    → account ≢ length db.database
    → let c = create_new_account db (new db) account pk in
      (c.status ≡ success)
      × ((reserve_account_creation (unwind c.db c.view) account).1 ≡ new_account_temp_reserved)
unfolding create_new_account new unwind end_views release_new emplace
unwind-create_new_account db account pk free fresh ne =
    let e = reserves db account free fresh in
    rw (create_new_account, e)
      (refl, still_reserved db account (0 + length db.database) free (λ e. ne (omega (arith, e))))
