-- ===== src/Database/Creation.antt =====
-- The reservation of the id of a new account (Database).
use speedex_parallelize.Base.{ℕ, ◌≡◌, refl, false, none, List, [], ◌∷◌, arith, if◌then◌else◌}
use speedex_parallelize.Xdr.{success, new_account_temp_reserved}
use speedex_parallelize.Database.{
  MemoryDatabase, lookup_user_id, contains, remove, reserve_account_creation,
  release_account_creation,
}

contains-remove : (x : ℕ) (ys : List ℕ) → contains x (remove x ys) ≡ false
unfolding contains remove
contains-remove x [] = refl
contains-remove x (y ∷ ys) = ground (arith, contains-remove x ys)

-- Take an id that no account has. Reserving it succeeds, or is refused if it is reserved already;
-- after that reserving it is refused, and succeeds again once it has been released.
pub reserve_account_creation_lem {ℓ} :
    {T : Type ℓ} (db : MemoryDatabase T) (account : ℕ)
    → lookup_user_id db account ≡ none
    → let r = reserve_account_creation db account in
      (r.1
        ≡ (if contains account db.reserved_account_ids then new_account_temp_reserved else success))
      × ((reserve_account_creation r.0 account).1 ≡ new_account_temp_reserved)
      × ((reserve_account_creation (release_account_creation r.0 account) account).1 ≡ success)
unfolding lookup_user_id reserve_account_creation release_account_creation contains remove
reserve_account_creation_lem db account free =
    let removed = contains-remove account db.reserved_account_ids in
    (ground arith, ground arith, ground (arith, removed))
