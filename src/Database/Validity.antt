-- ===== src/Database/Validity.antt =====
-- What the validity check of the database answers (Database).
use speedex_parallelize.Base.{◌≡◌, refl, Bool, true, List, [], ◌∷◌, arith}
use speedex_parallelize.Account.{UserAccount}
use speedex_parallelize.Database.{
  MemoryDatabase, validate_range, validate_ranges, all_accounts_valid, check_valid_state,
}

validate_range_lem :
    (accounts : List UserAccount) (valid : Bool) → validate_range accounts valid ≡ valid
unfolding validate_range
validate_range_lem [] valid = refl
validate_range_lem (a ∷ rest) valid = ground (arith, validate_range_lem rest valid)

validate_ranges_lem :
    (ranges : List (List UserAccount)) (valid : Bool) → validate_ranges ranges valid ≡ valid
unfolding validate_ranges
validate_ranges_lem [] valid = refl
validate_ranges_lem (r ∷ rs) valid =
    ground (arith, validate_range_lem r valid, validate_ranges_lem rs valid)

-- However the table is cut into ranges, the check answers for the uncommitted accounts alone: an
-- account of the table that is not valid does not count.
pub check_valid_state_lem {ℓ} :
    {T : Type ℓ} (db : MemoryDatabase T) (ranges : List (List UserAccount))
    → check_valid_state ranges db ≡ all_accounts_valid db.uncommitted_db
unfolding check_valid_state
check_valid_state_lem db ranges = rw (validate_ranges_lem ranges true)
