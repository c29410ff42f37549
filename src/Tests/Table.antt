-- ===== src/Tests/Table.antt =====
-- A concrete table of accounts; the trie keeps a list of the keys that it is given.
use speedex_parallelize.Base.{
  false, ℕ, ◌+◌, zero, suc, ◌≤◌, ◌<◌, ◌↔◌, get_elem?, ◌≡◌, refl, ◌∙◌, true, none, some, List, [],
  ◌∷◌, arith, if◌then◌else◌, length, neg64,
}
use speedex_parallelize.Base.Maps.{find}
use speedex_parallelize.Xdr.{success, new_account_temp_reserved}
use speedex_parallelize.Asset.{make}
use speedex_parallelize.Asset
use speedex_parallelize.Account.{UserAccount}
use speedex_parallelize.Account
use speedex_parallelize.Account.Commit
use speedex_parallelize.Database.{
  MemoryDatabase, CommitmentTrie, lookup_user_id, reserve_account_creation,
  release_account_creation, commit_account_creation, commit_new_accounts, check_valid_state,
  all_accounts_valid, last_thunk, contains,
}
use speedex_parallelize.View.Buffered.{new, create_new_account, unwind}
use speedex_parallelize.View.Buffered.Release.{unwind-create_new_account}
use speedex_parallelize.Database.Creation.{reserve_account_creation_lem}
use speedex_parallelize.Database.Validity.{check_valid_state_lem}
use speedex_parallelize.Database.Index.{
  WellIndexed, owners, commit_account_creation-WellIndexed, commit_new_accounts-WellIndexed,
}

abbrev key_list : CommitmentTrie (List (List ℕ))
key_list = record { insert_commitment = λ k c t. k ∷ t; perform_deletion = λ k t. t }

abbrev account_of : ℕ → ℕ → UserAccount
account_of owner amount = record {
  owned_assets = [];
  uncommitted_assets = make amount ∷ [];
  sequence_number_vec = 0;
  last_committed_id = 0;
  owner = owner;
  pk = [];
}

-- Account 70 stands in the table, with an amount that is negative; account 71 is new.
abbrev two_accounts : MemoryDatabase (List (List ℕ))
two_accounts = record {
  user_id_to_idx_map = (70, 0) ∷ [];
  uncommitted_idx_map = (71, 1) ∷ [];
  reserved_account_ids = 71 ∷ [];
  database = account_of 70 (neg64 5) ∷ [];
  uncommitted_db = account_of 71 9 ∷ [];
  commitment_trie = [];
  account_creation_thunks = [];
}

-- The index of the table finds account 70 at place 0, and nothing else.
only_70 : (id idx : ℕ) → (find id ((70, 0) ∷ []) ≡ some idx) ↔ (get_elem? (70 ∷ []) idx ≡ some id)
unfolding find
only_70 id zero = (λ e. ground arith, λ e. ground arith)
only_70 id (suc idx) = (λ e. ground arith, λ e. ground arith)

only_71 :
    (id idx : ℕ)
    → (find id ((71, 1) ∷ []) ≡ some idx) ↔ ((1 ≤ idx) × (get_elem? (70 ∷ 71 ∷ []) idx ≡ some id))
unfolding find
only_71 id zero = (λ e. ground arith, λ e. absurd (omega (arith, e.0)))
only_71 id (suc zero) = (λ e. (omega arith, ground arith), λ e. ground arith)
only_71 id (suc (suc idx)) = (λ e. ground arith, λ e. ground arith)

in_one :
    (id idx : ℕ) → find {V = ℕ} id ((70, 0) ∷ []) ≡ some idx → find {V = ℕ} id ((71, 1) ∷ []) ≡ none
unfolding find
in_one id idx e = ground arith

two_accounts-WellIndexed : WellIndexed two_accounts
two_accounts-WellIndexed = record { committed = only_70; uncommitted = only_71; apart = in_one }

no_account_72 : lookup_user_id two_accounts 72 ≡ none
unfolding lookup_user_id find
no_account_72 = refl

reserve_account_creation_lem_example :
    let r = reserve_account_creation two_accounts 72 in
    (r.1 ≡ (if contains 72 (71 ∷ []) then new_account_temp_reserved else success))
    × ((reserve_account_creation r.0 72).1 ≡ new_account_temp_reserved)
    × ((reserve_account_creation (release_account_creation r.0 72) 72).1 ≡ success)
reserve_account_creation_lem_example = reserve_account_creation_lem two_accounts 72 no_account_72

check_valid_state_lem_example :
    check_valid_state (two_accounts.database ∷ []) two_accounts
    ≡ all_accounts_valid two_accounts.uncommitted_db
check_valid_state_lem_example = check_valid_state_lem two_accounts (two_accounts.database ∷ [])

-- The check passes, though account 70 has a negative amount.
invalid_account_passes : check_valid_state (two_accounts.database ∷ []) two_accounts ≡ true
unfolding all_accounts_valid Account.in_valid_state Account.all_valid make Asset.in_valid_state
invalid_account_passes = check_valid_state_lem two_accounts (two_accounts.database ∷ []) ∙ refl

fresh_committed : find 72 two_accounts.user_id_to_idx_map ≡ none
unfolding find
fresh_committed = refl

fresh_uncommitted : find 72 two_accounts.uncommitted_idx_map ≡ none
unfolding find
fresh_uncommitted = refl

commit_account_creation-WellIndexed_example :
    WellIndexed (commit_account_creation two_accounts 72 (account_of 72 0))
commit_account_creation-WellIndexed_example =
    commit_account_creation-WellIndexed two_accounts (account_of 72 0) two_accounts-WellIndexed
      fresh_committed fresh_uncommitted

few_balances : length (Account.Commit.commit (account_of 71 9)).owned_assets < 256
unfolding Account.Commit.commit Account.Commit.committed_new
few_balances = omega arith

next_is_1 : last_thunk 0 [] + 1 ≡ 1
unfolding last_thunk
next_is_1 = refl

commit_new_accounts-WellIndexed_example :
    (db' : MemoryDatabase (List (List ℕ))) × (commit_new_accounts key_list 0 two_accounts 1
      ≡ some db')
    × (owners db'.database ≡ (70 ∷ 71 ∷ []))
    × (db'.uncommitted_db ≡ [])
    × (db'.reserved_account_ids ≡ [])
    × WellIndexed db'
commit_new_accounts-WellIndexed_example =
    commit_new_accounts-WellIndexed key_list 0 1 two_accounts two_accounts-WellIndexed
      (few_balances, tt) next_is_1

fresh_72 : contains 72 (71 ∷ []) ≡ false
unfolding contains
fresh_72 = refl

unwind-create_new_account_example :
    let c = create_new_account two_accounts (new two_accounts) 72 [] in
    (c.status ≡ success)
    × ((reserve_account_creation (unwind c.db c.view) 72).1 ≡ new_account_temp_reserved)
unwind-create_new_account_example =
    unwind-create_new_account two_accounts 72 [] no_account_72 fresh_72 (omega arith)
