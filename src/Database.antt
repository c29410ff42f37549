-- ===== src/Database.antt =====
-- memory_database.h, memory_database.cc: the table of accounts, the index from account ids to places
-- in it, and the accounts that the transactions of a block create. The trie that commits to the
-- accounts, and the number of the round that is on disk, are parameters. The locks are not modelled:
-- each call is one step. State commitments, the modification log and lmdb are not in this file.
pub mod Creation
pub mod Index
pub mod Validity
use speedex_parallelize.Base.{
  ℕ, ◌+◌, ◌-◌, Bool, true, false, ◌&&◌, ◌||◌, not, Option, none, some, List, [], ◌∷◌, ◌++◌, map,
  ltb, ◌==◌, if◌then◌else◌, length, get_elem?, set, take, drop,
}
use speedex_parallelize.Base.Maps.{Map, find, insert, emplace, erase}
use speedex_parallelize.Xdr.{
  TransactionProcessingStatus, success, new_account_already_exists, new_account_temp_reserved,
  AccountCommitment,
}
use speedex_parallelize.Account.{UserAccount}
use speedex_parallelize.Account
use speedex_parallelize.Account.SeqNum
use speedex_parallelize.Account.Commit
use speedex_parallelize.Account.Commitment.{produce_commitment}
use speedex_parallelize.Price.BigEndian.{write_unsigned_big_endian}

pub record AccountCreationThunk : Type 0 where
  pub current_block_number : ℕ
  pub num_accounts_created : ℕ

-- What the database uses of `DBStateCommitmentTrie`.
pub record CommitmentTrie {ℓ} (T : Type ℓ) : Type ℓ where
  pub insert_commitment : List ℕ → AccountCommitment → T → T
  pub perform_deletion : List ℕ → T → T

pub record MemoryDatabase {ℓ} (T : Type ℓ) : Type ℓ where
  pub user_id_to_idx_map : Map ℕ
  pub uncommitted_idx_map : Map ℕ
  pub reserved_account_ids : List ℕ
  pub database : List UserAccount
  pub uncommitted_db : List UserAccount
  pub commitment_trie : T
  pub account_creation_thunks : List AccountCreationThunk

unfoldable pub write_trie_key : ℕ → List ℕ
write_trie_key account = write_unsigned_big_endian 8 account

-- `find_account` and a call of the account that it finds; `none` is the exception on an index that is
-- out of range.
unfoldable pub with_account {ℓ ℓ'} :
    {T : Type ℓ} {R : Type ℓ'}
    → MemoryDatabase T
    → ℕ
    → (UserAccount → UserAccount × R)
    → Option (MemoryDatabase T × R)
with_account db user_index call = elim (get_elem? db.database user_index) [
  | none ↦ none
  | some acc ↦
      let (acc', result) = call acc in
      some (record db { database = set db.database user_index acc' }, result)
]

unfoldable pub transfer_available {ℓ} :
    {T : Type ℓ} → MemoryDatabase T → ℕ → ℕ → ℕ → Option (MemoryDatabase T × Unit {0})
transfer_available db user_index asset change =
    with_account db user_index (λ a. (Account.transfer_available a asset change, tt))

unfoldable pub escrow {ℓ} :
    {T : Type ℓ} → MemoryDatabase T → ℕ → ℕ → ℕ → Option (MemoryDatabase T × Unit {0})
escrow db user_index asset change =
    with_account db user_index (λ a. (Account.escrow a asset change, tt))

unfoldable pub conditional_transfer_available {ℓ} :
    {T : Type ℓ} → MemoryDatabase T → ℕ → ℕ → ℕ → Option (MemoryDatabase T × Bool)
conditional_transfer_available db user_index asset change =
    with_account db user_index (λ a. Account.conditional_transfer_available a asset change)

unfoldable pub conditional_escrow {ℓ} :
    {T : Type ℓ} → MemoryDatabase T → ℕ → ℕ → ℕ → Option (MemoryDatabase T × Bool)
conditional_escrow db user_index asset change =
    with_account db user_index (λ a. Account.conditional_escrow a asset change)

unfoldable pub lookup_available_balance {ℓ} :
    {T : Type ℓ} → MemoryDatabase T → ℕ → ℕ → Option (MemoryDatabase T × ℕ)
lookup_available_balance db user_index asset =
    with_account db user_index (λ a. Account.lookup_available_balance a asset)

unfoldable pub reserve_sequence_number {ℓ} :
    {T : Type ℓ}
    → MemoryDatabase T
    → ℕ
    → ℕ
    → Option (MemoryDatabase T × TransactionProcessingStatus)
reserve_sequence_number db user_index sequence_number =
    with_account db user_index (λ a. Account.SeqNum.reserve_sequence_number a sequence_number)

-- `none` is an exception, of `find_account` or of the account.
unfoldable pub release_sequence_number {ℓ} :
    {T : Type ℓ} → MemoryDatabase T → ℕ → ℕ → Option (MemoryDatabase T)
release_sequence_number db user_index sequence_number = elim (get_elem? db.database user_index) [
  | none ↦ none
  | some acc ↦ elim (Account.SeqNum.release_sequence_number acc sequence_number) [
    | none ↦ none
    | some acc' ↦ some (record db { database = set db.database user_index acc' })
  ]
]

unfoldable pub commit_sequence_number {ℓ} :
    {T : Type ℓ} → MemoryDatabase T → ℕ → ℕ → Option (MemoryDatabase T × Unit {0})
commit_sequence_number db user_index sequence_number =
    with_account db user_index (λ a. (Account.SeqNum.commit_sequence_number a sequence_number, tt))

unfoldable pub lookup_user_id {ℓ} : {T : Type ℓ} → MemoryDatabase T → ℕ → Option ℕ
lookup_user_id db account = find account db.user_id_to_idx_map

-- `get_pk` and `get_pk_nolock`.
unfoldable pub get_pk {ℓ} : {T : Type ℓ} → MemoryDatabase T → ℕ → Option (List ℕ)
get_pk db account = elim (find account db.user_id_to_idx_map) [
  | none ↦ none
  | some idx ↦ elim (get_elem? db.database idx) [ none ↦ none | some acc ↦ some acc.pk ]
]

unfoldable pub clear_internal_data_structures {ℓ} :
    {T : Type ℓ} → MemoryDatabase T → MemoryDatabase T
clear_internal_data_structures db = record db {
  uncommitted_db = [];
  uncommitted_idx_map = [];
  reserved_account_ids = [];
}

-- `commit_values()` and `rollback_values()`.
unfoldable pub commit_values {ℓ} : {T : Type ℓ} → MemoryDatabase T → MemoryDatabase T
commit_values db = record db { database = map Account.Commit.commit db.database }

unfoldable pub rollback_values {ℓ} : {T : Type ℓ} → MemoryDatabase T → MemoryDatabase T
rollback_values db = record db { database = map Account.Commit.rollback db.database }

-- A set of account ids.
unfoldable pub contains : ℕ → List ℕ → Bool
contains x [] = false
contains x (y ∷ ys) = (y == x) || contains x ys

unfoldable pub remove : ℕ → List ℕ → List ℕ
remove x [] = []
remove x (y ∷ ys) = if y == x then remove x ys else y ∷ remove x ys

unfoldable pub reserve_account_creation {ℓ} :
    {T : Type ℓ} → MemoryDatabase T → ℕ → MemoryDatabase T × TransactionProcessingStatus
reserve_account_creation db account = elim (find account db.user_id_to_idx_map) [
  | some idx ↦ (db, new_account_already_exists)
  | none ↦
      if contains account db.reserved_account_ids
      then (db, new_account_temp_reserved)
      else (record db { reserved_account_ids = account ∷ db.reserved_account_ids }, success)
]

unfoldable pub release_account_creation {ℓ} : {T : Type ℓ} → MemoryDatabase T → ℕ → MemoryDatabase T
release_account_creation db account = record db {
  reserved_account_ids = remove account db.reserved_account_ids;
}

unfoldable pub commit_account_creation {ℓ} :
    {T : Type ℓ} → MemoryDatabase T → ℕ → UserAccount → MemoryDatabase T
commit_account_creation db account_id account_data = record db {
  uncommitted_idx_map =
      emplace account_id (length db.uncommitted_db + length db.database) db.uncommitted_idx_map;
  uncommitted_db = db.uncommitted_db ++ account_data ∷ [];
}

-- The index of the account, which is made when it is not there.
unfoldable pub add_account_to_db {ℓ} :
    {T : Type ℓ} → MemoryDatabase T → ℕ → List ℕ → MemoryDatabase T × ℕ
add_account_to_db db user_id pk = elim (find user_id db.user_id_to_idx_map) [
  | some idx ↦ (db, idx)
  | none ↦ elim (find user_id db.uncommitted_idx_map) [
    | some idx ↦ (db, idx)
    | none ↦
        let idx = length db.database + length db.uncommitted_db in
        (
          record db {
            uncommitted_idx_map = insert user_id idx db.uncommitted_idx_map;
            uncommitted_db = db.uncommitted_db ++ Account.new user_id pk ∷ [];
          },
          idx,
        )
  ]
]

-- The loop of `commit_new_accounts`; `none` is a commitment that is never produced.
unfoldable pub add_new_accounts {ℓ} :
    {T : Type ℓ}
    → CommitmentTrie T
    → List UserAccount
    → List UserAccount
    → T
    → Option (List UserAccount × T)
unfolding write_trie_key
add_new_accounts ops [] database trie = some (database, trie)
add_new_accounts ops (a ∷ rest) database trie =
    let acc = Account.Commit.commit a in
    elim (produce_commitment acc) [
      | none ↦ none
      | some c ↦
          add_new_accounts ops rest (database ++ acc ∷ [])
            (ops.insert_commitment (write_trie_key acc.owner) c trie)
    ]

-- `m.insert(first, last)`, which keeps the entries that are there.
unfoldable pub emplace_all : Map ℕ → Map ℕ → Map ℕ
emplace_all m [] = m
emplace_all m ((k, v) ∷ rest) = emplace_all (emplace k v m) rest

-- The block number of the last thunk.
unfoldable pub last_thunk : ℕ → List AccountCreationThunk → ℕ
last_thunk n [] = n
last_thunk n (t ∷ ts) = last_thunk t.current_block_number ts

-- `none` is the exception on a wrong block number, or a commitment that is never produced.
unfoldable pub commit_new_accounts {ℓ} :
    {T : Type ℓ} → CommitmentTrie T → ℕ → MemoryDatabase T → ℕ → Option (MemoryDatabase T)
unfolding add_new_accounts emplace_all clear_internal_data_structures last_thunk
commit_new_accounts ops persisted_round_number db current_block_number =
    let last = last_thunk persisted_round_number db.account_creation_thunks in
    let expected = last + 1 == current_block_number in
    let genesis = (current_block_number == 0) && (persisted_round_number == 0) in
    if not expected && not genesis
    then none
    else elim (add_new_accounts ops db.uncommitted_db db.database db.commitment_trie) [
      | none ↦ none
      | some (database, trie) ↦ some (
          clear_internal_data_structures (record db {
            database = database;
            commitment_trie = trie;
            user_id_to_idx_map = emplace_all db.user_id_to_idx_map db.uncommitted_idx_map;
            account_creation_thunks =
                db.account_creation_thunks
                ++ record {
                  current_block_number = current_block_number;
                  num_accounts_created = length db.uncommitted_db;
                }
                  ∷ [];
          }))
    ]

-- The account ids and keys of the accounts that a rollback removes.
unfoldable pub erase_owners {ℓ} :
    {T : Type ℓ} → CommitmentTrie T → List UserAccount → Map ℕ → T → Map ℕ × T
unfolding write_trie_key
erase_owners ops [] m trie = (m, trie)
erase_owners ops (a ∷ rest) m trie =
    erase_owners ops rest (erase a.owner m) (ops.perform_deletion (write_trie_key a.owner) trie)

-- The loop of `rollback_new_accounts_` over the thunks, which keeps those up to the block.
unfoldable pub rollback_thunks {ℓ} :
    {T : Type ℓ}
    → CommitmentTrie T
    → ℕ
    → List AccountCreationThunk
    → MemoryDatabase T
    → MemoryDatabase T × List AccountCreationThunk
unfolding erase_owners
rollback_thunks ops current_block_number [] db = (db, [])
rollback_thunks ops current_block_number (t ∷ ts) db =
    let kept_size = length db.database - t.num_accounts_created in
    let (m, trie) =
      erase_owners ops (drop kept_size db.database) db.user_id_to_idx_map db.commitment_trie in
    let shorter = record db {
      database = take kept_size db.database;
      user_id_to_idx_map = m;
      commitment_trie = trie;
    } in
    elim (ltb current_block_number t.current_block_number) [
      | true ↦ rollback_thunks ops current_block_number ts shorter
      | false ↦
          let (rolled, kept) = rollback_thunks ops current_block_number ts db in (rolled, t ∷ kept)
    ]

unfoldable pub rollback_new_accounts {ℓ} :
    {T : Type ℓ} → CommitmentTrie T → MemoryDatabase T → ℕ → MemoryDatabase T
unfolding rollback_thunks clear_internal_data_structures
rollback_new_accounts ops db current_block_number =
    let (rolled, kept) = rollback_thunks ops current_block_number db.account_creation_thunks db in
    clear_internal_data_structures (record rolled { account_creation_thunks = kept })

-- The call of `ValidateStateReduce` on one range of accounts: at an account that is not valid it
-- returns, and leaves the member `valid` as it was.
unfoldable pub validate_range : List UserAccount → Bool → Bool
validate_range [] valid = true && valid
validate_range (a ∷ rest) valid = elim (Account.in_valid_state a) [
  | false ↦ valid
  | true ↦ validate_range rest valid
]

-- `tbb::parallel_reduce` over ranges that make up the table; `join` takes the conjunction.
unfoldable pub validate_ranges : List (List UserAccount) → Bool → Bool
unfolding validate_range
validate_ranges [] valid = valid
validate_ranges (r ∷ rs) valid = validate_range r valid && validate_ranges rs valid

unfoldable pub all_accounts_valid : List UserAccount → Bool
all_accounts_valid [] = true
all_accounts_valid (a ∷ rest) = if Account.in_valid_state a then all_accounts_valid rest else false

-- `check_valid_state()`, with the ranges that the scheduler makes.
unfoldable pub check_valid_state {ℓ} :
    {T : Type ℓ} → List (List UserAccount) → MemoryDatabase T → Bool
unfolding validate_ranges all_accounts_valid
check_valid_state ranges db =
    if validate_ranges ranges true then all_accounts_valid db.uncommitted_db else false
