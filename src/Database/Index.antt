-- ===== src/Database/Index.antt =====
-- The index of the table of accounts: what it means that it is right, and the calls that create
-- accounts (Database).
use speedex_parallelize.Base.{
  ℕ, zero, suc, ◌+◌, ◌≤◌, ◌<◌, ◌↔◌, ◌≡◌, refl, sym, ap, ◌∙◌, inl, inr, true, none, some, List, [],
  ◌∷◌, ◌++◌, arith, ◌==◌, if◌then◌else◌, Option-cases, Bool-cases, ◌⊎◌, length, get_elem?,
  length-append,
}
use native.Mathlib.Decide.{dec_lt}
use mathlib.Core.Option.{some-injective}
use mathlib.Core.List.{append_assoc, append-nil}
use speedex_parallelize.Base.Maps.{Map, emplace, find}
use speedex_parallelize.Account.{UserAccount}
use speedex_parallelize.Account
use speedex_parallelize.Account.Commit
use speedex_parallelize.Account.Commitment.RoundTrip.{from_commitment-produce_commitment}
use speedex_parallelize.Database.{
  MemoryDatabase, CommitmentTrie, add_new_accounts, emplace_all, clear_internal_data_structures,
  last_thunk, commit_account_creation, commit_new_accounts, write_trie_key,
}

-- The owners of a table of accounts, in order.
abbrev pub owners : List UserAccount → List ℕ
owners [] = []
owners (a ∷ rest) = a.owner ∷ owners rest

-- The index of the table finds exactly its accounts, each at its place, and the index of the new
-- accounts exactly those: they stand after the accounts of the table. No id is in both.
pub record WellIndexed {ℓ} {T : Type ℓ} (db : MemoryDatabase T) : Type ℓ where
  pub committed :
      (id idx : ℕ)
      → (find id db.user_id_to_idx_map ≡ some idx) ↔ (get_elem? (owners db.database) idx ≡ some id)
  pub uncommitted :
      (id idx : ℕ)
      → (find id db.uncommitted_idx_map ≡ some idx) ↔ (
          (length db.database ≤ idx)
          × (get_elem? (owners db.database ++ owners db.uncommitted_db) idx ≡ some id))
  pub apart :
      (id idx : ℕ)
      → find id db.user_id_to_idx_map ≡ some idx
      → find id db.uncommitted_idx_map ≡ none

get_elem?-append {ℓ} :
    {A : Type ℓ} (xs ys : List A) (i : ℕ) (v : A)
    → get_elem? xs i ≡ some v
    → get_elem? (xs ++ ys) i ≡ some v
get_elem?-append [] ys i v e = cc
get_elem?-append (x ∷ xs) ys zero v e = e
get_elem?-append (x ∷ xs) ys (suc i) v e = get_elem?-append xs ys i v e

get_elem?-append_before {ℓ} :
    {A : Type ℓ} (xs ys : List A) (i : ℕ) → i < length xs → get_elem? (xs ++ ys) i ≡ get_elem? xs i
get_elem?-append_before [] ys i lt = absurd (omega arith)
get_elem?-append_before (x ∷ xs) ys zero lt = refl
get_elem?-append_before (x ∷ xs) ys (suc i) lt = get_elem?-append_before xs ys i (omega arith)

get_elem?-beyond {ℓ} : {A : Type ℓ} (xs : List A) (i : ℕ) → length xs ≤ i → get_elem? xs i ≡ none
get_elem?-beyond [] i le = refl
get_elem?-beyond (x ∷ xs) zero le = absurd (omega arith)
get_elem?-beyond (x ∷ xs) (suc i) le = get_elem?-beyond xs i (omega arith)

-- A place in a list that has grown by one element is an old one or the last.
get_elem?-grown :
    (xs : List ℕ) (v w i : ℕ)
    → (get_elem? (xs ++ v ∷ []) i ≡ some w)
      ↔ ((get_elem? xs i ≡ some w) ⊎ ((i ≡ length xs) × (v ≡ w)))
get_elem?-grown [] v w zero = (λ e. inr (refl, some-injective v w e), λ h. ground arith)
get_elem?-grown [] v w (suc i) = (λ e. absurd (cc), λ h. ground arith)
get_elem?-grown (x ∷ xs) v w zero = (λ e. inl e, λ h. ground arith)
get_elem?-grown (x ∷ xs) v w (suc i) =
    let (to, from) = get_elem?-grown xs v w i in
    (
      (λ e. elim (to e) [ inl old ↦ inl old | inr last ↦ inr (omega (arith, last.0), last.1) ]),
      λ h. elim h [
        | inl old ↦ from (inl old)
        | inr last ↦ from (inr (omega (arith, last.0), last.1))
      ],
    )

-- An entry that is there hides the one that is emplaced.
find-emplace :
    (k v j : ℕ) (m : Map ℕ)
    → find j (emplace k v m)
      ≡ (elim (find j m) [ some w ↦ some w | none ↦ if k == j then some v else none ])
unfolding find emplace
find-emplace k v j [] = refl
find-emplace k v j ((i, w) ∷ m) = ground (arith, find-emplace k v j m)

find-emplace_all :
    (m new : Map ℕ) (j : ℕ)
    → find j (emplace_all m new) ≡ (elim (find j m) [ some w ↦ some w | none ↦ find j new ])
unfolding emplace_all find
find-emplace_all m [] j = ground arith
find-emplace_all m ((k, v) ∷ new) j =
    ground (arith, find-emplace_all (emplace k v m) new j, find-emplace k v j m)

owners-append : (xs ys : List UserAccount) → owners (xs ++ ys) ≡ owners xs ++ owners ys
owners-append [] ys = refl
owners-append (x ∷ xs) ys = ap (◌∷◌ x.owner) (owners-append xs ys)

length-owners : (xs : List UserAccount) → length (owners xs) ≡ length xs
length-owners [] = refl
length-owners (x ∷ xs) = ap suc (length-owners xs)

-- Take a database whose two indices find exactly the accounts of the table and the uncommitted ones, no
-- id in both, and an account whose owner is in neither. When a transaction commits it as a new account
-- with that id, the indices are right again: the new one finds it behind the others.
pub commit_account_creation-WellIndexed {ℓ} :
    {T : Type ℓ} (db : MemoryDatabase T) (account : UserAccount)
    → WellIndexed db
    → find account.owner db.user_id_to_idx_map ≡ none
    → find account.owner db.uncommitted_idx_map ≡ none
    → WellIndexed (commit_account_creation db account.owner account)
unfolding commit_account_creation
commit_account_creation-WellIndexed db account w fresh fresh' =
    let ids = owners db.database ++ owners db.uncommitted_db in
    let k = account.owner in
    let place : ℕ = length db.uncommitted_db + length db.database in
    let last : place ≡ length ids = omega (
      arith,
      length-owners db.database,
      length-owners db.uncommitted_db,
      length-append (owners db.database) (owners db.uncommitted_db),
    ) in
    record {
      committed = w.committed;
      uncommitted = λ id idx.
          let found = find-emplace k place id db.uncommitted_idx_map in
          let (to, from) = get_elem?-grown ids k id idx in
          let (here, there) = w.uncommitted id idx in
          rw
            (
              owners-append db.uncommitted_db (account ∷ []),
              ← append_assoc (owners db.database) (owners db.uncommitted_db) (k ∷ []),
            )
            (
              (λ e. elim (Option-cases (find id db.uncommitted_idx_map)) [
                | inr (v, at) ↦ let old = here (ground (arith, found)) in (old.0, from (inl old.1))
                | inl absent ↦
                    let new : (place ≡ idx) × (k ≡ id) = ground (arith, found) in
                    (omega (arith, new.0), from (inr (omega (arith, new.0, last), new.1)))
              ]),
              (λ h. elim (to h.1) [
                | inl old ↦ let at = there (h.0, old) in ground (arith, found)
                | inr new ↦
                    let at : place ≡ idx = omega (arith, new.0, last) in
                    let gone : find id db.uncommitted_idx_map ≡ none = rw (← new.1) fresh' in
                    ground (arith, found, new.1)
              ]),
            );
      apart = λ id idx e.
          let found = find-emplace k place id db.uncommitted_idx_map in
          let gone = w.apart id idx e in
          elim (Bool-cases (k == id)) [
            | inl same ↦
                let eq : k ≡ id = ground (arith, same) in
                absurd (cc (e, fresh, ap (λ (j : ℕ). find j db.user_id_to_idx_map) eq))
            | inr other ↦ ground (arith, found)
          ];
    }

-- Each account has fewer than 256 balances once it is committed.
abbrev pub AllFew : List UserAccount → Type 0
AllFew [] = Unit {0}
AllFew (a ∷ rest) = (length (Account.Commit.commit a).owned_assets < 256) × AllFew rest

-- The loop returns, and what it adds to the table has the owners of the new accounts.
add_new_accounts-owners {ℓ} :
    {T : Type ℓ} (ops : CommitmentTrie T) (new database : List UserAccount) (trie : T)
    → AllFew new
    → (database' : List UserAccount) × (trie' : T) × (add_new_accounts ops new database trie
        ≡ some (database', trie'))
      × (owners database' ≡ owners database ++ owners new)
unfolding add_new_accounts Account.Commit.commit
add_new_accounts-owners ops [] database trie few =
    (database, trie, refl, sym (append-nil (owners database)))
add_new_accounts-owners ops (a ∷ new) database trie few =
    let acc = Account.Commit.commit a in
    let (c, produced, _) = from_commitment-produce_commitment acc few.0 in
    let (database', trie', returns, same) =
      add_new_accounts-owners ops new (database ++ acc ∷ [])
        (ops.insert_commitment (write_trie_key acc.owner) c trie) few.1 in
    (
      database',
      trie',
      rw (add_new_accounts, produced) returns,
      same
          ∙ (ap (λ ids. ids ++ owners new) (owners-append database (acc ∷ []))
              ∙ append_assoc (owners database) (acc.owner ∷ []) (owners new)),
    )

-- After the commit the one index finds exactly the accounts of the table that has grown.
emplace_all-committed {ℓ} :
    {T : Type ℓ} (db : MemoryDatabase T)
    → WellIndexed db
    → (id idx : ℕ)
    → (find id (emplace_all db.user_id_to_idx_map db.uncommitted_idx_map) ≡ some idx)
      ↔ (get_elem? (owners db.database ++ owners db.uncommitted_db) idx ≡ some id)
emplace_all-committed db w id idx =
    let old = owners db.database in
    let new = owners db.uncommitted_db in
    let found = find-emplace_all db.user_id_to_idx_map db.uncommitted_idx_map id in
    (
      (λ e. elim (Option-cases (find id db.user_id_to_idx_map)) [
        | inr (v, at) ↦
            let same : v ≡ idx = ground (arith, found) in
            get_elem?-append old new idx id ((w.committed id idx).0 (at ∙ ap some same))
        | inl absent ↦ ((w.uncommitted id idx).0 (ground (arith, found))).1
      ]),
      (λ e. elim (dec_lt idx (length old)) [
        | yes lt ↦
            let at = (w.committed id idx).1 (sym (get_elem?-append_before old new idx lt) ∙ e) in
            ground (arith, found)
        | no ge ↦
            let at = (w.uncommitted id idx).1 (omega (arith, length-owners db.database), e) in
            elim (Option-cases (find id db.user_id_to_idx_map)) [
              | inr (v, there) ↦ let gone = w.apart id v there in absurd (cc (at, gone))
              | inl absent ↦ ground (arith, found)
            ]
      ]),
    )

nothing_found :
    (ids : List ℕ) (id idx : ℕ)
    → (find id [] ≡ some idx) ↔ ((length ids ≤ idx) × (get_elem? (ids ++ []) idx ≡ some id))
unfolding find
nothing_found ids id idx = (
  (λ e. absurd (cc)),
  λ h.
      let none_there = get_elem?-beyond ids idx h.0 in
      absurd (cc (none_there, h.1, append-nil ids)),
)

nothing_left :
    (accounts : List UserAccount) (id idx : ℕ)
    → (find id [] ≡ some idx)
      ↔ ((length accounts ≤ idx) × (get_elem? (owners accounts ++ []) idx ≡ some id))
nothing_left accounts id idx =
    rw (← length-owners accounts) (nothing_found (owners accounts) id idx)

-- Take a database whose two indices find exactly the accounts of the table and the uncommitted ones, no
-- id in both, and in which each uncommitted account has fewer than 256 balances, and let the block be
-- the one after the last. Then the commit of the new accounts returns, their owners stand after those
-- of the table in their order, no account is left uncommitted or reserved, and the indices are right
-- again: that of the table finds exactly the accounts that it had and the new ones, each at its place.
pub commit_new_accounts-WellIndexed {ℓ} :
    {T : Type ℓ} (ops : CommitmentTrie T) (persisted block : ℕ) (db : MemoryDatabase T)
    → WellIndexed db
    → AllFew db.uncommitted_db
    → last_thunk persisted db.account_creation_thunks + 1 ≡ block
    → (db' : MemoryDatabase T) × (commit_new_accounts ops persisted db block ≡ some db')
      × (owners db'.database ≡ owners db.database ++ owners db.uncommitted_db)
      × (db'.uncommitted_db ≡ [])
      × (db'.reserved_account_ids ≡ [])
      × WellIndexed db'
unfolding commit_new_accounts clear_internal_data_structures find
commit_new_accounts-WellIndexed ops persisted block db w few next =
    let (database', trie', returns, same) =
      add_new_accounts-owners ops db.uncommitted_db db.database db.commitment_trie few in
    let is_next : (last_thunk persisted db.account_creation_thunks + 1 == block) ≡ true =
      ground arith in
    (
      record db {
        user_id_to_idx_map = emplace_all db.user_id_to_idx_map db.uncommitted_idx_map;
        uncommitted_idx_map = [];
        reserved_account_ids = [];
        database = database';
        uncommitted_db = [];
        commitment_trie = trie';
        account_creation_thunks =
            db.account_creation_thunks
            ++ record {
              current_block_number = block;
              num_accounts_created = length db.uncommitted_db;
            }
              ∷ [];
      },
      rw (commit_new_accounts, is_next, returns),
      same,
      refl,
      refl,
      record {
        committed = λ id idx. rw same (emplace_all-committed db w id idx);
        uncommitted = λ id idx. nothing_left database' id idx;
        apart = λ id idx e. refl;
      },
    )
