-- ===== src/View/Buffered/Restore.antt =====
-- A buffered view that is unwound leaves every balance of the table as it was when the view was made
-- (View/Buffered).
use mathlib.Core.Option.{some-injective}
use speedex_parallelize.Base.{
  get_elem?-set_ne, ℕ, zero, suc, ◌≡◌, refl, sym, ap, ◌∙◌, ◌≢◌, ◌⊎◌, inl, inr, Bool, true, false,
  none, some, List, [], ◌∷◌, arith, leb, ◌==◌, if◌then◌else◌, Bool-cases, Option-cases, length,
  get_elem?, set, get_or, length-set, IsWord,
}
use speedex_parallelize.Base.Maps.{Map, find, insert, Unique, find-insert, insert-Unique}
use speedex_parallelize.Xdr.{success, insufficient_balance}
use speedex_parallelize.Account.{UserAccount}
use speedex_parallelize.Account
use speedex_parallelize.Account.Laws.{available}
use speedex_parallelize.Database.{
  MemoryDatabase, contains, reserve_account_creation, release_account_creation,
}
use speedex_parallelize.View.Account.{UserAccountView, Outcome}
use speedex_parallelize.View.Account as AccountView
use speedex_parallelize.View.Account.Balances.{IsViewOf}
use speedex_parallelize.View.Account.Laws.{transfer_available-Moves}
use speedex_parallelize.View.Account.Escrow.{conditional_escrow-IsViewOf}
use speedex_parallelize.View.Account.Close.{unwind-orig, new-IsViewOf}
use speedex_parallelize.View.Buffered.{
  BufferedView, Called, succeeded, new, get_existing_account, with_view, with_new,
  create_new_account, transfer_available, escrow, end_views, release_new, unwind,
}

pub set_found {ℓ} :
    {A : Type ℓ} (xs : List A) (i : ℕ) (x v : A)
    → get_elem? xs i ≡ some x
    → get_elem? (set xs i v) i ≡ some v
set_found [] i x v at = cc
set_found (y ∷ ys) zero x v at = refl
set_found (y ∷ ys) (suc i) x v at = set_found ys i x v at

-- What the accounts of the table held, and their number.
pub record Before : Type 0 where
  pub amounts : ℕ → ℕ → ℕ
  pub rows : ℕ

-- The view of each account of the table belongs to the account, which held what `orig` says.
pub record Restores {ℓ} {D : Type ℓ} (orig : Before) (db : MemoryDatabase D) (v : BufferedView)
    : Type ℓ where
  pub keys_unique : Unique v.accounts
  pub size : length db.database ≡ orig.rows
  pub views :
      (idx : ℕ) (acc : UserAccount)
      → get_elem? db.database idx ≡ some acc
      → IsViewOf (orig.amounts idx) acc (get_existing_account v idx)

pub at_get_or :
    (xs : List UserAccount) (i : ℕ) (x : UserAccount)
    → get_elem? xs i ≡ some x
    → get_or xs i (Account.new 0 []) ≡ x
at_get_or [] i x at = cc
at_get_or (y ∷ ys) zero x at = some-injective y x at
at_get_or (y ∷ ys) (suc i) x at = at_get_or ys i x at

-- What a write leaves at a place.
pub get_elem?-set {ℓ} :
    {A : Type ℓ} (xs : List A) (i j : ℕ) (x v w : A)
    → get_elem? xs i ≡ some x
    → get_elem? (set xs i v) j ≡ some w
    → ((i ≡ j) × (v ≡ w)) ⊎ ((i ≢ j) × (get_elem? xs j ≡ some w))
get_elem?-set [] i j x v w at now = cc
get_elem?-set (y ∷ ys) zero zero x v w at now = inl (refl, some-injective v w now)
get_elem?-set (y ∷ ys) zero (suc j) x v w at now = inr ((λ e. omega (arith, e)), now)
get_elem?-set (y ∷ ys) (suc i) zero x v w at now = inr ((λ e. omega (arith, e)), now)
get_elem?-set (y ∷ ys) (suc i) (suc j) x v w at now = elim (get_elem?-set ys i j x v w at now) [
  | inl (e, same) ↦ inl (ap suc e, same)
  | inr (ne, old) ↦ inr ((λ e. ne (omega (arith, e))), old)
]

existing-insert :
    (v : BufferedView) (k j : ℕ) (u : UserAccountView)
    → get_existing_account (record v { accounts = insert k u v.accounts }) j
      ≡ (if k == j then u else get_existing_account v j)
unfolding get_existing_account
existing-insert v k j u = elim (Bool-cases (k == j)) [
  | inl e ↦ rw (get_existing_account, find-insert k j u v.accounts, e) refl
  | inr e ↦ rw (get_existing_account, find-insert k j u v.accounts, e) refl
]

-- The state after a call of the view of an account.
abbrev after_call {ℓ} : {D : Type ℓ} → MemoryDatabase D → BufferedView → ℕ → Outcome → Called D
after_call db v k o = record {
  db = record db { database = set db.database k o.main };
  view = record v { accounts = insert k o.view v.accounts };
  status = o.status;
}

with_view_cases {ℓ} :
    {D : Type ℓ} (db : MemoryDatabase D) (v : BufferedView) (k : ℕ)
    (call : UserAccount → UserAccountView → Outcome) {c : Called D}
    → with_view db v k call ≡ some c
    → (acc : UserAccount) × (get_elem? db.database k ≡ some acc)
      × (after_call db v k (call acc (get_existing_account v k)) ≡ c)
unfolding with_view
with_view_cases db v k call {c} run = elim (Option-cases (get_elem? db.database k)) [
  | inl missing ↦
      let fails : with_view db v k call ≡ none = rw (with_view, missing) in cc (sym fails ∙ run)
  | inr (acc, found) ↦
      let done : with_view db v k call
          ≡ some (after_call db v k (call acc (get_existing_account v k))) =
        rw (with_view, found) in
      (acc, found, some-injective _ c (sym done ∙ run))
]

after_call-Restores {ℓ} :
    {D : Type ℓ} (orig : Before) (db : MemoryDatabase D) (v : BufferedView) (k : ℕ)
    (acc : UserAccount) (o : Outcome)
    → get_elem? db.database k ≡ some acc
    → IsViewOf (orig.amounts k) o.main o.view
    → Restores orig db v
    → Restores orig (after_call db v k o).db (after_call db v k o).view
after_call-Restores orig db v k acc o found is_view r = record {
  keys_unique = insert-Unique k o.view v.accounts r.keys_unique;
  size = length-set db.database k o.main ∙ r.size;
  views = λ idx now at.
      rw (existing-insert v k idx o.view)
        (elim (get_elem?-set db.database k idx acc o.main now found at) [
          | inl (e, same) ↦
              let hit : (k == idx) ≡ true = ground arith in rw (hit, ← e, ← same) is_view
          | inr (ne, old) ↦
              let miss : (k == idx) ≡ false = ground arith in rw miss (r.views idx now old)
        ]);
}

-- A call of the view of an account that keeps the view with its account.
abbrev Keeps : (UserAccount → UserAccountView → Outcome) → Type 0
Keeps call =
    (orig : ℕ → ℕ) (main : UserAccount) (view : UserAccountView)
    → IsViewOf orig main view
    → IsViewOf orig (call main view).main (call main view).view

with_view-Restores {ℓ} :
    {D : Type ℓ} (orig : Before) (db : MemoryDatabase D) (v : BufferedView) (k : ℕ)
    (call : UserAccount → UserAccountView → Outcome) {c : Called D}
    → Keeps call
    → with_view db v k call ≡ some c
    → Restores orig db v
    → Restores orig c.db c.view
with_view-Restores orig db v k call {c} keeps run r =
    let (acc, found, e) = with_view_cases db v k call run in
    rw (← e) (
      after_call-Restores orig db v k acc (call acc (get_existing_account v k)) found
        (keeps (orig.amounts k) acc (get_existing_account v k) (r.views k acc found)) r)

with_new_cases {ℓ} :
    {D : Type ℓ} (db : MemoryDatabase D) (v : BufferedView) (k : ℕ)
    (call : UserAccount → UserAccount × Bool) {x : MemoryDatabase D × BufferedView × Bool}
    → with_new db v k call ≡ some x
    → (x.0 ≡ db) × (x.1.accounts ≡ v.accounts)
unfolding with_new
with_new_cases db v k call {x} run = elim (Option-cases (find k v.new_accounts)) [
  | inl missing ↦
      let fails : with_new db v k call ≡ none = rw (with_new, missing) in cc (sym fails ∙ run)
  | inr ((id, acc), found) ↦
      let (acc', result) = call acc in
      let done : with_new db v k call
          ≡ some (db, record v { new_accounts = insert k (id, acc') v.new_accounts }, result) =
        rw (with_new, found) refl in
      let e = some-injective _ x (sym done ∙ run) in
      (ap (λ y. y.0) (sym e), ap (λ y. y.1.accounts) (sym e))
]

transfer-Keeps : (asset amount : ℕ) → Keeps (λ m u. AccountView.transfer_available m u asset amount)
transfer-Keeps asset amount orig main view is_view =
    (transfer_available-Moves orig main view is_view asset amount).is_view

same-Restores {ℓ} :
    {D : Type ℓ} (orig : Before) (db db' : MemoryDatabase D) (v v' : BufferedView)
    → db'.database ≡ db.database
    → v'.accounts ≡ v.accounts
    → Restores orig db v
    → Restores orig db' v'
unfolding get_existing_account
same-Restores orig db db' v v' e e' r = record {
  keys_unique = rw e' r.keys_unique;
  size = ap length e ∙ r.size;
  views = λ idx acc at.
      rw (get_existing_account, e') (r.views idx acc (sym (ap (λ xs. get_elem? xs idx) e) ∙ at));
}

pub transfer_available-Restores {ℓ} :
    {D : Type ℓ} (orig : Before) (db : MemoryDatabase D) (v : BufferedView) (k asset amount : ℕ)
    {c : Called D}
    → transfer_available db v k asset amount ≡ some c
    → Restores orig db v
    → Restores orig c.db c.view
unfolding transfer_available
transfer_available-Restores orig db v k asset amount {c} run r =
    let call : UserAccount → UserAccountView → Outcome =
      λ m u. AccountView.transfer_available m u asset amount in
    let new_call : UserAccount → UserAccount × Bool =
      λ a. Account.conditional_transfer_available a asset amount in
    elim (Bool-cases (leb v.db_size k)) [
      | inl fresh ↦ elim (Option-cases (with_new db v k new_call)) [
        | inl missing ↦
            let fails : transfer_available db v k asset amount ≡ none =
              rw (transfer_available, fresh, missing) refl in
            cc (sym fails ∙ run)
        | inr ((db', v', true), done) ↦
            let (same, same') = with_new_cases db v k new_call done in
            let ends : transfer_available db v k asset amount
                ≡ some (record { db = db'; view = v'; status = success }) =
              rw (transfer_available, fresh, done) refl in
            rw (← some-injective _ c (sym ends ∙ run))
              (same-Restores orig db db' v v' (ap (λ d. d.database) same) same' r)
        | inr ((db', v', false), done) ↦
            let fails : transfer_available db v k asset amount ≡ none =
              rw (transfer_available, fresh, done) refl in
            cc (sym fails ∙ run)
      ]
      | inr old ↦
          let ends : transfer_available db v k asset amount ≡ with_view db v k call =
            rw (transfer_available, old) refl in
          with_view-Restores orig db v k call (transfer-Keeps asset amount) (sym ends ∙ run) r
    ]

pub escrow-Restores {ℓ} :
    {D : Type ℓ} (orig : Before) (db : MemoryDatabase D) (v : BufferedView) (k asset amount : ℕ)
    {c : Called D}
    → escrow db v k asset amount ≡ some c
    → Restores orig db v
    → Restores orig c.db c.view
unfolding escrow
escrow-Restores orig db v k asset amount {c} run r =
    let call : UserAccount → UserAccountView → Outcome =
      λ m u. AccountView.conditional_escrow m u asset amount in
    let new_call : UserAccount → UserAccount × Bool =
      λ a. Account.conditional_escrow a asset amount in
    elim (Bool-cases (leb v.db_size k)) [
      | inl fresh ↦ elim (Option-cases (with_new db v k new_call)) [
        | inl missing ↦
            let fails : escrow db v k asset amount ≡ none = rw (escrow, fresh, missing) refl in
            cc (sym fails ∙ run)
        | inr ((db', v', ok), done) ↦
            let (same, same') = with_new_cases db v k new_call done in
            let ends : escrow db v k asset amount
                ≡ some (record {
                  db = db';
                  view = v';
                  status = (if ok then success else insufficient_balance);
                }) =
              rw (escrow, fresh, done) refl in
            rw (← some-injective _ c (sym ends ∙ run))
              (same-Restores orig db db' v v' (ap (λ d. d.database) same) same' r)
      ]
      | inr old ↦
          let ends : escrow db v k asset amount ≡ with_view db v k call = rw (escrow, old) refl in
          with_view-Restores orig db v k call
            (λ orig main view is_view.
              conditional_escrow-IsViewOf orig main view is_view asset amount)
            (sym ends ∙ run) r
    ]

reserves_database {ℓ} :
    {D : Type ℓ} (db : MemoryDatabase D) (account : ℕ)
    → (reserve_account_creation db account).0.database ≡ db.database
unfolding reserve_account_creation contains find
reserves_database db account = ground arith

creation_lem {ℓ} :
    {D : Type ℓ} (db : MemoryDatabase D) (v : BufferedView) (account : ℕ) (pk : List ℕ)
    → let c = create_new_account db v account pk in
      (c.db.database ≡ db.database) × (c.view.accounts ≡ v.accounts)
unfolding create_new_account
creation_lem db v account pk =
    let same = reserves_database db account in
    elim (Bool-cases (succeeded (reserve_account_creation db account).1)) [
      | inl e ↦ rw (create_new_account, e) (same, refl)
      | inr e ↦ rw (create_new_account, e) (same, refl)
    ]

pub create_new_account-Restores {ℓ} :
    {D : Type ℓ} (orig : Before) (db : MemoryDatabase D) (v : BufferedView) (account : ℕ)
    (pk : List ℕ)
    → Restores orig db v
    → let c = create_new_account db v account pk in Restores orig c.db c.view
unfolding create_new_account
create_new_account-Restores orig db v account pk r =
    let c = create_new_account db v account pk in
    let (same, same') = creation_lem db v account pk in
    same-Restores orig db c.db v c.view same same' r

-- The view of an account among those of the transaction; an empty one if there is none.
abbrev view_of : Map UserAccountView → ℕ → UserAccountView
view_of m idx = elim (find idx m) [ some u ↦ u | none ↦ AccountView.new ]

unwind_none : (acc : UserAccount) → AccountView.unwind acc AccountView.new ≡ acc
unfolding AccountView.unwind AccountView.unwind_entries AccountView.new
unwind_none acc = refl

end_views-unwind {ℓ} :
    {D : Type ℓ} (m : Map UserAccountView) (db : MemoryDatabase D) (idx : ℕ) (acc : UserAccount)
    → Unique m
    → get_elem? db.database idx ≡ some acc
    → get_elem? (end_views AccountView.unwind m db).database idx
      ≡ some (AccountView.unwind acc (view_of m idx))
unfolding end_views find
end_views-unwind [] db idx acc unique at = at ∙ ap some (sym (unwind_none acc))
end_views-unwind {D = D} ((k, u) ∷ m) db idx acc unique at =
    let db' : UserAccount → MemoryDatabase D =
      λ main. record db { database = set db.database k (AccountView.unwind main u) } in
    elim (Bool-cases (k == idx)) [
      | inl here ↦
          let e : k ≡ idx = ground arith in
          let found : get_elem? db.database k ≡ some acc = rw e at in
          let gone : find idx m ≡ none = rw (← e) unique.0 in
          let rest =
            end_views-unwind m (db' acc) idx (AccountView.unwind acc u) unique.1
              (rw (← e) (set_found db.database k acc (AccountView.unwind acc u) found)) in
          let none_left : view_of m idx ≡ AccountView.new = rw (view_of, gone) refl in
          rw (end_views, found, view_of, here)
            (rest
              ∙ ap (λ w. some (AccountView.unwind (AccountView.unwind acc u) w)) none_left
              ∙ ap some (unwind_none (AccountView.unwind acc u)))
      | inr other ↦
          let ne : k ≢ idx = ground arith in
          elim (Option-cases (get_elem? db.database k)) [
            | inl missing ↦
                rw (end_views, missing, view_of, other) (end_views-unwind m db idx acc unique.1 at)
            | inr (main, found) ↦
                rw (end_views, found, view_of, other)
                  (end_views-unwind m (db' main) idx acc unique.1
                    (get_elem?-set_ne db.database (AccountView.unwind main u) ne ∙ at))
          ]
    ]

released_database {ℓ} :
    {D : Type ℓ} (m : Map (ℕ × UserAccount)) (db : MemoryDatabase D)
    → (release_new m db).database ≡ db.database
unfolding release_new release_account_creation
released_database [] db = refl
released_database ((idx, (id, acc)) ∷ m) db = released_database m (release_account_creation db idx)

-- Unwinding gives back the balances that the accounts of the table had when the view was made.
pub unwind-Restores {ℓ} :
    {D : Type ℓ} (orig : Before) (db : MemoryDatabase D) (v : BufferedView) (idx b : ℕ)
    (acc : UserAccount)
    → Restores orig db v
    → get_elem? db.database idx ≡ some acc
    → (acc' : UserAccount) × (get_elem? (unwind db v).database idx ≡ some acc')
      × (available acc' b ≡ orig.amounts idx b)
unfolding unwind get_existing_account
unwind-Restores orig db v idx b acc r at =
    let closed = end_views AccountView.unwind v.accounts db in
    let u = get_existing_account v idx in
    (
      AccountView.unwind acc u,
      ap (λ xs. get_elem? xs idx) (released_database v.new_accounts closed)
          ∙ end_views-unwind v.accounts db idx acc r.keys_unique at,
      unwind-orig (orig.amounts idx) acc u (r.views idx acc at) b,
    )

-- What the accounts hold now.
abbrev pub before {ℓ} : {D : Type ℓ} → MemoryDatabase D → Before
before db = record {
  amounts = λ idx. available (get_or db.database idx (Account.new 0 []));
  rows = length db.database;
}

-- A new view.
pub new-Restores {ℓ} :
    {D : Type ℓ} (db : MemoryDatabase D)
    → ((idx a : ℕ) (acc : UserAccount)
        → get_elem? db.database idx ≡ some acc
        → IsWord (available acc a))
    → Restores (before db) db (new db)
unfolding new get_existing_account find
new-Restores db words = record {
  keys_unique = tt;
  size = refl;
  views = λ idx acc at.
      let e : get_or db.database idx (Account.new 0 []) ≡ acc = at_get_or db.database idx acc at in
      rw (get_existing_account, e) (new-IsViewOf acc (λ a. words idx a acc at)).0;
}
