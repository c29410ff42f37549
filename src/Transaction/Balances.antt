-- ===== src/Transaction/Balances.antt =====
-- What the calls for sequence numbers leave of the balances in the account table.
use mathlib.Core.Option.{some-injective}
use speedex_parallelize.Base.{
  guarded, get_elem?-set_ne, ℕ, ◌-◌, ◌^◌, ◌≡◌, refl, sym, ap, ◌∙◌, ◌≢◌, inl, inr, none, some, arith,
  leb, ◌==◌, Bool-cases, Option-cases, get_elem?, set, IsWord,
}
use speedex_parallelize.Xdr.{TransactionProcessingStatus}
use speedex_parallelize.Account.{UserAccount}
use Prim.Native.Nat.{bit_and, bit_or}
use speedex_parallelize.Account.SeqNum.{get_seq_num_offset}
use speedex_parallelize.Account.SeqNum.{
  reserve_sequence_number as reserve, release_sequence_number as release,
}
use speedex_parallelize.Account.Laws.{available}
use speedex_parallelize.Account.Slots.{slot}
use speedex_parallelize.Database.{
  MemoryDatabase, reserve_sequence_number, release_sequence_number, with_account,
}
use speedex_parallelize.View.Buffered.Restore.{set_found, get_elem?-set}

-- The account `idx` is there, and has the amount `w` of the asset `b`.
abbrev pub Holds {ℓ} : {D : Type ℓ} → MemoryDatabase D → ℕ → ℕ → ℕ → Type 0
Holds db idx b w =
    (acc : UserAccount) × (get_elem? db.database idx ≡ some acc) × (available acc b ≡ w)

-- A write of an account that keeps its balances.
pub set-Holds {ℓ} :
    {D : Type ℓ} (db : MemoryDatabase D) (k idx b w : ℕ) (old now : UserAccount)
    → get_elem? db.database k ≡ some old
    → available now b ≡ available old b
    → Holds db idx b w
    → Holds (record db { database = set db.database k now }) idx b w
set-Holds db k idx b w old now found same (acc, at, e) = elim (Bool-cases (k == idx)) [
  | inl here ↦
      let i : k ≡ idx = ground arith in
      let is_old : old ≡ acc = some-injective old acc (sym found ∙ rw i at) in
      (
        now,
        rw (← i) (set_found db.database k old now found),
        same ∙ ap (λ a. available a b) is_old ∙ e,
      )
  | inr other ↦
      let ne : k ≢ idx = ground arith in (acc, get_elem?-set_ne db.database now ne ∙ at, e)
]

-- Sequence numbers are no balances.
vec_balances :
    (acc : UserAccount) (vec b : ℕ)
    → available (record acc { sequence_number_vec = vec }) b ≡ available acc b
unfolding available slot
vec_balances acc vec b = refl

pub reserve_balances :
    (acc : UserAccount) (n b : ℕ) → available (reserve acc n).0 b ≡ available acc b
unfolding reserve
reserve_balances acc n b =
    let offset = get_seq_num_offset n acc.last_committed_id in
    let kept = vec_balances acc (bit_or acc.sequence_number_vec (2 ^ offset)) b in
    elim (Bool-cases (leb n acc.last_committed_id)) [
      | inl low ↦ rw (reserve, low) refl
      | inr ok ↦ elim (Bool-cases (leb 64 offset)) [
        | inl high ↦ rw (reserve, ok, high) refl
        | inr in_range ↦ elim (Bool-cases (bit_and acc.sequence_number_vec (2 ^ offset) == 0)) [
          | inl free ↦ rw (reserve, ok, in_range, free) kept
          | inr used ↦ rw (reserve, ok, in_range, used) kept
        ]
      ]
    ]

pub release_balances :
    (acc : UserAccount) (n b : ℕ) {acc' : UserAccount}
    → release acc n ≡ some acc'
    → available acc' b ≡ available acc b
unfolding release
release_balances acc n b {acc'} run =
    let offset = get_seq_num_offset n acc.last_committed_id in
    let freed = bit_and acc.sequence_number_vec (2 ^ 64 - 1 - 2 ^ offset) in
    let (_, run1) = guarded (leb n acc.last_committed_id) _ run in
    let (_, run2) =
      guarded (leb 64 offset) (some (record acc { sequence_number_vec = freed })) run1 in
    ap (λ a. available a b)
      (sym (some-injective (record acc { sequence_number_vec = freed }) acc' run2))
    ∙ vec_balances acc freed b

pub reserve_cases {ℓ} :
    {D : Type ℓ} (db : MemoryDatabase D) (k n : ℕ)
    {x : MemoryDatabase D × TransactionProcessingStatus}
    → reserve_sequence_number db k n ≡ some x
    → (acc : UserAccount) × (get_elem? db.database k ≡ some acc)
      × (record db { database = set db.database k (reserve acc n).0 } ≡ x.0)
unfolding reserve_sequence_number with_account
reserve_cases db k n {x} run = elim (Option-cases (get_elem? db.database k)) [
  | inl missing ↦
      let fails : reserve_sequence_number db k n ≡ none =
        rw (reserve_sequence_number, with_account, missing) refl in
      cc (sym fails ∙ run)
  | inr (acc, found) ↦
      let done : reserve_sequence_number db k n
          ≡ some (record db { database = set db.database k (reserve acc n).0 }, (reserve acc n).1) =
        rw (reserve_sequence_number, with_account, found) refl in
      (acc, found, ap (λ y. y.0) (some-injective _ x (sym done ∙ run)))
]

pub release_cases {ℓ} :
    {D : Type ℓ} (db : MemoryDatabase D) (k n : ℕ) {db' : MemoryDatabase D}
    → release_sequence_number db k n ≡ some db'
    → (acc acc' : UserAccount) × (get_elem? db.database k ≡ some acc)
      × (release acc n ≡ some acc')
      × (record db { database = set db.database k acc' } ≡ db')
unfolding release_sequence_number
release_cases db k n {db'} run = elim (Option-cases (get_elem? db.database k)) [
  | inl missing ↦
      let fails : release_sequence_number db k n ≡ none =
        rw (release_sequence_number, missing) refl in
      cc (sym fails ∙ run)
  | inr (acc, found) ↦ elim (Option-cases (release acc n)) [
    | inl refused ↦
        let fails : release_sequence_number db k n ≡ none =
          rw (release_sequence_number, found, refused) refl in
        cc (sym fails ∙ run)
    | inr (acc', freed) ↦
        let done : release_sequence_number db k n
            ≡ some (record db { database = set db.database k acc' }) =
          rw (release_sequence_number, found, freed) refl in
        (acc, acc', found, freed, some-injective _ db' (sym done ∙ run))
  ]
]

-- Every balance is a word.
abbrev pub AllWords {ℓ} : {D : Type ℓ} → MemoryDatabase D → Type 0
AllWords db =
    (idx a : ℕ) (acc : UserAccount)
    → get_elem? db.database idx ≡ some acc
    → IsWord (available acc a)

pub reserve-AllWords {ℓ} :
    {D : Type ℓ} (db : MemoryDatabase D) (k n : ℕ)
    {x : MemoryDatabase D × TransactionProcessingStatus}
    → reserve_sequence_number db k n ≡ some x
    → AllWords db
    → AllWords x.0
reserve-AllWords db k n {x} run words =
    let (old, found, e) = reserve_cases db k n run in
    rw (← e) (λ idx a acc at.
      elim (get_elem?-set db.database k idx old (reserve old n).0 acc found at) [
        | inl (here, same) ↦ rw (← same, reserve_balances old n a) (words k a old found)
        | inr (ne, at') ↦ words idx a acc at'
      ])
