-- ===== src/Transaction/Failed.antt =====
-- A transaction that fails, as a whole (Transaction/Process).
use mathlib.Core.Option.{some-injective}
use speedex_parallelize.Base.{
  get_elem?-lt, get_elem?-below, ℕ, ◌>>=◌, ◌+◌, ◌<◌, ◌≡◌, refl, sym, ap, ◌∙◌, ◌⊎◌, inl, inr, Bool,
  true, false, not, Option, none, some, List, [], ◌∷◌, arith, if◌then◌else◌, Bool-cases,
  Option-cases, get_elem?, get_or,
}
use speedex_parallelize.Xdr.{TransactionProcessingStatus, Operation, Transaction}
use speedex_parallelize.Account.{UserAccount}
use speedex_parallelize.Account
use speedex_parallelize.Account.SeqNum.{reserve_sequence_number as reserve}
use speedex_parallelize.Account.Laws.{available}
use speedex_parallelize.Database.{
  MemoryDatabase, lookup_user_id, reserve_sequence_number, release_sequence_number,
  commit_sequence_number,
}
use speedex_parallelize.View.Buffered.{BufferedView, succeeded}
use speedex_parallelize.View.Buffered
use speedex_parallelize.View.Buffered.Restore.{
  Before, before, at_get_or, Restores, unwind-Restores, new-Restores,
}
use speedex_parallelize.Trie.{OfferTrie}
use speedex_parallelize.Transaction.{Operating, process_operation, no_stats}
use speedex_parallelize.Transaction.Laws.{buffered, process_operation-Ends, Ends-result}
use speedex_parallelize.Transaction.Process.{
  Processor, metadata_at, process_operations, unwind_transaction, conclude, process_transaction,
  check_tx_format_parameters,
}
use speedex_parallelize.Transaction.Balances.{
  Holds, set-Holds, reserve_balances, release_balances, reserve_cases, release_cases, AllWords,
  reserve-AllWords,
}

module _ {ℓ} {T D : Type ℓ} (ops : OfferTrie T) (orig : Before) where
  abbrev LoopEnds : Option (TransactionProcessingStatus × Operating T D × ℕ) → Type ℓ
  LoopEnds none = Unit
  LoopEnds (some (s, o, i)) = Restores orig o.db o.view

  process_operations-LoopEnds :
      (tx : Transaction) (idx i : ℕ) (rest : List Operation) (o : Operating T D)
      → Restores orig o.db o.view
      → LoopEnds (process_operations ops buffered tx idx i rest o)
  unfolding process_operations
  process_operations-LoopEnds tx idx i [] o r = r
  process_operations-LoopEnds tx idx i (op ∷ rest) o r =
      let m = process_operation ops buffered (metadata_at tx idx i) op o in
      let ends = process_operation-Ends ops orig (metadata_at tx idx i) op o r in
      elim (Option-cases m) [
        | inl stops ↦ rw (process_operations, stops) tt
        | inr ((s, o'), run) ↦
            let r' : Restores orig o'.db o'.view = Ends-result ops orig m ends run in
            elim (Bool-cases (succeeded s)) [
              | inl ok ↦
                  rw (process_operations, run, ok)
                    (process_operations-LoopEnds tx idx (i + 1) rest o' r')
              | inr failed ↦ rw (process_operations, run, failed) r'
            ]
      ]

  LoopEnds-result :
      (m : Option (TransactionProcessingStatus × Operating T D × ℕ))
      {x : TransactionProcessingStatus × Operating T D × ℕ}
      → LoopEnds m
      → m ≡ some x
      → Restores orig x.1.db x.1.view
  LoopEnds-result none ends run = cc
  LoopEnds-result (some y) {x} ends run = rw (← ap (λ z. z.1) (some-injective y x run)) ends

module _ {ℓ} {T D : Type ℓ} (ops : OfferTrie T) (tx : Transaction) (p : Processor T D)
    (idx b w : ℕ) where
  -- A result other than success leaves what the account holds.
  abbrev Kept : Option (TransactionProcessingStatus × Processor T D) → Type 0
  Kept none = Unit
  Kept (some (s, p')) = (succeeded s ≡ true) ⊎ Holds p'.account_database idx b w

  Kept-bind {κ} :
      {A : Type κ} (m : Option A) (f : A → Option (TransactionProcessingStatus × Processor T D))
      → ((a : A) → m ≡ some a → Kept (f a))
      → Kept (m >>= f)
  Kept-bind none f h = tt
  Kept-bind (some a) f h = h a refl

  conclude-Kept :
      (k : ℕ) (orig : Before) (x : TransactionProcessingStatus × Operating T D × ℕ)
      → Restores orig x.1.db x.1.view
      → orig.amounts idx b ≡ w
      → idx < orig.rows
      → Kept (conclude ops buffered tx k p x)
  unfolding conclude
  conclude-Kept k orig (s, o, i) r start row = elim (Bool-cases (succeeded s)) [
    | inl ok ↦
        rw (conclude, ok)
          (Kept-bind
            (commit_sequence_number (Buffered.commit o.db o.view) k tx.metadata.sequence_number) _
            λ x _. inl refl)
    | inr failed ↦
        let closed = Buffered.unwind o.db o.view in
        let n = tx.metadata.sequence_number in
        let (acc, at) = get_elem?-below o.db.database idx (omega (arith, row, r.size)) in
        let (unwound, there, same) = unwind-Restores orig o.db o.view idx b acc r at in
        rw (conclude, failed)
          (Kept-bind (unwind_transaction ops o.db tx i o.serial_manager) _ λ m _.
            Kept-bind (release_sequence_number closed k n) _ λ db run.
              let (old, now, found, freed, e) = release_cases closed k n run in
              let kept : Holds db idx b w = rw (← e) (
                set-Holds closed k idx b w old now found (release_balances old n b freed)
                  (unwound, there, same ∙ start)) in
              inr kept)
  ]

  Kept-if :
      (test : Bool) (x y : Option (TransactionProcessingStatus × Processor T D))
      → (test ≡ true → Kept x)
      → (test ≡ false → Kept y)
      → Kept (if test then x else y)
  Kept-if true x y hx hy = hx refl
  Kept-if false x y hx hy = hy refl

  -- What follows the reservation of the sequence number.
  loop-Kept :
      (k : ℕ) (reserved : MemoryDatabase D)
      → AllWords reserved
      → Holds reserved idx b w
      → Kept (
          process_operations ops buffered tx k 0 tx.operations (record {
            serial_manager = p.serial_manager;
            db = reserved;
            view = Buffered.new reserved;
            local_stats = no_stats;
          })
          >>= λ loop. conclude ops buffered tx k p loop)
  loop-Kept k reserved words (acc, at, e) =
      let start : Operating T D = record {
        serial_manager = p.serial_manager;
        db = reserved;
        view = Buffered.new reserved;
        local_stats = no_stats;
      } in
      let loop = process_operations ops buffered tx k 0 tx.operations start in
      let ends =
        process_operations-LoopEnds ops (before reserved) tx k 0 tx.operations start
          (new-Restores reserved words) in
      let amount : available (get_or reserved.database idx (Account.new 0 [])) b ≡ w =
        ap (λ a. available a b) (at_get_or reserved.database idx acc at) ∙ e in
      Kept-bind loop _ λ x run.
        conclude-Kept k (before reserved) x (LoopEnds-result ops (before reserved) loop ends run)
          amount (get_elem?-lt reserved.database idx at)

  process_transaction-Kept :
      AllWords p.account_database
      → Holds p.account_database idx b w
      → Kept (process_transaction ops buffered tx p)
  unfolding process_transaction
  process_transaction-Kept words h =
      let n = tx.metadata.sequence_number in
      Kept-if (not (check_tx_format_parameters tx)) _ _ (λ _. inr h)
        λ _. elim (Option-cases (lookup_user_id p.account_database tx.metadata.source_account)) [
          | inl missing ↦ rw missing (inr h)
          | inr (k, found) ↦ rw found (
              Kept-bind (reserve_sequence_number p.account_database k n) _ λ x run.
                let (old, at, e) = reserve_cases p.account_database k n run in
                let h' : Holds x.0 idx b w = rw (← e) (
                  set-Holds p.account_database k idx b w old (reserve old n).0 at
                    (reserve_balances old n b) h) in
                Kept-if (not (succeeded x.1)) _ _ (λ _. inr h')
                  λ _. loop-Kept k x.0 (reserve-AllWords p.account_database k n run words) h')
        ]

Kept-result {ℓ} :
    {T D : Type ℓ} (ops : OfferTrie T) (tx : Transaction) (p : Processor T D) (idx b w : ℕ)
    (m : Option (TransactionProcessingStatus × Processor T D)) {s : TransactionProcessingStatus}
    {p' : Processor T D}
    → Kept ops tx p idx b w m
    → m ≡ some (s, p')
    → succeeded s ≡ false
    → Holds p'.account_database idx b w
Kept-result ops tx p idx b w none kept run failed = cc
Kept-result ops tx p idx b w (some (s', p₁)) {s} {p'} kept run failed =
    let e = some-injective (s', p₁) (s, p') run in
    elim kept [
      | inl ok ↦ cc (sym ok ∙ ap (λ x. succeeded x.0) e ∙ failed)
      | inr h ↦ rw (← ap (λ x. x.1) e) h
    ]

-- Take a database in which every balance is a 64-bit word, and an account of its table. If
-- `process_transaction`, with the buffered view, returns a status other than success, then the account
-- is still there, and has the amount of each asset that it had before.
pub process_transaction-failed {ℓ} :
    {T D : Type ℓ} (ops : OfferTrie T) (tx : Transaction) (p : Processor T D) (idx b : ℕ)
    (acc : UserAccount) {s : TransactionProcessingStatus} {p' : Processor T D}
    → AllWords p.account_database
    → get_elem? p.account_database.database idx ≡ some acc
    → process_transaction ops buffered tx p ≡ some (s, p')
    → succeeded s ≡ false
    → (acc' : UserAccount) × (get_elem? p'.account_database.database idx ≡ some acc')
      × (available acc' b ≡ available acc b)
process_transaction-failed ops tx p idx b acc words at run failed =
    Kept-result ops tx p idx b (available acc b) (process_transaction ops buffered tx p)
      (process_transaction-Kept ops tx p idx b (available acc b) words (acc, at, refl)) run failed
