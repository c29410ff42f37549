-- ===== src/Transaction/Unwind.antt =====
-- What `unwind_transaction` cannot take back, and that it takes back an offer that was added
-- (Transaction/Process).
use speedex_parallelize.Base.{
  ℕ, zero, suc, ◌<◌, ◌≡◌, refl, inl, inr, true, false, none, some, arith, ◌==◌, Bool-cases,
  Option-cases, get_elem?,
}
use speedex_parallelize.Xdr.{
  TransactionProcessingStatus, success, money_printer, MoneyPrinterOp, Transaction,
}
use speedex_parallelize.Database.{MemoryDatabase, lookup_user_id, reserve_sequence_number}
use speedex_parallelize.View.Buffered.{succeeded}
use speedex_parallelize.View.Buffered
use speedex_parallelize.Trie.{OfferTrie}
use speedex_parallelize.Orders.Serial.{SerialManager}
use speedex_parallelize.Transaction.{DatabaseView, Operating, no_stats}
use speedex_parallelize.Transaction.Process.{
  Processor, metadata_at, process_operations, unwind_operation, unwind_operations,
  unwind_transaction, conclude, process_transaction, check_tx_format_parameters,
}

unwind_operations-money_printer {ℓ} :
    {T : Type ℓ} (ops : OfferTrie T) (tx : Transaction) (idx count k : ℕ) (op : MoneyPrinterOp)
    (s : SerialManager T)
    → k < count
    → get_elem? tx.operations k ≡ some (money_printer op)
    → unwind_operations ops tx idx count s ≡ none
unfolding unwind_operations unwind_operation
unwind_operations-money_printer ops tx idx zero k op s lt at = absurd (omega arith)
unwind_operations-money_printer ops tx idx (suc count) k op s lt at =
    elim (Bool-cases (k == count)) [
      | inl here ↦
          let e : k ≡ count = ground arith in
          let at' : get_elem? tx.operations count ≡ some (money_printer op) = rw (← e) at in
          rw (unwind_operations, at') refl
      | inr before ↦ elim (Option-cases (get_elem? tx.operations count)) [
        | inl missing ↦ rw (unwind_operations, missing) refl
        | inr (o, found) ↦
            elim (Option-cases (unwind_operation ops (metadata_at tx idx count) o s)) [
              | inl stops ↦ rw (unwind_operations, found, stops) refl
              | inr (s', run) ↦
                  rw (unwind_operations, found, run)
                    (unwind_operations-money_printer ops tx idx count k op s' (ground arith) at)
            ]
      ]
    ]

unwind_transaction-money_printer {ℓ} :
    {T D : Type ℓ} (ops : OfferTrie T) (db : MemoryDatabase D) (tx : Transaction) (count k : ℕ)
    (op : MoneyPrinterOp) (s : SerialManager T)
    → k < count
    → get_elem? tx.operations k ≡ some (money_printer op)
    → unwind_transaction ops db tx count s ≡ none
unfolding unwind_transaction
unwind_transaction-money_printer ops db tx count k op s lt at =
    elim (Option-cases (lookup_user_id db tx.metadata.source_account)) [
      | inl missing ↦ rw (unwind_transaction, missing) refl
      | inr (idx, found) ↦
          rw (unwind_transaction, found)
            (unwind_operations-money_printer ops tx idx count k op s lt at)
    ]

-- Take a transaction of the right format whose source account is found and whose sequence number is
-- reserved with success. If the loop over its operations stops with a failed one, and a money printer
-- stands before that one, then `process_transaction` throws in place of returning a status.
pub process_transaction-money_printer {ℓ} :
    {T D : Type ℓ} (ops : OfferTrie T) (v : DatabaseView D) (tx : Transaction) (p : Processor T D)
    (source i k : ℕ) (op : MoneyPrinterOp) (reserved : MemoryDatabase D)
    (s : TransactionProcessingStatus) (o : Operating T D)
    → check_tx_format_parameters tx ≡ true
    → lookup_user_id p.account_database tx.metadata.source_account ≡ some source
    → reserve_sequence_number p.account_database source tx.metadata.sequence_number
      ≡ some (reserved, success)
    → process_operations ops v tx source 0 tx.operations (record {
      serial_manager = p.serial_manager;
      db = reserved;
      view = Buffered.new reserved;
      local_stats = no_stats;
    })
      ≡ some (s, o, i)
    → succeeded s ≡ false
    → k < i
    → get_elem? tx.operations k ≡ some (money_printer op)
    → process_transaction ops v tx p ≡ none
unfolding process_transaction conclude
process_transaction-money_printer ops v tx p source i k op reserved s o format found run loop failed
      lt at =
    let thrown = unwind_transaction-money_printer ops o.db tx i k op o.serial_manager lt at in
    rw (process_transaction, format, found, run, loop, conclude, failed, thrown) refl
