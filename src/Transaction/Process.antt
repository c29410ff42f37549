-- ===== src/Transaction/Process.antt =====
-- `process_transaction` and `unwind_transaction` (Transaction): a transaction takes effect as a whole,
-- or its operations are taken back.
use speedex_parallelize.Base.{
  ℕ, zero, ◌>>=◌, suc, ◌+◌, ◌%◌, ◌^◌, Bool, true, false, not, Option, none, some, List, [], ◌∷◌,
  ◌==◌, if◌then◌else◌, get_elem?, add64,
}
use Prim.Native.Nat.{bit_and}
use speedex_parallelize.Xdr.{
  TransactionProcessingStatus, success, invalid_tx_format, source_account_nexist, Operation,
  create_account, create_sell_offer, cancel_sell_offer, payment, money_printer, Transaction,
  BlockStateUpdateStats, reserved_sequence_num_lowbits,
}
use speedex_parallelize.Database.{
  MemoryDatabase, lookup_user_id, reserve_sequence_number, release_sequence_number,
  commit_sequence_number,
}
use speedex_parallelize.View.Buffered.{BufferedView, succeeded}
use speedex_parallelize.View.Buffered
use speedex_parallelize.Trie.{OfferTrie}
use speedex_parallelize.Orders.Serial.{SerialManager, look_up_idx, unwind_add_offer, undelete_offer}
use speedex_parallelize.Transaction.{
  DatabaseView, OperationMetadata, Operating, no_stats, make_offer, process_operation,
}
use speedex_parallelize.Transaction.Log.{LogCall, log_modified_accounts}

unfoldable pub check_tx_format_parameters : Transaction → Bool
check_tx_format_parameters tx =
    bit_and tx.metadata.sequence_number reserved_sequence_num_lowbits == 0

-- `operator+=` of the statistics.
unfoldable pub add_stats : BlockStateUpdateStats → BlockStateUpdateStats → BlockStateUpdateStats
add_stats a b = record {
  new_offer_count = (a.new_offer_count + b.new_offer_count) % 2 ^ 32;
  cancel_offer_count = (a.cancel_offer_count + b.cancel_offer_count) % 2 ^ 32;
  fully_clear_offer_count = (a.fully_clear_offer_count + b.fully_clear_offer_count) % 2 ^ 32;
  partial_clear_offer_count = (a.partial_clear_offer_count + b.partial_clear_offer_count) % 2 ^ 32;
  payment_count = (a.payment_count + b.payment_count) % 2 ^ 32;
  new_account_count = (a.new_account_count + b.new_account_count) % 2 ^ 32;
}

-- What a transaction changes.
pub record Processor {ℓ} (T D : Type ℓ) : Type ℓ where
  pub serial_manager : SerialManager T
  pub account_database : MemoryDatabase D
  pub stats : BlockStateUpdateStats
  pub log : List LogCall

abbrev pub metadata_at : Transaction → ℕ → ℕ → OperationMetadata
metadata_at tx source_account_idx i = record {
  tx_metadata = tx.metadata;
  source_account_idx = source_account_idx;
  operation_id = add64 tx.metadata.sequence_number i;
}

module _ {ℓ} {T D : Type ℓ} (ops : OfferTrie T) (v : DatabaseView D) where
  -- Where the loop over the operations stops: the status, the state, and the index of the operation
  -- that failed, or else their number.
  unfoldable pub process_operations :
      Transaction
      → ℕ
      → ℕ
      → List Operation
      → Operating T D
      → Option (TransactionProcessingStatus × Operating T D × ℕ)
  unfolding process_operation
  process_operations tx source_account_idx i [] o = some (success, o, i)
  process_operations tx source_account_idx i (op ∷ rest) o =
      elim (process_operation ops v (metadata_at tx source_account_idx i) op o) [
        | none ↦ none
        | some (status, o') ↦ elim (succeeded status) [
          | true ↦ process_operations tx source_account_idx (i + 1) rest o'
          | false ↦ some (status, o', i)
        ]
      ]

-- `unwind_operation`, and the `switch` round it; `none` is the exception on a type that it does not
-- know.
unfoldable pub unwind_operation {ℓ} :
    {T : Type ℓ}
    → OfferTrie T
    → OperationMetadata
    → Operation
    → SerialManager T
    → Option (SerialManager T)
unfolding look_up_idx make_offer unwind_add_offer undelete_offer
unwind_operation ops metadata (create_account op) s = some s
unwind_operation ops metadata (create_sell_offer op) s = do
  market_idx ← look_up_idx s op.category
  unwind_add_offer ops s market_idx (make_offer op metadata)
unwind_operation ops metadata (cancel_sell_offer op) s = do
  market_idx ← look_up_idx s op.category
  undelete_offer ops s market_idx op.min_price metadata.tx_metadata.source_account op.offer_id
unwind_operation ops metadata (payment op) s = some s
unwind_operation ops metadata (money_printer op) s = none

-- The loop of `unwind_transaction`, with `count` operations to go: the last of them is next.
unfoldable pub unwind_operations {ℓ} :
    {T : Type ℓ} → OfferTrie T → Transaction → ℕ → ℕ → SerialManager T → Option (SerialManager T)
unfolding unwind_operation
unwind_operations ops tx source_account_idx zero s = some s
unwind_operations ops tx source_account_idx (suc k) s = elim (get_elem? tx.operations k) [
  | none ↦ none
  | some op ↦ elim (unwind_operation ops (metadata_at tx source_account_idx k) op s) [
    | none ↦ none
    | some s' ↦ unwind_operations ops tx source_account_idx k s'
  ]
]

-- The argument of the source is `count - 1`.
unfoldable pub unwind_transaction {ℓ} :
    {T D : Type ℓ}
    → OfferTrie T
    → MemoryDatabase D
    → Transaction
    → ℕ
    → SerialManager T
    → Option (SerialManager T)
unfolding lookup_user_id unwind_operations
unwind_transaction ops db tx count s = do
  source_account_idx ← lookup_user_id db tx.metadata.source_account
  unwind_operations ops tx source_account_idx count s

module _ {ℓ} {T D : Type ℓ} (ops : OfferTrie T) (v : DatabaseView D) where
  -- What follows the loop, for a source account that is found and a number that is reserved.
  unfoldable pub conclude :
      Transaction
      → ℕ
      → Processor T D
      → TransactionProcessingStatus × Operating T D × ℕ
      → Option (TransactionProcessingStatus × Processor T D)
  unfolding unwind_transaction Buffered.unwind Buffered.commit release_sequence_number
      commit_sequence_number add_stats log_modified_accounts
  conclude tx idx p (status, o, i) =
      if succeeded status
      then (do
        (db, u) ←
            commit_sequence_number (Buffered.commit o.db o.view) idx tx.metadata.sequence_number
        some (
          success,
          record {
            serial_manager = o.serial_manager;
            account_database = db;
            stats = add_stats p.stats o.local_stats;
            log = log_modified_accounts true tx p.log;
          },
        ))
      else (do
        s ← unwind_transaction ops o.db tx i o.serial_manager
        db ← release_sequence_number (Buffered.unwind o.db o.view) idx tx.metadata.sequence_number
        some (status, record p { serial_manager = s; account_database = db }))

  -- `none` is an exception.
  unfoldable pub process_transaction :
      Transaction → Processor T D → Option (TransactionProcessingStatus × Processor T D)
  unfolding check_tx_format_parameters lookup_user_id reserve_sequence_number Buffered.new
      process_operations conclude
  process_transaction tx p =
      if not (check_tx_format_parameters tx)
      then some (invalid_tx_format, p)
      else elim (lookup_user_id p.account_database tx.metadata.source_account) [
        | none ↦ some (source_account_nexist, p)
        | some idx ↦ do
          (reserved, status) ←
              reserve_sequence_number p.account_database idx tx.metadata.sequence_number
          (if not (succeeded status)
              then some (status, record p { account_database = reserved })
              else (do
                loop ← process_operations ops v tx idx 0 tx.operations (record {
                  serial_manager = p.serial_manager;
                  db = reserved;
                  view = Buffered.new reserved;
                  local_stats = no_stats;
                })
                conclude tx idx p loop))
      ]
