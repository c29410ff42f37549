-- ===== src/Transaction/Log.antt =====
-- `log_modified_accounts` (Transaction): the calls of the account modification log for a transaction
-- that is committed.
use speedex_parallelize.Base.{ℕ, ◌+◌, Bool, List, [], ◌∷◌, ◌++◌, if◌then◌else◌, add64}
use speedex_parallelize.Xdr.{
  Operation, create_account, create_sell_offer, cancel_sell_offer, payment, money_printer,
  Transaction,
}

-- The calls of `SerialAccountModificationLog`.
pub data LogCall : Type 0 where
  log_new_self_transaction : Transaction → LogCall
  log_other_modification : ℕ → ℕ → ℕ → LogCall

-- The loop over the operations, from index `i`.
unfoldable pub log_operations : Transaction → ℕ → List Operation → List LogCall
log_operations tx i [] = []
log_operations tx i (create_account op ∷ rest) =
    log_other_modification tx.metadata.source_account (add64 tx.metadata.sequence_number i)
      op.new_account_id
    ∷ log_operations tx (i + 1) rest
log_operations tx i (create_sell_offer op ∷ rest) = log_operations tx (i + 1) rest
log_operations tx i (cancel_sell_offer op ∷ rest) = log_operations tx (i + 1) rest
log_operations tx i (payment op ∷ rest) =
    log_other_modification tx.metadata.source_account (add64 tx.metadata.sequence_number i)
      op.receiver
    ∷ log_operations tx (i + 1) rest
log_operations tx i (money_printer op ∷ rest) = log_operations tx (i + 1) rest

-- `maintain_account_log` is false when a block is loaded from disk.
unfoldable pub log_modified_accounts : Bool → Transaction → List LogCall → List LogCall
unfolding log_operations
log_modified_accounts maintain_account_log tx log =
    if maintain_account_log
    then log ++ log_new_self_transaction tx ∷ log_operations tx 0 tx.operations
    else log
