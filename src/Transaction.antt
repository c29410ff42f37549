-- ===== src/Transaction.antt =====
-- implementation/src/serial_transaction_processor.h, serial_transaction_processor.cc and
-- operation_metadata.h: how one thread processes transactions. An operation works on the view of the
-- database (View) and on the thread's view of the order books (Orders/Serial).
pub mod Process
pub mod Log
pub mod Laws
pub mod Balances
pub mod Failed
pub mod Unwind
use speedex_parallelize.Base.{
  ℕ, ◌>>=◌, ◌+◌, ◌%◌, ◌^◌, not, Option, none, some, ◌==◌, if◌then◌else◌, neg64, is_negative,
}
use speedex_parallelize.Xdr.{
  TransactionProcessingStatus, success, starting_balance_too_low, invalid_offer_category,
  invalid_price, invalid_amount, cancel_offer_target_nexist, recipient_account_nexist,
  invalid_print_money_amount, create_account_min_starting_balance, Offer, OfferCategory,
  CreateAccountOp, CreateSellOfferOp, CancelSellOfferOp, PaymentOp, MoneyPrinterOp, Operation,
  create_account, create_sell_offer, cancel_sell_offer, payment, money_printer, TransactionMetadata,
  BlockStateUpdateStats,
}
use speedex_parallelize.Price.{is_valid_price}
use speedex_parallelize.Category.{validate_category}
use speedex_parallelize.Database.{MemoryDatabase}
use speedex_parallelize.View.Buffered.{
  BufferedView, Called, Creation, succeeded, find_user_id, create_new_account,
}
use speedex_parallelize.Trie.{OfferTrie}
use speedex_parallelize.Base.{signed_ltb}
use speedex_parallelize.Orders.Serial.{
  SerialManager, get_num_assets, look_up_idx, add_offer, unwind_add_offer, delete_offer,
  undelete_offer,
}

-- The calls in which the views of the database differ (`DatabaseViewType`).
pub record DatabaseView {ℓ} (D : Type ℓ) : Type ℓ where
  pub transfer_available : MemoryDatabase D → BufferedView → ℕ → ℕ → ℕ → Option (Called D)
  pub escrow : MemoryDatabase D → BufferedView → ℕ → ℕ → ℕ → Option (Called D)

-- The constant part of `OperationMetadata`.
pub record OperationMetadata : Type 0 where
  pub tx_metadata : TransactionMetadata
  pub source_account_idx : ℕ
  pub operation_id : ℕ

-- What operations change: the order books, the database, the view and the statistics.
pub record Operating {ℓ} (T D : Type ℓ) : Type ℓ where
  pub serial_manager : SerialManager T
  pub db : MemoryDatabase D
  pub view : BufferedView
  pub local_stats : BlockStateUpdateStats

abbrev pub no_stats : BlockStateUpdateStats
no_stats = record {
  new_offer_count = 0;
  cancel_offer_count = 0;
  fully_clear_offer_count = 0;
  partial_clear_offer_count = 0;
  payment_count = 0;
  new_account_count = 0;
}

abbrev pub Processed {ℓ} : Type ℓ → Type ℓ → Type ℓ
Processed T D = Option (TransactionProcessingStatus × Operating T D)

abbrev pub with_called {ℓ} : {T D : Type ℓ} → Operating T D → Called D → Operating T D
with_called o c = record o { db = c.db; view = c.view }

-- `status = call; if (status != SUCCESS) return status;`, and what follows.
abbrev pub on_success {ℓ} :
    {T D : Type ℓ}
    → Operating T D
    → Option (Called D)
    → (Operating T D → Processed T D)
    → Processed T D
on_success o none rest = none
on_success o (some c) rest =
    if succeeded c.status then rest (with_called o c) else some (c.status, with_called o c)

unfoldable pub make_offer : CreateSellOfferOp → OperationMetadata → Offer
make_offer op metadata = record {
  category = op.category;
  offer_id = metadata.operation_id;
  owner = metadata.tx_metadata.source_account;
  amount = op.amount;
  min_price = op.min_price;
}

module _ {ℓ} {T D : Type ℓ} (ops : OfferTrie T) (v : DatabaseView D) where
  unfoldable pub process_create_account :
      OperationMetadata → CreateAccountOp → Operating T D → Processed T D
  unfolding create_new_account
  process_create_account metadata op o =
      let c = create_new_account o.db o.view op.new_account_id op.new_account_public_key in
      let made = record o { db = c.db; view = c.view } in
      if signed_ltb op.starting_balance create_account_min_starting_balance
      then some (starting_balance_too_low, o)
      else if not (succeeded c.status)
      then some (c.status, made)
      else elim c.out [
        | none ↦ none
        | some new_account_idx ↦
            on_success made
              (v.transfer_available made.db made.view metadata.source_account_idx 0
                (neg64 op.starting_balance))
              λ paid.
                on_success paid
                  (v.transfer_available paid.db paid.view new_account_idx 0 op.starting_balance)
                  λ got. some (
                    success,
                    record got {
                      local_stats = record got.local_stats {
                        new_account_count = (got.local_stats.new_account_count + 1) % 2 ^ 32;
                      };
                    },
                  )
      ]

  unfoldable pub process_create_sell_offer :
      OperationMetadata → CreateSellOfferOp → Operating T D → Processed T D
  unfolding get_num_assets validate_category is_valid_price look_up_idx make_offer add_offer
      unwind_add_offer
  process_create_sell_offer metadata op o =
      let to_add = make_offer op metadata in
      if not (validate_category op.category (get_num_assets o.serial_manager))
      then some (invalid_offer_category, o)
      else if not (is_valid_price op.min_price)
      then some (invalid_price, o)
      else if op.amount == 0
      then some (invalid_amount, o)
      else do
        market_idx ← look_up_idx o.serial_manager op.category
        added ← add_offer ops o.serial_manager market_idx to_add
        c ← v.escrow o.db o.view metadata.source_account_idx op.category.sell_asset op.amount
        let called = with_called (record o { serial_manager = added }) c
        (if succeeded c.status
            then some (
              success,
              record called {
                local_stats = record o.local_stats {
                  new_offer_count = (o.local_stats.new_offer_count + 1) % 2 ^ 32;
                };
              },
            )
            else (do
              unwound ← unwind_add_offer ops added market_idx to_add
              some (c.status, record called { serial_manager = unwound })))

  unfoldable pub process_cancel_sell_offer :
      OperationMetadata → CancelSellOfferOp → Operating T D → Processed T D
  unfolding look_up_idx delete_offer undelete_offer
  process_cancel_sell_offer metadata op o = do
    let owner = metadata.tx_metadata.source_account
    market_idx ← look_up_idx o.serial_manager op.category
    (deleted, found_offer) ←
        delete_offer ops o.serial_manager market_idx op.min_price owner op.offer_id
    elim found_offer [
      | none ↦ some (cancel_offer_target_nexist, record o { serial_manager = deleted })
      | some offer ↦ do
        c ←
            v.escrow o.db o.view metadata.source_account_idx op.category.sell_asset
              (neg64 offer.amount)
        let called = with_called (record o { serial_manager = deleted }) c
        (if succeeded c.status
            then some (
              success,
              record called {
                local_stats = record o.local_stats {
                  cancel_offer_count = (o.local_stats.cancel_offer_count + 1) % 2 ^ 32;
                };
              },
            )
            else (do
              undeleted ← undelete_offer ops deleted market_idx op.min_price owner op.offer_id
              some (c.status, record called { serial_manager = undeleted })))
    ]

  unfoldable pub process_payment : OperationMetadata → PaymentOp → Operating T D → Processed T D
  unfolding find_user_id
  process_payment metadata op o = elim (find_user_id o.db o.view op.receiver) [
    | none ↦ some (recipient_account_nexist, o)
    | some target_account_idx ↦
        on_success o
          (v.transfer_available o.db o.view metadata.source_account_idx op.asset (neg64 op.amount))
          λ paid.
            on_success paid
              (v.transfer_available paid.db paid.view target_account_idx op.asset op.amount)
              λ got. some (
                success,
                record got {
                  local_stats = record got.local_stats {
                    payment_count = (got.local_stats.payment_count + 1) % 2 ^ 32;
                  };
                },
              )
  ]

  unfoldable pub process_money_printer :
      OperationMetadata → MoneyPrinterOp → Operating T D → Processed T D
  process_money_printer metadata op o =
      if is_negative op.amount then some (invalid_print_money_amount, o) else do
        c ← v.transfer_available o.db o.view metadata.source_account_idx op.asset op.amount
        some (c.status, with_called o c)

  -- The `switch` on the type of the operation.
  unfoldable pub process_operation : OperationMetadata → Operation → Operating T D → Processed T D
  unfolding process_create_account process_create_sell_offer process_cancel_sell_offer
      process_payment process_money_printer
  process_operation metadata (create_account op) o = process_create_account metadata op o
  process_operation metadata (create_sell_offer op) o = process_create_sell_offer metadata op o
  process_operation metadata (cancel_sell_offer op) o = process_cancel_sell_offer metadata op o
  process_operation metadata (payment op) o = process_payment metadata op o
  process_operation metadata (money_printer op) o = process_money_printer metadata op o
