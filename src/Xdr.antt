-- ===== src/Xdr.antt =====
-- implementation/src/xdr/types.x, transaction.x and database_commitments.x: the data that blocks and
-- databases hold. Unsigned and signed integers are words (Base/Words); keys are lists of bytes.
use speedex_parallelize.Base.{ℕ, List}

-- `enum TransactionProcessingStatus`.
pub data TransactionProcessingStatus : Type 0 where
  success source_account_nexist invalid_operation_type seq_num_too_low seq_num_too_high :
      TransactionProcessingStatus
  seq_num_temp_in_use starting_balance_too_low new_account_already_exists :
      TransactionProcessingStatus
  new_account_temp_reserved insufficient_balance invalid_tx_format invalid_offer_category :
      TransactionProcessingStatus
  invalid_price cancel_offer_target_nexist recipient_account_nexist : TransactionProcessingStatus
  invalid_print_money_amount invalid_amount : TransactionProcessingStatus

-- `enum OfferType` has the one value SELL.
pub data OfferType : Type 0 where
  sell : OfferType

pub record OfferCategory : Type 0 where
  pub sell_asset : ℕ
  pub buy_asset : ℕ
  pub type : OfferType

pub record Offer : Type 0 where
  pub category : OfferCategory
  pub offer_id : ℕ
  pub owner : ℕ
  pub amount : ℕ
  pub min_price : ℕ

pub record CreateAccountOp : Type 0 where
  pub starting_balance : ℕ
  pub new_account_id : ℕ
  pub new_account_public_key : List ℕ

pub record CreateSellOfferOp : Type 0 where
  pub category : OfferCategory
  pub amount : ℕ
  pub min_price : ℕ

pub record CancelSellOfferOp : Type 0 where
  pub category : OfferCategory
  pub offer_id : ℕ
  pub min_price : ℕ

pub record PaymentOp : Type 0 where
  pub receiver : ℕ
  pub asset : ℕ
  pub amount : ℕ

pub record MoneyPrinterOp : Type 0 where
  pub asset : ℕ
  pub amount : ℕ

-- `struct Operation`, a tagged union.
pub data Operation : Type 0 where
  create_account : CreateAccountOp → Operation
  create_sell_offer : CreateSellOfferOp → Operation
  cancel_sell_offer : CancelSellOfferOp → Operation
  payment : PaymentOp → Operation
  money_printer : MoneyPrinterOp → Operation

pub record TransactionMetadata : Type 0 where
  pub source_account : ℕ
  pub sequence_number : ℕ

pub record Transaction : Type 0 where
  pub metadata : TransactionMetadata
  pub operations : List Operation
  pub fee : ℕ

abbrev pub max_ops_per_tx : ℕ
max_ops_per_tx = 256

abbrev pub reserved_sequence_num_lowbits : ℕ
reserved_sequence_num_lowbits = 255

abbrev pub create_account_min_starting_balance : ℕ
create_account_min_starting_balance = 100

pub record AssetCommitment : Type 0 where
  pub asset : ℕ
  pub amount_available : ℕ

pub record AccountCommitment : Type 0 where
  pub owner : ℕ
  pub assets : List AssetCommitment
  pub last_committed_id : ℕ
  pub pk : List ℕ

-- `struct BlockStateUpdateStats`, of `uint32` counters.
pub record BlockStateUpdateStats : Type 0 where
  pub new_offer_count : ℕ
  pub cancel_offer_count : ℕ
  pub fully_clear_offer_count : ℕ
  pub partial_clear_offer_count : ℕ
  pub payment_count : ℕ
  pub new_account_count : ℕ

-- `struct SingleWorkUnitStateCommitment`, without the root hash; amounts and the key are bytes.
pub record SingleWorkUnitStateCommitment : Type 0 where
  pub fractional_supply_activated : List ℕ
  pub partial_exec_threshold_key : List ℕ
  pub threshold_key_is_null : ℕ
  pub partial_exec_offer_activation_amount : List ℕ
