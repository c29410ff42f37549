-- ===== src/Tests/Transactions.antt =====
-- Concrete transactions, over order books whose tries are lists (Tests/Books).
use speedex_parallelize.Base.{ℕ, zero, suc, ◌≡◌, refl, none, some, List, [], ◌∷◌, arith, get_elem?}
use speedex_parallelize.Xdr.{
  success, insufficient_balance, recipient_account_nexist, Operation, payment, money_printer,
  Transaction,
}
use speedex_parallelize.Account.{
  UserAccount, conditional_transfer_available, operate_on_asset, grow,
}
use speedex_parallelize.Account
use speedex_parallelize.Account.SeqNum
use speedex_parallelize.Account.Slots.{slot}
use speedex_parallelize.Asset
use speedex_parallelize.Base.Maps
use speedex_parallelize.Database
use speedex_parallelize.View
use speedex_parallelize.View.Buffered
use speedex_parallelize.Account.Laws.{available}
use speedex_parallelize.Database.{MemoryDatabase}
use speedex_parallelize.Transaction.{Operating, no_stats}
use speedex_parallelize.Transaction.Laws.{buffered}
use mathlib.Core.Option.{some-injective}
use speedex_parallelize.Transaction.Process.{
  Processor, check_tx_format_parameters, process_operations, process_transaction,
}
use speedex_parallelize.Transaction.Balances.{AllWords}
use speedex_parallelize.Transaction.Failed.{process_transaction-failed}
use speedex_parallelize.Transaction.Unwind.{process_transaction-money_printer}
use speedex_parallelize.Orders.Serial.{SerialManager}
use speedex_parallelize.Tests.Books.{Entries, list_trie, rich_account, one_account}

abbrev no_orders : SerialManager Entries
no_orders = record { main_manager = record { work_units = []; num_assets = 0 }; new_offers = [] }

abbrev processor : Processor Entries ℕ
processor = record {
  serial_manager = no_orders;
  account_database = one_account;
  stats = no_stats;
  log = [];
}

abbrev by_70 : List Operation → Transaction
by_70 ops = record {
  metadata = record { source_account = 70; sequence_number = 256 };
  operations = ops;
  fee = 0;
}

-- It pays itself 20 of its 50 units, and then 60.
abbrev pays_too_much : Transaction
pays_too_much = by_70 (
    payment (record { receiver = 70; asset = 0; amount = 20 })
    ∷ payment (record { receiver = 70; asset = 0; amount = 60 })
    ∷ [])

ends_short :
    (p' : Processor Entries ℕ) × (process_transaction list_trie buffered pays_too_much processor
      ≡ some (insufficient_balance, p'))
unfolding process_transaction Maps.find Database.with_account SeqNum.reserve_sequence_number
    SeqNum.get_seq_num_offset Buffered.transfer_available View.Account.transfer_available Maps.index
    View.Account.new conditional_transfer_available operate_on_asset
    Asset.conditional_transfer_available Asset.make Maps.insert SeqNum.release_sequence_number
    View.Account.unwind View.Account.add_to Account.transfer_available
ends_short = (_, refl)

one_account-AllWords : AllWords one_account
unfolding available slot Asset.make
one_account-AllWords zero zero acc at = rw (← some-injective rich_account acc at) (omega arith)
one_account-AllWords zero (suc a) acc at = rw (← some-injective rich_account acc at) (omega arith)
one_account-AllWords (suc idx) a acc at = cc

process_transaction-failed_example :
    (acc : UserAccount) × (get_elem? ends_short.0.account_database.database 0 ≡ some acc)
    × (available acc 0 ≡ available rich_account 0)
process_transaction-failed_example =
    process_transaction-failed list_trie pays_too_much processor 0 0 rich_account
      one_account-AllWords refl ends_short.1 refl

-- It prints 5 units, and pays an account that is not there.
abbrev prints_first : Transaction
prints_first = by_70 (
    money_printer (record { asset = 0; amount = 5 })
    ∷ payment (record { receiver = 71; asset = 0; amount = 20 })
    ∷ [])

reserved :
    (db : MemoryDatabase ℕ) × (Database.reserve_sequence_number one_account 0 256
      ≡ some (db, success))
unfolding Database.reserve_sequence_number Database.with_account SeqNum.reserve_sequence_number
    SeqNum.get_seq_num_offset
reserved = (_, refl)

stops_at_1 :
    (o : Operating Entries ℕ) × (process_operations list_trie buffered prints_first 0 0
        prints_first.operations
        (record {
          serial_manager = no_orders;
          db = reserved.0;
          view = Buffered.new reserved.0;
          local_stats = no_stats;
        })
      ≡ some (recipient_account_nexist, o, 1))
unfolding reserved process_operations Maps.find Database.with_account SeqNum.reserve_sequence_number
    SeqNum.get_seq_num_offset Buffered.transfer_available View.Account.transfer_available Maps.index
    View.Account.new conditional_transfer_available operate_on_asset
    Asset.conditional_transfer_available Asset.make Maps.insert View.Account.unwind
    View.Account.add_to Account.transfer_available Buffered.new
stops_at_1 = (_, refl)

process_transaction-money_printer_example :
    process_transaction list_trie buffered prints_first processor ≡ none
unfolding check_tx_format_parameters Database.lookup_user_id Maps.find
process_transaction-money_printer_example =
    process_transaction-money_printer list_trie buffered prints_first processor 0 1 0
      (record { asset = 0; amount = 5 }) reserved.0 recipient_account_nexist stops_at_1.0 refl refl
      reserved.1 stops_at_1.1 refl (omega arith) refl
