-- ===== src/Lib.antt =====
-- SPEEDEX (namespace edce): a payment network and exchange that processes each block's transactions
-- in parallel. Paths here are from implementation/src of the repository.
--
-- The parts, from the bottom up. An account (user_account.h, user_account.cc) holds a balance for each
-- asset (revertable_asset.h), which threads change by atomic operations and compare-and-swap, and a
-- window of 64 sequence numbers. A transaction changes accounts through a view
-- (memory_database_view.h, memory_database_view.cc), which takes money out of the account at once and
-- keeps incoming money in a buffer until commit, so that it can be unwound. At the end of a block
-- accounts are committed or rolled back in the table of accounts (memory_database.h,
-- memory_database.cc), and their commitments go into a trie. Transactions wait in chunks of the
-- mempool (mempool.h, mempool.cc), and the hashes of past blocks are in a map
-- (block_header_hash_map.h, block_header_hash_map.cc). Offers rest in one order book for each ordered
-- pair of assets (merkle_work_unit.h, merkle_work_unit.cc, merkle_work_unit_manager.h,
-- merkle_work_unit_manager.cc, work_unit_manager_utils.h), in tries by their keys (merkle_trie.h,
-- merkle_trie_utils.h). Threads process transactions
-- (serial_transaction_processor.cc), each over its own view of the database and of the books. The
-- block's prices (price_utils.h) and fractional amounts (fixed_point_value.h) then decide which offers
-- of a book clear, and what each of them is paid (offer_clearing_logic.h); a validator repeats that
-- against the commitment of the block, and checks that no asset is paid out beyond its supply.
--
-- Files and sources:
--   Base and its modules    tests, lists, 64-bit words, bits and maps that the parts share
--   Xdr                     xdr/types.x, xdr/transaction.x, xdr/block.x, xdr/database_commitments.x
--   Asset                   revertable_asset.h; Asset/CasLoop has the compare-and-swap loop with the
--                           stores of other threads as a list of rounds
--   Account                 user_account.h, user_account.cc: balances; Account/SeqNum has the sequence
--                           numbers, Account/Commit commit and rollback, Account/Commitment the
--                           commitments
--   View                    memory_database_view.h, memory_database_view.cc: View/Account has
--                           UserAccountView, View/Buffered the buffered view of the database,
--                           View/Unbuffered the other two views
--   Price                   price_utils.h; Price/BigEndian has the bytes of prices and keys
--   FixedPoint              fixed_point_value.h at radix 10
--   Clearing                offer_clearing_logic.h
--   Category                work_unit_manager_utils.h: numbers of order books; Category/ClearingCheck
--                           has the check of clearing parameters
--   Database                memory_database.h, memory_database.cc: the account table and its index, new
--                           accounts, validity; over an abstract commitment trie
--   Trie                    what the order books use of merkle_trie.h, as a record of operations
--   MerkleTrie              merkle_trie.h, merkle_trie_utils.h: the data of a trie of offers;
--                           MerkleTrie/Insert has _insert, MerkleTrie/Read the queries,
--                           MerkleTrie/Delete perform_deletion, MerkleTrie/Mark the marks for
--                           deletion, MerkleTrie/Sweep perform_marked_deletions and do_rollback,
--                           MerkleTrie/Split endow_split, MerkleTrie/Clean the contraction of
--                           single children; MerkleTrie/Invariant says what a trie is, and what
--                           entries it has
--   Orders                  merkle_work_unit.h, merkle_work_unit_thunk.h: the state of one book;
--                           merkle_work_unit.cc: Orders/Commit has commit, validation and rollback,
--                           Orders/Index the index of prices, Orders/Smooth the smoothing of prices,
--                           Orders/Demand demand and supply, Orders/Clear the clearing of a book by
--                           its producer, Orders/Clear/Validate the check of it
--   Orders/Manager          merkle_work_unit_manager.h, merkle_work_unit_manager.cc: all books;
--                           Orders/Manager/Clearing their clearing, Orders/Serial a thread's view
--   Transaction             serial_transaction_processor.cc: the operations; Transaction/Process has
--                           process_transaction and unwind_transaction, Transaction/Log what they log
--   Mempool                 mempool.h, mempool.cc
--   HeaderMap               block_header_hash_map.h, block_header_hash_map.cc, over the operations of a
--                           trie; HeaderMap/OverTrie makes them of MerkleTrie
--   Tests                   concrete runs
-- Functions and fields keep the names of the source, in lower case.
--
-- Numbers are natural numbers. A 64-bit word is a number below 2 ^ 64 and its arithmetic is written
-- out modulo 2 ^ 64; an int64_t is its two's complement word, negative from 2 ^ 63 on. Products and
-- fractional amounts are modulo 2 ^ 128. An exception or a division by zero is `none`. The number of an
-- order book is an `int`, which overflows from 46342 assets on: theorems about the numbering say that
-- there are at most 46341.
--
-- Fuel: the loop that grows the balances of an account gets the asset's number plus one, which is at
-- least its number of rounds. The loop of produce_commitment gets 256 rounds: its index has 8 bits.
-- In the mempool the removal of confirmed transactions gets the number of bits and the joining of
-- chunks the number of chunks after the first, since each round takes one away or moves past one.
-- The binary search of get_metadata gets the number of entries, and the search for the smoothing
-- multiplier 65 rounds: a 64-bit number shifted by 64 is 0. All other loops are by recursion on their
-- list or number.
--
-- Parameters. In the order books the trie is an argument, a record of the operations that they call
-- (Trie), which MerkleTrie models on its own; the trie of the database is an argument too, and that of
-- the header map, which comes with laws that MerkleTrie fulfils (HeaderMap/OverTrie). The views of the database
-- are an argument of the transaction's operations, as in the templates of the source.
--
-- Not modelled: floating point, logging to the console, lmdb, threads other than in Asset/CasLoop
-- (every call of an account, a view, the database, a book or the mempool is one atomic step, and a
-- parallel loop over books runs in order), the state commitments of the database, validate_transaction
-- and the ValidatingSerialManager, of the tries hashes, proofs, locks, merges and the trie of accounts,
-- and the parts that stand on those above: price computation, block production and validation, and the
-- network.
pub mod Base
pub mod Xdr
pub mod Asset
pub mod Account
pub mod Price
pub mod FixedPoint
pub mod Clearing
pub mod Category
pub mod Database
pub mod HeaderMap
pub mod View
pub mod MerkleTrie
pub mod Mempool
pub mod Orders
pub mod Transaction
pub mod Trie
pub mod Tests
