-- ===== src/Tests.antt =====
-- Runs of the theorems on concrete accounts, offers and prices, with what they compute there.
pub mod Tries
pub mod Balances
pub mod SequenceNumbers
pub mod Market
pub mod Numbers
pub mod Pending
pub mod Table
pub mod Headers
pub mod Books
pub mod Transactions
pub mod Rollback
