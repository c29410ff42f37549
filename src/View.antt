-- ===== src/View.antt =====
-- implementation/src/memory_database_view.h and memory_database_view.cc: what one transaction sees of
-- the database. The view of one account is in View/Account.
pub mod Account
pub mod Buffered
pub mod Unbuffered
