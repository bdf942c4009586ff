-- ===== src/Ledger.antt =====
-- The double-entry ledger (apps/api/src/ledger/ledger.service.ts): posting an entry, the reads that
-- its balances serve, and the account and order helpers are in the modules below.
pub mod Posting
pub mod Books
pub mod Accounts
pub mod History
pub mod Reconcile
pub mod Orders
