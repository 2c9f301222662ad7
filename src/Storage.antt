-- ===== src/Storage.antt =====
-- crates/harbormaster/src/storage: the manager's tables and the transactions on them. A transaction
-- takes the tables to its answer and the tables that it commits, or to an error, which rolls back.
-- What SQLite itself may refuse (a busy or full disk) is not modelled; a broken constraint is.
pub mod Types
pub mod Database
pub mod Context
pub mod Attention
pub mod Retirement
pub mod Transaction
pub mod Reduction
pub mod Reconciling
pub mod Validation
pub mod Engine
pub mod Soundness
pub mod Receipts
pub mod Revisions
pub mod Retiring
pub mod Tests

-- `StorageError` of storage/mod.rs.
pub data StorageError : Type 0 where
  invalid_request unsafe_path unsupported_filesystem already_owned foreign_database : StorageError
  future_schema corrupt_database recovery_required stale_revision stale_generation : StorageError
  unknown_producer sequence_gap conflict resource_exhausted backpressure : StorageError
  persistence_unavailable : StorageError
