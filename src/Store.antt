-- ===== src/Store.antt =====
-- storage/events.py: the event ledger. `Exec` is a method that may raise, `Tables` the four SQL
-- tables, `Wire` what SQLite, pydantic and the clock provide, `Manifests` the manifest checks,
-- `Read` the verifying readers, `Write` the writers, and the other modules the lifecycle methods.
pub mod Exec
pub mod Tables
pub mod Wire
pub mod Manifests
pub mod Read
pub mod Write
pub mod Lifecycle
pub mod Terminal
pub mod Committed
pub mod History
pub mod Query
pub mod Raises
pub mod Agreement
pub mod Readable
pub mod Evaluate
pub mod Samples
mod Tests
pub mod Returns
pub mod Extends
pub mod Statements
pub mod Operation
pub mod Saves
pub mod Settled
pub mod Isolation
pub mod Refusal
pub mod Finality
pub mod Methods
