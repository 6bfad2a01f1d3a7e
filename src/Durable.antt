-- ===== src/Durable.antt =====
-- src/general_execution/durable.py: the capacity of a runner kept across restarts. The table of the
-- SQLite database is a list of rows; a call that raises leaves the table as it was, since its
-- transaction is rolled back. `json.loads` is an operation of `Json`.
mod Reading
mod Snapshot
mod Store
mod Recovery
unfoldable pub use Reading.*
unfoldable pub use Snapshot.*
unfoldable pub use Store.*
unfoldable pub use Recovery.*
pub mod RoundTrip
pub mod Rows
pub mod Commit
pub mod Progress
pub mod Unresolved
