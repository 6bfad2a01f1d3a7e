-- ===== src/Physical.antt =====
-- src/general_execution/physical.py: physical attempts, what is observed of them, and the chain of
-- retries. A fresh invocation id (`uuid4`) is an argument.
mod Records
mod Attempts
mod Verify
mod Journal
mod Retries
pub mod Outcomes
pub mod Chain
pub mod RecordedDigests
pub mod Journaling
unfoldable pub use Records.*
unfoldable pub use Attempts.*
unfoldable pub use Verify.*
unfoldable pub use Journal.*
unfoldable pub use Retries.*
