-- ===== src/Dispatch.antt =====
-- src/general_execution/dispatch.py: the outbox of dispatch intents. An intent is prepared for an
-- active lease, marked as submitted before anything is sent, and closed by a verified outcome.
mod Records
mod Prepare
mod Reading
mod Outbox
mod Recovery
unfoldable pub use Records.*
unfoldable pub use Prepare.*
unfoldable pub use Reading.*
unfoldable pub use Outbox.*
unfoldable pub use Recovery.*
pub mod Loading
pub mod Once
pub mod Permits
pub mod Observing
pub mod Unresolved
pub mod Reporting
