-- ===== src/Reconciliation.antt =====
-- src/general_execution/reconciliation.py: what to do about an attempt whose submission is not known
-- to have reached its provider, from what the provider says of the invocation.
mod Records
mod Decide
pub mod Resubmission
unfoldable pub use Records.*
unfoldable pub use Decide.*
