-- ===== src/Guard.antt =====
-- src/general_execution/dispatch_guard.py: a live permit binds a durable dispatch permit to the
-- capacity head as it is when something is about to be sent.
mod Live
pub mod Fresh
unfoldable pub use Live.*
