-- ===== src/Adapter.antt =====
-- src/general_execution/adapter.py: the request that a dispatch hands to a provider, and the
-- admission of what the reference provider answers.
mod Request
mod Reference
pub mod Binding
pub mod Exactness
unfoldable pub use Request.*
unfoldable pub use Reference.*
