-- ===== src/Canonical.antt =====
-- src/general_execution/canonical.py: the canonical form of a value, its text and its digest.
-- `json.dumps` and `hashlib.sha256` are not code of the repository: they are the two operations of
-- `Hash`, a parameter of everything that takes a digest.
mod Values
pub mod Order
pub mod Form
mod Equality
mod Lookup
mod Readers
mod Digests
unfoldable pub use Values.*
unfoldable pub use Equality.*
unfoldable pub use Lookup.*
unfoldable pub use Readers.*
unfoldable pub use Digests.*
