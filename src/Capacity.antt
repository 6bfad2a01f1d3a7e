-- ===== src/Capacity.antt =====
-- src/general_execution/capacity.py: the capacity of a runner as a replayable list of transitions,
-- each of which reserves a slot for a lease or releases one.
mod Records
mod State
mod Release
pub mod Replay
pub mod Slots
pub mod Apart
pub mod Invariant
unfoldable pub use Records.*
unfoldable pub use State.*
unfoldable pub use Release.*
