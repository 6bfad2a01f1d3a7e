-- ===== src/Models.antt =====
-- src/general_execution/models.py: the records that the protocol exchanges. Each has the checks of
-- its `__post_init__` as `check_…`, the mapping that `dataclasses.asdict` makes of it as `…_value`,
-- and its digest and id. Fields that name a schema keep their default and stand in the mapping.
-- Counters that Python holds in an `int` are natural numbers.
mod Checks
mod Spec
mod Runner
mod Plan
mod Envelope
unfoldable pub use Checks.*
unfoldable pub use Spec.*
unfoldable pub use Runner.*
unfoldable pub use Plan.*
unfoldable pub use Envelope.*
