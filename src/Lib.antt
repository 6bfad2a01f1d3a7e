-- ===== src/Lib.antt =====
-- The execution core of General Execution: a deterministic substrate that performs work which another
-- system has authorized. All paths are relative to the root of the repository.
--
-- The parts and how they interact. A specification and a registry of runners give a plan (Planner); a
-- plan is bound to a session (Session); a running session may dispatch a request (Adapter), which a
-- physical attempt carries to a provider (Physical). A runner's slots are leased to attempts and
-- released again (Capacity), and the state of its slots survives restarts (Durable). Before an attempt
-- is sent, an outbox records its intent (Dispatch); to send needs a live permit (Guard), and whether an
-- attempt may be sent again is decided from what its provider says of it (Reconciliation). What
-- happens is written to a chain of events (Ledger). All records are identified by digests of their
-- canonical form (Canonical).
--
-- - Prelude: equality, tests, lists, exceptions as values, and the parts of Python's `str` in use.
-- - Canonical: src/general_execution/canonical.py. `Value` is what `dataclasses.asdict` and the
--   literals of the code build, with tuples and lists kept apart; `normalize` is `_normalize`.
--   `json.dumps` and SHA-256 are the two operations of `Hash`, an instance argument of all that takes a
--   digest, with no law assumed: where collisions matter, they stand in the theorem.
-- - Ledger: src/general_execution/ledger.py. Events and ledgers carry their `schema_version`, which
--   neither the hashes nor the verification read.
-- - Models: src/general_execution/models.py and `result_to_dict` of wire.py. `check_…` is the
--   `__post_init__` of a class, `…_value` its `asdict`, `…_digest` and `…_id` its properties.
-- - Planner, Session: src/general_execution/planner.py and session.py.
-- - Adapter: src/general_execution/adapter.py, the dispatch request and the reference provider. The
--   five arguments of the verifications are a `Context`.
-- - Physical: src/general_execution/physical.py. The payloads of recorded events are compared as
--   Python's `==` does, and those that are put in a set must have a hash, or `TypeError` is raised.
-- - Capacity: src/general_execution/capacity.py.
-- - Durable: src/general_execution/durable.py. A table of the SQLite database is a list of rows, a call
--   is one transaction on it, and a call that raises leaves it as it was. `json.loads` is the operation
--   of `Json`; that a text parses to what was written is a hypothesis wherever it is needed. JSON
--   whose types are not those of the fields is outside the model: the decoders refuse it, where Python
--   may accept a snapshot that agrees with its own digests.
-- - Dispatch: src/general_execution/dispatch.py, over the same kind of table. The calls of the outbox
--   on its table are `initialize_intent` and `commit_state`; `begin_submission` and
--   `record_observed` load and decide before they commit, and `Step` lets any other call come between.
-- - Guard: src/general_execution/dispatch_guard.py. Reconciliation: src/general_execution/reconciliation.py,
--   whose capacity store is the list of rows that the call finds.
-- - Tests: the theorems at concrete inputs, and the data for them.
--
-- Conventions. A function that may raise returns `Result`, whose error holds the class of the exception
-- and its message. Python's `int` is a natural number wherever the code refuses or never makes a
-- negative one. A literal type of the code is a data type with one more constructor, `other`, for any
-- other text, so that the checks which refuse it are part of the model; the actions of reports and
-- decisions, and the semantics that a provider's contract names, are texts. `uuid4` is an argument. The
-- loops are recursions on lists, so no fuel is needed. But for events and ledgers, a record whose
-- `schema_version` the code leaves at its default has that default.
--
-- Not modelled: the store of observed outcomes, the transition policy and the portfolio with its
-- checkpoints and recovery drivers, which build on what is here; the modules that host, schedule and
-- report (launch, activation, bursts, continuity, conformance), and the profiles outside the core.
pub mod Prelude
pub mod Canonical
pub mod Ledger
pub mod Models
pub mod Planner
pub mod Session
pub mod Adapter
pub mod Physical
pub mod Capacity
pub mod Durable
pub mod Dispatch
pub mod Guard
pub mod Reconciliation
pub mod Tests
