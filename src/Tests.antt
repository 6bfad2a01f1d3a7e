-- ===== src/Tests.antt =====
-- Test data, and every theorem with hypotheses applied at a concrete input.
mod Data
mod Chains
mod Sessions
mod Dispatches
mod Attempts
mod Leases
mod Heads
mod Outboxes
mod Lives
mod Reconciliations
