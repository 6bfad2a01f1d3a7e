-- ===== src/Durable/Store.antt =====
-- `SqliteCapacityHeadStore` of durable.py, over the rows of its table.
use general_execution.Prelude.{
  ℕ, ◌+◌, String, Bool, ◌&&◌, not, List, [], ◌∷◌, ◌++◌, Option, none, some, Result, ok, err,
  durable_error, raise_if, ◌>>=◌, ◌>>◌, ◌==◌, ◌!=◌, string_eq, nat_eq, option_eq, list_eq,
  if◌then◌else◌,
}
use general_execution.Canonical.{Hash}
use general_execution.Models.{RunnerCapabilities}
use general_execution.Capacity.{
  CapacityTransition, RunnerCapacityState, capacity_eq, transition_eq, state_digest,
  initialize_capacity_state, verify_capacity_state,
}
use general_execution.Durable.Snapshot.{
  Json, HeadRow, DurableCapacityHead, serialize_capacity_snapshot, deserialize_capacity_snapshot,
  head_of, decode_head_row,
}

-- `SELECT … WHERE runner_id = ?`: the id is the primary key.
unfoldable pub select_row : String → List HeadRow → Option HeadRow
select_row id [] = none
select_row id (x ∷ xs) = if x.runner_id == id then some x else select_row id xs

-- `transitions[:-1]`
unfoldable pub without_last : List CapacityTransition → List CapacityTransition
without_last [] = []
without_last (t ∷ []) = []
without_last (t ∷ u ∷ ts) = t ∷ without_last (u ∷ ts)

-- The rows that `UPDATE … WHERE runner_id = ? AND state_digest = ? AND generation = ?` changes.
unfoldable pub matches_row : String → String → ℕ → HeadRow → Bool
matches_row id digest generation x =
    x.runner_id == id && x.state_digest == digest && x.generation == generation

-- The updated table, and the number of rows that changed.
unfoldable pub update_rows :
    (HeadRow → Bool) → (HeadRow → HeadRow) → List HeadRow → List HeadRow × ℕ
update_rows test change [] = ([], 0)
update_rows test change (x ∷ xs) =
    let rest = update_rows test change xs in
    if test x then (change x ∷ rest.0, rest.1 + 1) else (x ∷ rest.0, rest.1)

abbrev pub row_or_raise : Option HeadRow → Result HeadRow
row_or_raise none = err (durable_error "durable capacity head does not exist")
row_or_raise (some x) = ok x

module _ ⦃h : Hash⦄ ⦃j : Json⦄ where
  -- The row for a state with its snapshot.
  unfoldable pub row_for : RunnerCapacityState → String → String → String → HeadRow
  row_for s id digest snapshot_json = record {
    runner_id = id;
    runner_capability_digest = s.runner_capability_digest;
    state_digest = state_digest s;
    generation = s.generation;
    snapshot_digest = digest;
    snapshot_json = snapshot_json;
  }

  unfoldable pub load :
      List HeadRow → RunnerCapabilities → Result (RunnerCapacityState × DurableCapacityHead)
  unfolding select_row
  load table runner = do
    row ← row_or_raise (select_row runner.runner_id table)
    decode_head_row row runner

  -- `initialize` with the state that is stored, or that is found stored already.
  unfoldable pub initialize_with :
      List HeadRow
      → RunnerCapabilities
      → RunnerCapacityState
      → String
      → Option HeadRow
      → Result (List HeadRow × DurableCapacityHead)
  unfolding row_for
  initialize_with table runner s digest none =
      ok (
        table ++ row_for s s.runner_id digest (serialize_capacity_snapshot s) ∷ [],
        head_of s digest,
      )
  initialize_with table runner s digest (some row) = do
    existing ← decode_head_row row runner
    raise_if (existing.0 != s)
        (durable_error "durable capacity head already exists with different state")
    ok (table, existing.1)

  unfoldable pub state_or_first :
      Option RunnerCapacityState → RunnerCapabilities → Result RunnerCapacityState
  state_or_first none runner = initialize_capacity_state runner
  state_or_first (some s) runner = ok s

  unfoldable pub initialize :
      List HeadRow
      → RunnerCapabilities
      → Option RunnerCapacityState
      → Result (List HeadRow × DurableCapacityHead)
  unfolding state_or_first initialize_with select_row
  initialize table runner given = do
    s ← state_or_first given runner
    verified ← verify_capacity_state s runner
    raise_if (not verified)
        (durable_error "initial durable capacity state does not replay for runner")
    read ← deserialize_capacity_snapshot (serialize_capacity_snapshot s) runner
    initialize_with table runner s read.1 (select_row runner.runner_id table)

  -- The candidate is the next state after the current one.
  unfoldable pub check_successor :
      RunnerCapacityState → String → RunnerCapacityState → Result (Unit {0})
  unfolding without_last
  check_successor current expected new = do
    raise_if (state_digest current != expected) (durable_error "stale durable capacity head")
    raise_if (new.generation != current.generation + 1)
        (durable_error "durable capacity commit must advance exactly one generation")
    raise_if (new.previous_state_digest != some (state_digest current))
        (durable_error "durable capacity commit predecessor mismatch")
    raise_if (without_last new.transitions != current.transitions)
        (durable_error "durable capacity commit must extend the canonical transition history")

  unfoldable pub commit :
      List HeadRow
      → RunnerCapabilities
      → String
      → RunnerCapacityState
      → Result (List HeadRow × DurableCapacityHead)
  unfolding select_row update_rows matches_row row_for
  commit table runner expected new = do
    verified ← verify_capacity_state new runner
    raise_if (not verified)
        (durable_error "candidate durable capacity state does not replay for runner")
    row ← row_or_raise (select_row runner.runner_id table)
    current ← decode_head_row row runner
    check_successor current.0 expected new
    let text = serialize_capacity_snapshot new
    read ← deserialize_capacity_snapshot text runner
    let updated =
        update_rows (matches_row runner.runner_id expected current.0.generation)
          (λ x. row_for new x.runner_id read.1 text) table
    raise_if (updated.1 != 1) (durable_error "durable capacity compare-and-swap failed")
    ok (updated.0, head_of new read.1)
