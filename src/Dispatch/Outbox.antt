-- ===== src/Dispatch/Outbox.antt =====
-- `SqliteDispatchIntentStore` of dispatch.py, over the rows of its table.
use general_execution.Prelude.{
  ℕ, ◌+◌, String, Bool, ◌&&◌, ◌||◌, not, List, [], ◌∷◌, ◌++◌, Option, none, some, any, select,
  Result, ok, err, dispatch_error, durable_error, raise_if, ◌>>=◌, ◌>>◌, ◌==◌, ◌!=◌, string_eq,
  nat_eq, option_eq, if◌then◌else◌,
}
use general_execution.Canonical.{Hash, str_le}
use general_execution.Models.{RunnerCapabilities, sort}
use general_execution.Adapter.{request_digest, Context}
use general_execution.Physical.{
  PhysicalAttemptAuthorization, PhysicalOutcomeBundle, authorization_id, authorization_digest,
  observation_digest, receipt_digest, outcome_digest, verify_physical_outcome,
}
use general_execution.Durable.{Json, HeadRow, DurableCapacityHead}
use general_execution.Durable
use general_execution.Dispatch.Records.{
  DispatchIntent, prepared, submission_unknown, observed, status_eq, DispatchIntentState,
  check_dispatch_state, dispatch_state_digest, dispatch_state_eq, intent_eq, DispatchPermit,
  intent_id,
}
use general_execution.Dispatch.Prepare.{initial_dispatch_state, validate_intent, permit_for}
use general_execution.Dispatch.Reading.{serialize_dispatch_state, deserialize_dispatch_state}

-- A row of the table `dispatch_intents`.
pub record IntentRow : Type 0 where
  pub intent_id : String
  pub runner_id : String
  pub lease_id : String
  pub state_digest : String
  pub revision : ℕ
  pub state_json : String

-- `SELECT … WHERE intent_id = ?`: the id is the primary key.
unfoldable pub select_intent : String → List IntentRow → Option IntentRow
select_intent id [] = none
select_intent id (x ∷ xs) = if x.intent_id == id then some x else select_intent id xs

abbrev pub intent_or_raise : Option IntentRow → Result IntentRow
intent_or_raise none = err (dispatch_error "durable dispatch intent does not exist")
intent_or_raise (some x) = ok x

-- The updated table, and the number of rows that changed.
unfoldable pub update_intents :
    (IntentRow → Bool) → (IntentRow → IntentRow) → List IntentRow → List IntentRow × ℕ
update_intents test change [] = ([], 0)
update_intents test change (x ∷ xs) =
    let rest = update_intents test change xs in
    if test x then (change x ∷ rest.0, rest.1 + 1) else (x ∷ rest.0, rest.1)

-- `try … except DurableCapacityError`: other exceptions pass.
unfoldable pub available : {A : Type 0} → Result A → Result A
available (ok a) = ok a
available (err (durable_error m)) =
    err (dispatch_error "canonical durable capacity head is unavailable")
available (err x) = err x

module _ ⦃h : Hash⦄ where
  -- The row for a state.
  unfoldable pub intent_row : DispatchIntentState → IntentRow
  intent_row s = record {
    intent_id = intent_id s.intent;
    runner_id = s.intent.runner_id;
    lease_id = s.intent.lease_id;
    state_digest = dispatch_state_digest s;
    revision = s.revision;
    state_json = serialize_dispatch_state s;
  }

  -- The row is the one of the state, but for its text.
  unfoldable pub row_matches : IntentRow → DispatchIntentState → Bool
  row_matches x s =
      x.intent_id == intent_id s.intent
      && x.runner_id == s.intent.runner_id
      && x.lease_id == s.intent.lease_id
      && x.state_digest == dispatch_state_digest s
      && x.revision == s.revision

  -- The row with the columns of a new state.
  unfoldable pub advance_row : DispatchIntentState → IntentRow → IntentRow
  advance_row s x = record x {
    state_digest = dispatch_state_digest s;
    revision = s.revision;
    state_json = serialize_dispatch_state s;
  }

  unfoldable pub submission_state : DispatchIntentState → Result DispatchIntentState
  submission_state current = check_dispatch_state (record {
    intent = current.intent;
    status = submission_unknown;
    revision = 1;
    previous_state_digest = some (dispatch_state_digest current);
    provider_invocation_id = none;
    observation_digest = none;
    receipt_digest = none;
    outcome_digest = none;
    transport_status = none;
  })

  unfoldable pub observed_state :
      DispatchIntentState → PhysicalOutcomeBundle → Result DispatchIntentState
  observed_state current outcome = check_dispatch_state (record {
    intent = current.intent;
    status = observed;
    revision = 2;
    previous_state_digest = some (dispatch_state_digest current);
    provider_invocation_id = outcome.receipt.provider_invocation_id;
    observation_digest = some (observation_digest outcome.observation);
    receipt_digest = some (receipt_digest outcome.receipt);
    outcome_digest = some (outcome_digest outcome);
    transport_status = some outcome.receipt.transport_status;
  })

  -- The outcome is of the attempt that the intent was prepared for.
  unfoldable pub outcome_intended : PhysicalAttemptAuthorization → DispatchIntent → Bool
  outcome_intended a i =
      authorization_id a == i.authorization_id
      && authorization_digest a == i.authorization_digest
      && a.request.invocation_id == i.invocation_id
      && request_digest a.request == i.request_digest
      && a.request.runner_id == i.runner_id
      && a.request.runner_capability_digest == i.runner_capability_digest
      && a.physical_attempt == i.physical_attempt

  module _ ⦃j : Json⦄ where
    -- `_decode_row`
    unfoldable pub decode_intent_row : IntentRow → Result DispatchIntentState
    unfolding row_matches
    decode_intent_row row = do
      s ← deserialize_dispatch_state row.state_json
      raise_if (not (row_matches row s)) (dispatch_error "durable dispatch row metadata mismatch")
      ok s

    unfoldable pub decode_all : List IntentRow → Result (List DispatchIntentState)
    unfolding decode_intent_row
    decode_all [] = ok []
    decode_all (x ∷ xs) = do s ← decode_intent_row x; ss ← decode_all xs; ok (s ∷ ss)

    -- The table and the state that `initialize` gives for what is found under the intent's id.
    unfoldable pub initialize_state :
        List IntentRow
        → DispatchIntentState
        → Option IntentRow
        → Result (List IntentRow × DispatchIntentState)
    unfolding intent_row
    initialize_state table s (some row) = do
      existing ← decode_intent_row row
      raise_if (existing != s)
          (dispatch_error "durable dispatch intent already exists with different state")
      ok (table, existing)
    initialize_state table s none = do
      raise_if (any (λ x. x.lease_id == s.intent.lease_id) table)
          (dispatch_error "capacity lease already has a durable dispatch intent")
      ok (table ++ intent_row s ∷ [], s)

    -- `initialize` of the outbox.
    unfoldable pub initialize_intent :
        List IntentRow → DispatchIntent → Result (List IntentRow × DispatchIntentState)
    unfolding initialize_state select_intent
    initialize_intent table i = do
      s ← initial_dispatch_state i
      initialize_state table s (select_intent (intent_id i) table)

    -- `load` of the outbox.
    unfoldable pub load_intent : List IntentRow → String → Result DispatchIntentState
    unfolding select_intent decode_intent_row
    load_intent table id = do row ← intent_or_raise (select_intent id table); decode_intent_row row

    unfoldable pub load_for_runner : List IntentRow → String → Result (List DispatchIntentState)
    unfolding decode_all sort
    load_for_runner table runner_id = do
      decoded ← decode_all (sort (λ x y. str_le x.intent_id y.intent_id) table)
      ok (select (λ s. s.intent.runner_id == runner_id) decoded)

    -- `_commit`
    unfoldable pub commit_state :
        List IntentRow
        → DispatchIntentState
        → DispatchIntentState
        → Result (List IntentRow × DispatchIntentState)
    unfolding select_intent decode_intent_row update_intents row_matches advance_row
    commit_state table current new = do
      raise_if (new.intent != current.intent)
          (dispatch_error "dispatch state transition cannot change intent identity")
      raise_if
          (new.revision != current.revision + 1
            || new.previous_state_digest != some (dispatch_state_digest current))
          (dispatch_error "dispatch state transition predecessor mismatch")
      row ← intent_or_raise (select_intent (intent_id current.intent) table)
      durable ← decode_intent_row row
      raise_if (durable != current) (dispatch_error "stale durable dispatch intent state")
      let updated = update_intents (λ x. row_matches x current) (advance_row new) table
      raise_if (updated.1 != 1) (dispatch_error "durable dispatch compare-and-swap failed")
      ok (updated.0, new)

    unfoldable pub begin_submission :
        List IntentRow
        → List HeadRow
        → RunnerCapabilities
        → String
        → String
        → Result (List IntentRow × DispatchIntentState × DispatchPermit)
    unfolding load_intent available submission_state commit_state
    begin_submission table heads runner id expected = do
      current ← load_intent table id
      raise_if (dispatch_state_digest current != expected)
          (dispatch_error "stale durable dispatch intent state")
      raise_if (current.status != prepared)
          (dispatch_error "only prepared dispatch intent may begin submission")
      loaded ← available (Durable.load heads runner)
      lease ← validate_intent current.intent loaded.0 runner
      new ← submission_state current
      committed ← commit_state table current new
      permit ← permit_for committed.1
      ok (committed.0, committed.1, permit)

    unfoldable pub record_observed :
        List IntentRow
        → Context
        → String
        → String
        → PhysicalOutcomeBundle
        → Result (List IntentRow × DispatchIntentState)
    unfolding load_intent outcome_intended observed_state commit_state
    record_observed table c id expected outcome = do
      current ← load_intent table id
      raise_if (dispatch_state_digest current != expected)
          (dispatch_error "stale durable dispatch intent state")
      raise_if (current.status != submission_unknown)
          (dispatch_error "provider observation requires submission_unknown state")
      verified ← verify_physical_outcome c outcome
      raise_if (not verified) (dispatch_error "physical outcome does not verify")
      raise_if (not (outcome_intended outcome.authorization current.intent))
          (dispatch_error "physical outcome does not belong to durable dispatch intent")
      new ← observed_state current outcome
      commit_state table current new
