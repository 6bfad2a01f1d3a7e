-- ===== src/Tests/Outboxes.antt =====
-- The theorems on the outbox at one intent, for the lease of the durable head: it is submitted, and
-- the outcome of its attempt, which timed out, is recorded.
use mathlib.Core.List.{Memᴰ}
use general_execution.Prelude.{
  String, true, false, ◌≡◌, ◌≢◌, refl, ok, some, none, [], ◌∷◌, List, String-discrete, ℕ_discrete,
  Option-discrete, ◌==◌, string_eq, if◌then◌else◌, contains,
}
use general_execution.Canonical.{
  Value, get, get_field, normalize, insert_field, str_le, sha256_digest, stable_id, canonical_json,
}
use general_execution.Models.{RunnerCapabilities, runner_digest, sort, insert_sorted}
use general_execution.Adapter.{Context, request_digest, request_for}
use general_execution.Physical.{
  PhysicalOutcomeBundle, verify_physical_outcome, receipt_for, authorization_id,
  authorization_digest, observation_digest, receipt_digest, outcome_digest, is_transport, timed_out,
}
use general_execution.Capacity.{
  CapacityLease, RunnerCapacityState, active_leases, active_in, leases_in, releases_in, matching,
  lease_id, lease_digest, state_digest, state_value, next_state, lease_eq,
}
use general_execution.Durable
use general_execution.Durable.{
  Json, HeadRow, DurableCapacityHead, capacity_snapshot, serialize_capacity_snapshot,
  snapshot_digest, decode_head_row, row_for, head_of, select_row,
}
use general_execution.Durable.RoundTrip.{ReadsBackText, deserialize-serialize}
use general_execution.Dispatch.{
  DispatchIntent, check_intent, prepared, submission_unknown, observed, DispatchIntentState,
  check_dispatch_state, dispatch_state_value, DispatchPermit, permit_for, verify_dispatch_permit,
  DispatchIntent-discrete, DispatchIntentState-discrete, DispatchStatus-discrete, intent_id,
  intent_digest, dispatch_state_digest, find_active_lease, validate_intent, lease_intended,
  serialize_dispatch_state, deserialize_dispatch_state, dispatch_state_from_dict, intent_from_dict,
  read_intent, read_dispatch_state, status_of, IntentRow, select_intent, update_intents, available,
  intent_row, row_matches, advance_row, submission_state, observed_state, outcome_intended,
  decode_intent_row, decode_all, load_intent, load_for_runner, commit_state, begin_submission,
  record_observed, action_of, check_item, check_recovery, count_status, recovery_item,
  recovery_items, recover_dispatch_after_restart, verify_dispatch_recovery, DispatchRecoveryItem,
  DispatchRecoveryReport,
}
use general_execution.Dispatch.Once.{done, commit_state-once}
use general_execution.Dispatch.Permits.{begin_submission_bindings, begin_submission-once}
use general_execution.Dispatch.Observing.{record_observed_bindings, record_observed-final}
use general_execution.Dispatch.Unresolved.{Describes, recover_dispatch_complete}
use general_execution.Dispatch.Reporting.{recover_dispatch-verifies}
use general_execution.Tests.Data.{toy, runner, context}
use general_execution.Tests.Heads.{attempt_digest, second, second_verifies, second-IsChecked, parse}
use general_execution.Tests.Attempts.{outcome, outcome_verifies}

abbrev any_id : String
any_id = "00112233445566778899aabb"

abbrev pub intent : DispatchIntent
intent = record {
  runner_id = "r";
  runner_capability_digest = attempt_digest;
  lease_id = "gecl-00112233445566778899aabb";
  lease_digest = attempt_digest;
  slot = 0;
  session_id = "gex-00112233445566778899aabb";
  logical_attempt = 1;
  authorization_id = "gea-00112233445566778899aabb";
  authorization_digest = attempt_digest;
  invocation_id = "gei-1";
  request_digest = attempt_digest;
  physical_attempt = 1;
  capacity_state_digest = attempt_digest;
}

abbrev waiting : DispatchIntentState
waiting = record {
  intent = intent;
  status = prepared;
  revision = 0;
  previous_state_digest = none;
  provider_invocation_id = none;
  observation_digest = none;
  receipt_digest = none;
  outcome_digest = none;
  transport_status = none;
}

abbrev pub sent : DispatchIntentState
sent = record {
  intent = intent;
  status = submission_unknown;
  revision = 1;
  previous_state_digest = some attempt_digest;
  provider_invocation_id = none;
  observation_digest = none;
  receipt_digest = none;
  outcome_digest = none;
  transport_status = none;
}

abbrev seen : DispatchIntentState
seen = record {
  intent = intent;
  status = observed;
  revision = 2;
  previous_state_digest = some attempt_digest;
  provider_invocation_id = none;
  observation_digest = some attempt_digest;
  receipt_digest = some attempt_digest;
  outcome_digest = some attempt_digest;
  transport_status = some timed_out;
}

abbrev parse_any : String → Value
parse_any s =
    if s == "prepared"
    then normalize (dispatch_state_value waiting)
    else if s == "submission_unknown"
    then normalize (dispatch_state_value sent)
    else if s == "observed"
    then normalize (dispatch_state_value seen)
    else parse s

instance abbrev pub parser : Json
parser = record { loads = λ s. some (parse_any s) }

abbrev pub heads : List HeadRow
heads = row_for second "r" (snapshot_digest second) (serialize_capacity_snapshot second) ∷ []

abbrev row_in : DispatchIntentState → IntentRow
row_in s = intent_row s

second_parsed : ReadsBackText second
unfolding serialize_capacity_snapshot capacity_snapshot state_value normalize insert_field str_le
    canonical_json get get_field String-discrete ℕ_discrete next_state
second_parsed = refl

pub load-heads : Durable.load heads runner ≡ ok (second, head_of second (snapshot_digest second))
unfolding Durable.load decode_head_row row_for head_of select_row String-discrete ℕ_discrete
    state_digest sha256_digest runner_digest snapshot_digest next_state
load-heads =
    rw (deserialize-serialize second runner second-IsChecked second_verifies second_parsed) refl

decode-waiting : decode_intent_row (row_in waiting) ≡ ok waiting
unfolding decode_intent_row deserialize_dispatch_state intent_row serialize_dispatch_state
    canonical_json get get_field String-discrete normalize dispatch_state_value insert_field str_le
    ℕ_discrete dispatch_state_from_dict intent_from_dict read_intent read_dispatch_state row_matches
    intent_id stable_id dispatch_state_digest sha256_digest check_intent check_dispatch_state
    status_of
decode-waiting = refl

decode-sent : decode_intent_row (row_in sent) ≡ ok sent
unfolding decode_intent_row deserialize_dispatch_state intent_row serialize_dispatch_state
    canonical_json get get_field String-discrete normalize dispatch_state_value insert_field str_le
    ℕ_discrete dispatch_state_from_dict intent_from_dict read_intent read_dispatch_state row_matches
    intent_id stable_id dispatch_state_digest sha256_digest check_intent check_dispatch_state
    status_of
decode-sent = refl

abbrev pub permit : DispatchPermit
permit = record {
  intent_id = "gedi-00112233445566778899aabb";
  intent_digest = attempt_digest;
  state_digest = attempt_digest;
  invocation_id = "gei-1";
  request_digest = attempt_digest;
  authorization_id = "gea-00112233445566778899aabb";
  authorization_digest = attempt_digest;
  transport_authority = false;
}

abbrev name : String
name = "gedi-00112233445566778899aabb"

begun :
    begin_submission (row_in waiting ∷ []) heads runner name attempt_digest
    ≡ ok (row_in sent ∷ [], sent, permit)
unfolding begin_submission load_intent select_intent intent_row intent_id stable_id
    dispatch_state_digest sha256_digest String-discrete DispatchStatus-discrete available
    validate_intent find_active_lease matching active_in leases_in releases_in lease_id lease_digest
    lease_intended runner_digest submission_state check_dispatch_state commit_state
    DispatchIntent-discrete DispatchIntentState-discrete ℕ_discrete Option-discrete update_intents
    row_matches advance_row permit_for intent_digest next_state
begun = rw (decode-waiting, load-heads, second_verifies) refl

recorded :
    record_observed (row_in sent ∷ []) context name attempt_digest outcome
    ≡ ok (row_in seen ∷ [], seen)
unfolding record_observed load_intent select_intent intent_row intent_id stable_id
    dispatch_state_digest sha256_digest String-discrete DispatchStatus-discrete outcome_intended
    authorization_id authorization_digest request_digest observed_state check_dispatch_state
    is_transport observation_digest receipt_digest outcome_digest commit_state
    DispatchIntent-discrete DispatchIntentState-discrete ℕ_discrete Option-discrete update_intents
    row_matches advance_row request_for runner_digest receipt_for
recorded = rw (decode-sent, outcome_verifies) refl

entered : commit_state (row_in waiting ∷ []) waiting sent ≡ ok (row_in sent ∷ [], sent)
unfolding commit_state select_intent intent_row intent_id stable_id dispatch_state_digest
    sha256_digest String-discrete DispatchStatus-discrete DispatchIntent-discrete
    DispatchIntentState-discrete ℕ_discrete Option-discrete update_intents row_matches advance_row
entered = rw decode-waiting refl

begin_submission_bindings_example :
    (current : DispatchIntentState) × (capacity : RunnerCapacityState)
    × (head : DurableCapacityHead) × (lease : CapacityLease) × (load_intent
          (row_in waiting ∷ [])
          name
        ≡ ok current)
    × (current.status ≡ prepared)
    × (Durable.load heads runner ≡ ok (capacity, head))
    × (contains lease (active_leases capacity) ≡ true)
    × (lease_id lease ≡ current.intent.lease_id)
    × (lease_intended lease current.intent ≡ true)
    × (current.intent.runner_id ≡ "r")
    × (intent ≡ current.intent)
    × (sent.status ≡ submission_unknown)
    × (sent.previous_state_digest ≡ some attempt_digest)
    × (verify_dispatch_permit sent permit ≡ ok true)
    × (permit.transport_authority ≡ false)
begin_submission_bindings_example =
    begin_submission_bindings (row_in waiting ∷ []) heads runner name attempt_digest
      (row_in sent ∷ []) sent permit begun

begin_submission-once_example :
    begin_submission (row_in sent ∷ []) heads runner name attempt_digest
    ≢ ok (row_in sent ∷ [], sent, permit)
begin_submission-once_example =
    begin_submission-once (row_in waiting ∷ []) (row_in sent ∷ []) (row_in sent ∷ [])
      (row_in sent ∷ []) heads heads runner runner name attempt_digest attempt_digest sent sent
      permit permit begun done

record_observed_bindings_example :
    (current : DispatchIntentState) × (load_intent (row_in sent ∷ []) name ≡ ok current)
    × (current.status ≡ submission_unknown)
    × (verify_physical_outcome context outcome ≡ ok true)
    × (outcome_intended outcome.authorization current.intent ≡ true)
    × (intent ≡ current.intent)
    × (seen.status ≡ observed)
    × (seen.previous_state_digest ≡ some attempt_digest)
    × (seen.outcome_digest ≡ some (outcome_digest outcome))
    × (seen.receipt_digest ≡ some (receipt_digest outcome.receipt))
    × (seen.observation_digest ≡ some (observation_digest outcome.observation))
record_observed_bindings_example =
    record_observed_bindings (row_in sent ∷ []) context name attempt_digest outcome
      (row_in seen ∷ []) seen recorded

record_observed-final_example :
    ((heads : List HeadRow) (runner : RunnerCapabilities) (expected' : String) (t3 : List IntentRow)
        (u : DispatchIntentState) (p : DispatchPermit)
      → begin_submission (row_in seen ∷ []) heads runner name expected' ≢ ok (t3, u, p))
    × ((c' : Context) (expected' : String) (other : PhysicalOutcomeBundle) (t3 : List IntentRow)
          (u : DispatchIntentState)
        → record_observed (row_in seen ∷ []) c' name expected' other ≢ ok (t3, u))
record_observed-final_example =
    record_observed-final (row_in sent ∷ []) (row_in seen ∷ []) (row_in seen ∷ []) context name
      attempt_digest outcome seen recorded done

load-sent : load_intent (row_in sent ∷ []) name ≡ ok sent
unfolding load_intent select_intent intent_row intent_id stable_id String-discrete
load-sent = decode-sent

abbrev report : DispatchRecoveryReport
report = record {
  runner_id = "r";
  items =
      (record {
        intent_id = name;
        state_digest = attempt_digest;
        status = submission_unknown;
        invocation_id = "gei-1";
        request_digest = attempt_digest;
        runner_id = "r";
        lease_id = "gecl-00112233445566778899aabb";
        recovery_action = "reconcile_provider";
        blind_resubmission_authorized = false;
        provider_outcome_inferred = false;
      })
      ∷ [];
  prepared_count = 0;
  submission_unknown_count = 1;
  observed_count = 0;
  blind_resubmissions_authorized = 0;
  provider_outcomes_inferred = 0;
}

recovered : recover_dispatch_after_restart (row_in sent ∷ []) "r" ≡ ok report
unfolding recover_dispatch_after_restart load_for_runner sort insert_sorted decode_all
    recovery_items recovery_item action_of check_item count_status check_recovery intent_id
    stable_id dispatch_state_digest sha256_digest String-discrete ℕ_discrete DispatchStatus-discrete
recovered = rw decode-sent refl

recover_dispatch_complete_example :
    (x : DispatchRecoveryItem) × Memᴰ x report.items × Describes x sent
recover_dispatch_complete_example =
    recover_dispatch_complete (row_in sent ∷ []) name sent report load-sent recovered

commit_state-once_example :
    commit_state (row_in sent ∷ []) waiting sent ≢ ok (row_in sent ∷ [], sent)
commit_state-once_example =
    commit_state-once (row_in waiting ∷ []) (row_in sent ∷ []) (row_in sent ∷ []) (row_in sent ∷ [])
      waiting sent sent sent sent entered done

load-one : load_for_runner (row_in sent ∷ []) "r" ≡ ok (sent ∷ [])
unfolding load_for_runner sort insert_sorted decode_all String-discrete
load-one = rw decode-sent refl

recover_dispatch-verifies_example :
    (report : DispatchRecoveryReport) × (recover_dispatch_after_restart (row_in sent ∷ []) "r"
      ≡ ok report)
    × (verify_dispatch_recovery (row_in sent ∷ []) report ≡ ok true)
recover_dispatch-verifies_example =
    recover_dispatch-verifies (row_in sent ∷ []) "r" (sent ∷ []) load-one
