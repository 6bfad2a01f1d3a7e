-- ===== src/Durable/Reading.antt =====
-- The readers of durable.py: from the mapping of a snapshot back to a capacity state.
use general_execution.Prelude.{
  ℕ, String, not, List, [], ◌∷◌, Option, none, some, Result, ok, err, durable_error, value_error,
  raise_if, rewrap, ◌>>=◌, ◌>>◌, ◌==◌, string_eq, if◌then◌else◌,
}
use general_execution.Canonical.{
  Value, Items, Fields, num, tuple, list, dict, nil, cons, get_field, read_text, read_number,
  read_optional_text, read_nullable_text, only_keys, has_schema,
}
use general_execution.Physical.{TransportStatus}
use general_execution.Capacity.{
  CapacityLease, check_lease, CapacityRelease, check_release, ReleaseKind, Change, reserve, release,
  CapacityTransition, RunnerCapacityState, check_state,
}

-- The text of a transport status or a release kind, and what any other text is.
unfoldable pub transport_of : String → TransportStatus
transport_of s =
    if s == "completed"
    then TransportStatus.completed
    else if s == "rejected"
    then TransportStatus.rejected
    else if s == "timed_out"
    then TransportStatus.timed_out
    else if s == "cancelled"
    then TransportStatus.cancelled
    else if s == "transport_failed"
    then TransportStatus.transport_failed
    else TransportStatus.other s

unfoldable pub release_kind_of : String → ReleaseKind
release_kind_of s =
    if s == "terminal_outcome"
    then ReleaseKind.terminal_outcome
    else if s == "session_revoked"
    then ReleaseKind.session_revoked
    else ReleaseKind.other_kind s

abbrev pub optional_transport : Option String → Option TransportStatus
optional_transport none = none
optional_transport (some s) = some (transport_of s)

unfoldable pub read_lease : Fields → Result CapacityLease
unfolding only_keys read_text read_number read_nullable_text
read_lease r = do
  only_keys
      ("runner_id" ∷ "runner_capability_digest" ∷ "slot" ∷ "session_id" ∷ "logical_attempt"
        ∷ "authorization_id" ∷ "authorization_digest" ∷ "invocation_id" ∷ "physical_attempt"
        ∷ "previous_invocation_id" ∷ "previous_receipt_digest" ∷ "expected_state_digest"
        ∷ "schema_version" ∷ [])
      r
  runner_id ← read_text "runner_id" r
  runner_capability_digest ← read_text "runner_capability_digest" r
  slot ← read_number "slot" r
  session_id ← read_text "session_id" r
  logical_attempt ← read_number "logical_attempt" r
  authorization_id ← read_text "authorization_id" r
  authorization_digest ← read_text "authorization_digest" r
  invocation_id ← read_text "invocation_id" r
  physical_attempt ← read_number "physical_attempt" r
  previous_invocation_id ← read_nullable_text "previous_invocation_id" r
  previous_receipt_digest ← read_nullable_text "previous_receipt_digest" r
  expected_state_digest ← read_text "expected_state_digest" r
  check_lease (record {
    runner_id = runner_id;
    runner_capability_digest = runner_capability_digest;
    slot = slot;
    session_id = session_id;
    logical_attempt = logical_attempt;
    authorization_id = authorization_id;
    authorization_digest = authorization_digest;
    invocation_id = invocation_id;
    physical_attempt = physical_attempt;
    previous_invocation_id = previous_invocation_id;
    previous_receipt_digest = previous_receipt_digest;
    expected_state_digest = expected_state_digest;
  })

unfoldable pub read_release : Fields → Result CapacityRelease
unfolding only_keys read_text read_number read_optional_text transport_of release_kind_of
read_release r = do
  only_keys
      ("lease_id" ∷ "lease_digest" ∷ "runner_id" ∷ "session_id" ∷ "logical_attempt"
        ∷ "authorization_id" ∷ "authorization_digest" ∷ "invocation_id" ∷ "physical_attempt"
        ∷ "release_kind" ∷ "expected_state_digest" ∷ "outcome_digest" ∷ "receipt_digest"
        ∷ "transport_status" ∷ "revoked_session_digest" ∷ "schema_version" ∷ [])
      r
  lease_id ← read_text "lease_id" r
  lease_digest ← read_text "lease_digest" r
  runner_id ← read_text "runner_id" r
  session_id ← read_text "session_id" r
  logical_attempt ← read_number "logical_attempt" r
  authorization_id ← read_text "authorization_id" r
  authorization_digest ← read_text "authorization_digest" r
  invocation_id ← read_text "invocation_id" r
  physical_attempt ← read_number "physical_attempt" r
  release_kind ← read_text "release_kind" r
  expected_state_digest ← read_text "expected_state_digest" r
  outcome_digest ← read_optional_text "outcome_digest" r
  receipt_digest ← read_optional_text "receipt_digest" r
  transport_status ← read_optional_text "transport_status" r
  revoked_session_digest ← read_optional_text "revoked_session_digest" r
  check_release (record {
    lease_id = lease_id;
    lease_digest = lease_digest;
    runner_id = runner_id;
    session_id = session_id;
    logical_attempt = logical_attempt;
    authorization_id = authorization_id;
    authorization_digest = authorization_digest;
    invocation_id = invocation_id;
    physical_attempt = physical_attempt;
    release_kind = release_kind_of release_kind;
    expected_state_digest = expected_state_digest;
    outcome_digest = outcome_digest;
    receipt_digest = receipt_digest;
    transport_status = optional_transport transport_status;
    revoked_session_digest = revoked_session_digest;
  })

-- `_lease_from_dict` of a mapping.
unfoldable pub lease_from_dict : Fields → Result CapacityLease
unfolding has_schema read_lease
lease_from_dict r = do
  raise_if (not (has_schema "ge.capacity-lease.v1" r))
      (durable_error "unsupported capacity lease schema")
  rewrap (read_lease r) (durable_error "invalid durable capacity lease")

unfoldable pub release_from_dict : Fields → Result CapacityRelease
unfolding has_schema read_release
release_from_dict r = do
  raise_if (not (has_schema "ge.capacity-release.v1" r))
      (durable_error "unsupported capacity release schema")
  rewrap (read_release r) (durable_error "invalid durable capacity release")

-- `_lease_from_dict(lease) if isinstance(lease, dict) else None`
abbrev pub lease_if_dict : Option Value → Result (Option CapacityLease)
lease_if_dict (some (dict r)) = do l ← lease_from_dict r; ok (some l)
lease_if_dict _ = ok none

abbrev pub release_if_dict : Option Value → Result (Option CapacityRelease)
release_if_dict (some (dict r)) = do x ← release_from_dict r; ok (some x)
release_if_dict _ = ok none

-- `CapacityTransition.__post_init__`: the kind says which of the two is there.
unfoldable pub change_of : String → Option CapacityLease → Option CapacityRelease → Result Change
change_of kind (some l) none =
    if kind == "reserve" then ok (reserve l) else err (value_error "unsupported transition kind")
change_of kind none (some x) =
    if kind == "release" then ok (release x) else err (value_error "unsupported transition kind")
change_of kind _ _ = err (value_error "transition requires exactly one of lease and release")

unfoldable pub read_transition :
    Option CapacityLease → Option CapacityRelease → Fields → Result CapacityTransition
unfolding only_keys read_text change_of
read_transition lease released r = do
  only_keys ("kind" ∷ "expected_state_digest" ∷ "lease" ∷ "release" ∷ "schema_version" ∷ []) r
  kind ← read_text "kind" r
  expected_state_digest ← read_text "expected_state_digest" r
  change ← change_of kind lease released
  ok (record { expected_state_digest = expected_state_digest; change = change })

unfoldable pub transition_from_dict : Value → Result CapacityTransition
unfolding has_schema get_field read_transition lease_from_dict release_from_dict
transition_from_dict (dict r) = do
  raise_if (not (has_schema "ge.capacity-transition.v1" r))
      (durable_error "unsupported capacity transition schema")
  lease ← lease_if_dict (get_field "lease" r)
  released ← release_if_dict (get_field "release" r)
  rewrap (read_transition lease released r) (durable_error "invalid durable capacity transition")
transition_from_dict _ = err (durable_error "unsupported capacity transition schema")

unfoldable pub transitions_from : Items → Result (List CapacityTransition)
unfolding transition_from_dict
transitions_from nil = ok []
transitions_from (cons v xs) = do t ← transition_from_dict v; ts ← transitions_from xs; ok (t ∷ ts)

abbrev pub sequence_of : Option Value → Result Items
sequence_of (some (tuple xs)) = ok xs
sequence_of (some (list xs)) = ok xs
sequence_of _ = err (durable_error "capacity state transitions must be a sequence")

-- A counter whose default is 0.
abbrev pub number_or_zero : Option Value → Result ℕ
number_or_zero none = ok 0
number_or_zero (some (num n)) = ok n
number_or_zero _ = err (value_error "mistyped field")

unfoldable pub read_state : List CapacityTransition → Fields → Result RunnerCapacityState
unfolding only_keys read_text read_number read_optional_text get_field
read_state transitions r = do
  only_keys
      ("runner_id" ∷ "runner_capability_digest" ∷ "max_parallelism" ∷ "generation"
        ∷ "previous_state_digest" ∷ "transitions" ∷ "schema_version" ∷ [])
      r
  runner_id ← read_text "runner_id" r
  runner_capability_digest ← read_text "runner_capability_digest" r
  max_parallelism ← read_number "max_parallelism" r
  generation ← number_or_zero (get_field "generation" r)
  previous_state_digest ← read_optional_text "previous_state_digest" r
  check_state (record {
    runner_id = runner_id;
    runner_capability_digest = runner_capability_digest;
    max_parallelism = max_parallelism;
    generation = generation;
    previous_state_digest = previous_state_digest;
    transitions = transitions;
  })

unfoldable pub capacity_state_from_dict : Fields → Result RunnerCapacityState
unfolding has_schema get_field transitions_from read_state
capacity_state_from_dict r = do
  raise_if (not (has_schema "ge.runner-capacity-state.v1" r))
      (durable_error "unsupported runner capacity state schema")
  items ← sequence_of (get_field "transitions" r)
  transitions ← transitions_from items
  rewrap (read_state transitions r) (durable_error "invalid durable runner capacity state")
