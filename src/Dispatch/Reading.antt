-- ===== src/Dispatch/Reading.antt =====
-- The readers of dispatch.py: from the text of a row back to a dispatch state.
use general_execution.Prelude.{
  String, not, [], ◌∷◌, Option, none, some, Result, err, dispatch_error, raise_if, rewrap, ◌>>=◌,
  ◌>>◌, ◌==◌, string_eq, if◌then◌else◌,
}
use general_execution.Canonical.{
  Value, Fields, dict, Hash, canonical_json, get_field, read_text, read_number, read_optional_text,
  only_keys, has_schema,
}
use general_execution.Durable.{Json, optional_transport}
use general_execution.Dispatch.Records.{
  DispatchIntent, check_intent, DispatchStatus, DispatchIntentState, check_dispatch_state,
  dispatch_state_value,
}

unfoldable pub status_of : String → DispatchStatus
status_of s =
    if s == "prepared"
    then DispatchStatus.prepared
    else if s == "submission_unknown"
    then DispatchStatus.submission_unknown
    else if s == "observed"
    then DispatchStatus.observed
    else DispatchStatus.other_status s

-- `DispatchIntent(**data)`
unfoldable pub read_intent : Fields → Result DispatchIntent
unfolding only_keys read_text read_number
read_intent r = do
  only_keys
      ("runner_id" ∷ "runner_capability_digest" ∷ "lease_id" ∷ "lease_digest" ∷ "slot"
        ∷ "session_id" ∷ "logical_attempt" ∷ "authorization_id" ∷ "authorization_digest"
        ∷ "invocation_id" ∷ "request_digest" ∷ "physical_attempt" ∷ "capacity_state_digest"
        ∷ "schema_version" ∷ [])
      r
  runner_id ← read_text "runner_id" r
  runner_capability_digest ← read_text "runner_capability_digest" r
  lease_id ← read_text "lease_id" r
  lease_digest ← read_text "lease_digest" r
  slot ← read_number "slot" r
  session_id ← read_text "session_id" r
  logical_attempt ← read_number "logical_attempt" r
  authorization_id ← read_text "authorization_id" r
  authorization_digest ← read_text "authorization_digest" r
  invocation_id ← read_text "invocation_id" r
  request_digest ← read_text "request_digest" r
  physical_attempt ← read_number "physical_attempt" r
  capacity_state_digest ← read_text "capacity_state_digest" r
  check_intent (record {
    runner_id = runner_id;
    runner_capability_digest = runner_capability_digest;
    lease_id = lease_id;
    lease_digest = lease_digest;
    slot = slot;
    session_id = session_id;
    logical_attempt = logical_attempt;
    authorization_id = authorization_id;
    authorization_digest = authorization_digest;
    invocation_id = invocation_id;
    request_digest = request_digest;
    physical_attempt = physical_attempt;
    capacity_state_digest = capacity_state_digest;
  })

-- `_intent_from_dict` of the entry of a state.
unfoldable pub intent_from_dict : Option Value → Result DispatchIntent
unfolding has_schema read_intent
intent_from_dict (some (dict r)) = do
  raise_if (not (has_schema "ge.dispatch-intent.v1" r))
      (dispatch_error "unsupported dispatch intent schema")
  rewrap (read_intent r) (dispatch_error "invalid durable dispatch intent")
intent_from_dict _ = err (dispatch_error "dispatch intent state requires intent")

-- `DispatchIntentState(**payload)`
unfoldable pub read_dispatch_state : DispatchIntent → Fields → Result DispatchIntentState
unfolding only_keys read_text read_number read_optional_text status_of
read_dispatch_state intent r = do
  only_keys
      ("intent" ∷ "status" ∷ "revision" ∷ "previous_state_digest" ∷ "provider_invocation_id"
        ∷ "observation_digest" ∷ "receipt_digest" ∷ "outcome_digest" ∷ "transport_status"
        ∷ "schema_version" ∷ [])
      r
  status ← read_text "status" r
  revision ← read_number "revision" r
  previous_state_digest ← read_optional_text "previous_state_digest" r
  provider_invocation_id ← read_optional_text "provider_invocation_id" r
  observation_digest ← read_optional_text "observation_digest" r
  receipt_digest ← read_optional_text "receipt_digest" r
  outcome_digest ← read_optional_text "outcome_digest" r
  transport_status ← read_optional_text "transport_status" r
  check_dispatch_state (record {
    intent = intent;
    status = status_of status;
    revision = revision;
    previous_state_digest = previous_state_digest;
    provider_invocation_id = provider_invocation_id;
    observation_digest = observation_digest;
    receipt_digest = receipt_digest;
    outcome_digest = outcome_digest;
    transport_status = optional_transport transport_status;
  })

unfoldable pub dispatch_state_from_dict : Value → Result DispatchIntentState
unfolding has_schema get_field intent_from_dict read_dispatch_state
dispatch_state_from_dict (dict r) = do
  raise_if (not (has_schema "ge.dispatch-intent-state.v1" r))
      (dispatch_error "unsupported dispatch intent state schema")
  intent ← intent_from_dict (get_field "intent" r)
  rewrap (read_dispatch_state intent r) (dispatch_error "invalid durable dispatch intent state")
dispatch_state_from_dict _ = err (dispatch_error "unsupported dispatch intent state schema")

abbrev pub parsed_state : Option Value → Result DispatchIntentState
parsed_state none = err (dispatch_error "durable dispatch state is not valid JSON")
parsed_state (some v) = dispatch_state_from_dict v

unfoldable pub serialize_dispatch_state : ⦃h : Hash⦄ → DispatchIntentState → String
serialize_dispatch_state s = canonical_json (dispatch_state_value s)

unfoldable pub deserialize_dispatch_state : ⦃j : Json⦄ → String → Result DispatchIntentState
unfolding dispatch_state_from_dict
deserialize_dispatch_state ⦃j⦄ text = parsed_state (j.loads text)
