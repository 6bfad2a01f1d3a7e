-- ===== src/Dispatch/Records.antt =====
-- The records of dispatch.py that the outbox keeps and hands out, with their checks.
use general_execution.Prelude.{
  ℕ, ℕ_discrete, String, String-discrete, Bool, true, ◌||◌, not, List, [], ◌∷◌, Option, none, some,
  Result, ok, err, value_error, raise_if, ◌>>◌, ◌==◌, ◌!=◌, Eq, string_eq, nat_eq, ltb, is_some,
  is_none,
}
use Prim.Native.String.{◌++◌ as join}
use general_execution.Canonical.{Value, str, num, opt, obj, Hash, sha256_digest, stable_id}
use general_execution.Physical.{TransportStatus, transport_text, is_transport, is_falsy}

pub record DispatchIntent : Type 0 where
  pub runner_id : String
  pub runner_capability_digest : String
  pub lease_id : String
  pub lease_digest : String
  pub slot : ℕ
  pub session_id : String
  pub logical_attempt : ℕ
  pub authorization_id : String
  pub authorization_digest : String
  pub invocation_id : String
  pub request_digest : String
  pub physical_attempt : ℕ
  pub capacity_state_digest : String

-- The first field that is empty raises.
unfoldable pub check_present : List (String × String) → Result (Unit {0})
check_present [] = ok tt
check_present ((name, s) ∷ rest) = do
  raise_if (s == "") (value_error (join name " must be non-empty"))
  check_present rest

unfoldable pub check_intent : DispatchIntent → Result DispatchIntent
unfolding check_present
check_intent i = do
  raise_if (ltb i.logical_attempt 1 || ltb i.physical_attempt 1)
      (value_error "attempt ordinals must be >= 1")
  check_present (
      ("runner_id", i.runner_id)
      ∷ ("runner_capability_digest", i.runner_capability_digest)
      ∷ ("lease_id", i.lease_id)
      ∷ ("lease_digest", i.lease_digest)
      ∷ ("session_id", i.session_id)
      ∷ ("authorization_id", i.authorization_id)
      ∷ ("authorization_digest", i.authorization_digest)
      ∷ ("invocation_id", i.invocation_id)
      ∷ ("request_digest", i.request_digest)
      ∷ ("capacity_state_digest", i.capacity_state_digest)
      ∷ [])
  ok i

unfoldable pub intent_value : DispatchIntent → Value
intent_value i = obj (
    ("runner_id", str i.runner_id)
    ∷ ("runner_capability_digest", str i.runner_capability_digest)
    ∷ ("lease_id", str i.lease_id)
    ∷ ("lease_digest", str i.lease_digest)
    ∷ ("slot", num i.slot)
    ∷ ("session_id", str i.session_id)
    ∷ ("logical_attempt", num i.logical_attempt)
    ∷ ("authorization_id", str i.authorization_id)
    ∷ ("authorization_digest", str i.authorization_digest)
    ∷ ("invocation_id", str i.invocation_id)
    ∷ ("request_digest", str i.request_digest)
    ∷ ("physical_attempt", num i.physical_attempt)
    ∷ ("capacity_state_digest", str i.capacity_state_digest)
    ∷ ("schema_version", str "ge.dispatch-intent.v1")
    ∷ [])

-- `other_status` is any text that is no status of the protocol.
pub data DispatchStatus : Type 0 where
  prepared submission_unknown observed : DispatchStatus
  other_status : String → DispatchStatus

unfoldable pub status_text : DispatchStatus → String
status_text prepared = "prepared"
status_text submission_unknown = "submission_unknown"
status_text observed = "observed"
status_text (other_status s) = s

pub record DispatchIntentState : Type 0 where
  pub intent : DispatchIntent
  pub status : DispatchStatus
  pub revision : ℕ
  pub previous_state_digest : Option String
  pub provider_invocation_id : Option String
  pub observation_digest : Option String
  pub receipt_digest : Option String
  pub outcome_digest : Option String
  pub transport_status : Option TransportStatus

-- Some, or not all, of the four observed fields are there.
unfoldable pub any_observed : DispatchIntentState → Bool
any_observed s =
    is_some s.observation_digest
    || is_some s.receipt_digest
    || is_some s.outcome_digest
    || is_some s.transport_status

unfoldable pub lacks_observed : DispatchIntentState → Bool
lacks_observed s =
    is_none s.observation_digest
    || is_none s.receipt_digest
    || is_none s.outcome_digest
    || is_none s.transport_status

abbrev unsupported : Option TransportStatus → Bool
unsupported none = true
unsupported (some t) = not (is_transport t)

-- The checks that each status has to pass.
unfoldable pub check_status : DispatchStatus → DispatchIntentState → Result (Unit {0})
unfolding any_observed lacks_observed is_transport
check_status prepared s = do
  raise_if (s.revision != 0 || is_some s.previous_state_digest)
      (value_error "prepared dispatch state must be revision 0 without predecessor")
  raise_if (is_some s.provider_invocation_id || any_observed s)
      (value_error "prepared dispatch state cannot carry provider evidence")
check_status submission_unknown s = do
  raise_if (s.revision != 1 || is_falsy s.previous_state_digest)
      (value_error "submission_unknown dispatch state must be revision 1 with predecessor")
  raise_if (is_some s.provider_invocation_id || any_observed s)
      (value_error "submission_unknown state cannot claim provider evidence")
check_status observed s = do
  raise_if (s.revision != 2 || is_falsy s.previous_state_digest)
      (value_error "observed dispatch state must be revision 2 with predecessor")
  raise_if (lacks_observed s)
      (value_error "observed dispatch state requires admitted outcome evidence")
  raise_if (unsupported s.transport_status)
      (value_error "observed dispatch state has unsupported transport status")
check_status (other_status t) s = err (value_error "unsupported dispatch status")

unfoldable pub check_dispatch_state : DispatchIntentState → Result DispatchIntentState
unfolding check_status
check_dispatch_state s = do check_status s.status s; ok s

-- `dispatch_state_to_dict`
unfoldable pub dispatch_state_value : DispatchIntentState → Value
unfolding intent_value status_text transport_text
dispatch_state_value s = obj (
    ("intent", intent_value s.intent)
    ∷ ("status", str (status_text s.status))
    ∷ ("revision", num s.revision)
    ∷ ("previous_state_digest", opt str s.previous_state_digest)
    ∷ ("provider_invocation_id", opt str s.provider_invocation_id)
    ∷ ("observation_digest", opt str s.observation_digest)
    ∷ ("receipt_digest", opt str s.receipt_digest)
    ∷ ("outcome_digest", opt str s.outcome_digest)
    ∷ ("transport_status", opt (λ t. str (transport_text t)) s.transport_status)
    ∷ ("schema_version", str "ge.dispatch-intent-state.v1")
    ∷ [])

pub record DispatchPermit : Type 0 where
  pub intent_id : String
  pub intent_digest : String
  pub state_digest : String
  pub invocation_id : String
  pub request_digest : String
  pub authorization_id : String
  pub authorization_digest : String
  pub transport_authority : Bool

unfoldable pub check_permit : DispatchPermit → Result DispatchPermit
check_permit p = do
  raise_if p.transport_authority
      (value_error "durable dispatch permit cannot grant transport authority")
  ok p

unfoldable pub DispatchIntent-discrete : Discrete DispatchIntent
unfolding String-discrete ℕ_discrete
DispatchIntent-discrete = hlevel (String-discrete, ℕ_discrete)

unfoldable pub DispatchStatus-discrete : Discrete DispatchStatus
unfolding String-discrete
DispatchStatus-discrete = hlevel String-discrete

unfoldable pub DispatchIntentState-discrete : Discrete DispatchIntentState
unfolding String-discrete ℕ_discrete
DispatchIntentState-discrete = hlevel (String-discrete, ℕ_discrete)

unfoldable pub DispatchPermit-discrete : Discrete DispatchPermit
unfolding String-discrete
DispatchPermit-discrete = hlevel String-discrete

instance abbrev pub intent_eq : Eq DispatchIntent
intent_eq = record { dec = DispatchIntent-discrete }

instance abbrev pub status_eq : Eq DispatchStatus
status_eq = record { dec = DispatchStatus-discrete }

instance abbrev pub dispatch_state_eq : Eq DispatchIntentState
dispatch_state_eq = record { dec = DispatchIntentState-discrete }

instance abbrev pub permit_eq : Eq DispatchPermit
permit_eq = record { dec = DispatchPermit-discrete }

module _ ⦃h : Hash⦄ where
  unfoldable pub intent_id : DispatchIntent → String
  intent_id i = stable_id "gedi" (intent_value i)

  unfoldable pub intent_digest : DispatchIntent → String
  intent_digest i = sha256_digest (intent_value i)

  unfoldable pub dispatch_state_digest : DispatchIntentState → String
  dispatch_state_digest s = sha256_digest (dispatch_state_value s)
