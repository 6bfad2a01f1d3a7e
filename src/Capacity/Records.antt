-- ===== src/Capacity/Records.antt =====
-- The records of capacity.py. A transition holds either a lease or a release, as its checks ask
-- for, so it is a sum; `kind` is the name of the side.
use general_execution.Prelude.{
  ℕ, ℕ_discrete, String, String-discrete, Bool, true, false, ◌&&◌, ◌||◌, not, List, [], ◌∷◌, length,
  Option, none, some, Result, ok, err, value_error, raise_if, ◌>>◌, ◌==◌, ◌!=◌, Eq, string_eq,
  nat_eq, ltb, is_some, is_none,
}
use general_execution.Canonical.{
  Value, null, str, num, opt, arr, obj, Hash, sha256_digest, stable_id,
}
use general_execution.Physical.{TransportStatus, transport_text, is_transport, is_falsy}

pub record CapacityLease : Type 0 where
  pub runner_id : String
  pub runner_capability_digest : String
  pub slot : ℕ
  pub session_id : String
  pub logical_attempt : ℕ
  pub authorization_id : String
  pub authorization_digest : String
  pub invocation_id : String
  pub physical_attempt : ℕ
  pub previous_invocation_id : Option String
  pub previous_receipt_digest : Option String
  pub expected_state_digest : String

unfoldable pub check_lease : CapacityLease → Result CapacityLease
check_lease l = do
  raise_if (ltb l.logical_attempt 1 || ltb l.physical_attempt 1)
      (value_error "attempt ordinals must be >= 1")
  raise_if
      (l.physical_attempt == 1
        && (is_some l.previous_invocation_id || is_some l.previous_receipt_digest))
      (value_error "first physical lease cannot have predecessor bindings")
  raise_if
      (l.physical_attempt != 1
        && (is_none l.previous_invocation_id || is_none l.previous_receipt_digest))
      (value_error "retry physical lease requires predecessor bindings")
  ok l

unfoldable pub lease_value : CapacityLease → Value
lease_value l = obj (
    ("runner_id", str l.runner_id)
    ∷ ("runner_capability_digest", str l.runner_capability_digest)
    ∷ ("slot", num l.slot)
    ∷ ("session_id", str l.session_id)
    ∷ ("logical_attempt", num l.logical_attempt)
    ∷ ("authorization_id", str l.authorization_id)
    ∷ ("authorization_digest", str l.authorization_digest)
    ∷ ("invocation_id", str l.invocation_id)
    ∷ ("physical_attempt", num l.physical_attempt)
    ∷ ("previous_invocation_id", opt str l.previous_invocation_id)
    ∷ ("previous_receipt_digest", opt str l.previous_receipt_digest)
    ∷ ("expected_state_digest", str l.expected_state_digest)
    ∷ ("schema_version", str "ge.capacity-lease.v1")
    ∷ [])

-- `other_kind` is any text that is no kind of the protocol.
pub data ReleaseKind : Type 0 where
  terminal_outcome session_revoked : ReleaseKind
  other_kind : String → ReleaseKind

abbrev release_kind_text : ReleaseKind → String
release_kind_text terminal_outcome = "terminal_outcome"
release_kind_text session_revoked = "session_revoked"
release_kind_text (other_kind s) = s

pub record CapacityRelease : Type 0 where
  pub lease_id : String
  pub lease_digest : String
  pub runner_id : String
  pub session_id : String
  pub logical_attempt : ℕ
  pub authorization_id : String
  pub authorization_digest : String
  pub invocation_id : String
  pub physical_attempt : ℕ
  pub release_kind : ReleaseKind
  pub expected_state_digest : String
  pub outcome_digest : Option String
  pub receipt_digest : Option String
  pub transport_status : Option TransportStatus
  pub revoked_session_digest : Option String

abbrev lacks_status : Option TransportStatus → Bool
lacks_status none = true
lacks_status (some (TransportStatus.other s)) = s == ""
lacks_status (some _) = false

abbrev is_unsupported : Option TransportStatus → Bool
is_unsupported none = false
is_unsupported (some t) = not (is_transport t)

-- The checks that each kind of release has to pass.
unfoldable pub check_kind : ReleaseKind → CapacityRelease → Result (Unit {0})
unfolding is_transport
check_kind terminal_outcome r = do
  raise_if
      (is_falsy r.outcome_digest
        || is_falsy r.receipt_digest
        || lacks_status r.transport_status
        || is_some r.revoked_session_digest)
      (value_error "terminal outcome release requires outcome, receipt and transport status only")
  raise_if (is_unsupported r.transport_status) (value_error "unsupported terminal transport status")
check_kind session_revoked r =
    raise_if
      (is_falsy r.revoked_session_digest
        || is_some r.outcome_digest
        || is_some r.receipt_digest
        || is_some r.transport_status)
      (value_error "session revocation release requires revoked session digest only")
check_kind (other_kind s) r = err (value_error "unsupported release_kind")

unfoldable pub check_release : CapacityRelease → Result CapacityRelease
unfolding check_kind
check_release r = do check_kind r.release_kind r; ok r

unfoldable pub release_value : CapacityRelease → Value
unfolding transport_text
release_value r = obj (
    ("lease_id", str r.lease_id)
    ∷ ("lease_digest", str r.lease_digest)
    ∷ ("runner_id", str r.runner_id)
    ∷ ("session_id", str r.session_id)
    ∷ ("logical_attempt", num r.logical_attempt)
    ∷ ("authorization_id", str r.authorization_id)
    ∷ ("authorization_digest", str r.authorization_digest)
    ∷ ("invocation_id", str r.invocation_id)
    ∷ ("physical_attempt", num r.physical_attempt)
    ∷ ("release_kind", str (release_kind_text r.release_kind))
    ∷ ("expected_state_digest", str r.expected_state_digest)
    ∷ ("outcome_digest", opt str r.outcome_digest)
    ∷ ("receipt_digest", opt str r.receipt_digest)
    ∷ ("transport_status", opt (λ t. str (transport_text t)) r.transport_status)
    ∷ ("revoked_session_digest", opt str r.revoked_session_digest)
    ∷ ("schema_version", str "ge.capacity-release.v1")
    ∷ [])

pub data Change : Type 0 where
  reserve : CapacityLease → Change
  release : CapacityRelease → Change

pub record CapacityTransition : Type 0 where
  pub expected_state_digest : String
  pub change : Change

abbrev kind_text : Change → String
kind_text (reserve l) = "reserve"
kind_text (release r) = "release"

abbrev change_lease : Change → Value
change_lease (reserve l) = lease_value l
change_lease (release r) = null

abbrev change_release : Change → Value
change_release (reserve l) = null
change_release (release r) = release_value r

unfoldable pub transition_value : CapacityTransition → Value
unfolding lease_value release_value
transition_value t = obj (
    ("kind", str (kind_text t.change))
    ∷ ("expected_state_digest", str t.expected_state_digest)
    ∷ ("lease", change_lease t.change)
    ∷ ("release", change_release t.change)
    ∷ ("schema_version", str "ge.capacity-transition.v1")
    ∷ [])

pub record RunnerCapacityState : Type 0 where
  pub runner_id : String
  pub runner_capability_digest : String
  pub max_parallelism : ℕ
  pub generation : ℕ
  pub previous_state_digest : Option String
  pub transitions : List CapacityTransition

unfoldable pub check_state : RunnerCapacityState → Result RunnerCapacityState
check_state s = do
  raise_if (ltb s.max_parallelism 1) (value_error "max_parallelism must be >= 1")
  raise_if (s.generation == 0 && is_some s.previous_state_digest)
      (value_error "genesis capacity state cannot have predecessor")
  raise_if (ltb 0 s.generation && is_none s.previous_state_digest)
      (value_error "non-genesis capacity state requires predecessor digest")
  raise_if (s.generation != length s.transitions)
      (value_error "generation must equal transition count")
  ok s

unfoldable pub state_value : RunnerCapacityState → Value
unfolding transition_value
state_value s = obj (
    ("runner_id", str s.runner_id)
    ∷ ("runner_capability_digest", str s.runner_capability_digest)
    ∷ ("max_parallelism", num s.max_parallelism)
    ∷ ("generation", num s.generation)
    ∷ ("previous_state_digest", opt str s.previous_state_digest)
    ∷ ("transitions", arr transition_value s.transitions)
    ∷ ("schema_version", str "ge.runner-capacity-state.v1")
    ∷ [])

unfoldable pub CapacityLease-discrete : Discrete CapacityLease
unfolding String-discrete ℕ_discrete
CapacityLease-discrete = hlevel (String-discrete, ℕ_discrete)

unfoldable pub CapacityRelease-discrete : Discrete CapacityRelease
unfolding String-discrete ℕ_discrete
CapacityRelease-discrete = hlevel (String-discrete, ℕ_discrete)

unfoldable pub CapacityTransition-discrete : Discrete CapacityTransition
unfolding String-discrete ℕ_discrete
CapacityTransition-discrete = hlevel (String-discrete, ℕ_discrete)

unfoldable pub RunnerCapacityState-discrete : Discrete RunnerCapacityState
unfolding String-discrete ℕ_discrete
RunnerCapacityState-discrete = hlevel (String-discrete, ℕ_discrete)

instance abbrev pub lease_eq : Eq CapacityLease
lease_eq = record { dec = CapacityLease-discrete }

instance abbrev pub release_eq : Eq CapacityRelease
release_eq = record { dec = CapacityRelease-discrete }

instance abbrev pub transition_eq : Eq CapacityTransition
transition_eq = record { dec = CapacityTransition-discrete }

instance abbrev pub capacity_eq : Eq RunnerCapacityState
capacity_eq = record { dec = RunnerCapacityState-discrete }

module _ ⦃h : Hash⦄ where
  unfoldable pub lease_id : CapacityLease → String
  lease_id l = stable_id "gecl" (lease_value l)

  unfoldable pub lease_digest : CapacityLease → String
  lease_digest l = sha256_digest (lease_value l)

  unfoldable pub transition_digest : CapacityTransition → String
  transition_digest t = sha256_digest (transition_value t)

  unfoldable pub state_digest : RunnerCapacityState → String
  state_digest s = sha256_digest (state_value s)
