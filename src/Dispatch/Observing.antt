-- ===== src/Dispatch/Observing.antt =====
-- What the recording of an outcome in the outbox stands for.
use general_execution.Prelude.{
  ◌+◌, String, ◌≡◌, ◌≢◌, sym, ap, ◌∙◌, true, not, List, some, ok, arith, ◌!=◌, string_eq, >>=-eq-ok,
  raise_if-eq-ok, not-eq-false,
}
use general_execution.Canonical.{Hash}
use general_execution.Models.{RunnerCapabilities}
use general_execution.Adapter.{Context}
use general_execution.Physical.{
  PhysicalOutcomeBundle, verify_physical_outcome, observation_digest, receipt_digest,
  outcome_digest,
}
use general_execution.Durable.{Json, HeadRow}
use general_execution.Dispatch.{
  submission_unknown, observed, status_eq, DispatchIntentState, check_dispatch_state, check_status,
  dispatch_state_digest, intent_id, DispatchPermit, IntentRow, observed_state, outcome_intended,
  load_intent, commit_state, begin_submission, record_observed,
}
use general_execution.Dispatch.Loading.{check_dispatch_state-same, load_intent-parts, WasChecked}
use general_execution.Dispatch.Once.{
  Step, committed, Steps, commit_state-parts, Steps-ReachedRevision, commit_state-ReachedRevision,
}
use general_execution.Dispatch.Permits.{begin_submission-IsBegun, prepared-revision}

module _ ⦃h : Hash⦄ ⦃j : Json⦄ where
  -- The calls that record_observed makes.
  record IsRecorded (table : List IntentRow) (c : Context) (id expected : String)
      (outcome : PhysicalOutcomeBundle) (table' : List IntentRow) (s : DispatchIntentState)
      : Type 0 where
    current : DispatchIntentState
    loaded : load_intent table id ≡ ok current
    digest : dispatch_state_digest current ≡ expected
    status : current.status ≡ submission_unknown
    verified : verify_physical_outcome c outcome ≡ ok true
    intended : outcome_intended outcome.authorization current.intent ≡ true
    made : observed_state current outcome ≡ ok s
    commit : commit_state table current s ≡ ok (table', s)

  record_observed-IsRecorded :
      (table : List IntentRow) (c : Context) (id expected : String)
      (outcome : PhysicalOutcomeBundle) (table' : List IntentRow) (s : DispatchIntentState)
      → record_observed table c id expected outcome ≡ ok (table', s)
      → IsRecorded table c id expected outcome table' s
  unfolding record_observed
  record_observed-IsRecorded table c id expected outcome table' s e =
      let (current, loaded, e) = >>=-eq-ok (load_intent table id) _ e in
      let (digest, e) = raise_if-eq-ok (dispatch_state_digest current != expected) _ _ e in
      let (status, e) = raise_if-eq-ok (current.status != submission_unknown) _ _ e in
      let (v, verified, e) = >>=-eq-ok (verify_physical_outcome c outcome) _ e in
      let (passed, e) = raise_if-eq-ok (not v) _ _ e in
      let (intended, e) =
        raise_if-eq-ok (not (outcome_intended outcome.authorization current.intent)) _ _ e in
      let (new, made, e) = >>=-eq-ok (observed_state current outcome) _ e in
      let (row, found, read, intent, next, same, written) =
        commit_state-parts table current new table' s e in
      record {
        current = current;
        loaded = loaded;
        digest = ground (arith, digest);
        status = ground (arith, status);
        verified = verified ∙ ap ok (not-eq-false v passed);
        intended = not-eq-false _ intended;
        made = made ∙ ap ok (sym same);
        commit = ap (commit_state table current) same ∙ e;
      }

  -- The recording of an outcome is a step of the outbox.
  pub record_observed-Step :
      (table : List IntentRow) (c : Context) (id expected : String)
      (outcome : PhysicalOutcomeBundle) (table' : List IntentRow) (s : DispatchIntentState)
      → record_observed table c id expected outcome ≡ ok (table', s)
      → Step table table'
  record_observed-Step table c id expected outcome table' s e =
      let b = record_observed-IsRecorded table c id expected outcome table' s e in
      committed b.current s b.commit

  observed_state-parts :
      (current s : DispatchIntentState) (outcome : PhysicalOutcomeBundle)
      → observed_state current outcome ≡ ok s
      → (s.intent ≡ current.intent)
        × (s.status ≡ observed)
        × (s.previous_state_digest ≡ some (dispatch_state_digest current))
        × (s.outcome_digest ≡ some (outcome_digest outcome))
        × (s.receipt_digest ≡ some (receipt_digest outcome.receipt))
        × (s.observation_digest ≡ some (observation_digest outcome.observation))
  unfolding observed_state
  observed_state-parts current s outcome e =
      let same = check_dispatch_state-same _ s e in ground (arith, same)

  -- An outcome that is recorded verifies in its context and is of the attempt of the intent, whose
  -- submission had begun; the state becomes observed after that state, with the digests of the
  -- outcome, its receipt and its observation.
  pub record_observed_bindings :
      (table : List IntentRow) (c : Context) (id expected : String)
      (outcome : PhysicalOutcomeBundle) (table' : List IntentRow) (s : DispatchIntentState)
      → record_observed table c id expected outcome ≡ ok (table', s)
      → (current : DispatchIntentState) × (load_intent table id ≡ ok current)
        × (current.status ≡ submission_unknown)
        × (verify_physical_outcome c outcome ≡ ok true)
        × (outcome_intended outcome.authorization current.intent ≡ true)
        × (s.intent ≡ current.intent)
        × (s.status ≡ observed)
        × (s.previous_state_digest ≡ some expected)
        × (s.outcome_digest ≡ some (outcome_digest outcome))
        × (s.receipt_digest ≡ some (receipt_digest outcome.receipt))
        × (s.observation_digest ≡ some (observation_digest outcome.observation))
  record_observed_bindings table c id expected outcome table' s e =
      let b = record_observed-IsRecorded table c id expected outcome table' s e in
      let (intent, status, previous, of_outcome, of_receipt, of_observation) =
        observed_state-parts b.current s outcome b.made in
      (
        b.current,
        b.loaded,
        b.status,
        b.verified,
        b.intended,
        intent,
        status,
        previous ∙ ap some b.digest,
        of_outcome,
        of_receipt,
        of_observation,
      )

  submitted-revision :
      (s : DispatchIntentState) → WasChecked s → s.status ≡ submission_unknown → s.revision ≡ 1
  unfolding check_dispatch_state check_status
  submitted-revision s c e = ground (arith, c, e)

  -- Once an outcome of an intent is recorded, no submission of the intent begins and no other
  -- outcome of it is recorded, after any sequence of calls on the outbox.
  pub record_observed-final :
      (t t' t'' : List IntentRow) (c : Context) (id expected : String)
      (outcome : PhysicalOutcomeBundle) (s : DispatchIntentState)
      → record_observed t c id expected outcome ≡ ok (t', s)
      → Steps t' t''
      → ((heads : List HeadRow) (runner : RunnerCapabilities) (expected' : String)
            (t3 : List IntentRow) (u : DispatchIntentState) (p : DispatchPermit)
          → begin_submission t'' heads runner id expected' ≢ ok (t3, u, p))
        × ((c' : Context) (expected' : String) (other : PhysicalOutcomeBundle) (t3 : List IntentRow)
              (u : DispatchIntentState)
            → record_observed t'' c' id expected' other ≢ ok (t3, u))
  record_observed-final t t' t'' c id expected outcome s e w =
      let b = record_observed-IsRecorded t c id expected outcome t' s e in
      let (x, found, revision, named, checked) = load_intent-parts t id b.current b.loaded in
      let (z, kept, le) =
        Steps-ReachedRevision (b.current.revision + 1) (intent_id b.current.intent) w
          (commit_state-ReachedRevision t b.current s t' s b.commit) in
      let one = submitted-revision b.current checked b.status in
      (
        λ heads runner expected' t3 u p f.
            let k = begin_submission-IsBegun t'' heads runner id expected' t3 u p f in
            let (y, found2, revision2, named2, checked2) =
              load_intent-parts t'' id k.current k.loaded in
            let none_yet = prepared-revision k.current checked2 k.status in
            ground (arith, named, found2, kept, le, one, none_yet, revision2),
        λ c' expected' other t3 u f.
            let k = record_observed-IsRecorded t'' c' id expected' other t3 u f in
            let (y, found2, revision2, named2, checked2) =
              load_intent-parts t'' id k.current k.loaded in
            let two = submitted-revision k.current checked2 k.status in
            ground (arith, named, found2, kept, le, one, two, revision2),
      )
