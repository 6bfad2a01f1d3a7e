-- ===== src/Dispatch/Recovery.antt =====
-- The report of a restart in dispatch.py: what is to be done about every intent of a runner.
use general_execution.Prelude.{
  ℕ, ℕ_discrete, String, String-discrete, Bool, false, ◌||◌, List, [], ◌∷◌, length, select, any,
  Result, ok, err, value_error, dispatch_error, raise_if, ◌>>=◌, ◌>>◌, ◌==◌, ◌!=◌, Eq, string_eq,
  nat_eq,
}
use general_execution.Canonical.{Hash}
use general_execution.Durable.{Json}
use general_execution.Dispatch.Records.{
  DispatchStatus, prepared, submission_unknown, observed, other_status, status_eq,
  DispatchIntentState, dispatch_state_digest, intent_id,
}
use general_execution.Dispatch.Outbox.{IntentRow, load_for_runner}

pub record DispatchRecoveryItem : Type 0 where
  pub intent_id : String
  pub state_digest : String
  pub status : DispatchStatus
  pub invocation_id : String
  pub request_digest : String
  pub runner_id : String
  pub lease_id : String
  pub recovery_action : String
  pub blind_resubmission_authorized : Bool
  pub provider_outcome_inferred : Bool

-- The table of actions. Another status is a `KeyError`, which no state of the table leads to.
unfoldable pub action_of : DispatchStatus → Result String
action_of prepared = ok "begin_submission"
action_of submission_unknown = ok "reconcile_provider"
action_of observed = ok "none"
action_of (other_status s) = err (value_error s)

unfoldable pub check_item : DispatchRecoveryItem → Result DispatchRecoveryItem
unfolding action_of
check_item x = do
  raise_if x.blind_resubmission_authorized
      (value_error "dispatch recovery cannot authorize blind resubmission")
  raise_if x.provider_outcome_inferred
      (value_error "dispatch recovery cannot infer provider outcome")
  expected ← action_of x.status
  raise_if (x.recovery_action != expected)
      (value_error "dispatch recovery action does not match durable status")
  ok x

pub record DispatchRecoveryReport : Type 0 where
  pub runner_id : String
  pub items : List DispatchRecoveryItem
  pub prepared_count : ℕ
  pub submission_unknown_count : ℕ
  pub observed_count : ℕ
  pub blind_resubmissions_authorized : ℕ
  pub provider_outcomes_inferred : ℕ

-- `sum(item.status == status for item in items)`
unfoldable pub count_status : DispatchStatus → List DispatchRecoveryItem → ℕ
count_status status items = length (select (λ x. x.status == status) items)

unfoldable pub check_recovery : DispatchRecoveryReport → Result DispatchRecoveryReport
unfolding count_status
check_recovery x = do
  raise_if (x.blind_resubmissions_authorized != 0)
      (value_error "dispatch recovery cannot authorize blind resubmission")
  raise_if (x.provider_outcomes_inferred != 0)
      (value_error "dispatch recovery cannot infer provider outcome")
  raise_if
      (x.prepared_count != count_status prepared x.items
        || x.submission_unknown_count != count_status submission_unknown x.items
        || x.observed_count != count_status observed x.items)
      (value_error "dispatch recovery counts do not reconcile")
  raise_if (any (λ i. i.runner_id != x.runner_id) x.items)
      (value_error "dispatch recovery report mixes runners")
  ok x

unfoldable pub DispatchRecoveryReport-discrete : Discrete DispatchRecoveryReport
unfolding String-discrete ℕ_discrete
DispatchRecoveryReport-discrete = hlevel (String-discrete, ℕ_discrete)

instance abbrev pub recovery_eq : Eq DispatchRecoveryReport
recovery_eq = record { dec = DispatchRecoveryReport-discrete }

-- `try … except DispatchIntentError: return False`
unfoldable pub catch_dispatch_error : {A : Type 0} → Result A → (A → Bool) → Result Bool
catch_dispatch_error (ok a) f = ok (f a)
catch_dispatch_error (err (dispatch_error m)) f = ok false
catch_dispatch_error (err x) f = err x

module _ ⦃h : Hash⦄ where
  -- `_recovery_item`
  unfoldable pub recovery_item : DispatchIntentState → Result DispatchRecoveryItem
  unfolding action_of check_item
  recovery_item s = do
    action ← action_of s.status
    check_item (record {
      intent_id = intent_id s.intent;
      state_digest = dispatch_state_digest s;
      status = s.status;
      invocation_id = s.intent.invocation_id;
      request_digest = s.intent.request_digest;
      runner_id = s.intent.runner_id;
      lease_id = s.intent.lease_id;
      recovery_action = action;
      blind_resubmission_authorized = false;
      provider_outcome_inferred = false;
    })

  unfoldable pub recovery_items : List DispatchIntentState → Result (List DispatchRecoveryItem)
  unfolding recovery_item
  recovery_items [] = ok []
  recovery_items (s ∷ ss) = do x ← recovery_item s; xs ← recovery_items ss; ok (x ∷ xs)

  unfoldable pub recover_dispatch_after_restart :
      ⦃j : Json⦄ → List IntentRow → String → Result DispatchRecoveryReport
  unfolding recovery_items count_status check_recovery
  recover_dispatch_after_restart table runner_id = do
    states ← load_for_runner table runner_id
    items ← recovery_items states
    check_recovery (record {
      runner_id = runner_id;
      items = items;
      prepared_count = count_status prepared items;
      submission_unknown_count = count_status submission_unknown items;
      observed_count = count_status observed items;
      blind_resubmissions_authorized = 0;
      provider_outcomes_inferred = 0;
    })

  unfoldable pub verify_dispatch_recovery :
      ⦃j : Json⦄ → List IntentRow → DispatchRecoveryReport → Result Bool
  unfolding recover_dispatch_after_restart catch_dispatch_error
  verify_dispatch_recovery table report =
      catch_dispatch_error (recover_dispatch_after_restart table report.runner_id)
        (λ expected. report == expected)
