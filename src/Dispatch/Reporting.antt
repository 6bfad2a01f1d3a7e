-- ===== src/Dispatch/Reporting.antt =====
-- The report of a restart is always made when the rows of the outbox decode.
use general_execution.Prelude.{
  ok_inj, String, ◌≡◌, refl, sym, ◌∙◌, Bool, true, false, not, List, [], ◌∷◌, All, any, select, ok,
  arith, ◌==◌, ◌!=◌, string_eq, nat_eq, >>=-eq-ok, raise_if-eq-ok, Bool-cases, inl, inr,
}
use general_execution.Canonical.{Hash, str_le}
use general_execution.Models.{sort}
use general_execution.Durable.{Json}
use general_execution.Dispatch.{
  DispatchStatus, prepared, submission_unknown, observed, other_status, DispatchIntentState,
  check_status, check_dispatch_state, IntentRow, row_matches, decode_intent_row,
  deserialize_dispatch_state, decode_all, load_for_runner, action_of, DispatchRecoveryItem,
  check_item, dispatch_state_digest, intent_id, DispatchRecoveryReport, recovery_eq, check_recovery,
  count_status, recovery_item, recovery_items, recover_dispatch_after_restart,
  verify_dispatch_recovery, catch_dispatch_error,
}
use general_execution.Dispatch.Loading.{WasChecked, deserialize_dispatch_state-checked}

All-select :
    {A : Type 0} (P : A → Type 0) (test : A → Bool) (xs : List A)
    → All P xs
    → All (λ x. P x × (test x ≡ true)) (select test xs)
All-select P test [] a = tt
All-select P test (x ∷ xs) a = elim (Bool-cases (test x)) [
  | inl kept ↦ rw kept ((a.0, kept), All-select P test xs a.1)
  | inr dropped ↦ rw dropped (All-select P test xs a.1)
]

module _ ⦃h : Hash⦄ where
  abbrev item_for : DispatchIntentState → String → DispatchRecoveryItem
  item_for s action = record {
    intent_id = intent_id s.intent;
    state_digest = dispatch_state_digest s;
    status = s.status;
    invocation_id = s.intent.invocation_id;
    request_digest = s.intent.request_digest;
    runner_id = s.intent.runner_id;
    lease_id = s.intent.lease_id;
    recovery_action = action;
    blind_resubmission_authorized = false;
    provider_outcome_inferred = false;
  }

  known_action :
      (s : DispatchIntentState) (t : DispatchStatus)
      → check_status t s ≡ ok tt
      → (action : String) × (action_of t ≡ ok action)
  unfolding check_status action_of
  known_action s prepared c = (_, refl)
  known_action s submission_unknown c = (_, refl)
  known_action s observed c = (_, refl)
  known_action s (other_status t) c = cc

  checked_status : (s : DispatchIntentState) → WasChecked s → check_status s.status s ≡ ok tt
  unfolding check_dispatch_state
  checked_status s c = (>>=-eq-ok (check_status s.status s) _ c).1

  recovery_item-made :
      (s : DispatchIntentState)
      → WasChecked s
      → (action : String) × (recovery_item s ≡ ok (item_for s action))
  unfolding recovery_item check_item
  recovery_item-made s c =
      let (action, known) = known_action s s.status (checked_status s c) in
      (action, rw known (ground arith))

  recovery_items-made :
      (runner_id : String) (ss : List DispatchIntentState)
      → All (λ s. WasChecked s × ((s.intent.runner_id == runner_id) ≡ true)) ss
      → (items : List DispatchRecoveryItem) × (recovery_items ss ≡ ok items)
        × (any (λ i. i.runner_id != runner_id) items ≡ false)
  unfolding recovery_items
  recovery_items-made runner_id [] a = ([], refl, refl)
  recovery_items-made runner_id (s ∷ ss) a =
      let (action, made) = recovery_item-made s a.0.0 in
      let (items, rest, same) = recovery_items-made runner_id ss a.1 in
      (item_for s action ∷ items, rw (made, rest) refl, ground (arith, same, a.0.1))

  abbrev report_for : String → List DispatchRecoveryItem → DispatchRecoveryReport
  report_for runner_id items = record {
    runner_id = runner_id;
    items = items;
    prepared_count = count_status prepared items;
    submission_unknown_count = count_status submission_unknown items;
    observed_count = count_status observed items;
    blind_resubmissions_authorized = 0;
    provider_outcomes_inferred = 0;
  }

  report_passes :
      (runner_id : String) (items : List DispatchRecoveryItem)
      → any (λ i. i.runner_id != runner_id) items ≡ false
      → check_recovery (report_for runner_id items) ≡ ok (report_for runner_id items)
  unfolding check_recovery
  report_passes runner_id items same = rw same (ground arith)

  module _ ⦃j : Json⦄ where
    decode_intent_row-checked :
        (x : IntentRow) (s : DispatchIntentState) → decode_intent_row x ≡ ok s → WasChecked s
    unfolding decode_intent_row
    decode_intent_row-checked x s e =
        let (u, read, e) = >>=-eq-ok (deserialize_dispatch_state x.state_json) _ e in
        let (matched, e) = raise_if-eq-ok (not (row_matches x u)) _ _ e in
        deserialize_dispatch_state-checked x.state_json s (read ∙ e)

    decode_all-checked :
        (rows : List IntentRow) (ss : List DispatchIntentState)
        → decode_all rows ≡ ok ss
        → All WasChecked ss
    unfolding decode_all
    decode_all-checked [] ss e = rw (sym (ok_inj [] ss e)) tt
    decode_all-checked (x ∷ rows) ss e =
        let (t, read, e) = >>=-eq-ok (decode_intent_row x) _ e in
        let (ts, rest, e) = >>=-eq-ok (decode_all rows) _ e in
        rw (sym (ok_inj (t ∷ ts) ss e))
          (decode_intent_row-checked x t read, decode_all-checked rows ts rest)

    -- Wherever the intents of a runner load, the recovery of the outbox gives a report, and the
    -- report verifies against the same table.
    pub recover_dispatch-verifies :
        (table : List IntentRow) (runner_id : String) (ss : List DispatchIntentState)
        → load_for_runner table runner_id ≡ ok ss
        → (report : DispatchRecoveryReport) × (recover_dispatch_after_restart table runner_id
            ≡ ok report)
          × (verify_dispatch_recovery table report ≡ ok true)
    unfolding recover_dispatch_after_restart verify_dispatch_recovery catch_dispatch_error
        load_for_runner
    recover_dispatch-verifies table runner_id ss e =
        let le = λ (x y : IntentRow). str_le x.intent_id y.intent_id in
        let (states, decoded, chosen) = >>=-eq-ok (decode_all (sort le table)) _ e in
        let (items, made, same) =
          recovery_items-made runner_id (select (λ s. s.intent.runner_id == runner_id) states) (
            All-select WasChecked (λ s. s.intent.runner_id == runner_id) states
              (decode_all-checked (sort le table) states decoded)) in
        let passes = report_passes runner_id items same in
        (
          report_for runner_id items,
          rw (decoded, made, passes) refl,
          rw (decoded, made, passes) (ground arith),
        )
