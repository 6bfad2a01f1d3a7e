-- ===== src/Planner/Verified.antt =====
-- What `verify_plan` of planner.py accepts, said without planning again.
use general_execution.Prelude.{
  String, ◌≡◌, refl, sym, subst, ap, ◌∙◌, true, List, [], ◌∷◌, Option, none, some, ok, ok_inj,
  arith, inl, inr, ◌↔◌,
}
use general_execution.Canonical.{Hash}
use general_execution.Canonical.Order.{str_le_antisymm}
use general_execution.Models.{
  ExecutionSpec, spec_id, spec_digest, RunnerCapabilities, RunnerRegistry, runner_digest, runner_eq,
  registry_digest, ExecutionMode, is_valid_mode, DispatchPlan, DeferralReason, check_plan,
}
use general_execution.Planner.{key_le, compatible_runners, plan_for, plan_execution, verify_plan}
use general_execution.Planner.Choice.{Chosen, plan_execution-Chosen, verify_plan_iff}

-- A plan gives a reason exactly if it names no runner.
abbrev pub reason_for : Option String → Option DeferralReason
reason_for none = some DeferralReason.no_compatible_runner
reason_for (some id) = none

module _ ⦃h : Hash⦄ where
  key_le_antisymm :
      (r q : RunnerCapabilities)
      → key_le r q ≡ true
      → key_le q r ≡ true
      → (r.runner_id ≡ q.runner_id) × (runner_digest r ≡ runner_digest q)
  unfolding key_le
  key_le_antisymm r q a b = ground (
    arith,
    str_le_antisymm r.runner_id q.runner_id,
    str_le_antisymm (runner_digest r) (runner_digest q),
  )

  same_plan :
      (q p : DispatchPlan)
      → q.mode ≡ p.mode
      → q.spec_id ≡ p.spec_id
      → q.spec_digest ≡ p.spec_digest
      → q.registry_digest ≡ p.registry_digest
      → (q.runner_id ≡ p.runner_id) × (q.runner_capability_digest ≡ p.runner_capability_digest)
      → q.deferral_reason ≡ p.deferral_reason
      → q ≡ p
  same_plan q p a b c d e f = cc

  -- There is one choice.
  Chosen-unique :
      (spec : ExecutionSpec) (g : RunnerRegistry) (m : ExecutionMode) (p q : DispatchPlan)
      → Chosen spec g m p
      → Chosen spec g m q
      → (p.runner_id ≡ q.runner_id) × (p.runner_capability_digest ≡ q.runner_capability_digest)
  Chosen-unique spec g m p q (inl a) (inl b) = (a.0 ∙ sym b.0, a.1 ∙ sym b.1)
  Chosen-unique spec g m p q (inl a) (inr b) = absurd (ground (arith, a.2 b.0 b.3, b))
  Chosen-unique spec g m p q (inr a) (inl b) = absurd (ground (arith, b.2 a.0 a.3, a))
  Chosen-unique spec g m p q (inr a) (inr b) =
      let same = key_le_antisymm a.0 b.0 (a.5 b.0 b.3 b.4) (b.5 a.0 a.3 a.4) in
      (a.1 ∙ ap some same.0 ∙ sym b.1, a.2 ∙ ap some same.1 ∙ sym b.2)

  plan_for-reason :
      (spec : ExecutionSpec) (g : RunnerRegistry) (m : ExecutionMode) (rs : List RunnerCapabilities)
      → (plan_for spec g m rs).deferral_reason ≡ reason_for (plan_for spec g m rs).runner_id
  unfolding plan_for
  plan_for-reason spec g m [] = refl
  plan_for-reason spec g m (r ∷ rs) = refl

  check_plan-same :
      (p q : DispatchPlan) → check_plan p ≡ ok q → (p ≡ q) × (is_valid_mode q.mode ≡ true)
  unfolding check_plan
  check_plan-same p q e = ground arith

  -- The plan that is made has a valid mode, and a reason exactly if it names no runner.
  plan_execution-reason :
      (spec : ExecutionSpec) (g : RunnerRegistry) (m : ExecutionMode) (p : DispatchPlan)
      → plan_execution spec g m ≡ ok p
      → (is_valid_mode p.mode ≡ true) × (p.deferral_reason ≡ reason_for p.runner_id)
  unfolding plan_execution
  plan_execution-reason spec g m p e =
      let rs = compatible_runners spec g m in
      let (same, valid) = check_plan-same (plan_for spec g m rs) p e in
      (
        valid,
        subst (λ q. q.deferral_reason ≡ reason_for q.runner_id) same (plan_for-reason spec g m rs),
      )

  -- A plan verifies exactly if its mode is valid, it holds the identity of the specification and of
  -- the registry, it names a least compatible runner with its digest, or none where none is
  -- compatible, and it gives a reason exactly if it names none.
  pub verify_plan-Chosen :
      (spec : ExecutionSpec) (g : RunnerRegistry) (p : DispatchPlan)
      → (verify_plan spec g p ≡ ok true) ↔ (
          (is_valid_mode p.mode ≡ true)
          × (p.spec_id ≡ spec_id spec)
          × (p.spec_digest ≡ spec_digest spec)
          × (p.registry_digest ≡ registry_digest g)
          × (p.deferral_reason ≡ reason_for p.runner_id)
          × Chosen spec g p.mode p)
  verify_plan-Chosen spec g p = (sound, complete)
    where
      sound :
          verify_plan spec g p ≡ ok true
          → (is_valid_mode p.mode ≡ true)
            × (p.spec_id ≡ spec_id spec)
            × (p.spec_digest ≡ spec_digest spec)
            × (p.registry_digest ≡ registry_digest g)
            × (p.deferral_reason ≡ reason_for p.runner_id)
            × Chosen spec g p.mode p
      sound v =
          let planned = (verify_plan_iff spec g p).0 v in
          let (valid, reason) = plan_execution-reason spec g p.mode p planned in
          let (q, made, _, id, digest, registry, chosen) =
            plan_execution-Chosen spec g p.mode valid in
          let same : q ≡ p = ok_inj q p (sym made ∙ planned) in
          (
            valid,
            subst (λ x. x.spec_id ≡ spec_id spec) same id,
            subst (λ x. x.spec_digest ≡ spec_digest spec) same digest,
            subst (λ x. x.registry_digest ≡ registry_digest g) same registry,
            reason,
            subst (λ x. Chosen spec g p.mode x) same chosen,
          )

      complete :
          (is_valid_mode p.mode ≡ true)
            × (p.spec_id ≡ spec_id spec)
            × (p.spec_digest ≡ spec_digest spec)
            × (p.registry_digest ≡ registry_digest g)
            × (p.deferral_reason ≡ reason_for p.runner_id)
            × Chosen spec g p.mode p
          → verify_plan spec g p ≡ ok true
      complete (valid, id, digest, registry, reason, chosen) =
          let (q, made, mode, id', digest', registry', chosen') =
            plan_execution-Chosen spec g p.mode valid in
          let (_, reason') = plan_execution-reason spec g p.mode q made in
          let same = Chosen-unique spec g p.mode q p chosen' chosen in
          (verify_plan_iff spec g p).1 (
            made
            ∙ ap ok (
                same_plan q p mode (id' ∙ sym id) (digest' ∙ sym digest) (registry' ∙ sym registry)
                  same (reason' ∙ ap reason_for same.0 ∙ sym reason)))
