-- ===== src/Session/Lifecycle.antt =====
-- The states a session can go through, and what it keeps.
use general_execution.Prelude.{
  ℕ, ◌≡◌, ◌≢◌, ◌⊎◌, inl, inr, refl, true, String, Option, none, some, Result, ok, err, arith, not,
  List, [], ◌∷◌, ◌∙◌, sym, ◌∙◌, >>=-eq-ok, raise_if-eq-ok, not-eq-false, ◌<◌, Option-cases, subst,
  ap, ◌↔◌,
}
use mathlib.Core.List.{Memᴰ}
use general_execution.Canonical.{Hash}
use general_execution.Models.{
  ExecutionSpec, RunnerRegistry, DispatchPlan, ExecutionSession, bound, running, result_submitted,
  revoked, is_valid_mode, SessionState-discrete, check_session, session_id, ResultEnvelope,
  result_digest, spec_id, spec_digest, plan_id, plan_digest,
}
use general_execution.Planner.{plan_execution, verify_plan}
use general_execution.Planner.Choice.{verify_plan_iff}
use general_execution.Session.{
  bind_assigned, start_session, revoke_session, bind_session, submit_result,
}

pub data Call : Type 0 where
  start revoke : Call
  submit : ResultEnvelope → Call

-- What the checks of `ExecutionSession.__post_init__` ask for.
pub record IsValid (s : ExecutionSession) : Type 0 where
  pub counted : 0 < s.attempt
  pub mode_valid : is_valid_mode s.mode ≡ true
  pub result_state :
      ((s.state ≡ result_submitted) × ((d : String) × (s.result_digest ≡ some d)))
      ⊎ ((s.state ≢ result_submitted) × (s.result_digest ≡ none))

check_session-IsValid : (s t : ExecutionSession) → check_session s ≡ ok t → (t ≡ s) × IsValid s
unfolding check_session
check_session-IsValid s t e = elim (Option-cases s.result_digest) [
  | inl missing ↦ ground arith
  | inr (d, found) ↦ ground arith
]

module _ ⦃h : Hash⦄ where
  abbrev pub step : ExecutionSession → Call → Result ExecutionSession
  step s start = start_session s
  step s revoke = revoke_session s
  step s (submit r) = submit_result s r

  -- When a call is permitted.
  abbrev pub Permitted : ExecutionSession → Call → Type 0
  Permitted s start = s.state ≡ bound
  Permitted s revoke = (s.state ≡ bound) ⊎ (s.state ≡ running)
  Permitted s (submit r) =
      (s.state ≡ running)
      × (r.session_id ≡ session_id s)
      × (r.spec_id ≡ s.spec_id)
      × (r.spec_digest ≡ s.spec_digest)
      × (r.runner_id ≡ s.runner_id)
      × (r.attempt ≡ s.attempt)

  -- The session that a permitted call leaves.
  abbrev pub next : ExecutionSession → Call → ExecutionSession
  next s start = record s { state = running }
  next s revoke = record s { state = revoked }
  next s (submit r) = record s { state = result_submitted; result_digest = some (result_digest r) }

  -- On a valid session a call succeeds exactly if it is permitted, and then changes the state, and
  -- for a result its digest, and nothing else.
  pub step_iff :
      (s t : ExecutionSession) (c : Call)
      → IsValid s
      → (step s c ≡ ok t) ↔ (Permitted s c × (t ≡ next s c))
  unfolding start_session revoke_session submit_result check_session
  step_iff s t start v = ground arith
  step_iff s t revoke v = ground arith
  step_iff s t (submit r) v = ground arith

  next-IsValid : (s : ExecutionSession) (c : Call) → IsValid s → Permitted s c → IsValid (next s c)
  next-IsValid s start v p = ground arith
  next-IsValid s revoke v p = ground arith
  next-IsValid s (submit r) v p = record {
    counted = v.counted;
    mode_valid = v.mode_valid;
    result_state = inl (refl, (result_digest r, refl));
  }

  -- A call that fails leaves the session as it was.
  abbrev pub after : ExecutionSession → Result ExecutionSession → ExecutionSession
  after s (ok t) = t
  after s (err e) = s

  -- What no call changes.
  pub record SameIdentity (s t : ExecutionSession) : Type 0 where
    pub same_spec : t.spec_id ≡ s.spec_id
    pub same_spec_digest : t.spec_digest ≡ s.spec_digest
    pub same_plan : t.plan_id ≡ s.plan_id
    pub same_plan_digest : t.plan_digest ≡ s.plan_digest
    pub same_runner : t.runner_id ≡ s.runner_id
    pub same_capability : t.runner_capability_digest ≡ s.runner_capability_digest
    pub same_mode : t.mode ≡ s.mode
    pub same_attempt : t.attempt ≡ s.attempt
    pub same_session : session_id t ≡ session_id s

  next-SameIdentity : (s : ExecutionSession) (c : Call) → SameIdentity s (next s c)
  unfolding session_id
  next-SameIdentity s start = ground arith
  next-SameIdentity s revoke = ground arith
  next-SameIdentity s (submit r) = ground arith

  -- A property that permitted calls keep is kept by every call.
  after_cases {ℓ} :
      (P : ExecutionSession → Type ℓ) (s : ExecutionSession) (c : Call)
      → IsValid s
      → P s
      → (Permitted s c → P (next s c))
      → P (after s (step s c))
  after_cases P s c v failed done = go (step s c) refl
    where
      go : (r : Result ExecutionSession) → step s c ≡ r → P (after s r)
      go (ok t) e = let facts = (step_iff s t c v).0 e in subst P (sym facts.1) (done facts.0)
      go (err x) e = failed

  unfoldable pub run : ExecutionSession → List Call → ExecutionSession
  run s [] = s
  run s (c ∷ cs) = run (after s (step s c)) cs

  after-IsValid : (s : ExecutionSession) (c : Call) → IsValid s → IsValid (after s (step s c))
  after-IsValid s c v = after_cases IsValid s c v v (next-IsValid s c v)

  SameIdentity-refl : (s : ExecutionSession) → SameIdentity s s
  SameIdentity-refl s = ground arith

  SameIdentity-trans :
      (s t u : ExecutionSession) → SameIdentity s t → SameIdentity t u → SameIdentity s u
  SameIdentity-trans s t u p q = ground arith

  after-SameIdentity :
      (s : ExecutionSession) (c : Call) → IsValid s → SameIdentity s (after s (step s c))
  after-SameIdentity s c v =
      after_cases (SameIdentity s) s c v (SameIdentity-refl s) (λ _. next-SameIdentity s c)

  -- Whatever calls a valid session receives, it stays valid and keeps its identity: specification,
  -- plan, runner, mode, attempt and session id.
  pub run-SameIdentity :
      (s : ExecutionSession) (cs : List Call)
      → IsValid s
      → IsValid (run s cs) × SameIdentity s (run s cs)
  unfolding run
  run-SameIdentity s [] v = (v, SameIdentity-refl s)
  run-SameIdentity s (c ∷ cs) v =
      let t = after s (step s c) in
      let rest = run-SameIdentity t cs (after-IsValid s c v) in
      (rest.0, SameIdentity-trans s t (run t cs) (after-SameIdentity s c v) rest.1)

  abbrev pub Ended : ExecutionSession → Type 0
  Ended s = (s.state ≡ revoked) ⊎ (s.state ≡ result_submitted)

  not-Permitted : (s : ExecutionSession) (c : Call) → Ended s → ¬ Permitted s c
  not-Permitted s start e p = ground arith
  not-Permitted s revoke e p = ground arith
  not-Permitted s (submit r) e p = ground arith

  -- A session that is revoked or has its result is never changed again.
  pub run-Ended : (s : ExecutionSession) (cs : List Call) → IsValid s → Ended s → run s cs ≡ s
  unfolding run
  run-Ended s [] v e = refl
  run-Ended s (c ∷ cs) v e =
      ap (λ t. run t cs) (after_cases (λ t. t ≡ s) s c v refl (λ p. absurd (not-Permitted s c e p)))
      ∙ run-Ended s cs v e

  -- The result names the session, its specification, runner and attempt.
  abbrev pub NamedBy : ExecutionSession → ResultEnvelope → Type 0
  NamedBy s r =
      (r.session_id ≡ session_id s)
      × (r.spec_id ≡ s.spec_id)
      × (r.spec_digest ≡ s.spec_digest)
      × (r.runner_id ≡ s.runner_id)
      × (r.attempt ≡ s.attempt)

  NamedBy-SameIdentity :
      (s t : ExecutionSession) (r : ResultEnvelope) → SameIdentity s t → NamedBy t r → NamedBy s r
  NamedBy-SameIdentity s t r i n = ground arith

  -- One of the calls hands in a result that names the session and has the digest.
  abbrev pub ResultOf : ExecutionSession → List Call → Option String → Type 0
  ResultOf s cs d =
      (r : ResultEnvelope) × Memᴰ (submit r) cs × NamedBy s r × (d ≡ some (result_digest r))

  next-ResultOf :
      (s : ExecutionSession) (c : Call) (cs : List Call)
      → Permitted s c
      → (next s c).state ≡ result_submitted
      → ResultOf s (c ∷ cs) (next s c).result_digest
  next-ResultOf s start cs p e = cc
  next-ResultOf s revoke cs p e = cc
  next-ResultOf s (submit r) cs p e = (r, Memᴰ.head refl, (p.1, p.2, p.3, p.4, p.5), refl)

  -- A session that received its result got it from one of the calls, which named the session, its
  -- specification, runner and attempt; the session carries the digest of that result.
  pub run-ResultOf :
      (s : ExecutionSession) (cs : List Call)
      → IsValid s
      → s.state ≢ result_submitted
      → (run s cs).state ≡ result_submitted
      → ResultOf s cs (run s cs).result_digest
  unfolding run
  run-ResultOf s [] v ne e = absurd (ne e)
  run-ResultOf s (c ∷ cs) v ne e =
      let t = after s (step s c) in
      let w = after-IsValid s c v in
      elim (SessionState-discrete t.state result_submitted) [
        | yes here ↦
            subst (λ u. ResultOf s (c ∷ cs) u.result_digest) (sym (run-Ended t cs w (inr here)))
              (after_cases (λ u. u.state ≡ result_submitted → ResultOf s (c ∷ cs) u.result_digest) s
                c v (λ k. absurd (ne k)) (next-ResultOf s c cs) here)
        | no later ↦
            let (r, m, named, d) = run-ResultOf t cs w later e in
            (r, Memᴰ.tail m, NamedBy-SameIdentity s t r (after-SameIdentity s c v) named, d)
      ]

  bind_assigned_bindings :
      (spec : ExecutionSpec) (p : DispatchPlan) (n : ℕ) (a b : Option String) (s : ExecutionSession)
      → bind_assigned spec p n a b ≡ ok s
      → IsValid s
        × (s.state ≡ bound)
        × (s.spec_id ≡ spec_id spec)
        × (s.spec_digest ≡ spec_digest spec)
        × (s.plan_id ≡ plan_id p)
        × (s.plan_digest ≡ plan_digest p)
        × (a ≡ some s.runner_id)
        × (b ≡ some s.runner_capability_digest)
        × (s.mode ≡ p.mode)
        × (s.attempt ≡ n)
  unfolding bind_assigned
  bind_assigned_bindings spec p n (some r) (some d) s e =
      let (same, valid) = check_session-IsValid _ s e in
      rw same (valid, refl, refl, refl, refl, refl, refl, refl, refl, refl)
  bind_assigned_bindings spec p n (some r) none s e = cc
  bind_assigned_bindings spec p n none b s e = cc

  -- A session is bound only to a plan that planning reproduces and that names a runner. It is
  -- valid, waits to start, and carries the ids and digests of the specification, the plan and the
  -- runner's capabilities, the plan's mode and the attempt asked for.
  pub bind_session_bindings :
      (spec : ExecutionSpec) (g : RunnerRegistry) (p : DispatchPlan) (n : ℕ) (s : ExecutionSession)
      → bind_session spec g p n ≡ ok s
      → (plan_execution spec g p.mode ≡ ok p)
        × IsValid s
        × (s.state ≡ bound)
        × (s.spec_id ≡ spec_id spec)
        × (s.spec_digest ≡ spec_digest spec)
        × (s.plan_id ≡ plan_id p)
        × (s.plan_digest ≡ plan_digest p)
        × (p.runner_id ≡ some s.runner_id)
        × (p.runner_capability_digest ≡ some s.runner_capability_digest)
        × (s.mode ≡ p.mode)
        × (s.attempt ≡ n)
  unfolding bind_session
  bind_session_bindings spec g p n s e =
      let (v, eq, rest) = >>=-eq-ok (verify_plan spec g p) _ e in
      let (verified, done) = raise_if-eq-ok (not v) _ _ rest in
      let planned = (verify_plan_iff spec g p).0 (eq ∙ ap ok (not-eq-false v verified)) in
      let b = bind_assigned_bindings spec p n _ _ s done in
      (planned, b.0, b.1, b.2, b.3, b.4, b.5, b.6, b.7, b.8, b.9)
