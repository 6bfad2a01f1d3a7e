-- ===== src/Capacity/Replay.antt =====
-- A state verifies exactly if it was reached from the runner's first state by transitions.
use general_execution.Prelude.{
  ◌≡◌, ◌↔◌, refl, ap, ◌∙◌, sym, subst, true, List, [], ◌∷◌, ◌++◌, Result, ok, err, arith, >>=-eq-ok,
  raise_if-eq-ok, >>=-ok, >>=_assoc, >>=_cong, ◌!=◌, string_eq, ◌>>=◌,
}
use general_execution.Canonical.{Hash}
use general_execution.Models.{RunnerCapabilities}
use general_execution.Capacity.{
  CapacityTransition, RunnerCapacityState, check_state, capacity_eq, state_digest,
  initialize_capacity_state, next_state, check_change, apply_transition, replay, replays_to,
  bound_to, replay_verifies, verify_capacity_state,
}

module _ ⦃h : Hash⦄ where
  -- The states that transitions reach from the first state of a runner.
  pub data Reachable (r : RunnerCapabilities) : RunnerCapacityState → Type 0 where
    start : {s : RunnerCapacityState} → initialize_capacity_state r ≡ ok s → Reachable r s
    step :
        (s : RunnerCapacityState) (t : CapacityTransition) {s' : RunnerCapacityState}
        → Reachable r s
        → apply_transition s t ≡ ok s'
        → Reachable r s'

  pub check_state-same : (s t : RunnerCapacityState) → check_state s ≡ ok t → t ≡ s
  unfolding check_state
  check_state-same s t e = ground arith

  -- A transition that is applied passed its guards and gave the next state.
  pub apply_transition-next :
      (s : RunnerCapacityState) (t : CapacityTransition) (s' : RunnerCapacityState)
      → apply_transition s t ≡ ok s'
      → (t.expected_state_digest ≡ state_digest s)
        × (check_change s t.change ≡ ok tt)
        × (s' ≡ next_state s t)
  unfolding apply_transition
  apply_transition-next s t s' e =
      let (fresh, rest) = raise_if-eq-ok (t.expected_state_digest != state_digest s) _ _ e in
      let (u, checked, rest2) = >>=-eq-ok (check_change s t.change) _ rest in
      (ground (arith, fresh), checked, check_state-same (next_state s t) s' rest2)

  ok_inj : (s u : RunnerCapacityState) → ok s ≡ ok u → s ≡ u
  ok_inj s u e = cc

  replay-nil : (s : RunnerCapacityState) → replay s [] ≡ ok s
  unfolding replay
  replay-nil s = refl

  replay-append :
      (s : RunnerCapacityState) (ts : List CapacityTransition) (t : CapacityTransition)
      → replay s (ts ++ t ∷ []) ≡ (replay s ts >>= λ s'. apply_transition s' t)
  unfolding replay
  replay-append s [] t = >>=-ok (apply_transition s t)
  replay-append s (x ∷ ts) t =
      >>=_cong (apply_transition s x) _ _ (λ s'. replay-append s' ts t)
      ∙ sym (>>=_assoc (apply_transition s x) (λ s'. replay s' ts) (λ s'. apply_transition s' t))

  replay-Reachable :
      (r : RunnerCapabilities) (s : RunnerCapacityState) (ts : List CapacityTransition)
      (u : RunnerCapacityState)
      → Reachable r s
      → replay s ts ≡ ok u
      → Reachable r u
  unfolding replay
  replay-Reachable r s [] u w e = subst (Reachable r) (ok_inj s u e) w
  replay-Reachable r s (t ∷ ts) u w e =
      let (s', made, rest) = >>=-eq-ok (apply_transition s t) _ e in
      replay-Reachable r s' ts u (step s t w made) rest

  -- What a reachable state keeps of its first state.
  pub record FromStart (r : RunnerCapabilities) (first s : RunnerCapacityState) : Type 0 where
    pub began : initialize_capacity_state r ≡ ok first
    pub bound : bound_to s r ≡ true
    pub replayed : replay first s.transitions ≡ ok s

  initial-FromStart :
      (r : RunnerCapabilities) (s : RunnerCapacityState)
      → initialize_capacity_state r ≡ ok s
      → FromStart r s s
  unfolding initialize_capacity_state bound_to
  initial-FromStart r s e =
      let same = check_state-same _ s e in
      record {
        began = e;
        bound = ground (arith, same);
        replayed =
            ap (replay s) (ap (λ (x : RunnerCapacityState). x.transitions) same) ∙ replay-nil s;
      }

  next-FromStart :
      (r : RunnerCapabilities) (first s : RunnerCapacityState) (t : CapacityTransition)
      (s' : RunnerCapacityState)
      → FromStart r first s
      → apply_transition s t ≡ ok s'
      → FromStart r first s'
  unfolding bound_to next_state
  next-FromStart r first s t s' f e =
      let same = (apply_transition-next s t s' e).2 in
      record {
        began = f.began;
        bound = ground (arith, same, f.bound);
        replayed =
            ap (replay first) (ap (λ (x : RunnerCapacityState). x.transitions) same)
            ∙ replay-append first s.transitions t
            ∙ ap (λ m. m >>= λ x. apply_transition x t) f.replayed
            ∙ e;
      }

  Reachable-FromStart :
      (r : RunnerCapabilities) {s : RunnerCapacityState}
      → Reachable r s
      → (first : RunnerCapacityState) × FromStart r first s
  Reachable-FromStart r {s} (start e) = (s, initial-FromStart r s e)
  Reachable-FromStart r (step s t {s' = s'} w e) =
      let (first, f) = Reachable-FromStart r w in (first, next-FromStart r first s t s' f e)

  replay_verifies-true :
      (s : RunnerCapacityState) (r : RunnerCapabilities)
      → replay_verifies s r ≡ ok true
      → (first : RunnerCapacityState) × (initialize_capacity_state r ≡ ok first)
        × (replay first s.transitions ≡ ok s)
  unfolding replay_verifies
  replay_verifies-true s r v =
      let (first, began, rest) = >>=-eq-ok (initialize_capacity_state r) _ v in
      (first, began, go (replay first s.transitions) (cc rest))
    where
      go : (m : Result RunnerCapacityState) → replays_to s m ≡ true → m ≡ ok s
      go (ok u) e = ground arith
      go (err x) e = cc

  true-replay_verifies :
      (s : RunnerCapacityState) (r : RunnerCapabilities) (first : RunnerCapacityState)
      → initialize_capacity_state r ≡ ok first
      → replay first s.transitions ≡ ok s
      → replay_verifies s r ≡ ok true
  unfolding replay_verifies
  true-replay_verifies s r first began replayed =
      rw (began, replay_verifies) (rw replayed (ground arith))

  -- A state verifies for a runner exactly if transitions reach it from the runner's first state.
  pub verify_capacity_state_iff :
      (s : RunnerCapacityState) (r : RunnerCapabilities)
      → (verify_capacity_state s r ≡ ok true) ↔ Reachable r s
  unfolding verify_capacity_state
  verify_capacity_state_iff s r = (sound, complete)
    where
      sound : verify_capacity_state s r ≡ ok true → Reachable r s
      sound v =
          let (first, began, replayed) = replay_verifies-true s r (ground (arith, v)) in
          replay-Reachable r first s.transitions s (start began) replayed

      complete : Reachable r s → verify_capacity_state s r ≡ ok true
      complete w =
          let (first, f) = Reachable-FromStart r w in
          rw (f.bound, verify_capacity_state) (true-replay_verifies s r first f.began f.replayed)

  -- A state that verifies names the runner and passes the checks of a state.
  pub verified-bound :
      (s : RunnerCapacityState) (r : RunnerCapabilities)
      → verify_capacity_state s r ≡ ok true
      → bound_to s r ≡ true
  unfolding verify_capacity_state
  verified-bound s r v = ground (arith, v)

  made-checked : (s u : RunnerCapacityState) → check_state s ≡ ok u → check_state u ≡ ok u
  made-checked s u e = subst (λ x. check_state x ≡ ok u) (sym (check_state-same s u e)) e

  Reachable-checked :
      (r : RunnerCapabilities) {s : RunnerCapacityState} → Reachable r s → check_state s ≡ ok s
  unfolding initialize_capacity_state apply_transition
  Reachable-checked r (start e) = made-checked _ _ e
  Reachable-checked r (step s t w e) =
      let (fresh, rest) = raise_if-eq-ok (t.expected_state_digest != state_digest s) _ _ e in
      let (u, checked, made) = >>=-eq-ok (check_change s t.change) _ rest in made-checked _ _ made

  pub verified-checked :
      (s : RunnerCapacityState) (r : RunnerCapabilities)
      → verify_capacity_state s r ≡ ok true
      → check_state s ≡ ok s
  verified-checked s r v = Reachable-checked r ((verify_capacity_state_iff s r).0 v)

  -- Of two verified states, one of which has the transitions of the other and one more, that one is
  -- made by its last transition.
  pub verified-last :
      (s u : RunnerCapacityState) (r : RunnerCapabilities) (t : CapacityTransition)
      → verify_capacity_state s r ≡ ok true
      → verify_capacity_state u r ≡ ok true
      → u.transitions ≡ s.transitions ++ t ∷ []
      → apply_transition s t ≡ ok u
  verified-last s u r t v w grown =
      let (first, f) = Reachable-FromStart r ((verify_capacity_state_iff s r).0 v) in
      let (first2, g) = Reachable-FromStart r ((verify_capacity_state_iff u r).0 w) in
      let one = ok_inj first first2 (sym f.began ∙ g.began) in
      sym (ap (λ m. m >>= λ x. apply_transition x t) f.replayed)
      ∙ sym (replay-append first s.transitions t)
      ∙ ap (replay first) (sym grown)
      ∙ ap (λ x. replay x u.transitions) one
      ∙ g.replayed
