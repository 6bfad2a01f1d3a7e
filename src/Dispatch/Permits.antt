-- ===== src/Dispatch/Permits.antt =====
-- What a permit and a recorded outcome of the outbox stand for.
use general_execution.Prelude.{
  ok_inj, ◌+◌, String, ◌&&◌, ◌≡◌, ◌≢◌, sym, ap, ap₂, ◌∙◌, Bool, true, false, not, ◌||◌, List, [],
  ◌∷◌, some, Result, ok, arith, ◌==◌, ◌!=◌, string_eq, nat_eq, option_eq, >>=-eq-ok, raise_if-eq-ok,
  select, contains, err,
}
use general_execution.Canonical.{Hash}
use general_execution.Models.{RunnerCapabilities, runner_digest}
use general_execution.Capacity.{
  CapacityLease, lease_eq, RunnerCapacityState, verify_capacity_state, active_leases, lease_id,
  lease_digest, matching,
}
use general_execution.Durable
use general_execution.Durable.{Json, HeadRow, DurableCapacityHead}
use general_execution.Dispatch.{
  DispatchIntent, prepared, submission_unknown, status_eq, DispatchIntentState, check_status,
  check_dispatch_state, dispatch_state_digest, intent_eq, dispatch_state_eq, intent_id, permit_eq,
  DispatchPermit, IntentRow, validate_intent, permit_for, check_permit, submission_state,
  verify_dispatch_permit, available, find_active_lease, only_lease, lease_intended, load_intent,
  commit_state, begin_submission,
}
use general_execution.Dispatch.Loading.{check_dispatch_state-same, load_intent-parts, WasChecked}
use general_execution.Dispatch.Once.{
  Step, committed, Steps, commit_state-parts, Steps-ReachedRevision, commit_state-ReachedRevision,
}

replied :
    (a a' : List IntentRow) (b b' : DispatchIntentState) (c c' : DispatchPermit)
    → ◌≡◌ {A = Result (List IntentRow × DispatchIntentState × DispatchPermit)}
        (ok (a, b, c))
        (ok (a', b', c'))
    → (a ≡ a') × (b ≡ b') × (c ≡ c')
replied a a' b b' c c' e = (cc, cc, cc)

module _ ⦃h : Hash⦄ ⦃j : Json⦄ where
  -- The calls that begin_submission makes.
  pub record IsBegun (table : List IntentRow) (heads : List HeadRow) (runner : RunnerCapabilities)
      (id expected : String) (table' : List IntentRow) (s : DispatchIntentState)
      (p : DispatchPermit) : Type 0 where
    pub current : DispatchIntentState
    pub capacity : RunnerCapacityState
    pub head : DurableCapacityHead
    pub lease : CapacityLease
    pub loaded : load_intent table id ≡ ok current
    pub digest : dispatch_state_digest current ≡ expected
    pub status : current.status ≡ prepared
    pub available_head : Durable.load heads runner ≡ ok (capacity, head)
    pub valid : validate_intent current.intent capacity runner ≡ ok lease
    pub made : submission_state current ≡ ok s
    pub commit : commit_state table current s ≡ ok (table', s)
    pub permit : permit_for s ≡ ok p

  pub available-ok : {A : Type 0} (m : Result A) {a : A} → available m ≡ ok a → m ≡ ok a
  unfolding available
  available-ok (ok a) e = e
  available-ok (err x) e = ground (arith, e)

  pub begin_submission-IsBegun :
      (table : List IntentRow) (heads : List HeadRow) (runner : RunnerCapabilities)
      (id expected : String) (table' : List IntentRow) (s : DispatchIntentState)
      (p : DispatchPermit)
      → begin_submission table heads runner id expected ≡ ok (table', s, p)
      → IsBegun table heads runner id expected table' s p
  unfolding begin_submission
  begin_submission-IsBegun table heads runner id expected table' s p e =
      let (current, loaded, e) = >>=-eq-ok (load_intent table id) _ e in
      let (digest, e) = raise_if-eq-ok (dispatch_state_digest current != expected) _ _ e in
      let (status, e) = raise_if-eq-ok (current.status != prepared) _ _ e in
      let (head, held, e) = >>=-eq-ok (available (Durable.load heads runner)) _ e in
      let (lease, valid, e) = >>=-eq-ok (validate_intent current.intent head.0 runner) _ e in
      let (new, made, e) = >>=-eq-ok (submission_state current) _ e in
      let (commit, kept, e) = >>=-eq-ok (commit_state table current new) _ e in
      let (permit, given, e) = >>=-eq-ok (permit_for commit.1) _ e in
      let (one, two, three) = replied commit.0 table' commit.1 s permit p e in
      let (row, found, read, intent, next, same, written) =
        commit_state-parts table current new commit.0 commit.1 kept in
      let entered : s ≡ new = sym two ∙ same in
      record {
        current = current;
        capacity = head.0;
        head = head.1;
        lease = lease;
        loaded = loaded;
        digest = ground (arith, digest);
        status = ground (arith, status);
        available_head = available-ok _ held;
        valid = valid;
        made = made ∙ ap ok (sym entered);
        commit = ap (commit_state table current) entered ∙ kept ∙ ap₂ (λ a b. ok (a, b)) one two;
        permit = ap permit_for (sym two) ∙ given ∙ ap ok three;
      }

  -- The status and the fields of the state that a submission enters.
  submission_state-parts :
      (current s : DispatchIntentState)
      → submission_state current ≡ ok s
      → (s.intent ≡ current.intent)
        × (s.status ≡ submission_unknown)
        × (s.previous_state_digest ≡ some (dispatch_state_digest current))
        × (s.revision ≡ 1)
  unfolding submission_state
  submission_state-parts current s e =
      let same = check_dispatch_state-same _ s e in ground (arith, same)

  pub only_lease-select :
      (test : CapacityLease → Bool) (ls : List CapacityLease) (l : CapacityLease)
      → only_lease (select test ls) ≡ ok l
      → (test l ≡ true) × (contains l ls ≡ true)
  only_lease-select test ls l e = go ls (one_of (select test ls) e)
    where
      one_of : (xs : List CapacityLease) → only_lease xs ≡ ok l → xs ≡ l ∷ []
      one_of [] e = cc
      one_of (x ∷ []) e = cc
      one_of (x ∷ y ∷ xs) e = cc

      go :
          (ls : List CapacityLease)
          → select test ls ≡ l ∷ []
          → (test l ≡ true) × (contains l ls ≡ true)
      go [] e = cc
      go (x ∷ ls) e = ground (arith, go ls, e)

  -- The beginning of a submission is a step of the outbox.
  pub begin_submission-Step :
      (table : List IntentRow) (heads : List HeadRow) (runner : RunnerCapabilities)
      (id expected : String) (table' : List IntentRow) (s : DispatchIntentState)
      (p : DispatchPermit)
      → begin_submission table heads runner id expected ≡ ok (table', s, p)
      → Step table table'
  begin_submission-Step table heads runner id expected table' s p e =
      let b = begin_submission-IsBegun table heads runner id expected table' s p e in
      committed b.current s b.commit

  -- What a valid intent says of the capacity it was validated against.
  validate_intent-parts :
      (i : DispatchIntent) (s : RunnerCapacityState) (runner : RunnerCapabilities)
      (l : CapacityLease)
      → validate_intent i s runner ≡ ok l
      → (contains l (active_leases s) ≡ true)
        × (lease_id l ≡ i.lease_id)
        × (lease_digest l ≡ i.lease_digest)
        × (lease_intended l i ≡ true)
        × (i.runner_id ≡ runner.runner_id)
        × (i.runner_capability_digest ≡ runner_digest runner)
  unfolding validate_intent find_active_lease matching
  validate_intent-parts i s runner l e =
      let (v, verified, e) = >>=-eq-ok (verify_capacity_state s runner) _ e in
      let (passed, e) = raise_if-eq-ok (not v) _ _ e in
      let (bound, e) =
        raise_if-eq-ok
          (i.runner_id != runner.runner_id || i.runner_capability_digest != runner_digest runner) _
          _ e in
      let (lease, found, e) = >>=-eq-ok (find_active_lease s i.lease_id i.lease_digest) _ e in
      let (intended, e) = raise_if-eq-ok (not (lease_intended lease i)) _ _ e in
      let one : lease ≡ l = ok_inj lease l e in
      let (held, among) =
        only_lease-select (λ x. lease_id x == i.lease_id && lease_digest x == i.lease_digest)
          (active_leases s) lease found in
      rw (sym one) (
        among,
        ground (arith, held),
        ground (arith, held),
        ground (arith, intended),
        ground (arith, bound),
        ground (arith, bound),
      )

  permit-verifies :
      (s : DispatchIntentState) (p : DispatchPermit)
      → permit_for s ≡ ok p
      → (verify_dispatch_permit s p ≡ ok true) × (p.transport_authority ≡ false)
  unfolding permit_for verify_dispatch_permit check_permit
  permit-verifies s p e = (ground (arith, e), ground (arith, e))

  -- A submission that begins was prepared, its intent still holds an active lease of the loaded
  -- capacity head for this runner, and its state becomes submission_unknown after that state. The
  -- permit verifies for the new state and grants no transport authority.
  pub begin_submission_bindings :
      (table : List IntentRow) (heads : List HeadRow) (runner : RunnerCapabilities)
      (id expected : String) (table' : List IntentRow) (s : DispatchIntentState)
      (p : DispatchPermit)
      → begin_submission table heads runner id expected ≡ ok (table', s, p)
      → (current : DispatchIntentState) × (capacity : RunnerCapacityState)
        × (head : DurableCapacityHead) × (lease : CapacityLease) × (load_intent table id
            ≡ ok current)
        × (current.status ≡ prepared)
        × (Durable.load heads runner ≡ ok (capacity, head))
        × (contains lease (active_leases capacity) ≡ true)
        × (lease_id lease ≡ current.intent.lease_id)
        × (lease_intended lease current.intent ≡ true)
        × (current.intent.runner_id ≡ runner.runner_id)
        × (s.intent ≡ current.intent)
        × (s.status ≡ submission_unknown)
        × (s.previous_state_digest ≡ some expected)
        × (verify_dispatch_permit s p ≡ ok true)
        × (p.transport_authority ≡ false)
  begin_submission_bindings table heads runner id expected table' s p e =
      let b = begin_submission-IsBegun table heads runner id expected table' s p e in
      let (among, same_id, same_digest, intended, same_runner, capable) =
        validate_intent-parts b.current.intent b.capacity runner b.lease b.valid in
      let (intent, status, previous, revision) = submission_state-parts b.current s b.made in
      let (verified, powerless) = permit-verifies s p b.permit in
      (
        b.current,
        b.capacity,
        b.head,
        b.lease,
        b.loaded,
        b.status,
        b.available_head,
        among,
        same_id,
        intended,
        same_runner,
        intent,
        status,
        previous ∙ ap some b.digest,
        verified,
        powerless,
      )

  -- The revision that a status stands at.
  pub prepared-revision :
      (s : DispatchIntentState) → WasChecked s → s.status ≡ prepared → s.revision ≡ 0
  unfolding check_dispatch_state check_status
  prepared-revision s c e = ground (arith, c, e)

  -- An intent is permitted to be submitted at most once: after a submission began, no submission
  -- of the same intent begins, for any runner and expected digest and whatever the capacity is
  -- by then, after any sequence of calls on the outbox.
  pub begin_submission-once :
      (t t' t'' t3 : List IntentRow) (heads heads' : List HeadRow)
      (runner runner' : RunnerCapabilities) (id expected expected' : String)
      (s s' : DispatchIntentState) (p p' : DispatchPermit)
      → begin_submission t heads runner id expected ≡ ok (t', s, p)
      → Steps t' t''
      → begin_submission t'' heads' runner' id expected' ≢ ok (t3, s', p')
  begin_submission-once t t' t'' t3 heads heads' runner runner' id expected expected' s s' p p' e w
        f =
      let b = begin_submission-IsBegun t heads runner id expected t' s p e in
      let c = begin_submission-IsBegun t'' heads' runner' id expected' t3 s' p' f in
      let (x, found, revision, named, checked) = load_intent-parts t id b.current b.loaded in
      let (y, found2, revision2, named2, checked2) = load_intent-parts t'' id c.current c.loaded in
      let (z, found3, le) =
        Steps-ReachedRevision (b.current.revision + 1) (intent_id b.current.intent) w
          (commit_state-ReachedRevision t b.current s t' s b.commit) in
      let first = prepared-revision c.current checked2 c.status in
      ground (arith, named, found2, found3, le, first, revision2)
