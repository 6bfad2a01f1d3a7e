-- ===== src/Capacity/Invariant.antt =====
-- What holds of the leases of every state that verifies.
use general_execution.Prelude.{
  ℕ, ◌≤◌, ◌<◌, String, ◌≡◌, ap, ap₂, ◌∙◌, sym, subst, true, false, not, ◌||◌, List, [], ◌∷◌, ◌++◌,
  map, length, any, select, All, contains, length-append, select-append, length-select-le, ok,
  arith, ◌==◌, string_eq, nat_eq, >>=-eq-ok, raise_if-eq-ok, ◌!=◌,
}
use mathlib.Core.List.{append-nil, map-append}
use general_execution.Canonical.{Hash}
use general_execution.Models.{RunnerCapabilities}
use general_execution.Capacity.{
  CapacityLease, CapacityRelease, Change, reserve, release, CapacityTransition, RunnerCapacityState,
  lease_id, state_digest, initialize_capacity_state, leases_in, releases_in, active_in, leases,
  releases, active_leases, has_active, check_reserve, check_released, check_change, matching,
  the_one, next_state, verify_capacity_state, predecessor_released,
}
use general_execution.Capacity.Replay.{
  check_state-same, Reachable, start, step, apply_transition-next, verify_capacity_state_iff,
}
use general_execution.Capacity.Apart.{
  Apart, Apart-select, Apart-snoc, key_eq, session_key, has_active-session_key, All-select,
  All-snoc, not_known, select_twice, leases_in-append, releases_in-append, any-map, any-or-left,
  any-or-right, any-appended, the_one_exists, any-of-select,
}

module _ ⦃h : Hash⦄ where
  -- No more leases are active than the runner takes, all in slots of the runner, no two of them in
  -- one slot or for one session and attempt; no two leases, active or not, have one id or one
  -- authorization; a release is of a lease that was granted.
  pub record Sound (max_parallelism : ℕ) (active granted : List CapacityLease)
      (released : List CapacityRelease) : Type 0 where
    pub within : length active ≤ max_parallelism
    pub slots_below : All (λ l. l.slot < max_parallelism) active
    pub slots_apart : Apart (λ l. l.slot) active
    pub sessions_apart : Apart session_key active
    pub ids_apart : Apart lease_id granted
    pub authorizations_apart : Apart (λ l. l.authorization_digest) granted
    pub released_known : All (λ r. any (λ l. lease_id l == r.lease_id) granted ≡ true) released

  abbrev pub Inv : RunnerCapacityState → Type 0
  Inv s = Sound s.max_parallelism (active_leases s) (leases s) (releases s)

  still_known :
      (ls : List CapacityLease) (l : CapacityLease) (rs : List CapacityRelease)
      → All (λ r. any (λ x. lease_id x == r.lease_id) ls ≡ true) rs
      → All (λ r. any (λ x. lease_id x == r.lease_id) (ls ++ l ∷ []) ≡ true) rs
  still_known ls l [] a = tt
  still_known ls l (r ∷ rs) a =
      (any-appended (λ x. lease_id x == r.lease_id) ls (l ∷ []) a.0, still_known ls l rs a.1)

  -- The leases that are not among the released ids.
  abbrev live : List CapacityRelease → List CapacityLease → List CapacityLease
  live rs = select (λ l. not (contains (lease_id l) (map (λ r. r.lease_id) rs)))

  active_in-append :
      (ts : List CapacityTransition) (t : CapacityTransition)
      → active_in (ts ++ t ∷ [])
        ≡ live (releases_in ts ++ releases_in (t ∷ [])) (leases_in ts ++ leases_in (t ∷ []))
  unfolding active_in
  active_in-append ts t = ap₂ live (releases_in-append ts t) (leases_in-append ts t)

  active_in-reserve :
      (ts : List CapacityTransition) (d : String) (l : CapacityLease)
      → contains (lease_id l) (map (λ r. r.lease_id) (releases_in ts)) ≡ false
      → active_in (ts ++ record { expected_state_digest = d; change = reserve l } ∷ [])
        ≡ active_in ts ++ l ∷ []
  unfolding active_in leases_in releases_in
  active_in-reserve ts d l fresh =
      active_in-append ts (record { expected_state_digest = d; change = reserve l })
      ∙ ap (λ rs. live rs (leases_in ts ++ l ∷ [])) (append-nil (releases_in ts))
      ∙ select-append _ (leases_in ts) (l ∷ [])
      ∙ ap (λ xs. live (releases_in ts) (leases_in ts) ++ xs) (rw fresh)

  active_in-release :
      (ts : List CapacityTransition) (d : String) (r : CapacityRelease)
      → active_in (ts ++ record { expected_state_digest = d; change = release r } ∷ [])
        ≡ select (λ l. not (lease_id l == r.lease_id)) (active_in ts)
  unfolding active_in leases_in releases_in
  active_in-release ts d r =
      active_in-append ts (record { expected_state_digest = d; change = release r })
      ∙ ap (live (releases_in ts ++ r ∷ [])) (append-nil (leases_in ts))
      ∙ ap (λ ids. select (λ l. not (contains (lease_id l) ids)) (leases_in ts))
          (map-append (λ (x : CapacityRelease). x.lease_id) (releases_in ts) (r ∷ []))
      ∙ select_twice lease_id r.lease_id (map (λ x. x.lease_id) (releases_in ts)) (leases_in ts)

  -- What the guards of a reservation establish.
  check_reserve-facts :
      (s : RunnerCapacityState) (l : CapacityLease)
      → check_reserve s l ≡ ok tt
      → (l.slot < s.max_parallelism)
        × (length (active_leases s) < s.max_parallelism)
        × (contains l.slot (map (λ x. x.slot) (active_leases s)) ≡ false)
        × (any
              (λ x. lease_id x == lease_id l || x.authorization_digest == l.authorization_digest)
              (leases s)
            ≡ false)
        × (has_active l.session_id l.logical_attempt (active_leases s) ≡ false)
        × (predecessor_released
              (releases s)
              l.session_id
              l.logical_attempt
              l.physical_attempt
              l.previous_invocation_id
              l.previous_receipt_digest
            ≡ true)
  unfolding check_reserve
  check_reserve-facts s l e = ground arith

  reserve-Sound :
      (s : RunnerCapacityState) (l : CapacityLease)
      → check_reserve s l ≡ ok tt
      → Inv s
      → Sound s.max_parallelism (active_leases s ++ l ∷ []) (leases s ++ l ∷ []) (releases s)
  reserve-Sound s l e v =
      let (below, room, free, new, alone, rest) = check_reserve-facts s l e in
      record {
        within = omega (arith, room, length-append (active_leases s) (l ∷ []));
        slots_below = All-snoc _ (active_leases s) l v.slots_below below;
        slots_apart =
            Apart-snoc (λ x. x.slot) (active_leases s) l v.slots_apart
              (sym (any-map (λ n. n == l.slot) (λ x. x.slot) (active_leases s)) ∙ free);
        sessions_apart =
            Apart-snoc session_key (active_leases s) l v.sessions_apart
              (sym (has_active-session_key l (active_leases s)) ∙ alone);
        ids_apart = Apart-snoc lease_id (leases s) l v.ids_apart (any-or-left _ _ (leases s) new);
        authorizations_apart =
            Apart-snoc (λ x. x.authorization_digest) (leases s) l v.authorizations_apart
              (any-or-right _ _ (leases s) new);
        released_known = still_known (leases s) l (releases s) v.released_known;
      }

  reserve-Inv :
      (s : RunnerCapacityState) (d : String) (l : CapacityLease)
      → check_reserve s l ≡ ok tt
      → Inv s
      → Inv (next_state s (record { expected_state_digest = d; change = reserve l }))
  unfolding next_state leases_in releases_in
  reserve-Inv s d l e v =
      let (below, room, free, new, alone, rest) = check_reserve-facts s l e in
      let fresh =
        not_known (lease_id l) (λ id. any (λ x. lease_id x == id) (leases s)) (releases s)
          v.released_known (any-or-left _ _ (leases s) new) in
      let t : CapacityTransition = record { expected_state_digest = d; change = reserve l } in
      rw
        (
          active_in-reserve s.transitions d l fresh,
          leases_in-append s.transitions t,
          releases_in-append s.transitions t,
          append-nil (releases s),
        )
        (reserve-Sound s l e v)

  release-Sound :
      (s : RunnerCapacityState) (r : CapacityRelease)
      → any (λ x. lease_id x == r.lease_id) (leases s) ≡ true
      → Inv s
      → Sound s.max_parallelism
          (select (λ l. not (lease_id l == r.lease_id)) (active_leases s))
          (leases s)
          (releases s ++ r ∷ [])
  release-Sound s r known v = record {
    within =
        omega (
          arith,
          v.within,
          length-select-le (λ l. not (lease_id l == r.lease_id)) (active_leases s),
        );
    slots_below = All-select _ _ (active_leases s) v.slots_below;
    slots_apart = Apart-select {K = ℕ} (λ x. x.slot) _ (active_leases s) v.slots_apart;
    sessions_apart = Apart-select session_key _ (active_leases s) v.sessions_apart;
    ids_apart = v.ids_apart;
    authorizations_apart = v.authorizations_apart;
    released_known = All-snoc _ (releases s) r v.released_known known;
  }

  check_released-known :
      (s : RunnerCapacityState) (r : CapacityRelease)
      → check_released s r ≡ ok tt
      → any (λ x. lease_id x == r.lease_id) (leases s) ≡ true
  unfolding check_released matching active_in
  check_released-known s r e =
      let (u, rest) = raise_if-eq-ok (r.expected_state_digest != state_digest s) _ _ e in
      let (l, found, rest2) =
        >>=-eq-ok
          (the_one (matching s r.lease_id r.lease_digest)
            "release does not reference one active lease")
          _ rest in
      any-of-select _ _ (leases s) (the_one_exists _ _ (active_leases s) _ l found)

  release-Inv :
      (s : RunnerCapacityState) (d : String) (r : CapacityRelease)
      → check_released s r ≡ ok tt
      → Inv s
      → Inv (next_state s (record { expected_state_digest = d; change = release r }))
  unfolding next_state leases_in releases_in
  release-Inv s d r e v =
      let t : CapacityTransition = record { expected_state_digest = d; change = release r } in
      rw
        (
          active_in-release s.transitions d r,
          leases_in-append s.transitions t,
          releases_in-append s.transitions t,
          append-nil (leases s),
        )
        (release-Sound s r (check_released-known s r e) v)

  first-Inv :
      (r : RunnerCapabilities) (s : RunnerCapacityState)
      → initialize_capacity_state r ≡ ok s
      → Inv s
  unfolding initialize_capacity_state active_in leases_in releases_in
  first-Inv r s e = rw (check_state-same _ s e) (record {
    within = omega arith;
    slots_below = tt;
    slots_apart = tt;
    sessions_apart = tt;
    ids_apart = tt;
    authorizations_apart = tt;
    released_known = tt;
  })

  next-Inv :
      (s : RunnerCapacityState) (d : String) (c : Change)
      → check_change s c ≡ ok tt
      → Inv s
      → Inv (next_state s (record { expected_state_digest = d; change = c }))
  unfolding check_change
  next-Inv s d (reserve l) e v = reserve-Inv s d l e v
  next-Inv s d (release r) e v = release-Inv s d r e v

  Reachable-Inv : (r : RunnerCapabilities) {s : RunnerCapacityState} → Reachable r s → Inv s
  Reachable-Inv r (start e) = first-Inv r _ e
  Reachable-Inv r (step s t {s' = s'} w e) =
      let (fresh, checked, same) = apply_transition-next s t s' e in
      subst Inv (sym same) (next-Inv s t.expected_state_digest t.change checked (Reachable-Inv r w))

  -- A capacity state that verifies for a runner holds, in every one of its slots and for every
  -- session and attempt, at most one active lease, all of them below the runner's parallelism, and
  -- never granted two leases of one id or one authorization nor released a lease it did not grant.
  pub verify_capacity_state-Inv :
      (s : RunnerCapacityState) (r : RunnerCapabilities)
      → verify_capacity_state s r ≡ ok true
      → Inv s
  verify_capacity_state-Inv s r v = Reachable-Inv r ((verify_capacity_state_iff s r).0 v)
