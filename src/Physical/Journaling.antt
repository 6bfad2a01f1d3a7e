-- ===== src/Physical/Journaling.antt =====
-- A physical attempt that is written to the ledger is found there, and is written once (physical.py).
use general_execution.Prelude.{
  ◌+◌, String, ◌≡◌, refl, ap, ◌∙◌, sym, true, false, ◌||◌, Bool-cases, List, [], ◌∷◌, ◌++◌, length,
  take, drop, drop-append, length-append, any, contains, Option, none, some, ok, err, arith,
  string_eq, nat_eq, option_eq, ◌⊎◌, inl, inr, physical_error, type_error, ℕ_discrete,
}
use mathlib.Core.List.{append-nil, append_assoc}
use general_execution.Prelude.Text.{is_blank}
use general_execution.Canonical.{Hash, Value, str, value_eq}
use general_execution.Models.{ResultEnvelope}
use general_execution.Ledger.{
  LedgerEvent, ExecutionLedger, head, head_from, genesis, append_event, next_event, verify_ledger,
}
use general_execution.Ledger.Append.{append_event-verifies}
use general_execution.Physical.{
  PhysicalOutcomeBundle, PhysicalAttemptRecord, authorization_digest, authorization_id,
  outcome_digest, physical_payloads, terminal_payload, dispatch_recorded, append_all,
  record_physical_attempt, last_hash, verify_physical_attempt_record,
}
use general_execution.Physical.RecordedDigests.{
  contents, length-contents, same_payloads_of, recorded_digests-cases, recorded_after,
}

head_from-append :
    (p : String) (xs ys : List LedgerEvent) → head_from p (xs ++ ys) ≡ head_from (head_from p xs) ys
unfolding head_from
head_from-append p [] ys = refl
head_from-append p (x ∷ xs) ys = head_from-append x.event_hash xs ys

last_hash-head_from :
    (p : String) (e : LedgerEvent) (es : List LedgerEvent)
    → last_hash (e ∷ es) ≡ some (head_from p (e ∷ es))
unfolding last_hash head_from
last_hash-head_from p e [] = refl
last_hash-head_from p e (f ∷ es) = last_hash-head_from e.event_hash f es

-- Four events are all that `take 4` keeps, and the last of them has the hash that is the head.
four :
    (xs : List LedgerEvent)
    → length xs ≡ 4
    → (take 4 xs ≡ xs) × ((p : String) → last_hash xs ≡ some (head_from p xs))
four [] e = absurd (omega (arith, e))
four (a ∷ []) e = absurd (omega (arith, e))
four (a ∷ b ∷ []) e = absurd (omega (arith, e))
four (a ∷ b ∷ c ∷ []) e = absurd (omega (arith, e))
four (a ∷ b ∷ c ∷ d ∷ []) e = (refl, λ p. last_hash-head_from p a (b ∷ c ∷ d ∷ []))
four (a ∷ b ∷ c ∷ d ∷ f ∷ xs) e = absurd (omega (arith, e))

module _ ⦃h : Hash⦄ where
  -- One event that is not blank is appended, with its type and payload.
  append_one :
      (l : ExecutionLedger) (t : String) (v : Value)
      → verify_ledger l ≡ true
      → is_blank t ≡ false
      → (m : ExecutionLedger) × (append_event l t v ≡ ok m)
        × (verify_ledger m ≡ true)
        × (m.events ≡ l.events ++ next_event l t v ∷ [])
  append_one l t v ok_l nb = elim (append_event-verifies l t v ok_l) [
    | inl (blank, _) ↦ absurd (ground (arith, blank, nb))
    | inr (_, m, made, ok_m, added, _) ↦ (m, made, ok_m, added)
  ]

  -- Events with types that are not blank can be appended one after the other.
  append_all-verifies :
      (l : ExecutionLedger) (ps : List (String × Value))
      → verify_ledger l ≡ true
      → any (λ p. is_blank p.0) ps ≡ false
      → (m : ExecutionLedger) × (es : List LedgerEvent) × (append_all l ps ≡ ok m)
        × (verify_ledger m ≡ true)
        × (m.events ≡ l.events ++ es)
        × (contents es ≡ ps)
  unfolding append_all next_event
  append_all-verifies l [] ok_l nb = (l, [], refl, ok_l, sym (append-nil l.events), refl)
  append_all-verifies l ((t, v) ∷ ps) ok_l nb =
      let (m, made, ok_m, added) = append_one l t v ok_l (ground arith) in
      let (k, es, made', ok_k, added', same) = append_all-verifies m ps ok_m (ground arith) in
      (
        k,
        next_event l t v ∷ es,
        rw (made, append_all) made',
        ok_k,
        added' ∙ ap (λ xs. xs ++ es) added ∙ append_assoc l.events (next_event l t v ∷ []) es,
        ap (λ x. (t, v) ∷ x) same,
      )

  length-physical_payloads : (b : PhysicalOutcomeBundle) → length (physical_payloads b) ≡ 4
  unfolding physical_payloads
  length-physical_payloads b = refl

  payloads_not_blank :
      (b : PhysicalOutcomeBundle) → any (λ p. is_blank p.0) (physical_payloads b) ≡ false
  unfolding physical_payloads terminal_payload is_blank ℕ_discrete
  payloads_not_blank b = go b.result
    where
      go :
          (r : Option ResultEnvelope)
          → ((is_blank (terminal_payload b.receipt r).0) || false) ≡ false
      go none = refl
      go (some e) = refl

  -- The record that `record_physical_attempt` returns.
  abbrev record_for :
      ExecutionLedger → PhysicalOutcomeBundle → ExecutionLedger → PhysicalAttemptRecord
  record_for l b m = record {
    authorization_id = authorization_id b.authorization;
    outcome_digest = outcome_digest b;
    first_event_index = length l.events;
    last_event_index = length l.events + 3;
    recorded_head = head m;
  }

  record_for-verifies :
      (l : ExecutionLedger) (b : PhysicalOutcomeBundle) (m : ExecutionLedger)
      (es : List LedgerEvent)
      → verify_ledger m ≡ true
      → m.events ≡ l.events ++ es
      → contents es ≡ physical_payloads b
      → verify_physical_attempt_record m b (record_for l b m) ≡ true
  unfolding verify_physical_attempt_record head
  record_for-verifies l b m es ok_m added same =
      rw actual (ground (arith, last, longer, same_payloads_of es _ same))
    where
      len : length es ≡ 4
      len = sym (length-contents es) ∙ ap length same ∙ length-physical_payloads b

      actual : take 4 (drop (length l.events) m.events) ≡ es
      actual =
          ap (λ xs. take 4 (drop (length l.events) xs)) added
          ∙ ap (take 4) (drop-append l.events es)
          ∙ (four es len).0

      last : last_hash es ≡ some (head_from genesis m.events)
      last =
          (four es len).1 (head_from genesis l.events)
          ∙ ap some (sym (ap (head_from genesis) added ∙ head_from-append genesis l.events es))

      longer : length m.events ≡ length l.events + 4
      longer = omega (arith, ap length added, length-append l.events es, len)

  -- Recording an outcome in a verified ledger has one of three results. Where a recorded dispatch
  -- names an authorization by a value without a hash, `TypeError` is raised. Where a dispatch of this
  -- authorization is recorded, it is refused. Otherwise the outcome is written, as events with its
  -- types and payloads behind the old ones, to a ledger that verifies, in which the returned record
  -- verifies, and to which the same outcome cannot be written again.
  pub record_physical_attempt-verifies :
      (l : ExecutionLedger) (b : PhysicalOutcomeBundle)
      → verify_ledger l ≡ true
      → ((dispatch_recorded (authorization_digest b.authorization) l.events
            ≡ err (type_error "unhashable type"))
          × (record_physical_attempt l b ≡ err (type_error "unhashable type")))
        ⊎ ((dispatch_recorded (authorization_digest b.authorization) l.events ≡ ok true)
            × (record_physical_attempt l b
                ≡ err (physical_error "physical authorization is already recorded")))
        ⊎ ((dispatch_recorded (authorization_digest b.authorization) l.events ≡ ok false)
            × (m : ExecutionLedger) × (r : PhysicalAttemptRecord) × (es : List LedgerEvent)
            × (record_physical_attempt l b ≡ ok (m, r))
            × (m.events ≡ l.events ++ es)
            × (contents es ≡ physical_payloads b)
            × (verify_ledger m ≡ true)
            × (verify_physical_attempt_record m b r ≡ true)
            × (record_physical_attempt m b
                ≡ err (physical_error "physical authorization is already recorded")))
  unfolding record_physical_attempt dispatch_recorded
  record_physical_attempt-verifies l b v = elim (recorded_digests-cases l.events) [
    | inl bad ↦ inl (rw bad refl, rw bad refl)
    | inr (ds, found) ↦
        elim (Bool-cases (contains (str (authorization_digest b.authorization)) ds)) [
          | inl old ↦ inr (inl (rw (found, old) refl, rw (found, old) refl))
          | inr new ↦
              let (m, es, made, ok_m, added, same) =
                append_all-verifies l (physical_payloads b) v (payloads_not_blank b) in
              let again = recorded_after l b m es ds added same found in
              inr (
                inr (
                  rw (found, new) refl,
                  m,
                  record_for l b m,
                  es,
                  rw (found, new, made) refl,
                  added,
                  same,
                  ok_m,
                  record_for-verifies l b m es ok_m added same,
                  rw (again, record_physical_attempt) refl,
                ))
        ]
  ]
