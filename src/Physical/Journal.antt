-- ===== src/Physical/Journal.antt =====
-- Writing a physical attempt to the ledger, and finding it there, in physical.py.
use general_execution.Prelude.{
  ℕ, ◌+◌, String, Bool, true, false, ◌&&◌, not, List, [], ◌∷◌, length, take, drop, contains, Option,
  none, some, Result, ok, physical_error, type_error, raise_if, ◌>>=◌, ◌>>◌, ◌==◌, string_eq,
  nat_eq, option_eq, ltb, if◌then◌else◌,
}
use general_execution.Canonical.{
  Value, null, str, num, dict, opt, obj, value_eq, get, comparable, is_hashable, Hash,
  sha256_digest,
}
use general_execution.Models.{ResultEnvelope, result_to_dict, result_digest}
use general_execution.Ledger.{LedgerEvent, ExecutionLedger, head, append_event, verify_ledger}
use general_execution.Physical.Records.{
  transport_text, PhysicalAttemptAuthorization, authorization_value, observation_value,
  receipt_value, PhysicalOutcomeBundle, authorization_digest, authorization_id, observation_digest,
  receipt_digest, outcome_digest, PhysicalReceipt,
}
use general_execution.Physical.Verify.{DuplicatePhysicalAttempt}

pub record PhysicalAttemptRecord : Type 0 where
  pub authorization_id : String
  pub outcome_digest : String
  pub first_event_index : ℕ
  pub last_event_index : ℕ
  pub recorded_head : String

unfoldable pub duplicate_value : DuplicatePhysicalAttempt → Value
duplicate_value d = obj (
    ("authorization_id", str d.authorization_id)
    ∷ ("invocation_id", str d.invocation_id)
    ∷ ("request_digest", str d.request_digest)
    ∷ ("physical_attempt", num d.physical_attempt)
    ∷ ("canonical_observation_digest", str d.canonical_observation_digest)
    ∷ ("duplicate_observation_digest", str d.duplicate_observation_digest)
    ∷ ("canonical_provider_invocation_id", str d.canonical_provider_invocation_id)
    ∷ ("duplicate_provider_invocation_id", str d.duplicate_provider_invocation_id)
    ∷ ("schema_version", str "ge.duplicate-physical-attempt.v1")
    ∷ [])

-- The events have these types and payloads, in order.
unfoldable pub same_payloads : List LedgerEvent → List (String × Value) → Bool
same_payloads [] [] = true
same_payloads [] (p ∷ ps) = false
same_payloads (e ∷ es) [] = false
same_payloads (e ∷ es) ((event_type, payload) ∷ ps) =
    e.event_type == event_type && comparable e.payload == comparable payload && same_payloads es ps

-- The hash of the last event of a list, if there is one.
unfoldable pub last_hash : List LedgerEvent → Option String
last_hash [] = none
last_hash (e ∷ []) = some e.event_hash
last_hash (e ∷ f ∷ es) = last_hash (f ∷ es)

-- `payload.get(key)` of a mapping.
unfoldable pub get_or_null : String → Value → Value
unfolding get
get_or_null key payload = elim (get key payload) [ none ↦ null | some v ↦ v ]

abbrev pub is_dict : Value → Bool
is_dict (dict r) = true
is_dict _ = false

-- An element of a set is hashed. Python raises a `TypeError` on one that has no hash; the text of that
-- error depends on Python's version.
unfoldable pub hashed : Value → Result Value
unfolding is_hashable
hashed v = raise_if (not (is_hashable v)) (type_error "unhashable type") >> ok v

-- The set `existing` of `record_physical_attempt`, built from the first event on.
unfoldable pub recorded_digests : List LedgerEvent → Result (List Value)
unfolding get_or_null hashed
recorded_digests [] = ok []
recorded_digests (e ∷ es) =
    let rest = recorded_digests es in
    let digest = get_or_null "authorization_digest" e.payload in
    let with_digest = hashed digest >>= λ d. rest >>= λ ds. ok (d ∷ ds) in
    if e.event_type == "PHYSICAL_DISPATCH" && is_dict e.payload then with_digest else rest

-- The ledger holds a dispatch of the authorization with this digest.
unfoldable pub dispatch_recorded : String → List LedgerEvent → Result Bool
unfolding recorded_digests
dispatch_recorded digest events =
    recorded_digests events >>= λ existing. ok (contains (str digest) existing)

module _ ⦃h : Hash⦄ where
  -- `PHYSICAL_RESULT` or `PHYSICAL_TERMINAL_FAILURE`, with its payload.
  unfoldable pub terminal_payload : PhysicalReceipt → Option ResultEnvelope → String × Value
  terminal_payload r none = (
    "PHYSICAL_TERMINAL_FAILURE",
    obj (
        ("transport_status", str (transport_text r.transport_status))
        ∷ ("failure_code", opt str r.failure_code)
        ∷ ("receipt_digest", str (receipt_digest r))
        ∷ []),
  )
  terminal_payload r (some e) = (
    "PHYSICAL_RESULT",
    obj (("result", result_to_dict e) ∷ ("result_digest", str (result_digest e)) ∷ []),
  )

  unfoldable pub dispatch_payload : PhysicalAttemptAuthorization → Value
  dispatch_payload a = obj (
      ("authorization", authorization_value a)
      ∷ ("authorization_digest", str (authorization_digest a))
      ∷ [])

  unfoldable pub physical_payloads : PhysicalOutcomeBundle → List (String × Value)
  physical_payloads b =
      ("PHYSICAL_DISPATCH", dispatch_payload b.authorization)
      ∷ (
        "PHYSICAL_OBSERVATION",
        obj (
            ("observation", observation_value b.observation)
            ∷ ("observation_digest", str (observation_digest b.observation))
            ∷ []),
      )
      ∷ (
        "PHYSICAL_RECEIPT",
        obj (
            ("receipt", receipt_value b.receipt)
            ∷ ("receipt_digest", str (receipt_digest b.receipt))
            ∷ []),
      )
      ∷ terminal_payload b.receipt b.result
      ∷ []

  unfoldable pub append_all : ExecutionLedger → List (String × Value) → Result ExecutionLedger
  append_all ledger [] = ok ledger
  append_all ledger ((event_type, payload) ∷ r) =
      append_event ledger event_type payload >>= λ l. append_all l r

  unfoldable pub record_physical_attempt :
      ExecutionLedger → PhysicalOutcomeBundle → Result (ExecutionLedger × PhysicalAttemptRecord)
  record_physical_attempt ledger b = do
    recorded ← dispatch_recorded (authorization_digest b.authorization) ledger.events
    raise_if recorded (physical_error "physical authorization is already recorded")
    let first = length ledger.events
    current ← append_all ledger (physical_payloads b)
    ok (
      current,
      record {
        authorization_id = authorization_id b.authorization;
        outcome_digest = outcome_digest b;
        first_event_index = first;
        last_event_index = first + 3;
        recorded_head = head current;
      },
    )

  unfoldable pub verify_physical_attempt_record :
      ExecutionLedger → PhysicalOutcomeBundle → PhysicalAttemptRecord → Bool
  verify_physical_attempt_record ledger b r =
      let actual = take 4 (drop r.first_event_index ledger.events) in
      verify_ledger ledger
      && r.authorization_id == authorization_id b.authorization
      && r.outcome_digest == outcome_digest b
      && r.last_event_index == r.first_event_index + 3
      && ltb r.last_event_index (length ledger.events)
      && same_payloads actual (physical_payloads b)
      && last_hash actual == some r.recorded_head

  unfoldable pub record_duplicate_physical_attempt :
      ExecutionLedger → DuplicatePhysicalAttempt → Result ExecutionLedger
  unfolding duplicate_value
  record_duplicate_physical_attempt ledger d = append_event ledger "DUPLICATE_PHYSICAL_ATTEMPT" (
      obj (
        ("duplicate", duplicate_value d)
        ∷ ("duplicate_digest", str (sha256_digest (duplicate_value d)))
        ∷ []))
