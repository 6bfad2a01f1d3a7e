-- ===== src/Physical/RecordedDigests.antt =====
-- Which authorizations a ledger records in the reading of `record_physical_attempt` of physical.py,
-- before and after an outcome is written.
use general_execution.Prelude.{
  String, ◌≡◌, refl, ap, ◌∙◌, sym, subst, true, Bool-cases, List, [], ◌∷◌, ◌++◌, length, any-append,
  map, Option, none, some, Result, ok, err, arith, string_eq, nat_eq, option_eq, ◌⊎◌, inl, inr,
  type_error, ◌>>=◌, >>=-ok, ◌==◌, if◌then◌else◌, ◌&&◌, String-discrete,
}
use mathlib.Core.List.{append_assoc}
use general_execution.Canonical.{Hash, Value, str, value_eq, get, get_field, is_hashable}
use general_execution.Models.{ResultEnvelope}
use general_execution.Ledger.{LedgerEvent, ExecutionLedger}
use general_execution.Physical.{
  PhysicalOutcomeBundle, authorization_digest, physical_payloads, terminal_payload,
  dispatch_payload, dispatch_recorded, recorded_digests, hashed, get_or_null, is_dict,
  same_payloads,
}

-- The types and payloads of the events.
abbrev pub contents : List LedgerEvent → List (String × Value)
contents = map (λ e. (e.event_type, e.payload))

pub length-contents : (es : List LedgerEvent) → length (contents es) ≡ length es
length-contents [] = refl
length-contents (e ∷ es) = omega (arith, length-contents es)

pub same_payloads-contents : (es : List LedgerEvent) → same_payloads es (contents es) ≡ true
unfolding same_payloads
same_payloads-contents [] = refl
same_payloads-contents (e ∷ es) = ground (arith, same_payloads-contents es)

pub same_payloads_of :
    (es : List LedgerEvent) (ps : List (String × Value))
    → contents es ≡ ps
    → same_payloads es ps ≡ true
same_payloads_of es ps e = subst (λ x. same_payloads es x ≡ true) e (same_payloads-contents es)

-- The digests that the types and payloads hold.
digests_of : List (String × Value) → Result (List Value)
unfolding get_or_null hashed
digests_of [] = ok []
digests_of ((event_type, payload) ∷ ps) =
    let rest = digests_of ps in
    let digest = get_or_null "authorization_digest" payload in
    let with_digest = hashed digest >>= λ d. rest >>= λ ds. ok (d ∷ ds) in
    if event_type == "PHYSICAL_DISPATCH" && is_dict payload then with_digest else rest

recorded_digests-contents : (es : List LedgerEvent) → recorded_digests es ≡ digests_of (contents es)
unfolding recorded_digests digests_of
recorded_digests-contents [] = refl
recorded_digests-contents (e ∷ es) = rw (recorded_digests-contents es) refl

hashed-cases : (v : Value) → (hashed v ≡ err (type_error "unhashable type")) ⊎ (hashed v ≡ ok v)
unfolding hashed
hashed-cases v = elim (Bool-cases (is_hashable v)) [
  | inl good ↦ inr (rw good refl)
  | inr bad ↦ inl (rw bad refl)
]

-- An event adds its digest to the set, adds none, or ends the loop.
recorded_digests-step :
    (e : LedgerEvent)
    → ((es : List LedgerEvent) → recorded_digests (e ∷ es) ≡ err (type_error "unhashable type"))
      ⊎ ((more : List Value) × ((es : List LedgerEvent)
            → recorded_digests (e ∷ es) ≡ (recorded_digests es >>= λ ds. ok (more ++ ds))))
unfolding recorded_digests
recorded_digests-step e =
    elim (Bool-cases (e.event_type == "PHYSICAL_DISPATCH" && is_dict e.payload)) [
      | inr other ↦ inr ([], λ es. rw other (sym (>>=-ok (recorded_digests es))))
      | inl here ↦ elim (hashed-cases (get_or_null "authorization_digest" e.payload)) [
        | inl bad ↦ inl (λ es. rw (here, bad) refl)
        | inr good ↦
            inr (get_or_null "authorization_digest" e.payload ∷ [], λ es. rw (here, good) refl)
      ]
    ]

no_digests : recorded_digests [] ≡ ok []
unfolding recorded_digests
no_digests = refl

-- The set is built, or one of its elements has no hash.
pub recorded_digests-cases :
    (es : List LedgerEvent)
    → (recorded_digests es ≡ err (type_error "unhashable type"))
      ⊎ ((ds : List Value) × (recorded_digests es ≡ ok ds))
recorded_digests-cases [] = inr ([], no_digests)
recorded_digests-cases (e ∷ es) = elim (recorded_digests-step e) [
  | inl bad ↦ inl (bad es)
  | inr (more, add) ↦ elim (recorded_digests-cases es) [
    | inl bad ↦ inl (add es ∙ rw bad refl)
    | inr (ds, made) ↦ inr (more ++ ds, add es ∙ rw made refl)
  ]
]

recorded_digests-append :
    (xs ys : List LedgerEvent) (ks : List Value)
    → recorded_digests ys ≡ ok ks
    → recorded_digests (xs ++ ys) ≡ (recorded_digests xs >>= λ ds. ok (ds ++ ks))
unfolding recorded_digests
recorded_digests-append [] ys ks f = f
recorded_digests-append (x ∷ xs) ys ks f = elim (recorded_digests-step x) [
  | inl bad ↦ bad (xs ++ ys) ∙ rw (bad xs) refl
  | inr (more, add) ↦
      add (xs ++ ys)
      ∙ rw (recorded_digests-append xs ys ks f, add xs)
          (elim (recorded_digests-cases xs) [
            | inl unhashable ↦ rw unhashable refl
            | inr (ds, made) ↦ rw made (sym (ap ok (append_assoc more ds ks)))
          ])
]

module _ ⦃h : Hash⦄ where
  digests_of-physical_payloads :
      (b : PhysicalOutcomeBundle)
      → digests_of (physical_payloads b) ≡ ok (str (authorization_digest b.authorization) ∷ [])
  unfolding digests_of physical_payloads dispatch_payload terminal_payload get_or_null get get_field
      hashed is_hashable String-discrete
  digests_of-physical_payloads b = go b.result
    where
      go :
          (r : Option ResultEnvelope)
          → digests_of (
              ("PHYSICAL_DISPATCH", dispatch_payload b.authorization)
              ∷ terminal_payload b.receipt r
              ∷ [])
            ≡ ok (str (authorization_digest b.authorization) ∷ [])
      go none = refl
      go (some e) = refl

  -- An outcome that was written behind a set of digests is found.
  pub recorded_after :
      (l : ExecutionLedger) (b : PhysicalOutcomeBundle) (m : ExecutionLedger)
      (es : List LedgerEvent) (ds : List Value)
      → m.events ≡ l.events ++ es
      → contents es ≡ physical_payloads b
      → recorded_digests l.events ≡ ok ds
      → dispatch_recorded (authorization_digest b.authorization) m.events ≡ ok true
  unfolding dispatch_recorded
  recorded_after l b m es ds added same old =
      let written =
        recorded_digests-contents es ∙ ap digests_of same ∙ digests_of-physical_payloads b in
      let own = str (authorization_digest b.authorization) in
      rw (added, recorded_digests-append l.events es _ written, old)
        (ap ok (ground (arith, any-append (λ x. x == own) ds (own ∷ []))))
