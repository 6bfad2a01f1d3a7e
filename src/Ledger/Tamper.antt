-- ===== src/Ledger/Tamper.antt =====
-- What the chain of hashes promises: the head fixes every event of a verified ledger but for the
-- `schema_version` it carries, unless the digest was broken.
use general_execution.Prelude.{
  ℕ, suc, ◌+◌, String, ◌≡◌, refl, true, List, [], ◌∷◌, length, arith, ap, ◌∙◌, ◌⊎◌, inl, inr,
  ℕ_discrete, sym,
}
use general_execution.Canonical.{
  Value, Hash, Collision, sha256_digest, same_digest, normalize, insert_field, str_le,
}
use general_execution.Ledger.{
  LedgerEvent, ExecutionLedger, genesis, head, head_from, event_value, event_hash, verify_from,
  verify_ledger,
}

-- The same event, its payload up to its canonical form. Its `schema_version` is left open: the hash
-- holds the literal, and the verification does not read the field.
pub record SameEvent (e f : LedgerEvent) : Type 0 where
  pub same_index : e.index ≡ f.index
  pub same_type : e.event_type ≡ f.event_type
  pub same_previous : e.previous_hash ≡ f.previous_hash
  pub same_payload : normalize e.payload ≡ normalize f.payload
  pub same_hash : e.event_hash ≡ f.event_hash

abbrev pub SameEvents : List LedgerEvent → List LedgerEvent → Type 0
SameEvents [] [] = Unit
SameEvents [] (f ∷ fs) = ⊥
SameEvents (e ∷ es) [] = ⊥
SameEvents (e ∷ es) (f ∷ fs) = SameEvent e f × SameEvents es fs

-- The fields of an event can be read off its canonical form.
event_value_inj :
    (i j : ℕ) (t u p q : String) (v w : Value)
    → normalize (event_value i t p v) ≡ normalize (event_value j u q w)
    → (i ≡ j) × (t ≡ u) × (p ≡ q) × (normalize v ≡ normalize w)
unfolding normalize insert_field str_le ℕ_discrete
event_value_inj i j t u p q v w e = (cc, cc, cc, cc)

module _ ⦃h : Hash⦄ where
  -- Somebody found two values with one digest, or a value with the digest of nothing.
  abbrev pub Broken : Type 0
  Broken = Collision ⊎ ((v : Value) × (sha256_digest v ≡ genesis))

  event_hash_inj :
      (i j : ℕ) (t u p q : String) (v w : Value)
      → event_hash i t p v ≡ event_hash j u q w
      → ((i ≡ j) × (t ≡ u) × (p ≡ q) × (normalize v ≡ normalize w)) ⊎ Broken
  unfolding event_hash
  event_hash_inj i j t u p q v w e = elim (same_digest _ _ e) [
    | inl same ↦ inl (event_value_inj i j t u p q v w same)
    | inr broken ↦ inr (inl broken)
  ]

  -- A verified event holds its place and the hash of its own content.
  verify_from_head :
      (i : ℕ) (p : String) (e : LedgerEvent) (es : List LedgerEvent)
      → verify_from i p (e ∷ es) ≡ true
      → (e.index ≡ i)
        × (e.previous_hash ≡ p)
        × (e.event_hash ≡ event_hash e.index e.event_type e.previous_hash e.payload)
        × (verify_from (suc i) e.event_hash es ≡ true)
  unfolding verify_from
  verify_from_head i p e es v = ground arith

  -- The head is the hash of an event that knows how many came before it.
  head_from_last :
      (i : ℕ) (p : String) (e : LedgerEvent) (es : List LedgerEvent)
      → verify_from i p (e ∷ es) ≡ true
      → (t : String) × (q : String) × (v : Value) × (head_from p (e ∷ es)
          ≡ event_hash (i + length es) t q v)
  unfolding head_from
  head_from_last i p e [] v =
      let facts = verify_from_head i p e [] v in
      (e.event_type, e.previous_hash, e.payload, ground (arith, facts))
  head_from_last i p e (f ∷ es) v =
      let (t, q, w, eq) =
        head_from_last (suc i) e.event_hash f es (verify_from_head i p e (f ∷ es) v).3 in
      (t, q, w, eq ∙ ap (λ n. event_hash n t q w) (omega arith))

  -- Two verified stretches of one length that end in one hash begin at one hash and are the same.
  stretch :
      (i : ℕ) (p q : String) (es fs : List LedgerEvent)
      → length es ≡ length fs
      → verify_from i p es ≡ true
      → verify_from i q fs ≡ true
      → head_from p es ≡ head_from q fs
      → ((p ≡ q) × SameEvents es fs) ⊎ Broken
  unfolding head_from
  stretch i p q [] [] n v w e = inl (e, tt)
  stretch i p q [] (f ∷ fs) n v w e = absurd (omega (arith, n))
  stretch i p q (x ∷ es) [] n v w e = absurd (omega (arith, n))
  stretch i p q (x ∷ es) (f ∷ fs) n v w e =
      let a = verify_from_head i p x es v in
      let b = verify_from_head i q f fs w in
      elim (stretch (suc i) x.event_hash f.event_hash es fs (omega arith) a.3 b.3 e) [
        | inr broken ↦ inr broken
        | inl (same, rest) ↦
            elim (event_hash_inj x.index f.index x.event_type f.event_type x.previous_hash
              f.previous_hash x.payload f.payload (sym a.2 ∙ same ∙ b.2)) [
                | inr broken ↦ inr broken
                | inl (si, st, sp, sv) ↦ inl (
                  sym a.1 ∙ sp ∙ b.1,
                  (
                    record {
                      same_index = si;
                      same_type = st;
                      same_previous = sp;
                      same_payload = sv;
                      same_hash = same;
                    },
                    rest,
                  ),
                )
              ]
      ]

  -- Ledgers that end in one hash are of one length.
  same_length :
      (es fs : List LedgerEvent)
      → verify_from 0 genesis es ≡ true
      → verify_from 0 genesis fs ≡ true
      → head_from genesis es ≡ head_from genesis fs
      → (length es ≡ length fs) ⊎ Broken
  unfolding head_from event_hash
  same_length [] [] v w e = inl refl
  same_length [] (f ∷ fs) v w e =
      let (t, q, u, eq) = head_from_last 0 genesis f fs w in
      inr (inr (event_value (0 + length fs) t q u, sym eq ∙ sym e))
  same_length (x ∷ es) [] v w e =
      let (t, q, u, eq) = head_from_last 0 genesis x es v in
      inr (inr (event_value (0 + length es) t q u, sym eq ∙ e))
  same_length (x ∷ es) (f ∷ fs) v w e =
      let (t, q, u, eq) = head_from_last 0 genesis x es v in
      let (t', q', u', eq') = head_from_last 0 genesis f fs w in
      elim (event_hash_inj (0 + length es) (0 + length fs) t t' q q' u u' (sym eq ∙ e ∙ eq')) [
        | inr broken ↦ inr broken
        | inl same ↦ inl (omega (arith, same.0))
      ]

  -- Two verified ledgers with one head have as many events, which agree in index, type, hashes and
  -- the canonical form of the payload, though not in the `schema_version` that they carry; or else
  -- there are two values with one digest, or one with the digest `genesis`.
  pub head_fixes_events :
      (l m : ExecutionLedger)
      → verify_ledger l ≡ true
      → verify_ledger m ≡ true
      → head l ≡ head m
      → SameEvents l.events m.events ⊎ Broken
  unfolding verify_ledger head
  head_fixes_events l m v w e = elim (same_length l.events m.events v w e) [
    | inr broken ↦ inr broken
    | inl n ↦ elim (stretch 0 genesis genesis l.events m.events n v w e) [
      | inr broken ↦ inr broken
      | inl (_, same) ↦ inl same
    ]
  ]
