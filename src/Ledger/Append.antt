-- ===== src/Ledger/Append.antt =====
-- What `append_event` promises: it extends the chain by one event and keeps it verified.
use general_execution.Prelude.{
  ℕ, suc, ◌+◌, String, ◌≡◌, refl, true, false, List, [], ◌∷◌, ◌++◌, length, ok, err, arith,
  value_error, ◌⊎◌, inl, inr, Bool-cases,
}
use general_execution.Prelude.Text.{is_blank}
use general_execution.Canonical.{Value, Hash}
use general_execution.Ledger.{
  LedgerEvent, ExecutionLedger, genesis, head, head_from, event_hash, next_event, append_event,
  ledger_of, verify_from, verify_ledger,
}

head_from-append :
    (p : String) (es : List LedgerEvent) (e : LedgerEvent)
    → head_from p (es ++ e ∷ []) ≡ e.event_hash
unfolding head_from
head_from-append p [] e = refl
head_from-append p (x ∷ es) e = head_from-append x.event_hash es e

module _ ⦃h : Hash⦄ where
  verify_from-append :
      (i : ℕ) (p : String) (es : List LedgerEvent) (e : LedgerEvent)
      → verify_from i p es ≡ true
      → e.index ≡ i + length es
      → e.previous_hash ≡ head_from p es
      → e.event_hash ≡ event_hash e.index e.event_type e.previous_hash e.payload
      → verify_from i p (es ++ e ∷ []) ≡ true
  unfolding verify_from head_from
  verify_from-append i p [] e v hi hp hh = ground arith
  verify_from-append i p (x ∷ es) e v hi hp hh =
      ground (arith, verify_from-append (suc i) x.event_hash es e)

  -- To a verified ledger, every event with a type that is not blank can be appended: the new ledger
  -- verifies, keeps the old events, ends in the new one and has its hash as its head. A blank type
  -- is refused.
  pub append_event-verifies :
      (l : ExecutionLedger) (t : String) (p : Value)
      → verify_ledger l ≡ true
      → ((is_blank t ≡ true)
          × (append_event l t p ≡ err (value_error "event_type must be non-empty")))
        ⊎ ((is_blank t ≡ false)
            × (m : ExecutionLedger) × (append_event l t p ≡ ok m)
            × (verify_ledger m ≡ true)
            × (m.events ≡ l.events ++ next_event l t p ∷ [])
            × (head m ≡ (next_event l t p).event_hash))
  unfolding append_event verify_ledger head
  append_event-verifies l t p v = elim (Bool-cases (is_blank t)) [
    | inl blank ↦ inl (blank, rw blank)
    | inr filled ↦ inr (
      filled,
      ledger_of (l.events ++ e ∷ []),
      rw filled,
      verify_from-append 0 genesis l.events e v (omega arith) refl refl,
      refl,
      head_from-append genesis l.events e,
    )
  ]
    where
      e : LedgerEvent
      e = next_event l t p
