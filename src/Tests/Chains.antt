-- ===== src/Tests/Chains.antt =====
-- The theorems on canonical values and on the ledger at concrete values and ledgers.
use general_execution.Prelude.{
  String, String-discrete, ℕ_discrete, ◌≡◌, ◌↔◌, ◌⊎◌, refl, true, false, List, [], ◌∷◌, ◌++◌, ok,
  err, value_error,
}
use general_execution.Prelude.Text.{is_blank}
use general_execution.Canonical.{
  Value, num, str, null, obj, fields, normalize, sha256_digest, stable_id, canonical_json,
}
use general_execution.Canonical.Order.{swap}
use general_execution.Canonical.Form.{IsCanonical, normalize-IsCanonical}
use general_execution.Canonical.{digest-Reorder}
use general_execution.Ledger.{
  ExecutionLedger, ledger_of, head, head_from, event_hash, next_event, append_event, verify_from,
  verify_ledger,
}
use general_execution.Ledger.Append.{append_event-verifies}
use general_execution.Ledger.Tamper.{SameEvents, Broken, head_fixes_events}
use general_execution.Tests.Data.{toy, b-ne-a}

abbrev entries : List (String × Value)
entries = ("b", num 1) ∷ ("a", str "x") ∷ []

abbrev exchanged : List (String × Value)
exchanged = ("a", str "x") ∷ ("b", num 1) ∷ []

normalize-IsCanonical_example :
    IsCanonical (normalize (obj entries))
    × ((normalize (obj entries) ≡ obj entries) ↔ IsCanonical (obj entries))
normalize-IsCanonical_example = normalize-IsCanonical (obj entries)

digest-Reorder_example :
    (sha256_digest (obj entries) ≡ sha256_digest (obj exchanged))
    × (stable_id "ges" (obj entries) ≡ stable_id "ges" (obj exchanged))
digest-Reorder_example = digest-Reorder "ges" (swap "b" "a" (num 1) (str "x") (fields []) b-ne-a)

-- A ledger with one event.
abbrev one : ExecutionLedger
one = ledger_of (next_event (ledger_of []) "started" (num 7) ∷ [])

one-verifies : verify_ledger one ≡ true
unfolding verify_ledger verify_from next_event event_hash head head_from sha256_digest
    canonical_json String-discrete ℕ_discrete
one-verifies = refl

append_event-verifies_example :
    ((is_blank "ended" ≡ true)
      × (append_event one "ended" null ≡ err (value_error "event_type must be non-empty")))
    ⊎ ((is_blank "ended" ≡ false)
        × (m : ExecutionLedger) × (append_event one "ended" null ≡ ok m)
        × (verify_ledger m ≡ true)
        × (m.events ≡ one.events ++ next_event one "ended" null ∷ [])
        × (head m ≡ (next_event one "ended" null).event_hash))
append_event-verifies_example = append_event-verifies one "ended" null one-verifies

head_fixes_events_example : SameEvents one.events one.events ⊎ Broken
head_fixes_events_example = head_fixes_events one one one-verifies one-verifies refl
