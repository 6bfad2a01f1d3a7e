-- ===== src/Ledger.antt =====
-- src/general_execution/ledger.py: the append-only chain of events, each bound to the one before.
pub mod Append
pub mod Tamper
use general_execution.Prelude.{
  ℕ, zero, suc, String, ◌≡◌, Bool, true, false, ◌||◌, List, [], ◌∷◌, ◌++◌, length, Result, ok, err,
  value_error, raise_if, ◌>>=◌, ◌>>◌, ◌!=◌, nat_eq, string_eq, if◌then◌else◌,
}
use general_execution.Prelude.Text.{is_blank}
use general_execution.Canonical.{Value, num, str, obj, Hash, sha256_digest}

abbrev pub genesis : String
genesis = "sha256:0000000000000000000000000000000000000000000000000000000000000000"

pub record LedgerEvent : Type 0 where
  pub index : ℕ
  pub event_type : String
  pub previous_hash : String
  pub payload : Value
  pub event_hash : String
  pub schema_version : String

pub record ExecutionLedger : Type 0 where
  pub events : List LedgerEvent
  pub schema_version : String

-- A ledger that is made of events alone has the default schema.
abbrev pub ledger_of : List LedgerEvent → ExecutionLedger
ledger_of events = record { events = events; schema_version = "ge.execution-ledger.v1" }

-- The hash of the last event, or what stands for it before the first.
unfoldable pub head_from : String → List LedgerEvent → String
head_from previous [] = previous
head_from previous (e ∷ es) = head_from e.event_hash es

unfoldable pub head : ExecutionLedger → String
unfolding head_from
head ledger = head_from genesis ledger.events

abbrev event_value : ℕ → String → String → Value → Value
event_value index event_type previous_hash payload = obj (
    ("schema_version", str "ge.ledger-event.v1")
    ∷ ("index", num index)
    ∷ ("event_type", str event_type)
    ∷ ("previous_hash", str previous_hash)
    ∷ ("payload", payload)
    ∷ [])

module _ ⦃h : Hash⦄ where
  unfoldable pub event_hash : ℕ → String → String → Value → String
  event_hash index event_type previous_hash payload =
      sha256_digest (event_value index event_type previous_hash payload)

  -- The event that `append_event` adds.
  unfoldable pub next_event : ExecutionLedger → String → Value → LedgerEvent
  next_event ledger event_type payload =
      let index = length ledger.events in
      let previous_hash = head ledger in
      record {
        index = index;
        event_type = event_type;
        previous_hash = previous_hash;
        payload = payload;
        event_hash = event_hash index event_type previous_hash payload;
        schema_version = "ge.ledger-event.v1";
      }

  unfoldable pub append_event : ExecutionLedger → String → Value → Result ExecutionLedger
  unfolding next_event
  append_event ledger event_type payload = do
    raise_if (is_blank event_type) (value_error "event_type must be non-empty")
    ok (ledger_of (ledger.events ++ next_event ledger event_type payload ∷ []))

  -- The loop of `verify_ledger`, from an index and the hash before it.
  unfoldable pub verify_from : ℕ → String → List LedgerEvent → Bool
  verify_from expected_index previous [] = true
  verify_from expected_index previous (e ∷ es) =
      if e.index != expected_index || e.previous_hash != previous
      then false
      else if e.event_hash != event_hash e.index e.event_type e.previous_hash e.payload
      then false
      else verify_from (suc expected_index) e.event_hash es

  unfoldable pub verify_ledger : ExecutionLedger → Bool
  unfolding verify_from
  verify_ledger ledger = verify_from 0 genesis ledger.events
