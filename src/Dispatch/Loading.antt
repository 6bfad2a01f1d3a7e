-- ===== src/Dispatch/Loading.antt =====
-- The rows of the outbox: how they are found, updated and read.
use general_execution.Prelude.{
  ok_inj, ℕ, ◌≤◌, String, ◌≡◌, sym, subst, Bool, true, not, List, [], ◌∷◌, ◌++◌, Option, none, some,
  ok, arith, string_eq, nat_eq, option_eq, >>=-eq-ok, raise_if-eq-ok, rewrap-eq-ok, if◌then◌else◌,
}
use general_execution.Canonical.{
  Value, dict, Hash, Fields, only_keys, read_text, read_number, read_optional_text, has_schema,
  get_field,
}
use general_execution.Durable.{Json}
use general_execution.Dispatch.{
  DispatchIntent, status_eq, DispatchIntentState, check_dispatch_state, intent_eq,
  dispatch_state_eq, intent_id, IntentRow, select_intent, update_intents, row_matches,
  intent_or_raise, intent_from_dict, read_dispatch_state, dispatch_state_from_dict,
  deserialize_dispatch_state, parsed_state, decode_intent_row, load_intent,
}

pub found_intent : (o : Option IntentRow) {x : IntentRow} → intent_or_raise o ≡ ok x → o ≡ some x
found_intent none e = cc
found_intent (some y) e = cc

-- The row of an intent is there and at least at a revision.
abbrev pub ReachedRevision : ℕ → String → List IntentRow → Type 0
ReachedRevision n id table = (x : IntentRow) × (select_intent id table ≡ some x) × (n ≤ x.revision)

pub select_intent-update :
    (id : String) (test : IntentRow → Bool) (change : IntentRow → IntentRow) (rows : List IntentRow)
    (y : IntentRow)
    → ((x : IntentRow) → (change x).intent_id ≡ x.intent_id)
    → select_intent id rows ≡ some y
    → select_intent id (update_intents test change rows).0 ≡ some (if test y then change y else y)
unfolding select_intent update_intents
select_intent-update id test change [] y k e = cc
select_intent-update id test change (x ∷ rows) y k e =
    ground (arith, select_intent-update id test change rows y k, k x, e)

pub update-ReachedRevision :
    (n : ℕ) (id : String) (test : IntentRow → Bool) (change : IntentRow → IntentRow)
    (rows : List IntentRow)
    → ((x : IntentRow) → (change x).intent_id ≡ x.intent_id)
    → ((x : IntentRow) → test x ≡ true → x.revision ≤ (change x).revision)
    → ReachedRevision n id rows
    → ReachedRevision n id (update_intents test change rows).0
update-ReachedRevision n id test change rows k up (y, e, le) = (
  if test y then change y else y,
  select_intent-update id test change rows y k e,
  ground (arith, up y, le),
)

pub select_intent-append :
    (id : String) (rows more : List IntentRow) (y : IntentRow)
    → select_intent id rows ≡ some y
    → select_intent id (rows ++ more) ≡ some y
unfolding select_intent
select_intent-append id [] more y e = cc
select_intent-append id (x ∷ rows) more y e = ground (arith, select_intent-append id rows more y, e)

pub check_dispatch_state-same : (s u : DispatchIntentState) → check_dispatch_state s ≡ ok u → u ≡ s
unfolding check_dispatch_state
check_dispatch_state-same s u e = ground arith

pub select_intent-id :
    (id : String) (rows : List IntentRow) (x : IntentRow)
    → select_intent id rows ≡ some x
    → x.intent_id ≡ id
unfolding select_intent
select_intent-id id [] x e = cc
select_intent-id id (y ∷ rows) x e = ground (arith, select_intent-id id rows x, e)

abbrev state_keys : List String
state_keys =
    "intent" ∷ "status" ∷ "revision" ∷ "previous_state_digest" ∷ "provider_invocation_id"
    ∷ "observation_digest" ∷ "receipt_digest" ∷ "outcome_digest" ∷ "transport_status"
    ∷ "schema_version" ∷ []

abbrev pub WasChecked : DispatchIntentState → Type 0
WasChecked s = check_dispatch_state s ≡ ok s

made_checked :
    (s u : DispatchIntentState) → check_dispatch_state s ≡ ok u → check_dispatch_state u ≡ ok u
made_checked s u e =
    subst (λ x. check_dispatch_state x ≡ ok u) (sym (check_dispatch_state-same s u e)) e

module _ ⦃h : Hash⦄ ⦃j : Json⦄ where
  -- A state whose row decodes has the row's revision, and passed its checks.
  pub decoded :
      (row : IntentRow) (s : DispatchIntentState)
      → decode_intent_row row ≡ ok s
      → (row.revision ≡ s.revision)
  unfolding decode_intent_row row_matches
  decoded row s e = ground (arith, e)

  -- What is read from the text of a row passed its checks.
  pub read_dispatch_state-checked :
      (i : DispatchIntent) (r : Fields) (s : DispatchIntentState)
      → read_dispatch_state i r ≡ ok s
      → WasChecked s
  unfolding read_dispatch_state
  read_dispatch_state-checked i r s e =
      let (u, known, e) = >>=-eq-ok (only_keys state_keys r) _ e in
      let (x0, e0, e) = >>=-eq-ok (read_text "status" r) _ e in
      let (x1, e1, e) = >>=-eq-ok (read_number "revision" r) _ e in
      let (x2, e2, e) = >>=-eq-ok (read_optional_text "previous_state_digest" r) _ e in
      let (x3, e3, e) = >>=-eq-ok (read_optional_text "provider_invocation_id" r) _ e in
      let (x4, e4, e) = >>=-eq-ok (read_optional_text "observation_digest" r) _ e in
      let (x5, e5, e) = >>=-eq-ok (read_optional_text "receipt_digest" r) _ e in
      let (x6, e6, e) = >>=-eq-ok (read_optional_text "outcome_digest" r) _ e in
      let (x7, e7, e) = >>=-eq-ok (read_optional_text "transport_status" r) _ e in
      made_checked _ s e

  pub dispatch_state_from_dict-checked :
      (v : Value) (s : DispatchIntentState) → dispatch_state_from_dict v ≡ ok s → WasChecked s
  unfolding dispatch_state_from_dict
  dispatch_state_from_dict-checked (dict r) s e =
      let (schema, e) = raise_if-eq-ok (not (has_schema "ge.dispatch-intent-state.v1" r)) _ _ e in
      let (i, read, e) = >>=-eq-ok (intent_from_dict (get_field "intent" r)) _ e in
      read_dispatch_state-checked i r s (rewrap-eq-ok (read_dispatch_state i r) _ e)
  dispatch_state_from_dict-checked _ s e = cc

  pub deserialize_dispatch_state-checked :
      (text : String) (s : DispatchIntentState)
      → deserialize_dispatch_state text ≡ ok s
      → WasChecked s
  unfolding deserialize_dispatch_state
  deserialize_dispatch_state-checked text s e = go (j.loads text) e
    where
      go : (o : Option Value) → parsed_state o ≡ ok s → WasChecked s
      go none e = cc
      go (some v) e = dispatch_state_from_dict-checked v s e

  -- A loaded intent has the id that it was loaded by and passed its checks, and its row is at its
  -- revision.
  pub load_intent-parts :
      (table : List IntentRow) (id : String) (s : DispatchIntentState)
      → load_intent table id ≡ ok s
      → (x : IntentRow) × (select_intent id table ≡ some x)
        × (x.revision ≡ s.revision)
        × (intent_id s.intent ≡ id)
        × WasChecked s
  unfolding load_intent decode_intent_row row_matches
  load_intent-parts table id s e =
      let (row, found, e) = >>=-eq-ok (intent_or_raise (select_intent id table)) _ e in
      let (u, read, e) = >>=-eq-ok (deserialize_dispatch_state row.state_json) _ e in
      let (matched, e) = raise_if-eq-ok (not (row_matches row u)) _ _ e in
      let held = found_intent _ found in
      let named = select_intent-id id table row held in
      let one : u ≡ s = ok_inj u s e in
      (
        row,
        held,
        ground (arith, matched, one),
        ground (arith, matched, one, named),
        subst WasChecked one (deserialize_dispatch_state-checked row.state_json u read),
      )
