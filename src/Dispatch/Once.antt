-- ===== src/Dispatch/Once.antt =====
-- An intent is submitted at most once, whatever happens between two attempts.
use general_execution.Prelude.{
  ℕ, ◌+◌, String, ◌≡◌, ◌≢◌, refl, ◌||◌, List, [], ◌∷◌, Option, none, some, ok, arith, ◌!=◌,
  string_eq, nat_eq, option_eq, >>=-eq-ok, raise_if-eq-ok, if◌then◌else◌,
}
use general_execution.Canonical.{Hash}
use general_execution.Durable.{Json}
use general_execution.Dispatch.{
  DispatchIntent, status_eq, DispatchIntentState, dispatch_state_digest, intent_eq,
  dispatch_state_eq, intent_id, IntentRow, select_intent, update_intents, row_matches, advance_row,
  intent_row, intent_or_raise, decode_intent_row, initial_dispatch_state, initialize_state,
  initialize_intent, commit_state,
}
use general_execution.Dispatch.Loading.{
  found_intent, ReachedRevision, select_intent-update, update-ReachedRevision, select_intent-append,
  decoded,
}

module _ ⦃h : Hash⦄ ⦃j : Json⦄ where
  -- What a commit of the outbox did that succeeded.
  pub commit_state-parts :
      (table : List IntentRow) (current new : DispatchIntentState) (table' : List IntentRow)
      (s : DispatchIntentState)
      → commit_state table current new ≡ ok (table', s)
      → (row : IntentRow) × (select_intent (intent_id current.intent) table ≡ some row)
        × (decode_intent_row row ≡ ok current)
        × (new.intent ≡ current.intent)
        × (new.revision ≡ current.revision + 1)
        × (s ≡ new)
        × (table' ≡ (update_intents (λ x. row_matches x current) (advance_row new) table).0)
  unfolding commit_state
  commit_state-parts table current new table' s e =
      let (kept, e) = raise_if-eq-ok (new.intent != current.intent) _ _ e in
      let (next, e) =
        raise_if-eq-ok
          (new.revision != current.revision + 1
            || new.previous_state_digest != some (dispatch_state_digest current))
          _ _ e in
      let (row, found, e) =
        >>=-eq-ok (intent_or_raise (select_intent (intent_id current.intent) table)) _ e in
      let (durable, read, e) = >>=-eq-ok (decode_intent_row row) _ e in
      let (fresh, e) = raise_if-eq-ok (durable != current) _ _ e in
      (
        row,
        found_intent _ found,
        ground (arith, read, fresh),
        ground (arith, kept),
        ground (arith, next),
        ground (arith, e),
        ground (arith, e),
      )

  -- A call on the outbox that changed the table: a new intent, or a commit, which both the
  -- beginning of a submission and the recording of an outcome end with.
  pub data Step : List IntentRow → List IntentRow → Type 0 where
    initialized :
        {t t' : List IntentRow} {s : DispatchIntentState} (i : DispatchIntent)
        → initialize_intent t i ≡ ok (t', s)
        → Step t t'
    committed :
        {t t' : List IntentRow} {s : DispatchIntentState} (current new : DispatchIntentState)
        → commit_state t current new ≡ ok (t', s)
        → Step t t'

  pub data Steps : List IntentRow → List IntentRow → Type 0 where
    done : {t : List IntentRow} → Steps t t
    then_step : {t u v : List IntentRow} → Steps t u → Step u v → Steps t v

  initialize_state-ReachedRevision :
      (n : ℕ) (id : String) (table : List IntentRow) (s : DispatchIntentState)
      (o : Option IntentRow) (table' : List IntentRow) (u : DispatchIntentState)
      → initialize_state table s o ≡ ok (table', u)
      → ReachedRevision n id table
      → ReachedRevision n id table'
  unfolding initialize_state
  initialize_state-ReachedRevision n id table s (some row) table' u e (y, found, le) =
      (y, ground (arith, e, found), le)
  initialize_state-ReachedRevision n id table s none table' u e (y, found, le) =
      (y, ground (arith, e, select_intent-append id table (intent_row s ∷ []) y found), le)

  Step-ReachedRevision :
      (n : ℕ) (id : String) {t t' : List IntentRow}
      → Step t t'
      → ReachedRevision n id t
      → ReachedRevision n id t'
  unfolding initialize_intent row_matches advance_row
  Step-ReachedRevision n id (initialized i e) reached =
      let (s, made, e) = >>=-eq-ok (initial_dispatch_state i) _ e in
      initialize_state-ReachedRevision n id _ s _ _ _ e reached
  Step-ReachedRevision n id {t} {t'} (committed {s = s} current new e) reached =
      let (row, found, read, kept, next, same, written) = commit_state-parts t current new t' s e in
      rw written (
        update-ReachedRevision n id (λ x. row_matches x current) (advance_row new) t (λ x. refl)
          (λ x m. ground (arith, m, next)) reached)

  pub Steps-ReachedRevision :
      (n : ℕ) (id : String) {t t' : List IntentRow}
      → Steps t t'
      → ReachedRevision n id t
      → ReachedRevision n id t'
  Steps-ReachedRevision n id done reached = reached
  Steps-ReachedRevision n id (then_step w s) reached =
      Step-ReachedRevision n id s (Steps-ReachedRevision n id w reached)

  -- A commit leaves the row of its intent at the revision of the new state.
  pub commit_state-ReachedRevision :
      (table : List IntentRow) (current new : DispatchIntentState) (table' : List IntentRow)
      (s : DispatchIntentState)
      → commit_state table current new ≡ ok (table', s)
      → ReachedRevision (current.revision + 1) (intent_id current.intent) table'
  unfolding decode_intent_row row_matches advance_row
  commit_state-ReachedRevision table current new table' s e =
      let (row, found, read, kept, next, same, written) =
        commit_state-parts table current new table' s e in
      (
        if row_matches row current then advance_row new row else row,
        rw written (
            select_intent-update (intent_id current.intent) (λ x. row_matches x current)
              (advance_row new) table row (λ x. refl) found),
        ground (arith, read, next),
      )

  -- A state of an intent that a commit left is left by no other commit, whatever calls on the
  -- outbox came between the two.
  pub commit_state-once :
      (t t' t'' t3 : List IntentRow) (current new other s u : DispatchIntentState)
      → commit_state t current new ≡ ok (t', s)
      → Steps t' t''
      → commit_state t'' current other ≢ ok (t3, u)
  commit_state-once t t' t'' t3 current new other s u e w f =
      let (x, found, le) =
        Steps-ReachedRevision (current.revision + 1) (intent_id current.intent) w
          (commit_state-ReachedRevision t current new t' s e) in
      let (row, found2, read, kept, next, same, written) =
        commit_state-parts t'' current other t3 u f in
      ground (arith, decoded row current read, found, found2, le)
