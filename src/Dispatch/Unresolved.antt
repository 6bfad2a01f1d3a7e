-- ===== src/Dispatch/Unresolved.antt =====
-- No intent is forgotten by the recovery after a restart.
use mathlib.Core.List.{Memᴰ}
use general_execution.Prelude.{
  ok_inj, String, String-discrete, ◌≡◌, refl, sym, ap, ◌∙◌, subst, Bool, true, false, List, [], ◌∷◌,
  some, ok, arith, ◌==◌, string_eq, nat_eq, >>=-eq-ok, select, Bool-cases, inl, inr,
}
use general_execution.Canonical.{Hash, str_le}
use general_execution.Models.{sort, insert_sorted}
use general_execution.Durable.{Json}
use general_execution.Dispatch.{
  DispatchIntentState, dispatch_state_digest, intent_id, IntentRow, select_intent,
  decode_intent_row, decode_all, intent_or_raise, load_intent, load_for_runner, action_of,
  DispatchRecoveryItem, check_item, DispatchRecoveryReport, check_recovery, recovery_item,
  recovery_items, recover_dispatch_after_restart,
}
use general_execution.Dispatch.Loading.{found_intent}

module _ {A : Type 0} where
  Memᴰ-select :
      (test : A → Bool) (xs : List A) (x : A) → test x ≡ true → Memᴰ x xs → Memᴰ x (select test xs)
  Memᴰ-select test [] x e m = elim m [ ]
  Memᴰ-select test (y ∷ xs) x e (Memᴰ.head same) = rw (ap test (sym same) ∙ e) (Memᴰ.head same)
  Memᴰ-select test (y ∷ xs) x e (Memᴰ.tail m) =
      let rest = Memᴰ-select test xs x e m in
      elim (Bool-cases (test y)) [
        | inl kept ↦ rw kept (Memᴰ.tail rest)
        | inr dropped ↦ rw dropped rest
      ]

  module _ (le : A → A → Bool) where
    Memᴰ-inserted : (x : A) (xs : List A) → Memᴰ x (insert_sorted le x xs)
    unfolding insert_sorted
    Memᴰ-inserted x [] = Memᴰ.head refl
    Memᴰ-inserted x (y ∷ xs) = elim (Bool-cases (le x y)) [
      | inl below ↦ rw below (Memᴰ.head refl)
      | inr above ↦ rw above (Memᴰ.tail (Memᴰ-inserted x xs))
    ]

    Memᴰ-insert_sorted : (a x : A) (xs : List A) → Memᴰ x xs → Memᴰ x (insert_sorted le a xs)
    unfolding insert_sorted
    Memᴰ-insert_sorted a x [] m = elim m [ ]
    Memᴰ-insert_sorted a x (y ∷ xs) (Memᴰ.head same) = elim (Bool-cases (le a y)) [
      | inl below ↦ rw below (Memᴰ.tail (Memᴰ.head same))
      | inr above ↦ rw above (Memᴰ.head same)
    ]
    Memᴰ-insert_sorted a x (y ∷ xs) (Memᴰ.tail m) = elim (Bool-cases (le a y)) [
      | inl below ↦ rw below (Memᴰ.tail (Memᴰ.tail m))
      | inr above ↦ rw above (Memᴰ.tail (Memᴰ-insert_sorted a x xs m))
    ]

    Memᴰ-sort : (x : A) (xs : List A) → Memᴰ x xs → Memᴰ x (sort le xs)
    unfolding sort
    Memᴰ-sort x [] m = elim m [ ]
    Memᴰ-sort x (y ∷ xs) (Memᴰ.head same) =
        subst (λ z. Memᴰ z (insert_sorted le y (sort le xs))) (sym same)
          (Memᴰ-inserted y (sort le xs))
    Memᴰ-sort x (y ∷ xs) (Memᴰ.tail m) = Memᴰ-insert_sorted y x (sort le xs) (Memᴰ-sort x xs m)

select_intent-Memᴰ :
    (id : String) (rows : List IntentRow) (x : IntentRow)
    → select_intent id rows ≡ some x
    → Memᴰ x rows
unfolding select_intent
select_intent-Memᴰ id [] x e = cc
select_intent-Memᴰ id (y ∷ rows) x e = elim (String-discrete y.intent_id id) [
  | yes same ↦ Memᴰ.head (ground (arith, same, e))
  | no other ↦ Memᴰ.tail (select_intent-Memᴰ id rows x (ground (arith, other, e)))
]

module _ ⦃h : Hash⦄ where
  -- The item for an intent in a state.
  abbrev pub Describes : DispatchRecoveryItem → DispatchIntentState → Type 0
  Describes x s =
      (x.intent_id ≡ intent_id s.intent)
      × (x.state_digest ≡ dispatch_state_digest s)
      × (x.status ≡ s.status)
      × (action_of s.status ≡ ok x.recovery_action)
      × (x.blind_resubmission_authorized ≡ false)
      × (x.provider_outcome_inferred ≡ false)

  recovery_item-Describes :
      (s : DispatchIntentState) (x : DispatchRecoveryItem) → recovery_item s ≡ ok x → Describes x s
  unfolding recovery_item check_item
  recovery_item-Describes s x e =
      let (action, known, e) = >>=-eq-ok (action_of s.status) _ e in
      let (again, same, e) = >>=-eq-ok (action_of s.status) _ e in ground (arith, known, same, e)

  recovery_items-Memᴰ :
      (ss : List DispatchIntentState) (xs : List DispatchRecoveryItem) (s : DispatchIntentState)
      → recovery_items ss ≡ ok xs
      → Memᴰ s ss
      → (x : DispatchRecoveryItem) × Memᴰ x xs × Describes x s
  unfolding recovery_items
  recovery_items-Memᴰ [] xs s e m = elim m [ ]
  recovery_items-Memᴰ (t ∷ ss) xs s e m =
      let (x, made, e) = >>=-eq-ok (recovery_item t) _ e in
      let (ys, rest, e) = >>=-eq-ok (recovery_items ss) _ e in
      let grown = ok_inj (x ∷ ys) xs e in
      elim m [
        | Memᴰ.head same ↦ (
          x,
          rw (sym grown) (Memᴰ.head refl),
          subst (Describes x) (sym same) (recovery_item-Describes t x made),
        )
        | Memᴰ.tail m ↦
            let (y, among, described) = recovery_items-Memᴰ ss ys s rest m in
            (y, rw (sym grown) (Memᴰ.tail among), described)
      ]

  module _ ⦃j : Json⦄ where
    decode_all-Memᴰ :
        (rows : List IntentRow) (ss : List DispatchIntentState) (x : IntentRow)
        (s : DispatchIntentState)
        → decode_all rows ≡ ok ss
        → decode_intent_row x ≡ ok s
        → Memᴰ x rows
        → Memᴰ s ss
    unfolding decode_all
    decode_all-Memᴰ [] ss x s e d m = elim m [ ]
    decode_all-Memᴰ (y ∷ rows) ss x s e d m =
        let (t, read, e) = >>=-eq-ok (decode_intent_row y) _ e in
        let (ts, rest, e) = >>=-eq-ok (decode_all rows) _ e in
        let grown = ok_inj (t ∷ ts) ss e in
        subst (Memᴰ s) grown (elim m [
          | Memᴰ.head same ↦ Memᴰ.head (ok_inj s t (sym d ∙ ap decode_intent_row same ∙ read))
          | Memᴰ.tail m ↦ Memᴰ.tail (decode_all-Memᴰ rows ts x s rest d m)
        ])

    load_for_runner-Memᴰ :
        (table : List IntentRow) (id : String) (s : DispatchIntentState)
        (ss : List DispatchIntentState)
        → load_intent table id ≡ ok s
        → load_for_runner table s.intent.runner_id ≡ ok ss
        → Memᴰ s ss
    unfolding load_for_runner load_intent
    load_for_runner-Memᴰ table id s ss e f =
        let (x, found, read) = >>=-eq-ok (intent_or_raise (select_intent id table)) _ e in
        let le = λ (x y : IntentRow). str_le x.intent_id y.intent_id in
        let (all_states, decoded, f) = >>=-eq-ok (decode_all (sort le table)) _ f in
        let among =
          decode_all-Memᴰ (sort le table) all_states x s decoded read
            (Memᴰ-sort le x table (select_intent-Memᴰ id table x (found_intent _ found))) in
        subst (Memᴰ s) (ok_inj _ ss f) (
          Memᴰ-select (λ u. u.intent.runner_id == s.intent.runner_id) all_states s (ground arith)
            among)

    -- Every intent that loads is in the report of its runner, in the state that it loads in and
    -- with the action for its status, and neither a blind resubmission nor an outcome is inferred.
    pub recover_dispatch_complete :
        (table : List IntentRow) (id : String) (s : DispatchIntentState)
        (report : DispatchRecoveryReport)
        → load_intent table id ≡ ok s
        → recover_dispatch_after_restart table s.intent.runner_id ≡ ok report
        → (x : DispatchRecoveryItem) × Memᴰ x report.items × Describes x s
    unfolding recover_dispatch_after_restart check_recovery
    recover_dispatch_complete table id s report e f =
        let (ss, loaded, f) = >>=-eq-ok (load_for_runner table s.intent.runner_id) _ f in
        let (items, made, f) = >>=-eq-ok (recovery_items ss) _ f in
        let held : items ≡ report.items = ground (arith, f) in
        let (x, among, described) =
          recovery_items-Memᴰ ss items s made (load_for_runner-Memᴰ table id s ss e loaded) in
        (x, subst (Memᴰ x) held among, described)
