-- ===== src/Durable/Progress.antt =====
-- Which commits succeed, and what becomes of two commits on one state.
use mathlib.Core.Option
use general_execution.Prelude.{
  String-discrete, ℕ_discrete, ℕ, String, ◌≡◌, ◌≢◌, refl, ap, sym, ◌∙◌, List, [], ◌∷◌, ◌++◌, All,
  some, ok, string_eq, nat_eq, option_eq, list_eq, arith, >>=-eq-ok, inl, inr,
}
use general_execution.Canonical.{
  Hash, Collision, same_digest, normalize, get, get_field, get-normalize, Value, num,
}
use general_execution.Models.{RunnerCapabilities}
use general_execution.Capacity.{
  CapacityTransition, RunnerCapacityState, transition_eq, state_digest, state_value,
  apply_transition, next_state,
}
use general_execution.Capacity.Replay.{step, verify_capacity_state_iff, apply_transition-next}
use general_execution.Durable.{
  Json, HeadRow, DurableCapacityHead, snapshot_digest, serialize_capacity_snapshot, head_of,
  select_row, without_last, matches_row, update_rows, row_or_raise, row_for, load, check_successor,
  commit,
}
use general_execution.Durable.Rows.{HasKey, one_updated, select_row-id}
use general_execution.Durable.RoundTrip.{IsChecked, ReadsBackText, deserialize-serialize}
use general_execution.Durable.Commit.{
  load-verifies, decode-parts, found_row, commit-step, commit-load,
}

without_last-append :
    (ts : List CapacityTransition) (t : CapacityTransition) → without_last (ts ++ t ∷ []) ≡ ts
unfolding without_last
without_last-append [] t = refl
without_last-append (u ∷ []) t = refl
without_last-append (u ∷ v ∷ ts) t = ap (λ xs. u ∷ xs) (without_last-append (v ∷ ts) t)

-- Values with one canonical form hold the same number under each key.
same_number :
    (k : String) (v w : Value) (m n : ℕ)
    → normalize v ≡ normalize w
    → get k v ≡ some (num m)
    → get k w ≡ some (num n)
    → m ≡ n
unfolding normalize
same_number k v w m n e a b = num_inj m n (
    sym (ap (Option.map normalize) a)
    ∙ sym (get-normalize k v)
    ∙ ap (get k) e
    ∙ get-normalize k w
    ∙ ap (Option.map normalize) b)
  where
    num_inj : (m n : ℕ) → some (num m) ≡ some (num n) → m ≡ n
    num_inj m n e = cc

held_generation :
    (s : RunnerCapacityState) → get "generation" (state_value s) ≡ some (num s.generation)
unfolding state_value get get_field String-discrete
held_generation s = refl

module _ ⦃h : Hash⦄ where
  -- States of two generations with one digest are a collision of the hash.
  generations_collide :
      (s u : RunnerCapacityState)
      → s.generation ≢ u.generation
      → state_digest s ≡ state_digest u
      → Collision
  unfolding state_digest
  generations_collide s u apart e = elim (same_digest (state_value s) (state_value u) e) [
    | inl same ↦
        elim (apart (
          same_number "generation" (state_value s) (state_value u) s.generation u.generation same
            (held_generation s) (held_generation u))) [ ]
    | inr c ↦ c
  ]

  stepped :
      (current new : RunnerCapacityState) (t : CapacityTransition)
      → apply_transition current t ≡ ok new
      → new ≡ next_state current t
  stepped current new t e = (apply_transition-next current t new e).2

  module _ ⦃j : Json⦄ where
    step-accepted :
        (current new : RunnerCapacityState) (t : CapacityTransition)
        → apply_transition current t ≡ ok new
        → check_successor current (state_digest current) new ≡ ok tt
    unfolding check_successor next_state
    step-accepted current new t e =
        rw (stepped current new t e, without_last-append current.transitions t) (ground arith)

    -- Of two commits that expect one state's digest, the second does not succeed after the first,
    -- unless two values with one digest are at hand.
    pub second_commit-Collision :
        (table : List HeadRow) (runner : RunnerCapabilities) (expected : String)
        (a b : RunnerCapacityState) (table' table'' : List HeadRow)
        (head head' : DurableCapacityHead)
        → All IsChecked a.transitions
        → ReadsBackText a
        → commit table runner expected a ≡ ok (table', head)
        → commit table' runner expected b ≡ ok (table'', head')
        → Collision
    unfolding next_state
    second_commit-Collision table runner expected a b table' table'' head head' k parsed e f =
        let (current, before, t, loaded, digest, made, kept) =
          commit-step table runner expected a table' head e in
        let (current', before', t', loaded', digest', made', kept') =
          commit-step table' runner expected b table'' head' f in
        let again = commit-load table runner expected a table' head k parsed e in
        let one : a ≡ current' = cc (again, loaded') in
        generations_collide a current
          (omega (arith, ap (λ (s : RunnerCapacityState). s.generation) (stepped current a t made)))
          (ap state_digest one ∙ digest' ∙ sym digest)

    -- Every legal transition from the stored state is committed, where each runner has one row, the
    -- new state's leases and releases passed their checks and the text of its snapshot parses to
    -- what was written.
    pub commit-accepts :
        (table : List HeadRow) (runner : RunnerCapabilities) (current new : RunnerCapacityState)
        (before : DurableCapacityHead) (t : CapacityTransition)
        → HasKey table
        → load table runner ≡ ok (current, before)
        → apply_transition current t ≡ ok new
        → All IsChecked new.transitions
        → ReadsBackText new
        → (table' : List HeadRow) × (commit table runner (state_digest current) new
            ≡ ok (table', head_of new (snapshot_digest new)))
    unfolding load commit matches_row ℕ_discrete
    commit-accepts table runner current new before t u loaded made k parsed =
        let (row, found, decoded) =
          >>=-eq-ok (row_or_raise (select_row runner.runner_id table)) _ loaded in
        let v = load-verifies table runner current before loaded in
        let w =
          (verify_capacity_state_iff new runner).1
            (step current t ((verify_capacity_state_iff current runner).0 v) made) in
        let (text, digest, generation, replied) = decode-parts row runner current before decoded in
        let held = found_row (select_row runner.runner_id table) found in
        let back = deserialize-serialize new runner k w parsed in
        let test = matches_row runner.runner_id (state_digest current) current.generation in
        let change : HeadRow → HeadRow =
          λ x. row_for new x.runner_id (snapshot_digest new) (serialize_capacity_snapshot new) in
        let counted =
          one_updated runner.runner_id test change table row u (λ y m. ground (arith, m)) held
            (ground (arith, digest, generation, select_row-id runner.runner_id table row held)) in
        (
          (update_rows test change table).0,
          rw (w, found, decoded, step-accepted current new t made, back, counted) refl,
        )
