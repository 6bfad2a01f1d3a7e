-- ===== src/Durable/Commit.antt =====
-- A commit appends one legal transition to the state that is stored for the runner.
use general_execution.Prelude.{
  ◌+◌, String, ◌≡◌, ◌≢◌, refl, ap, ◌∙◌, true, not, List, [], ◌∷◌, ◌++◌, All, Option, none, some, ok,
  string_eq, nat_eq, option_eq, list_eq, arith, >>=-eq-ok, raise_if-eq-ok,
}
use general_execution.Canonical.{Hash}
use general_execution.Models.{RunnerCapabilities}
use general_execution.Capacity.{
  CapacityTransition, RunnerCapacityState, transition_eq, check_state, state_digest,
  apply_transition, bound_to, verify_capacity_state,
}
use general_execution.Capacity.Replay.{verified-bound, verified-checked, verified-last}
use general_execution.Durable.{
  Json, HeadRow, DurableCapacityHead, snapshot_digest, serialize_capacity_snapshot,
  snapshot_from_dict, deserialize_capacity_snapshot, head_of, decode_head_row, select_row,
  without_last, matches_row, update_rows, row_or_raise, row_for, load, check_successor, commit,
}
use general_execution.Durable.Rows.{
  without_last-snoc, select_row-id, select_row-update_rows, select_row-update_rows-ne,
}
use general_execution.Durable.RoundTrip.{IsChecked, ReadsBackText, deserialize-serialize}

pub found_row : (o : Option HeadRow) {x : HeadRow} → row_or_raise o ≡ ok x → o ≡ some x
found_row none e = cc
found_row (some y) e = cc

-- The guards of a commit that its state passes.
abbrev pub IsSuccessor : ⦃h : Hash⦄ → RunnerCapacityState → String → RunnerCapacityState → Type 0
IsSuccessor current expected new =
    (state_digest current ≡ expected)
    × (new.generation ≡ current.generation + 1)
    × (without_last new.transitions ≡ current.transitions)

module _ ⦃h : Hash⦄ ⦃j : Json⦄ where
  -- What is read from a snapshot verifies.
  pub deserialize-verifies :
      (text : String) (runner : RunnerCapabilities) {x : RunnerCapacityState × String}
      → deserialize_capacity_snapshot text runner ≡ ok x
      → verify_capacity_state x.0 runner ≡ ok true
  unfolding deserialize_capacity_snapshot snapshot_from_dict
  deserialize-verifies text runner e = ground (arith, e)

  -- The state of a row that decodes is read from its snapshot and is the one that the row names.
  pub decode-parts :
      (row : HeadRow) (runner : RunnerCapabilities) (s : RunnerCapacityState)
      (head : DurableCapacityHead)
      → decode_head_row row runner ≡ ok (s, head)
      → (deserialize_capacity_snapshot row.snapshot_json runner ≡ ok (s, row.snapshot_digest))
        × (row.state_digest ≡ state_digest s)
        × (row.generation ≡ s.generation)
        × (head ≡ head_of s row.snapshot_digest)
  unfolding decode_head_row
  decode-parts row runner s head e = ground (arith, e)

  -- What is loaded verifies for the runner.
  pub load-verifies :
      (table : List HeadRow) (runner : RunnerCapabilities) (s : RunnerCapacityState)
      (head : DurableCapacityHead)
      → load table runner ≡ ok (s, head)
      → verify_capacity_state s runner ≡ ok true
  unfolding load
  load-verifies table runner s head e =
      let (row, found, decoded) =
        >>=-eq-ok (row_or_raise (select_row runner.runner_id table)) _ e in
      deserialize-verifies row.snapshot_json runner (decode-parts row runner s head decoded).0

  -- What a commit did that succeeded.
  record IsCommit (table : List HeadRow) (runner : RunnerCapabilities) (expected : String)
      (new : RunnerCapacityState) (table' : List HeadRow) (head : DurableCapacityHead)
      : Type 0 where
    row : HeadRow
    current : RunnerCapacityState
    current_head : DurableCapacityHead
    read : RunnerCapacityState × String
    verified : verify_capacity_state new runner ≡ ok true
    found : select_row runner.runner_id table ≡ some row
    decoded : decode_head_row row runner ≡ ok (current, current_head)
    followed : check_successor current expected new ≡ ok tt
    snapshot : deserialize_capacity_snapshot (serialize_capacity_snapshot new) runner ≡ ok read
    written :
        table'
        ≡ (update_rows
            (matches_row runner.runner_id expected current.generation)
            (λ x. row_for new x.runner_id read.1 (serialize_capacity_snapshot new))
            table).0
    replied : head ≡ head_of new read.1

  commit-IsCommit :
      (table : List HeadRow) (runner : RunnerCapabilities) (expected : String)
      (new : RunnerCapacityState) (table' : List HeadRow) (head : DurableCapacityHead)
      → commit table runner expected new ≡ ok (table', head)
      → IsCommit table runner expected new table' head
  unfolding commit
  commit-IsCommit table runner expected new table' head e =
      let (v, made, e) = >>=-eq-ok (verify_capacity_state new runner) _ e in
      let (passed, e) = raise_if-eq-ok (not v) _ _ e in
      let (row, found, e) = >>=-eq-ok (row_or_raise (select_row runner.runner_id table)) _ e in
      let (current, decoded, e) = >>=-eq-ok (decode_head_row row runner) _ e in
      let (u, followed, e) = >>=-eq-ok (check_successor current.0 expected new) _ e in
      let (read, snapshot, e) =
        >>=-eq-ok (deserialize_capacity_snapshot (serialize_capacity_snapshot new) runner) _ e in
      record {
        row = row;
        current = current.0;
        current_head = current.1;
        read = read;
        verified = ground (arith, made, passed);
        found = found_row _ found;
        decoded = decoded;
        followed = followed;
        snapshot = snapshot;
        written = ground (arith, e);
        replied = ground (arith, e);
      }

  successor :
      (current : RunnerCapacityState) (expected : String) (new : RunnerCapacityState)
      → check_successor current expected new ≡ ok tt
      → IsSuccessor current expected new
  unfolding check_successor
  successor current expected new e = ground (arith, e)

  -- The guards of a commit let through exactly the last step of the new state.
  successor-step :
      (current : RunnerCapacityState) (expected : String) (new : RunnerCapacityState)
      (runner : RunnerCapabilities)
      → verify_capacity_state current runner ≡ ok true
      → verify_capacity_state new runner ≡ ok true
      → IsSuccessor current expected new
      → (t : CapacityTransition) × (apply_transition current t ≡ ok new)
  unfolding check_state
  successor-step current expected new runner v w f =
      let e = verified-checked new runner w in
      let (t, grown) = without_last-snoc new.transitions (ground (arith, e, f.1)) in
      (t, verified-last current new runner t v w (grown ∙ ap (λ ts. ts ++ t ∷ []) f.2))

  -- A commit that succeeds makes one legal transition from the state that is stored for the
  -- runner, whose digest is the expected one, and leaves the rows of the other runners alone.
  pub commit-step :
      (table : List HeadRow) (runner : RunnerCapabilities) (expected : String)
      (new : RunnerCapacityState) (table' : List HeadRow) (head : DurableCapacityHead)
      → commit table runner expected new ≡ ok (table', head)
      → (current : RunnerCapacityState) × (before : DurableCapacityHead) × (t : CapacityTransition)
        × (load table runner ≡ ok (current, before))
        × (state_digest current ≡ expected)
        × (apply_transition current t ≡ ok new)
        × ((id : String) → id ≢ runner.runner_id → select_row id table' ≡ select_row id table)
  unfolding load matches_row row_for
  commit-step table runner expected new table' head e =
      let c = commit-IsCommit table runner expected new table' head e in
      let loaded : load table runner ≡ ok (c.current, c.current_head) = rw c.found c.decoded in
      let f = successor c.current expected new c.followed in
      let v = load-verifies table runner c.current c.current_head loaded in
      let (t, made) = successor-step c.current expected new runner v c.verified f in
      (
        c.current,
        c.current_head,
        t,
        loaded,
        f.0,
        made,
        λ id other.
            rw c.written (
              select_row-update_rows-ne id _ _ table (λ y m. ground (arith, m, other)) (λ y. refl)),
      )

  -- After a commit that succeeds the runner's state is the new one, where the text of its
  -- snapshot parses to what was written.
  pub commit-load :
      (table : List HeadRow) (runner : RunnerCapabilities) (expected : String)
      (new : RunnerCapacityState) (table' : List HeadRow) (head : DurableCapacityHead)
      → All IsChecked new.transitions
      → ReadsBackText new
      → commit table runner expected new ≡ ok (table', head)
      → load table' runner ≡ ok (new, head)
  unfolding load decode_head_row matches_row row_for bound_to
  commit-load table runner expected new table' head k parsed e =
      let c = commit-IsCommit table runner expected new table' head e in
      let f = successor c.current expected new c.followed in
      let (text, digest, generation, replied) =
        decode-parts c.row runner c.current c.current_head c.decoded in
      let back = deserialize-serialize new runner k c.verified parsed in
      let same : (new, snapshot_digest new) ≡ c.read = cc (back, c.snapshot) in
      let found =
        select_row-update_rows runner.runner_id
          (matches_row runner.runner_id expected c.current.generation)
          (λ x. row_for new x.runner_id c.read.1 (serialize_capacity_snapshot new)) table c.row
          c.found
          (ground
            (arith, digest, generation, f.0, select_row-id runner.runner_id table c.row c.found))
          (λ y. refl) in
      rw (c.written, found, back)
        (ground (arith, same, c.replied, verified-bound new runner c.verified))
