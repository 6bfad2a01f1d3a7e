-- ===== src/Durable/RoundTrip.antt =====
-- What a snapshot writes is read back.
use Prim.Native.String.{◌++◌}
use general_execution.Prelude.{
  String, String-discrete, ℕ_discrete, ◌≡◌, refl, true, List, [], ◌∷◌, All, Option, none, some, ok,
  arith, Result, ◌>>=◌, ap, String,
}
use general_execution.Canonical.{
  Value, items, obj, str, normalize, normalize_items, insert_field, str_le, Hash, sha256_digest,
  canonical_json,
}
use general_execution.Canonical.Order.{normalize_idem}
use general_execution.Models.{RunnerCapabilities}
use general_execution.Physical.{
  TransportStatus, completed, rejected, timed_out, cancelled, transport_failed, is_transport,
  transport_text,
}
use general_execution.Capacity.{
  CapacityLease, check_lease, lease_value, CapacityRelease, check_release, check_kind,
  release_value, ReleaseKind, terminal_outcome, session_revoked, Change, reserve, release,
  CapacityTransition, transition_value, RunnerCapacityState, check_state, state_value, state_digest,
  verify_capacity_state,
}
use general_execution.Capacity.Replay.{verified-checked}
use general_execution.Durable.{
  lease_from_dict, lease_if_dict, release_from_dict, release_if_dict, transport_of,
  transition_from_dict, transitions_from, capacity_state_from_dict, state_of, mapping_of,
  snapshot_from_dict, Json, serialize_capacity_snapshot, deserialize_capacity_snapshot,
  snapshot_payload, snapshot_digest, capacity_snapshot,
}

lease_parts :
    (l : CapacityLease) (p q : Option String)
    → let k : CapacityLease = record l {
      previous_invocation_id = p;
      previous_receipt_digest = q;
    } in
      check_lease k ≡ ok k → lease_if_dict (some (normalize (lease_value k))) ≡ ok (some k)
unfolding normalize lease_value insert_field str_le lease_from_dict String-discrete ℕ_discrete
lease_parts l none none e = rw e
lease_parts l none (some t) e = rw e
lease_parts l (some s) none e = rw e
lease_parts l (some s) (some t) e = rw e

lease_back :
    (l : CapacityLease)
    → check_lease l ≡ ok l
    → lease_if_dict (some (normalize (lease_value l))) ≡ ok (some l)
lease_back l e = lease_parts l l.previous_invocation_id l.previous_receipt_digest e

transport_back : (t : TransportStatus) → is_transport t ≡ true → transport_of (transport_text t) ≡ t
unfolding transport_of transport_text is_transport String-discrete
transport_back completed v = refl
transport_back rejected v = refl
transport_back timed_out v = refl
transport_back cancelled v = refl
transport_back transport_failed v = refl
transport_back (TransportStatus.other s) v = cc

abbrev terminal : CapacityRelease → String → String → TransportStatus → CapacityRelease
terminal r o d t = record r {
  release_kind = terminal_outcome;
  outcome_digest = some o;
  receipt_digest = some d;
  transport_status = some t;
  revoked_session_digest = none;
}

terminal_back :
    (r : CapacityRelease) (o d : String) (t : TransportStatus)
    → is_transport t ≡ true
    → check_release (terminal r o d t) ≡ ok (terminal r o d t)
    → release_if_dict (some (normalize (release_value (terminal r o d t))))
      ≡ ok (some (terminal r o d t))
unfolding normalize release_value insert_field str_le release_from_dict String-discrete ℕ_discrete
terminal_back r o d t v e = rw (transport_back t v) (rw e)

abbrev revocation : CapacityRelease → String → CapacityRelease
revocation r d = record r {
  release_kind = session_revoked;
  outcome_digest = none;
  receipt_digest = none;
  transport_status = none;
  revoked_session_digest = some d;
}

revocation_back :
    (r : CapacityRelease) (d : String)
    → check_release (revocation r d) ≡ ok (revocation r d)
    → release_if_dict (some (normalize (release_value (revocation r d))))
      ≡ ok (some (revocation r d))
unfolding normalize release_value insert_field str_le release_from_dict String-discrete ℕ_discrete
revocation_back r d e = rw e

abbrev with_parts :
    CapacityRelease
    → ReleaseKind
    → Option String
    → Option String
    → Option TransportStatus
    → Option String
    → CapacityRelease
with_parts r k o d t v = record r {
  release_kind = k;
  outcome_digest = o;
  receipt_digest = d;
  transport_status = t;
  revoked_session_digest = v;
}

abbrev ReadsBack : CapacityRelease → Type 0
ReadsBack r = release_if_dict (some (normalize (release_value r))) ≡ ok (some r)

-- A release that passes its checks is of one of two shapes, and both are read back.
release_parts :
    (r : CapacityRelease) (k : ReleaseKind) (o d : Option String) (t : Option TransportStatus)
    (v : Option String)
    → check_release (with_parts r k o d t v) ≡ ok (with_parts r k o d t v)
    → ReadsBack (with_parts r k o d t v)
unfolding check_release check_kind
release_parts r terminal_outcome (some o) (some d) (some t) none e =
    terminal_back r o d t (ground arith) e
release_parts r session_revoked none none none (some v) e = revocation_back r v e
release_parts r _ _ _ _ _ e = ground arith

release_back : (r : CapacityRelease) → check_release r ≡ ok r → ReadsBack r
release_back r e =
    release_parts r r.release_kind r.outcome_digest r.receipt_digest r.transport_status
      r.revoked_session_digest e

-- The lease or release of a transition passes its checks, as it did when it was built.
abbrev pub IsChecked : CapacityTransition → Type 0
IsChecked t = elim t.change [
  | reserve l ↦ check_lease l ≡ ok l
  | release r ↦ check_release r ≡ ok r
]

change_back :
    (d : String) (c : Change)
    → let t : CapacityTransition = record { expected_state_digest = d; change = c } in
      IsChecked t → transition_from_dict (normalize (transition_value t)) ≡ ok t
unfolding normalize transition_value insert_field str_le transition_from_dict String-discrete
    ℕ_discrete
change_back d (reserve l) e = rw (lease_back l e)
change_back d (release r) e = rw (release_back r e)

transitions_back :
    (ts : List CapacityTransition)
    → All IsChecked ts
    → transitions_from (normalize_items (items transition_value ts)) ≡ ok ts
unfolding normalize_items transitions_from
transitions_back [] e = refl
transitions_back (t ∷ ts) e =
    rw (change_back t.expected_state_digest t.change e.0, transitions_back ts e.1)

abbrev read_back : Option Value → Result RunnerCapacityState
read_back o = do r ← state_of o; capacity_state_from_dict r

state_parts :
    (s : RunnerCapacityState) (p : Option String)
    → let u : RunnerCapacityState = record s { previous_state_digest = p } in
      check_state u ≡ ok u
      → All IsChecked s.transitions
      → read_back (some (normalize (state_value u))) ≡ ok u
unfolding normalize state_value insert_field str_le capacity_state_from_dict String-discrete
    ℕ_discrete
state_parts s none e c = rw (transitions_back s.transitions c) (rw e)
state_parts s (some p) e c = rw (transitions_back s.transitions c) (rw e)

state_back :
    (s : RunnerCapacityState)
    → check_state s ≡ ok s
    → All IsChecked s.transitions
    → read_back (some (normalize (state_value s))) ≡ ok s
state_back s e c = state_parts s s.previous_state_digest e c

-- The snapshot of a verified state is read back as that state.
module _ ⦃h : Hash⦄ where
  abbrev sha256_text : Value → String
  sha256_text w = "sha256:" ++ h.hexdigest (h.dumps w)

  -- The payload as it is found in a snapshot in canonical form has the digest of the payload.
  payload_digest :
      (s : RunnerCapacityState)
      → sha256_digest (
          obj (
            ("schema_version", str "ge.capacity-snapshot.v1")
            ∷ ("state", normalize (state_value s))
            ∷ ("state_digest", str (state_digest s))
            ∷ []))
        ≡ snapshot_digest s
  unfolding snapshot_digest snapshot_payload sha256_digest canonical_json normalize insert_field
      str_le ℕ_discrete
  payload_digest s =
      ap
        (λ w. sha256_text (
          obj (
            ("schema_version", str "ge.capacity-snapshot.v1")
            ∷ ("state", w)
            ∷ ("state_digest", str (state_digest s))
            ∷ [])))
        (normalize_idem (state_value s))

  abbrev decode : Option Value → RunnerCapabilities → Result (RunnerCapacityState × String)
  decode o runner = do r ← mapping_of o; snapshot_from_dict r runner

  snapshot_back :
      (s : RunnerCapacityState) (runner : RunnerCapabilities)
      → check_state s ≡ ok s
      → All IsChecked s.transitions
      → verify_capacity_state s runner ≡ ok true
      → decode (some (normalize (capacity_snapshot s))) runner ≡ ok (s, snapshot_digest s)
  unfolding normalize capacity_snapshot insert_field str_le snapshot_from_dict String-discrete
      ℕ_discrete snapshot_digest sha256_digest canonical_json state_value
  snapshot_back s runner e c v = rw (payload_digest s, state_back s e c) (rw v (ground arith))

  module _ ⦃j : Json⦄ where
    -- The text of a snapshot parses to the canonical form that it was written from.
    abbrev pub ReadsBackText : RunnerCapacityState → Type 0
    ReadsBackText s =
        j.loads (serialize_capacity_snapshot s) ≡ some (normalize (capacity_snapshot s))

    -- A verified state whose leases and releases passed their checks is read back, with the digest
    -- of its snapshot, from the text of its snapshot, where that text parses to what was written.
    pub deserialize-serialize :
        (s : RunnerCapacityState) (runner : RunnerCapabilities)
        → All IsChecked s.transitions
        → verify_capacity_state s runner ≡ ok true
        → ReadsBackText s
        → deserialize_capacity_snapshot (serialize_capacity_snapshot s) runner
          ≡ ok (s, snapshot_digest s)
    unfolding deserialize_capacity_snapshot
    deserialize-serialize s runner c v parsed =
        rw parsed (snapshot_back s runner (verified-checked s runner v) c v)
