-- ===== src/Durable/Snapshot.antt =====
-- The snapshot of a capacity state and its reading back, in durable.py.
use general_execution.Prelude.{
  ℕ, String, Bool, false, ◌||◌, ◌&&◌, not, [], ◌∷◌, Option, none, some, Result, ok, err,
  durable_error, raise_if, ◌>>=◌, ◌>>◌, ◌==◌, ◌!=◌, string_eq, nat_eq, is_some,
}
use general_execution.Canonical.{
  Value, Fields, str, dict, obj, num, Hash, canonical_json, sha256_digest, get_field, drop_field,
  known_keys, has_schema,
}
use general_execution.Models.{RunnerCapabilities, runner_digest}
use general_execution.Capacity.{
  RunnerCapacityState, state_value, state_digest, verify_capacity_state,
}
use general_execution.Durable.Reading.{capacity_state_from_dict}

-- `json.loads`; `none` stands for a text that it refuses.
pub record Json : Type 0 where
  pub loads : String → Option Value

pub record DurableCapacityHead : Type 0 where
  pub runner_id : String
  pub runner_capability_digest : String
  pub state_digest : String
  pub generation : ℕ
  pub snapshot_digest : String

unfoldable pub head_value : DurableCapacityHead → Value
head_value x = obj (
    ("runner_id", str x.runner_id)
    ∷ ("runner_capability_digest", str x.runner_capability_digest)
    ∷ ("state_digest", str x.state_digest)
    ∷ ("generation", num x.generation)
    ∷ ("snapshot_digest", str x.snapshot_digest)
    ∷ ("schema_version", str "ge.durable-capacity-head.v1")
    ∷ [])

-- A row of the table `capacity_heads`.
pub record HeadRow : Type 0 where
  pub runner_id : String
  pub runner_capability_digest : String
  pub state_digest : String
  pub generation : ℕ
  pub snapshot_digest : String
  pub snapshot_json : String

abbrev pub mapping_of : Option Value → Result Fields
mapping_of none = err (durable_error "durable capacity snapshot is not valid JSON")
mapping_of (some (dict r)) = ok r
mapping_of (some _) = err (durable_error "durable capacity snapshot must be an object")

abbrev pub digest_of : Option Value → Result String
digest_of (some (str s)) = ok s
digest_of _ = err (durable_error "capacity snapshot digest is required")

abbrev pub state_of : Option Value → Result Fields
state_of (some (dict r)) = ok r
state_of _ = err (durable_error "capacity snapshot state is required")

-- `state_digest == data.get("state_digest")`
abbrev pub is_text : String → Option Value → Bool
is_text s (some (str t)) = s == t
is_text s _ = false

-- The keys are exactly the four of a snapshot.
unfoldable pub has_snapshot_keys : Fields → Bool
unfolding known_keys get_field
has_snapshot_keys r =
    known_keys ("schema_version" ∷ "state" ∷ "state_digest" ∷ "snapshot_digest" ∷ []) r
    && is_some (get_field "schema_version" r)
    && is_some (get_field "state" r)
    && is_some (get_field "state_digest" r)
    && is_some (get_field "snapshot_digest" r)

module _ ⦃h : Hash⦄ where
  unfoldable pub head_digest : DurableCapacityHead → String
  head_digest x = sha256_digest (head_value x)

  -- The snapshot without its own digest.
  unfoldable pub snapshot_payload : RunnerCapacityState → Value
  snapshot_payload s = obj (
      ("schema_version", str "ge.capacity-snapshot.v1")
      ∷ ("state", state_value s)
      ∷ ("state_digest", str (state_digest s))
      ∷ [])

  unfoldable pub snapshot_digest : RunnerCapacityState → String
  snapshot_digest s = sha256_digest (snapshot_payload s)

  unfoldable pub capacity_snapshot : RunnerCapacityState → Value
  capacity_snapshot s = obj (
      ("schema_version", str "ge.capacity-snapshot.v1")
      ∷ ("state", state_value s)
      ∷ ("state_digest", str (state_digest s))
      ∷ ("snapshot_digest", str (snapshot_digest s))
      ∷ [])

  unfoldable pub serialize_capacity_snapshot : RunnerCapacityState → String
  unfolding capacity_snapshot
  serialize_capacity_snapshot s = canonical_json (capacity_snapshot s)

  -- What follows the parsing of the text.
  unfoldable pub snapshot_from_dict :
      Fields → RunnerCapabilities → Result (RunnerCapacityState × String)
  unfolding has_snapshot_keys has_schema get_field drop_field
  snapshot_from_dict r runner = do
    raise_if (not (has_snapshot_keys r)) (durable_error "durable capacity snapshot fields mismatch")
    raise_if (not (has_schema "ge.capacity-snapshot.v1" r))
        (durable_error "unsupported capacity snapshot schema")
    digest ← digest_of (get_field "snapshot_digest" r)
    raise_if (sha256_digest (dict (drop_field "snapshot_digest" r)) != digest)
        (durable_error "capacity snapshot digest mismatch")
    fields ← state_of (get_field "state" r)
    state ← capacity_state_from_dict fields
    raise_if (not (is_text (state_digest state) (get_field "state_digest" r)))
        (durable_error "capacity snapshot state digest mismatch")
    verified ← verify_capacity_state state runner
    raise_if (not verified) (durable_error "capacity snapshot does not replay for runner")
    ok (state, digest)

  -- `_head`
  unfoldable pub head_of : RunnerCapacityState → String → DurableCapacityHead
  head_of s digest = record {
    runner_id = s.runner_id;
    runner_capability_digest = s.runner_capability_digest;
    state_digest = state_digest s;
    generation = s.generation;
    snapshot_digest = digest;
  }

  module _ ⦃j : Json⦄ where
    unfoldable pub deserialize_capacity_snapshot :
        String → RunnerCapabilities → Result (RunnerCapacityState × String)
    unfolding snapshot_from_dict
    deserialize_capacity_snapshot snapshot_json runner = do
      r ← mapping_of (j.loads snapshot_json)
      snapshot_from_dict r runner

    unfoldable pub decode_head_row :
        HeadRow → RunnerCapabilities → Result (RunnerCapacityState × DurableCapacityHead)
    unfolding head_of
    decode_head_row row runner = do
      raise_if (row.runner_capability_digest != runner_digest runner)
          (durable_error "durable capacity head runner capabilities changed")
      read ← deserialize_capacity_snapshot row.snapshot_json runner
      raise_if
          (state_digest read.0 != row.state_digest
            || read.0.generation != row.generation
            || read.1 != row.snapshot_digest)
          (durable_error "durable capacity head metadata mismatch")
      ok (read.0, head_of read.0 read.1)
