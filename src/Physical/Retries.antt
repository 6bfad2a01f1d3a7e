-- ===== src/Physical/Retries.antt =====
-- `verify_retry_chain` of physical.py.
use general_execution.Prelude.{
  ℕ, ℕ_discrete, suc, String, String-discrete, Bool, true, false, ◌&&◌, not, List, [], ◌∷◌, Option,
  none, some, ◌==◌, ◌!=◌, Eq, string_eq, nat_eq, option_eq, is_none, contains,
}
use general_execution.Canonical.{Hash}
use general_execution.Adapter.{AdapterDispatchRequest}
use general_execution.Physical.Records.{
  completed, transport_eq, PhysicalOutcomeBundle, receipt_digest,
}
use general_execution.Physical.Verify.{verify_intrinsic}

-- What all attempts of a chain share.
pub record RetryBase : Type 0 where
  pub session_id : String
  pub spec_id : String
  pub spec_digest : String
  pub runner_id : String
  pub attempt : ℕ

unfoldable pub RetryBase-discrete : Discrete RetryBase
unfolding String-discrete ℕ_discrete
RetryBase-discrete = hlevel (String-discrete, ℕ_discrete)

instance abbrev pub base_eq : Eq RetryBase
base_eq = record { dec = RetryBase-discrete }

abbrev pub base_of : AdapterDispatchRequest → RetryBase
base_of q = record {
  session_id = q.session_id;
  spec_id = q.spec_id;
  spec_digest = q.spec_digest;
  runner_id = q.runner_id;
  attempt = q.attempt;
}

abbrev pub invocation_of : PhysicalOutcomeBundle → String
invocation_of b = b.authorization.request.invocation_id

module _ ⦃h : Hash⦄ where
  -- The outcome is bound to the one before it, or to none if it is the first.
  unfoldable pub follows : Option PhysicalOutcomeBundle → PhysicalOutcomeBundle → Bool
  follows none b =
      is_none b.authorization.previous_invocation_id
      && is_none b.authorization.previous_receipt_digest
  follows (some prior) b =
      prior.receipt.transport_status != completed
      && b.authorization.previous_invocation_id == some (invocation_of prior)
      && b.authorization.previous_receipt_digest == some (receipt_digest prior.receipt)

  -- The loop, with the next index, the invocations seen and the outcome before.
  unfoldable pub verify_chain_from :
      RetryBase → ℕ → List String → Option PhysicalOutcomeBundle → List PhysicalOutcomeBundle → Bool
  unfolding follows
  verify_chain_from base index seen prior [] = true
  verify_chain_from base index seen prior (b ∷ bs) =
      (verify_intrinsic b
        && b.authorization.physical_attempt == index
        && base_of b.authorization.request == base
        && not (contains (invocation_of b) seen)
        && follows prior b)
      && verify_chain_from base (suc index) (invocation_of b ∷ seen) (some b) bs

  unfoldable pub verify_retry_chain : List PhysicalOutcomeBundle → Bool
  unfolding verify_chain_from
  verify_retry_chain [] = false
  verify_retry_chain (b ∷ bs) =
      verify_chain_from (base_of b.authorization.request) 1 [] none (b ∷ bs)
