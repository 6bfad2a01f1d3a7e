-- ===== src/Physical/Chain.antt =====
-- What a verified chain of retries is, and that an authorized retry extends it.
use general_execution.Prelude.{
  ℕ, suc, String, ◌≡◌, ◌≢◌, ◌↔◌, refl, ap, ◌∙◌, true, false, List, [], ◌∷◌, ◌++◌, map, Option, none,
  some, ok, arith, contains, distinct, All, string_eq, >>=-eq-ok,
}
use general_execution.Canonical.{Hash}
use general_execution.Adapter.{
  AdapterDispatchRequest, Context, request_for, verify_dispatch_request,
}
use general_execution.Adapter.Binding.{
  build_dispatch_request-IsBound, verify_dispatch_request-IsBound,
}
use general_execution.Physical.{
  completed, transport_eq, PhysicalOutcomeBundle, receipt_digest, verify_intrinsic,
  verify_physical_outcome, authorize_retry, RetryBase, base_of, base_eq, invocation_of, follows,
  verify_chain_from, verify_retry_chain,
}
use general_execution.Physical.Outcomes.{authorize_retry_bindings}

-- The attempts are counted up from the number.
abbrev pub Numbered : ℕ → List PhysicalOutcomeBundle → Type 0
Numbered n [] = Unit
Numbered n (b ∷ bs) = (b.authorization.physical_attempt ≡ n) × Numbered (suc n) bs

distinct_cons :
    (x : String) (xs : List String)
    → distinct (x ∷ xs) ≡ true
    → (contains x xs ≡ false) × (distinct xs ≡ true)
distinct_cons x xs d = ground arith

module _ ⦃h : Hash⦄ where
  -- The second outcome is a retry of the first, which did not complete.
  pub record Retries (prior b : PhysicalOutcomeBundle) : Type 0 where
    pub not_completed : prior.receipt.transport_status ≢ completed
    pub same_invocation : b.authorization.previous_invocation_id ≡ some (invocation_of prior)
    pub same_receipt : b.authorization.previous_receipt_digest ≡ some (receipt_digest prior.receipt)

  -- Every outcome retries the one before it.
  abbrev pub Linked : PhysicalOutcomeBundle → List PhysicalOutcomeBundle → Type 0
  Linked prior [] = Unit
  Linked prior (b ∷ bs) = Retries prior b × Linked b bs

  -- The outcome is the first of its chain.
  pub record IsFirst (b : PhysicalOutcomeBundle) : Type 0 where
    pub no_invocation : b.authorization.previous_invocation_id ≡ none
    pub no_receipt : b.authorization.previous_receipt_digest ≡ none

  abbrev Begins : Option PhysicalOutcomeBundle → List PhysicalOutcomeBundle → Type 0
  Begins none [] = Unit
  Begins none (b ∷ bs) = IsFirst b × Linked b bs
  Begins (some prior) bs = Linked prior bs

  -- Outcomes that were not seen, and are different.
  abbrev Fresh : List String → List PhysicalOutcomeBundle → Type 0
  Fresh seen = All (λ b. contains (invocation_of b) seen ≡ false)

  Fresh-cons :
      (x : String) (seen : List String) (bs : List PhysicalOutcomeBundle)
      → Fresh (x ∷ seen) bs ↔ (Fresh seen bs × (contains x (map invocation_of bs) ≡ false))
  Fresh-cons x seen [] = (λ f. (tt, refl), λ f. tt)
  Fresh-cons x seen (b ∷ bs) = (
    λ f. ground (arith, (Fresh-cons x seen bs).0 f.1, f.0),
    λ f. ground (arith, (Fresh-cons x seen bs).1, f.0, f.1),
  )

  follows-Begins :
      (prior : Option PhysicalOutcomeBundle) (b : PhysicalOutcomeBundle)
      (bs : List PhysicalOutcomeBundle)
      → ((follows prior b ≡ true) × Linked b bs) ↔ Begins prior (b ∷ bs)
  unfolding follows
  follows-Begins none b bs = (λ f. (ground arith, f.1), λ f. (ground arith, f.1))
  follows-Begins (some prior) b bs = (λ f. (ground arith, f.1), λ f. (ground arith, f.1))

  -- What the loop decides.
  pub record ChainFrom (base : RetryBase) (n : ℕ) (seen : List String)
      (prior : Option PhysicalOutcomeBundle) (bs : List PhysicalOutcomeBundle) : Type 0 where
    pub intrinsic : All (λ b. verify_intrinsic b ≡ true) bs
    pub numbered : Numbered n bs
    pub one_base : All (λ b. base_of b.authorization.request ≡ base) bs
    pub fresh : Fresh seen bs
    pub apart : distinct (map invocation_of bs) ≡ true
    pub linked : Begins prior bs

  -- The tests that one round makes.
  round_iff :
      (base : RetryBase) (n : ℕ) (seen : List String) (prior : Option PhysicalOutcomeBundle)
      (b : PhysicalOutcomeBundle) (bs : List PhysicalOutcomeBundle)
      → (verify_chain_from base n seen prior (b ∷ bs) ≡ true) ↔ (
          (verify_intrinsic b ≡ true)
          × (b.authorization.physical_attempt ≡ n)
          × (base_of b.authorization.request ≡ base)
          × (contains (invocation_of b) seen ≡ false)
          × (follows prior b ≡ true)
          × (verify_chain_from base (suc n) (invocation_of b ∷ seen) (some b) bs ≡ true))
  unfolding verify_chain_from
  round_iff base n seen prior b bs = ground arith

  verify_chain_from_iff :
      (base : RetryBase) (n : ℕ) (seen : List String) (prior : Option PhysicalOutcomeBundle)
      (bs : List PhysicalOutcomeBundle)
      → (verify_chain_from base n seen prior bs ≡ true) ↔ ChainFrom base n seen prior bs
  unfolding verify_chain_from
  verify_chain_from_iff base n seen none [] = (
    λ v. record {
      intrinsic = tt;
      numbered = tt;
      one_base = tt;
      fresh = tt;
      apart = refl;
      linked = tt;
    },
    λ v. refl,
  )
  verify_chain_from_iff base n seen (some p) [] = (
    λ v. record {
      intrinsic = tt;
      numbered = tt;
      one_base = tt;
      fresh = tt;
      apart = refl;
      linked = tt;
    },
    λ v. refl,
  )
  verify_chain_from_iff base n seen prior (b ∷ bs) = (
    λ v.
        let r = (round_iff base n seen prior b bs).0 v in
        let k = (verify_chain_from_iff base (suc n) (invocation_of b ∷ seen) (some b) bs).0 r.5 in
        let f = (Fresh-cons (invocation_of b) seen bs).0 k.fresh in
        record {
          intrinsic = (r.0, k.intrinsic);
          numbered = (r.1, k.numbered);
          one_base = (r.2, k.one_base);
          fresh = (r.3, f.0);
          apart = rw (f.1, distinct) k.apart;
          linked = (follows-Begins prior b bs).0 (r.4, k.linked);
        },
    λ k.
        let d = distinct_cons (invocation_of b) (map invocation_of bs) k.apart in
        let l = (follows-Begins prior b bs).1 k.linked in
        (round_iff base n seen prior b bs).1 (
          k.intrinsic.0,
          k.numbered.0,
          k.one_base.0,
          k.fresh.0,
          l.0,
          (verify_chain_from_iff base (suc n) (invocation_of b ∷ seen) (some b) bs).1 (record {
            intrinsic = k.intrinsic.1;
            numbered = k.numbered.1;
            one_base = k.one_base.1;
            fresh = (Fresh-cons (invocation_of b) seen bs).1 (k.fresh.1, d.0);
            apart = d.1;
            linked = l.1;
          }),
        ),
  )

  -- A chain: every outcome verifies by itself, the attempts count up from 1, all are of one
  -- session, specification, runner and logical attempt, no invocation occurs twice, the first has
  -- no predecessor, and every other retries the one before it, which did not complete.
  pub record IsRetryChain (b : PhysicalOutcomeBundle) (bs : List PhysicalOutcomeBundle)
      : Type 0 where
    pub intrinsic : All (λ x. verify_intrinsic x ≡ true) (b ∷ bs)
    pub numbered : Numbered 1 (b ∷ bs)
    pub one_base : All (λ x. base_of x.authorization.request ≡ base_of b.authorization.request) bs
    pub apart : distinct (map invocation_of (b ∷ bs)) ≡ true
    pub first : IsFirst b
    pub linked : Linked b bs

  Fresh-nil : (bs : List PhysicalOutcomeBundle) → Fresh [] bs
  Fresh-nil [] = tt
  Fresh-nil (b ∷ bs) = (refl, Fresh-nil bs)

  -- `verify_retry_chain` refuses the empty sequence, and accepts any other exactly if it is a chain.
  pub verify_retry_chain_iff :
      (verify_retry_chain [] ≡ false)
      × ((b : PhysicalOutcomeBundle) (bs : List PhysicalOutcomeBundle)
          → (verify_retry_chain (b ∷ bs) ≡ true) ↔ IsRetryChain b bs)
  unfolding verify_retry_chain
  verify_retry_chain_iff = (
    refl,
    λ b bs.
        let loop = verify_chain_from_iff (base_of b.authorization.request) 1 [] none (b ∷ bs) in
        (
          λ v.
              let k = loop.0 v in
              record {
                intrinsic = k.intrinsic;
                numbered = k.numbered;
                one_base = k.one_base.1;
                apart = k.apart;
                first = k.linked.0;
                linked = k.linked.1;
              },
          λ k. loop.1 (record {
            intrinsic = k.intrinsic;
            numbered = k.numbered;
            one_base = (refl, k.one_base);
            fresh = Fresh-nil (b ∷ bs);
            apart = k.apart;
            linked = (k.first, k.linked);
          }),
        ),
  )

  -- The loop goes on over one more outcome that passes the tests of its round.
  extend_from :
      (base : RetryBase) (n : ℕ) (seen : List String) (prior : Option PhysicalOutcomeBundle)
      (bs : List PhysicalOutcomeBundle) (p b : PhysicalOutcomeBundle)
      → verify_chain_from base n seen prior (bs ++ p ∷ []) ≡ true
      → verify_intrinsic b ≡ true
      → b.authorization.physical_attempt ≡ suc p.authorization.physical_attempt
      → base_of b.authorization.request ≡ base_of p.authorization.request
      → contains (invocation_of b) seen ≡ false
      → contains (invocation_of b) (map invocation_of (bs ++ p ∷ [])) ≡ false
      → follows (some p) b ≡ true
      → verify_chain_from base n seen prior (bs ++ p ∷ b ∷ []) ≡ true
  unfolding verify_chain_from
  extend_from base n seen prior [] p b v intr num one new new' fol =
      let r = (round_iff base n seen prior p []).0 v in
      (round_iff base n seen prior p (b ∷ [])).1 (
        r.0,
        r.1,
        r.2,
        r.3,
        r.4,
        (round_iff base (suc n) (invocation_of p ∷ seen) (some p) b []).1
            (intr, num ∙ ap suc r.1, one ∙ r.2, ground arith, fol, refl),
      )
  extend_from base n seen prior (x ∷ bs) p b v intr num one new new' fol =
      let r = (round_iff base n seen prior x (bs ++ p ∷ [])).0 v in
      (round_iff base n seen prior x (bs ++ p ∷ b ∷ [])).1 (
        r.0,
        r.1,
        r.2,
        r.3,
        r.4,
        extend_from base (suc n) (invocation_of x ∷ seen) (some x) bs p b r.5 intr num one
            (ground arith) (ground arith) fol,
      )

  extend_chain :
      (bs : List PhysicalOutcomeBundle) (p b : PhysicalOutcomeBundle)
      → verify_retry_chain (bs ++ p ∷ []) ≡ true
      → verify_intrinsic b ≡ true
      → b.authorization.physical_attempt ≡ suc p.authorization.physical_attempt
      → base_of b.authorization.request ≡ base_of p.authorization.request
      → contains (invocation_of b) (map invocation_of (bs ++ p ∷ [])) ≡ false
      → follows (some p) b ≡ true
      → verify_retry_chain (bs ++ p ∷ b ∷ []) ≡ true
  unfolding verify_retry_chain
  extend_chain [] p b v intr num one new fol =
      extend_from (base_of p.authorization.request) 1 [] none [] p b v intr num one refl new fol
  extend_chain (x ∷ bs) p b v intr num one new fol =
      extend_from (base_of x.authorization.request) 1 [] none (x ∷ bs) p b v intr num one refl new
        fol

  -- Requests of one context are of one session, specification, runner and attempt.
  one_context :
      (c : Context) (q r : AdapterDispatchRequest) (i j : String)
      → q ≡ request_for c i
      → r ≡ request_for c j
      → base_of q ≡ base_of r
  unfolding request_for
  one_context c q r i j e f = rw (e, f)

  verified_outcome :
      (c : Context) (p : PhysicalOutcomeBundle)
      → verify_physical_outcome c p ≡ ok true
      → (verify_dispatch_request c p.authorization.request ≡ ok true) × (verify_intrinsic p ≡ true)
  unfolding verify_physical_outcome
  verified_outcome c p e =
      let (v, eq, rest) = >>=-eq-ok (verify_dispatch_request c p.authorization.request) _ e in
      ground (arith, eq, rest)

  -- An outcome of a retry that was authorized after the last outcome of a chain extends the chain,
  -- if it verifies by itself and its invocation id was not used before.
  pub authorize_retry-extends :
      (c : Context) (bs : List PhysicalOutcomeBundle) (p b : PhysicalOutcomeBundle) (i : String)
      → verify_retry_chain (bs ++ p ∷ []) ≡ true
      → authorize_retry c p i ≡ ok b.authorization
      → verify_intrinsic b ≡ true
      → contains (invocation_of b) (map invocation_of (bs ++ p ∷ [])) ≡ false
      → verify_retry_chain (bs ++ p ∷ b ∷ []) ≡ true
  unfolding follows
  authorize_retry-extends c bs p b i v auth intr new =
      let f = authorize_retry_bindings c p i b.authorization auth in
      let pq =
        (verify_dispatch_request-IsBound c p.authorization.request
          (verified_outcome c p f.0).0).1 in
      let bq = (build_dispatch_request-IsBound c i b.authorization.request f.2).1 in
      extend_chain bs p b v intr (omega (arith, f.3))
        (one_context c b.authorization.request p.authorization.request i _ bq pq) new
        (ground (arith, f.1, f.4, f.5))
