-- ===== src/Planning/Fresh.antt =====
-- A pass plans no token twice.
use oddsfox_pipeline.Base.{
  String, List, [], ◌∷◌, false, ◌≡◌, ◌⊎◌, refl, inl, inr, arith, Bool-cases,
}
use oddsfox_pipeline.Planning.TokenPlans.{
  TokenPlan, Request, Planner, member, Outcome, planned, skipped, build_single_token_plan,
  build_plans,
}
use oddsfox_pipeline.Planning.Windows.{build_single_token_plan-IsPlanOf}

-- Each plan's token was not seen, nor planned before it.
abbrev pub IsFresh : List String → List TokenPlan → Type 0
IsFresh seen [] = Unit
IsFresh seen (plan ∷ plans) =
    (member plan.token_id seen ≡ false) × IsFresh (plan.token_id ∷ seen) plans

IsFresh-fewer :
    (plans : List TokenPlan) (seen seen' : List String)
    → ((token : String) → member token seen' ≡ false → member token seen ≡ false)
    → IsFresh seen' plans
    → IsFresh seen plans
unfolding member
IsFresh-fewer [] seen seen' h f = tt
IsFresh-fewer (plan ∷ plans) seen seen' h f = (
  h plan.token_id f.0,
  IsFresh-fewer plans (plan.token_id ∷ seen) (plan.token_id ∷ seen')
      (λ token e. ground (arith, h token)) f.1,
)

build_single_token_plan-seen :
    (r : Request) (p : Planner)
    → let seen = (build_single_token_plan r p).1.seen_tokens in
      (seen ≡ p.seen_tokens) ⊎ (seen ≡ r.token_id ∷ p.seen_tokens)
unfolding build_single_token_plan
build_single_token_plan-seen r p = elim (Bool-cases (member r.token_id p.seen_tokens)) [
  | inl known ↦ inl (ground arith)
  | inr fresh ↦ inr (ground arith)
]

-- Tokens are only ever added to the seen ones.
seen-fewer :
    (r : Request) (p : Planner) (token : String)
    → member token (build_single_token_plan r p).1.seen_tokens ≡ false
    → member token p.seen_tokens ≡ false
unfolding member
seen-fewer r p token h = elim (build_single_token_plan-seen r p) [
  | inl e ↦ rw e at h
  | inr e ↦ let h' = rw e at h in ground arith
]

-- In one pass every token is planned at most once, and none that was seen before.
pub build_plans-IsFresh :
    (requests : List Request) (p : Planner) → IsFresh p.seen_tokens (build_plans requests p).0
unfolding build_plans
build_plans-IsFresh [] p = tt
build_plans-IsFresh (r ∷ requests) p =
    next (build_single_token_plan r p).0 refl
      (build_plans-IsFresh requests (build_single_token_plan r p).1)
  where
    next :
        (outcome : Outcome)
        → (build_single_token_plan r p).0 ≡ outcome
        → IsFresh
            (build_single_token_plan r p).1.seen_tokens
            (build_plans requests (build_single_token_plan r p).1).0
        → IsFresh p.seen_tokens (build_plans (r ∷ requests) p).0
    next (planned plan) e rest =
        let (v, plausible, fresh, seen) = build_single_token_plan-IsPlanOf r p plan e in
        rw (e, build_plans) (rw v.token fresh, rw v.token (rw seen at rest))
    next (skipped reason) e rest =
        rw (e, build_plans)
          (IsFresh-fewer _ p.seen_tokens _ (λ token h. seen-fewer r p token h) rest)
