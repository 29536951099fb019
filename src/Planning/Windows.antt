-- ===== src/Planning/Windows.antt =====
-- What a planned token's window is, and when a token is planned.
use oddsfox_pipeline.Base.{
  ℕ, ◌-◌, ◌≤◌, ◌<◌, String, [], ◌∷◌, Option, none, some, true, false, ◌≡◌, refl, inl, inr, arith,
  eq_iff, Bool-cases, leb, str_eq, if◌then◌else◌,
}
use oddsfox_pipeline.Planning.ClobTokens.{is_probably_clob_token}
use oddsfox_pipeline.Planning.TokenPlans.{
  TokenPlan, Request, Budgets, Planner, member, budget_of, pop_budget, set_budget, spend_budget,
  budget_skip, start_from, planned, plan_window, build_single_token_plan,
}

-- The plan asks for the request's token, from its creation on and up to now, at least a second.
pub record IsPlanOf (r : Request) (plan : TokenPlan) : Type 0 where
  pub token : plan.token_id ≡ r.token_id
  pub not_before : r.created_ts ≤ plan.start_ts
  pub not_empty : plan.start_ts < plan.end_ts
  pub up_to_now : plan.end_ts ≡ r.now_ts

start_from-created :
    (r : Request) (floor latest : Option ℕ) (start : ℕ)
    → start_from r floor latest ≡ some start
    → r.created_ts ≤ start
unfolding start_from
start_from-created r (some ts) latest start h = ground arith
start_from-created r none (some ts) start h = ground arith
start_from-created r none none start h = ground arith

plan_window-IsPlanOf :
    (r : Request) (start : Option ℕ) (plan : TokenPlan)
    → ((ts : ℕ) → start ≡ some ts → r.created_ts ≤ ts)
    → plan_window r start ≡ planned plan
    → IsPlanOf r plan
unfolding plan_window
plan_window-IsPlanOf r none plan k h = cc h
plan_window-IsPlanOf r (some ts) plan k h = elim (Bool-cases (leb r.now_ts ts)) [
  | inl late ↦ cc (rw late at h)
  | inr early ↦
      let e = rw early at h in
      record {
        token = ground arith;
        not_before = ground (arith, k ts refl);
        not_empty = ground arith;
        up_to_now = ground arith;
      }
]

-- A planned token is a plausible one that was not seen before, is seen from then on, and is asked
-- for from its creation at the earliest up to now.
pub build_single_token_plan-IsPlanOf :
    (r : Request) (p : Planner) (plan : TokenPlan)
    → (build_single_token_plan r p).0 ≡ planned plan
    → IsPlanOf r plan
      × (is_probably_clob_token r.token_id ≡ true)
      × (member r.token_id p.seen_tokens ≡ false)
      × ((build_single_token_plan r p).1.seen_tokens ≡ r.token_id ∷ p.seen_tokens)
unfolding build_single_token_plan
build_single_token_plan-IsPlanOf r p plan h = (
  plan_window-IsPlanOf r (start_from r r.history_backfill_floor_ts r.latest_ts) plan
      (λ ts e. start_from-created r r.history_backfill_floor_ts r.latest_ts ts e) (ground arith),
  ground arith,
  ground arith,
  ground arith,
)

budget_of-pop_budget :
    (token j : String) (budgets : Budgets)
    → budget_of j (pop_budget token budgets) ≡ (if str_eq token j then 0 else budget_of j budgets)
unfolding budget_of pop_budget
budget_of-pop_budget token j [] = ground arith
budget_of-pop_budget token j ((key, n) ∷ budgets) =
    ground
      (arith, budget_of-pop_budget token j budgets, eq_iff key token, eq_iff token j, eq_iff key j)

-- Spending a token's budget takes one off it, and leaves every other token's as it was.
budget_of-spend_budget :
    (token j : String) (budgets : Budgets)
    → budget_of j (spend_budget token (budget_of token budgets) budgets)
      ≡ (if str_eq token j then budget_of token budgets - 1 else budget_of j budgets)
unfolding spend_budget set_budget budget_of
budget_of-spend_budget token j budgets = ground (arith, budget_of-pop_budget token j budgets)

budget_skip-rebuild :
    (r : Request) (budgets : Option Budgets)
    → r.rebuild_history ≡ true
    → budget_skip r budgets ≡ none
unfolding budget_skip
budget_skip-rebuild r none h = refl
budget_skip-rebuild r (some budgets) h = ground arith

-- The request's token, from its creation up to now.
abbrev pub whole_history : Request → TokenPlan
whole_history r = record {
  token_id = r.token_id;
  market_id = r.market_id;
  is_closed = r.closed;
  created_at_ts = r.created_ts;
  start_ts = r.created_ts;
  end_ts = r.now_ts;
  fidelity = r.fidelity;
  empty_run_streak = r.empty_run_streak;
}

-- A rebuild plans every plausible token that was not seen before and was created before now, from
-- its creation on, whatever the skips, flags and budgets say.
build_single_token_plan-rebuild :
    (r : Request) (p : Planner)
    → r.rebuild_history ≡ true
    → is_probably_clob_token r.token_id ≡ true
    → member r.token_id p.seen_tokens ≡ false
    → r.created_ts < r.now_ts
    → (build_single_token_plan r p).0 ≡ planned (whole_history r)
unfolding build_single_token_plan start_from plan_window
build_single_token_plan-rebuild r p rebuild plausible fresh before =
    ground (arith, budget_skip-rebuild r p.budgets rebuild)
