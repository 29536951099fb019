-- ===== src/Planning/TokenPlans.antt =====
-- `build_single_token_plan` of planning.py. A timestamp is a number of seconds, and the settings are
-- natural numbers.
use oddsfox_pipeline.Planning.ClobTokens.{is_probably_clob_token}
use oddsfox_pipeline.Base.{
  ℕ, ◌+◌, ◌-◌, String, List, [], ◌∷◌, Option, none, some, Bool, true, false, not, ◌&&◌, ◌||◌, max,
  ltb, leb, str_eq, if◌then◌else◌,
}

pub record TokenPlan : Type 0 where
  pub token_id : String
  pub market_id : String
  pub is_closed : Bool
  pub created_at_ts : ℕ
  pub start_ts : ℕ
  pub end_ts : ℕ
  pub fidelity : ℕ
  pub empty_run_streak : ℕ

pub data SkipReason : Type 0 where
  dup_token invalid_token persisted_skip closed_done empty_cache_skip recent_skip already_current :
      SkipReason

-- The arguments of one call that it only reads.
pub record Request : Type 0 where
  pub token_id : String
  pub market_id : String
  pub closed : Bool
  pub created_ts : ℕ
  pub latest_ts : Option ℕ
  pub fully_checked : Bool
  pub persisted : Bool
  pub now_ts : ℕ
  pub fidelity : ℕ
  pub force : Bool
  pub rebuild_history : Bool
  pub overlap_seconds : ℕ
  pub recent_seconds : ℕ
  pub history_backfill_floor_ts : Option ℕ
  pub empty_run_streak : ℕ
  pub empty_token_skip_runs : ℕ

-- A dict of budgets: the first entry of a key is the one that counts.
abbrev pub Budgets : Type 0
Budgets = List (String × ℕ)

-- What a call mutates: `seen_tokens`, and `empty_token_skip_budgets`, which may be absent.
pub record Planner : Type 0 where
  pub seen_tokens : List String
  pub budgets : Option Budgets

unfoldable pub member : String → List String → Bool
member token [] = false
member token (seen ∷ tokens) = str_eq seen token || member token tokens

-- `budgets.get(token, 0)`
unfoldable pub budget_of : String → Budgets → ℕ
budget_of token [] = 0
budget_of token ((key, n) ∷ budgets) = if str_eq key token then n else budget_of token budgets

unfoldable pub pop_budget : String → Budgets → Budgets
pop_budget token [] = []
pop_budget token ((key, n) ∷ budgets) =
    let rest = pop_budget token budgets in if str_eq key token then rest else (key, n) ∷ rest

unfoldable pub set_budget : String → ℕ → Budgets → Budgets
unfolding pop_budget
set_budget token n budgets = (token, n) ∷ pop_budget token budgets

unfoldable pub spend_budget : String → ℕ → Budgets → Budgets
unfolding set_budget pop_budget
spend_budget token skip_budget budgets =
    if ltb 0 (skip_budget - 1)
    then set_budget token (skip_budget - 1) budgets
    else pop_budget token budgets

abbrev pub is_given {ℓ} : {A : Type ℓ} → Option A → Bool
is_given none = false
is_given (some a) = true

abbrev pub bypass_routine_skips : Request → Bool
bypass_routine_skips r = r.rebuild_history || is_given r.history_backfill_floor_ts

-- Where the empty-token budget skips the token, the budgets that this leaves.
unfoldable pub budget_skip : Request → Option Budgets → Option Budgets
unfolding budget_of spend_budget
budget_skip r none = none
budget_skip r (some budgets) =
    let skip_budget = budget_of r.token_id budgets in
    if ltb 0 r.empty_token_skip_runs
      && not r.force
      && not (bypass_routine_skips r)
      && ltb 0 skip_budget
    then some (spend_budget r.token_id skip_budget budgets)
    else none

-- `start_ts`, or `none` for the recent skip.
unfoldable pub start_from : Request → Option ℕ → Option ℕ → Option ℕ
start_from r floor latest = if r.rebuild_history then some r.created_ts else elim floor [
  | some ts ↦ some (max r.created_ts ts)
  | none ↦ elim latest [
    | some ts ↦
        if not r.force && ltb r.now_ts (ts + r.recent_seconds)
        then none
        else some (max r.created_ts (ts - r.overlap_seconds))
    | none ↦ some r.created_ts
  ]
]

pub data Outcome : Type 0 where
  planned : TokenPlan → Outcome
  skipped : SkipReason → Outcome

unfoldable pub plan_window : Request → Option ℕ → Outcome
plan_window r none = skipped recent_skip
plan_window r (some start_ts) =
    if leb r.now_ts start_ts
    then skipped already_current
    else planned (record {
      token_id = r.token_id;
      market_id = r.market_id;
      is_closed = r.closed;
      created_at_ts = r.created_ts;
      start_ts = start_ts;
      end_ts = r.now_ts;
      fidelity = r.fidelity;
      empty_run_streak = r.empty_run_streak;
    })

unfoldable pub build_single_token_plan : Request → Planner → Outcome × Planner
unfolding is_probably_clob_token member budget_skip start_from plan_window
build_single_token_plan r p =
    let marked = record p { seen_tokens = r.token_id ∷ p.seen_tokens } in
    if member r.token_id p.seen_tokens
    then (skipped dup_token, p)
    else if not (is_probably_clob_token r.token_id)
    then (skipped invalid_token, marked)
    else if r.persisted && not r.force && not (bypass_routine_skips r)
    then (skipped persisted_skip, marked)
    else if r.closed && r.fully_checked && not (bypass_routine_skips r)
    then (skipped closed_done, marked)
    else elim (budget_skip r p.budgets) [
      | some budgets ↦ (skipped empty_cache_skip, record marked { budgets = some budgets })
      | none ↦ (plan_window r (start_from r r.history_backfill_floor_ts r.latest_ts), marked)
    ]

-- A pass over the tokens of a page.
unfoldable pub build_plans : List Request → Planner → List TokenPlan × Planner
unfolding build_single_token_plan
build_plans [] p = ([], p)
build_plans (r ∷ requests) p =
    let (outcome, p') = build_single_token_plan r p in
    let (plans, p'') = build_plans requests p' in
    elim outcome [ planned plan ↦ (plan ∷ plans, p'') | skipped reason ↦ (plans, p'') ]
