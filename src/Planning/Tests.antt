-- ===== src/Planning/Tests.antt =====
-- The planner's theorems on a request.
use oddsfox_pipeline.Base.{String, [], ◌∷◌, none, some, Bool, true, false, ◌≡◌, refl, min, max, All}
use oddsfox_pipeline.Planning.ClobTokens.{is_probably_clob_token}
use oddsfox_pipeline.Planning.TokenPlans.{
  TokenPlan, Request, Planner, member, planned, build_single_token_plan, build_plans,
}
use oddsfox_pipeline.Planning.Windows.{IsPlanOf, build_single_token_plan-IsPlanOf}
use oddsfox_pipeline.Planning.Fresh.{IsFresh, build_plans-IsFresh}
use oddsfox_pipeline.Planning.Groups.{ordered_plans, group_token_plans}
use oddsfox_pipeline.Planning.Grouped.{plans_of, IsGroup, group_token_plans-IsGroup}

abbrev request : Bool → Request
request rebuild = record {
  token_id = "token_1";
  market_id = "m";
  closed = false;
  created_ts = 100;
  latest_ts = some 500;
  fully_checked = false;
  persisted = false;
  now_ts = 1000;
  fidelity = 1440;
  force = false;
  rebuild_history = rebuild;
  overlap_seconds = 60;
  recent_seconds = 120;
  history_backfill_floor_ts = none;
  empty_run_streak = 0;
  empty_token_skip_runs = 2;
}

abbrev planner : Planner
planner = record { seen_tokens = "token_0" ∷ []; budgets = some (("token_2", 2) ∷ []) }

abbrev plan : TokenPlan
plan = record {
  token_id = "token_1";
  market_id = "m";
  is_closed = false;
  created_at_ts = 100;
  start_ts = 440;
  end_ts = 1000;
  fidelity = 1440;
  empty_run_streak = 0;
}

request_planned : (build_single_token_plan (request false) planner).0 ≡ planned plan
unfolding build_single_token_plan is_probably_clob_token
request_planned = refl

build_single_token_plan-IsPlanOf_example :
    IsPlanOf (request false) plan
    × (is_probably_clob_token "token_1" ≡ true)
    × (member "token_1" ("token_0" ∷ []) ≡ false)
    × ((build_single_token_plan (request false) planner).1.seen_tokens ≡ "token_1" ∷ "token_0" ∷ [])
build_single_token_plan-IsPlanOf_example =
    build_single_token_plan-IsPlanOf (request false) planner plan request_planned

token_plausible : is_probably_clob_token "token_1" ≡ true
unfolding is_probably_clob_token
token_plausible = refl

token_unseen : member "token_1" ("token_0" ∷ []) ≡ false
unfolding member
token_unseen = refl

build_plans-IsFresh_example :
    IsFresh ("token_0" ∷ []) (build_plans (request false ∷ request true ∷ []) planner).0
build_plans-IsFresh_example = build_plans-IsFresh (request false ∷ request true ∷ []) planner

abbrev any_order : String → String → Bool
any_order a b = true

group_token_plans-IsGroup_example :
    (plans_of (group_token_plans any_order 2 true (plan ∷ plan ∷ plan ∷ []))
      ≡ ordered_plans any_order true (plan ∷ plan ∷ plan ∷ []))
    × All
        (IsGroup (max 1 (min 2 20)))
        (group_token_plans any_order 2 true (plan ∷ plan ∷ plan ∷ []))
group_token_plans-IsGroup_example =
    group_token_plans-IsGroup any_order 2 true (plan ∷ plan ∷ plan ∷ [])
