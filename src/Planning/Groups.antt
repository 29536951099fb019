-- ===== src/Planning/Groups.antt =====
-- `group_token_plans` of planning.py.
use oddsfox_pipeline.Base.{
  ℕ, zero, suc, ◌-◌, String, List, [], ◌∷◌, Bool, ◌&&◌, ◌||◌, min, max, take, drop, length, ltb,
  ◌==◌, if◌then◌else◌,
}
use oddsfox_pipeline.Planning.TokenPlans.{TokenPlan}

abbrev pub max_batch_group_size : ℕ
max_batch_group_size = 20

pub record GroupPlan : Type 0 where
  pub token_plans : List TokenPlan
  pub group_start_ts : ℕ
  pub group_end_ts : ℕ
  pub fidelity : ℕ

-- `min(plan.start_ts for plan in chunk)` and `max(plan.end_ts ...)`, from a first plan on.
unfoldable pub min_start : ℕ → List TokenPlan → ℕ
min_start ts [] = ts
min_start ts (plan ∷ plans) = min_start (min ts plan.start_ts) plans

unfoldable pub max_end : ℕ → List TokenPlan → ℕ
max_end ts [] = ts
max_end ts (plan ∷ plans) = max_end (max ts plan.end_ts) plans

abbrev pub group_of : TokenPlan → List TokenPlan → GroupPlan
group_of plan plans = record {
  token_plans = plan ∷ plans;
  group_start_ts = min_start plan.start_ts plans;
  group_end_ts = max_end plan.end_ts plans;
  fidelity = plan.fidelity;
}

-- `max(1, min(group_size, MAX_BATCH_GROUP_SIZE))`
abbrev pub effective_size : ℕ → ℕ
effective_size group_size = max 1 (min group_size max_batch_group_size)

-- The loop over the offsets, on the plans that are left. `size` is positive, so that each chunk
-- takes a plan, and their number bounds the rounds.
unfoldable pub chunk_groups : ℕ → ℕ → List TokenPlan → List GroupPlan
unfolding min_start max_end
chunk_groups zero size plans = []
chunk_groups (suc fuel) size [] = []
chunk_groups (suc fuel) size (plan ∷ plans) =
    group_of plan (take (size - 1) plans) ∷ chunk_groups fuel size (drop (size - 1) plans)

-- `token_le` is the order of token ids, the last key of the sort.
module _ (token_le : String → String → Bool) where
  -- The order of `(start_ts, end_ts - start_ts, token_id)`; with equal starts the spans are
  -- ordered as the ends.
  abbrev pub key_le : TokenPlan → TokenPlan → Bool
  key_le a b =
      ltb a.start_ts b.start_ts
      || (a.start_ts == b.start_ts
          && (ltb a.end_ts b.end_ts || (a.end_ts == b.end_ts && token_le a.token_id b.token_id)))

  unfoldable pub insert_plan : TokenPlan → List TokenPlan → List TokenPlan
  insert_plan plan [] = plan ∷ []
  insert_plan plan (next ∷ plans) =
      if key_le plan next then plan ∷ next ∷ plans else next ∷ insert_plan plan plans

  unfoldable pub sort_plans : List TokenPlan → List TokenPlan
  unfolding insert_plan
  sort_plans [] = []
  sort_plans (plan ∷ plans) = insert_plan plan (sort_plans plans)

  unfoldable pub ordered_plans : Bool → List TokenPlan → List TokenPlan
  unfolding sort_plans
  ordered_plans sort_for_batch plans = if sort_for_batch then sort_plans plans else plans

  unfoldable pub group_token_plans : ℕ → Bool → List TokenPlan → List GroupPlan
  unfolding chunk_groups ordered_plans
  group_token_plans group_size sort_for_batch plans =
      chunk_groups (length plans) (effective_size group_size) (ordered_plans sort_for_batch plans)
