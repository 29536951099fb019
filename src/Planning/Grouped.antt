-- ===== src/Planning/Grouped.antt =====
-- The groups hold the ordered plans, cut up, and their windows span those of their plans.
use oddsfox_pipeline.Base.{
  ℕ, zero, suc, ◌-◌, ◌≤◌, ◌<◌, String, List, [], ◌∷◌, ◌++◌, Bool, true, false, ◌≡◌, refl, ap, ◌∙◌,
  arith, min, max, length, take, drop, length-take, length-drop, take-append-drop, All,
}
use oddsfox_pipeline.Planning.TokenPlans.{TokenPlan}
use oddsfox_pipeline.Planning.Groups.{
  GroupPlan, min_start, max_end, effective_size, chunk_groups, ordered_plans, insert_plan,
  sort_plans, group_token_plans,
}

-- The plan's window lies in `from` to `to`.
abbrev pub Within : ℕ → ℕ → TokenPlan → Type 0
Within from to plan = (from ≤ plan.start_ts) × (plan.end_ts ≤ to)

-- A group has a plan and at most 20, which lie in its window.
pub record IsGroup (size : ℕ) (g : GroupPlan) : Type 0 where
  pub not_empty : 0 < length g.token_plans
  pub bounded : length g.token_plans ≤ size
  pub within : All (Within g.group_start_ts g.group_end_ts) g.token_plans

pub plans_of : List GroupPlan → List TokenPlan
plans_of [] = []
plans_of (g ∷ groups) = g.token_plans ++ plans_of groups

min_start-le : (ts : ℕ) (plans : List TokenPlan) → min_start ts plans ≤ ts
unfolding min_start
min_start-le ts [] = omega arith
min_start-le ts (plan ∷ plans) = omega (arith, min_start-le (min ts plan.start_ts) plans)

max_end-ge : (ts : ℕ) (plans : List TokenPlan) → ts ≤ max_end ts plans
unfolding max_end
max_end-ge ts [] = omega arith
max_end-ge ts (plan ∷ plans) = omega (arith, max_end-ge (max ts plan.end_ts) plans)

window-Within :
    (from to : ℕ) (plans : List TokenPlan)
    → All (Within (min_start from plans) (max_end to plans)) plans
unfolding min_start max_end
window-Within from to [] = tt
window-Within from to (plan ∷ plans) = (
  (
    omega (arith, min_start-le (min from plan.start_ts) plans),
    omega (arith, max_end-ge (max to plan.end_ts) plans),
  ),
  window-Within (min from plan.start_ts) (max to plan.end_ts) plans,
)

chunk_groups-IsGroup :
    (fuel size : ℕ) (plans : List TokenPlan)
    → 0 < size
    → All (IsGroup size) (chunk_groups fuel size plans)
unfolding chunk_groups
chunk_groups-IsGroup zero size plans h = tt
chunk_groups-IsGroup (suc fuel) size [] h = tt
chunk_groups-IsGroup (suc fuel) size (plan ∷ plans) h =
    let chunk = take (size - 1) plans in
    (
      record {
        not_empty = omega arith;
        bounded = omega (arith, length-take (size - 1) plans);
        within = (
          (min_start-le plan.start_ts chunk, max_end-ge plan.end_ts chunk),
          window-Within plan.start_ts plan.end_ts chunk,
        );
      },
      chunk_groups-IsGroup fuel size (drop (size - 1) plans) h,
    )

plans_of-chunk_groups :
    (fuel size : ℕ) (plans : List TokenPlan)
    → length plans ≤ fuel
    → plans_of (chunk_groups fuel size plans) ≡ plans
unfolding plans_of chunk_groups
plans_of-chunk_groups zero size [] h = refl
plans_of-chunk_groups zero size (plan ∷ plans) h = absurd (omega arith)
plans_of-chunk_groups (suc fuel) size [] h = refl
plans_of-chunk_groups (suc fuel) size (plan ∷ plans) h =
    ap (λ (l : List TokenPlan). plan ∷ l)
      (ap (λ (l : List TokenPlan). take (size - 1) plans ++ l)
          (plans_of-chunk_groups fuel size (drop (size - 1) plans)
            (omega (arith, length-drop (size - 1) plans)))
        ∙ take-append-drop (size - 1) plans)

module _ (token_le : String → String → Bool) where
  length-insert_plan :
      (plan : TokenPlan) (plans : List TokenPlan)
      → length (insert_plan token_le plan plans) ≡ suc (length plans)
  unfolding insert_plan
  length-insert_plan plan [] = refl
  length-insert_plan plan (next ∷ plans) = ground (arith, length-insert_plan plan plans)

  length-ordered_plans :
      (sort : Bool) (plans : List TokenPlan)
      → length (ordered_plans token_le sort plans) ≡ length plans
  unfolding ordered_plans sort_plans
  length-ordered_plans false plans = refl
  length-ordered_plans true [] = refl
  length-ordered_plans true (plan ∷ plans) =
      length-insert_plan plan (sort_plans token_le plans) ∙ ap suc (length-ordered_plans true plans)

  -- The groups, one after another, hold the ordered plans; each has at least one plan, at most the
  -- group size clamped to 1 to 20, and a window that holds those of its plans.
  pub group_token_plans-IsGroup :
      (group_size : ℕ) (sort_for_batch : Bool) (plans : List TokenPlan)
      → (plans_of (group_token_plans token_le group_size sort_for_batch plans)
          ≡ ordered_plans token_le sort_for_batch plans)
        × All
            (IsGroup (max 1 (min group_size 20)))
            (group_token_plans token_le group_size sort_for_batch plans)
  unfolding group_token_plans
  group_token_plans-IsGroup group_size sort_for_batch plans = (
    plans_of-chunk_groups (length plans) (effective_size group_size)
        (ordered_plans token_le sort_for_batch plans)
        (omega (arith, length-ordered_plans sort_for_batch plans)),
    chunk_groups-IsGroup (length plans) (effective_size group_size)
        (ordered_plans token_le sort_for_batch plans) (omega arith),
  )
