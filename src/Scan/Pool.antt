-- ===== src/Scan/Pool.antt =====
-- `_concurrent_leaf_results` of polygon_settlement_scan.py: a bounded pool that runs one chunk of each
-- range at a time. The collector's results are outcomes of a step, in whatever order they come.
use oddsfox_pipeline.Base.{
  ℕ, ◌+◌, List, [], ◌∷◌, ◌++◌, map, Option, none, some, Bool, true, false, ◌≢◌, ltb, length,
  if◌then◌else◌,
}
use oddsfox_pipeline.Scan.Work.{RangeWork, Chunk, exhausted, chunk, assertion_failed, next_chunk}

-- An entry of `pending`: the work is that of the range with the number `range`.
pub record Task : Type 0 where
  pub ordinal : ℕ
  pub range : ℕ
  pub state : RangeWork
  pub start : ℕ
  pub end : ℕ

-- What a future returns: the chunk size that its last leaf proposes, if it has leaves, and whether
-- it ended in an error.
pub record Outcome : Type 0 where
  pub next_log_chunk_size : Option ℕ
  pub has_error : Bool

-- `pending` is in the order of the ordinals, as the dictionary is; `yielded` are the chunks that the
-- consumer got.
pub record Pool : Type 0 where
  pub ready : List (ℕ × RangeWork)
  pub pending : List Task
  pub ordinal : ℕ
  pub yielded : List Task
  pub crashed : Bool

abbrev task_of : ℕ → ℕ → RangeWork → ℕ → ℕ → Task
task_of ordinal range state start end = record {
  ordinal = ordinal;
  range = range;
  state = state;
  start = start;
  end = end;
}

abbrev pub submitted : ℕ → Chunk × RangeWork → Pool → Pool
submitted range (exhausted, state) p = p
submitted range (chunk start end, state) p = record p {
  pending = p.pending ++ task_of p.ordinal range state start end ∷ [];
  ordinal = p.ordinal + 1;
}
submitted range (assertion_failed, state) p = record p { crashed = true }

-- The loop of `submit_ready` over `ready`, with the rest of the pool.
unfoldable pub submit_ready : ℕ → List (ℕ × RangeWork) → Pool → Pool
submit_ready workers [] p = record p { ready = [] }
submit_ready workers ((range, state) ∷ ready) p = elim (ltb (length p.pending) workers) [
  | true ↦ submit_ready workers ready (submitted range (next_chunk state) p)
  | false ↦ record p { ready = (range, state) ∷ ready }
]

abbrev pub resized : Option ℕ → RangeWork → RangeWork
resized none state = state
resized (some size) state = record state { chunk_size = size }

-- The loop over the completed futures, after they left `pending`.
unfoldable pub settle : List (Task × Outcome) → Pool → Pool
settle [] p = p
settle ((task, outcome) ∷ completed) p = settle completed record p {
  ready =
      if outcome.has_error
      then p.ready
      else p.ready ++ (task.range, resized outcome.next_log_chunk_size task.state) ∷ [];
  yielded = p.yielded ++ task ∷ [];
}

-- `taken` left the list, `rest` stays; both keep the order.
pub data Takes : List Task → List Task → List Task → Type 0 where
  takes_none : Takes [] [] []
  take_one :
      {t : Task} {taken rest tasks : List Task}
      → Takes taken rest tasks
      → Takes (t ∷ taken) rest (t ∷ tasks)
  leave_one :
      {t : Task} {taken rest tasks : List Task}
      → Takes taken rest tasks
      → Takes taken (t ∷ rest) (t ∷ tasks)

-- A round of `while pending`: some futures completed, with any outcomes.
abbrev pub round : ℕ → List (Task × Outcome) → List Task → Pool → Pool
round workers completed rest p =
    let settled = settle completed (record p { pending = rest }) in
    submit_ready workers settled.ready settled

pub data Step (workers : ℕ) : Pool → Pool → Type 0 where
  complete :
      {p : Pool} (completed : List (Task × Outcome)) (rest : List Task)
      → completed ≢ []
      → Takes (map (λ x. x.0) completed) rest p.pending
      → Step workers p (round workers completed rest p)

-- The pool before the loop.
abbrev pub started : ℕ → List (ℕ × RangeWork) → Pool
started workers work =
    submit_ready workers work
      record { ready = []; pending = []; ordinal = 0; yielded = []; crashed = false }

pub data Reachable (workers : ℕ) (work : List (ℕ × RangeWork)) : Pool → Type 0 where
  at_start : Reachable workers work (started workers work)
  after : {p q : Pool} → Reachable workers work p → Step workers p q → Reachable workers work q
