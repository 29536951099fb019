-- ===== src/Scan/Disjoint.antt =====
-- In each state of the pool at most `workers` chunks are collected, and each range is ready or in
-- collection once at most.
use mathlib.Core.List.{map-append}
use oddsfox_pipeline.Base.{
  ℕ, ◌+◌, ◌≤◌, ◌<◌, List, [], ◌∷◌, ◌++◌, map, Bool, true, false, ◌≡◌, refl, ap, ◌∙◌, inl, inr,
  arith, Bool-cases, ltb, ltb→lt, length, length-append, count, count-append, nat_eq, if◌then◌else◌,
}
use oddsfox_pipeline.Scan.Work.{RangeWork, Chunk, exhausted, chunk, assertion_failed, next_chunk}
use oddsfox_pipeline.Scan.Pool.{
  Task, Outcome, Pool, submitted, submit_ready, resized, settle, Takes, takes_none, take_one,
  leave_one, round, complete, started, Reachable, at_start, after,
}

abbrev pub ready_ranges : List (ℕ × RangeWork) → List ℕ
ready_ranges = map (λ (x : ℕ × RangeWork). x.0)

abbrev pub task_ranges : List Task → List ℕ
task_ranges = map (λ (t : Task). t.range)

-- How often the range `k` is ready or in collection.
abbrev pub holds : ℕ → Pool → ℕ
holds k p = count k (ready_ranges p.ready) + count k (task_ranges p.pending)

submitted-holds :
    (k workers range : ℕ) (c : Chunk × RangeWork) (p : Pool)
    → length p.pending < workers
    → (count k (task_ranges (submitted range c p).pending)
        ≤ count k (range ∷ []) + count k (task_ranges p.pending))
      × (length (submitted range c p).pending ≤ workers)
unfolding count
submitted-holds k workers range (exhausted, state) p h = (omega arith, omega arith)
submitted-holds k workers range (assertion_failed, state) p h = (omega arith, omega arith)
submitted-holds k workers range (chunk start end, state) p h =
    let t : Task = record {
      ordinal = p.ordinal;
      range = range;
      state = state;
      start = start;
      end = end;
    } in
    let more =
      ap (count k) (map-append (λ (t : Task). t.range) p.pending (t ∷ []))
      ∙ count-append k (task_ranges p.pending) (range ∷ []) in
    (omega (arith, more), omega (arith, length-append p.pending (t ∷ [])))

submit_ready-holds :
    (k workers : ℕ) (ready : List (ℕ × RangeWork)) (p : Pool)
    → length p.pending ≤ workers
    → (holds k (submit_ready workers ready p)
        ≤ count k (ready_ranges ready) + count k (task_ranges p.pending))
      × (length (submit_ready workers ready p).pending ≤ workers)
unfolding submit_ready count
submit_ready-holds k workers [] p h = (omega arith, h)
submit_ready-holds k workers ((range, state) ∷ ready) p h =
    elim (Bool-cases (ltb (length p.pending) workers)) [
      | inl free ↦
          let (few, room) =
            submitted-holds k workers range (next_chunk state) p (ltb→lt _ _ free) in
          let (less, room') =
            submit_ready-holds k workers ready (submitted range (next_chunk state) p) room in
          rw (free, submit_ready) (omega (arith, less, few), room')
      | inr full ↦ rw (full, submit_ready) (omega arith, h)
    ]

-- A range goes back once, or not at all.
back-count :
    (k : ℕ) (has_error : Bool) (ready : List (ℕ × RangeWork)) (range : ℕ) (state : RangeWork)
    → count k (ready_ranges (if has_error then ready else ready ++ (range, state) ∷ []))
      ≤ count k (ready_ranges ready) + count k (range ∷ [])
unfolding count
back-count k true ready range state = omega arith
back-count k false ready range state =
    let more =
      ap (count k) (map-append (λ (x : ℕ × RangeWork). x.0) ready ((range, state) ∷ []))
      ∙ count-append k (ready_ranges ready) (range ∷ []) in
    omega (arith, more)

settle-holds :
    (k : ℕ) (completed : List (Task × Outcome)) (p : Pool)
    → (holds k (settle completed p) ≤ holds k p + count k (task_ranges (map (λ x. x.0) completed)))
      × ((settle completed p).pending ≡ p.pending)
unfolding settle count
settle-holds k [] p = (omega arith, refl)
settle-holds k ((task, outcome) ∷ completed) p =
    let (less, same) = settle-holds k completed (record p {
      ready =
          if outcome.has_error
          then p.ready
          else p.ready ++ (task.range, resized outcome.next_log_chunk_size task.state) ∷ [];
      yielded = p.yielded ++ task ∷ [];
    }) in
    let kept =
      back-count k outcome.has_error p.ready task.range
        (resized outcome.next_log_chunk_size task.state) in
    (omega (arith, less, kept), same)

Takes-count :
    (k : ℕ) {taken rest tasks : List Task}
    → Takes taken rest tasks
    → count k (task_ranges tasks) ≡ count k (task_ranges taken) + count k (task_ranges rest)
unfolding count
Takes-count k takes_none = omega arith
Takes-count k (take_one t) = omega (arith, Takes-count k t)
Takes-count k (leave_one t) = omega (arith, Takes-count k t)

Takes-length : {taken rest tasks : List Task} → Takes taken rest tasks → length rest ≤ length tasks
Takes-length takes_none = omega arith
Takes-length (take_one t) = omega (arith, Takes-length t)
Takes-length (leave_one t) = omega (arith, Takes-length t)

-- At most `workers` chunks are in collection, and no range is ready or in collection twice.
pub record IsBounded (workers : ℕ) (p : Pool) : Type 0 where
  pub few : length p.pending ≤ workers
  pub once : (k : ℕ) → holds k p ≤ 1

started-IsBounded :
    (workers : ℕ) (work : List (ℕ × RangeWork))
    → ((k : ℕ) → count k (ready_ranges work) ≤ 1)
    → IsBounded workers (started workers work)
unfolding count
started-IsBounded workers work distinct =
    let empty : Pool = record {
      ready = [];
      pending = [];
      ordinal = 0;
      yielded = [];
      crashed = false;
    } in
    record {
      few = (submit_ready-holds 0 workers work empty (omega arith)).1;
      once =
          λ k. omega (arith, (submit_ready-holds k workers work empty (omega arith)).0, distinct k);
    }

round-IsBounded :
    (workers : ℕ) (completed : List (Task × Outcome)) (rest : List Task) (p : Pool)
    → Takes (map (λ x. x.0) completed) rest p.pending
    → IsBounded workers p
    → IsBounded workers (round workers completed rest p)
round-IsBounded workers completed rest p t b =
    let left : Pool = record p { pending = rest } in
    let settled = settle completed left in
    let room : length settled.pending ≤ workers =
      omega (arith, ap length (settle-holds 0 completed left).1, Takes-length t, b.few) in
    record {
      few = (submit_ready-holds 0 workers settled.ready settled room).1;
      once = λ k. omega (
        arith,
        (submit_ready-holds k workers settled.ready settled room).0,
        (settle-holds k completed left).0,
        Takes-count k t,
        b.once k,
      );
    }

-- Where the ranges of the work differ, in every state that the pool reaches, whatever completes in
-- whatever order, at most `workers` chunks are in collection, and no range has two chunks in
-- collection, or one in collection while it is ready for the next.
pub Reachable-IsBounded :
    (workers : ℕ) (work : List (ℕ × RangeWork)) (p : Pool)
    → ((k : ℕ) → count k (ready_ranges work) ≤ 1)
    → Reachable workers work p
    → IsBounded workers p
Reachable-IsBounded workers work p distinct at_start = started-IsBounded workers work distinct
Reachable-IsBounded workers work p distinct
      (after {p = q} r (complete completed rest some_completed t)) =
    round-IsBounded workers completed rest q t (Reachable-IsBounded workers work q distinct r)
