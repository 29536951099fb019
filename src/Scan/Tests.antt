-- ===== src/Scan/Tests.antt =====
-- The scan's theorems on small ranges and on providers that refuse some requests.
use oddsfox_pipeline.Base.{
  pos, count, nat_eq, ℕ, ◌+◌, ◌-◌, ◌≤◌, String, List, [], ◌∷◌, map, none, some, false, not, ◌&&◌,
  ◌≡◌, ◌⊎◌, inl, inr, refl, Bool-cases, ok, arith, length, ltb, leb, if◌then◌else◌, Interval, Tiles,
}
use oddsfox_pipeline.Rpc.Batches.{Reply, done, size_limit, failed}
use oddsfox_pipeline.Scan.Settings.{PolygonSettlementSyncConfig, post_init, post_init-Ends}
use oddsfox_pipeline.Scan.Work.{RangeWork, next_chunk}
use oddsfox_pipeline.Scan.Chunks.{
  IsWork, remaining, blocks, Run, stop, hand, SameBlocks, Run-partition,
}
use oddsfox_pipeline.Scan.Pool.{
  Task, Outcome, submit_ready, takes_none, take_one, round, complete, started, Reachable, at_start,
  after,
}
use oddsfox_pipeline.Scan.Disjoint.{ready_ranges, IsBounded, Reachable-IsBounded}
use oddsfox_pipeline.Scan.Gaps.{gaps}
use oddsfox_pipeline.Scan.Complement.{covers, Ascends, gaps-covers}
use oddsfox_pipeline.Scan.Resumable.{gaps-ok}
use oddsfox_pipeline.Scan.Parent.{collect_parent_range}
use oddsfox_pipeline.Scan.Leaves.{collect_parent_range-Tiles}
use oddsfox_pipeline.Scan.Receipts.{Fetched, fetch_receipts_adaptively}
use oddsfox_pipeline.Scan.Received.{Ends, fetch_receipts_adaptively-Ends}

abbrev work : RangeWork
work = record { gaps = (10, 14) ∷ (20, 21) ∷ []; chunk_size = 3; cursor = none; gap_end = none }

work-IsWork : IsWork work
work-IsWork = record {
  sized = omega arith;
  gaps_valid = (omega arith, (omega arith, tt));
  open_valid = tt;
}

abbrev after_one : RangeWork
after_one = record { gaps = (20, 21) ∷ []; chunk_size = 3; cursor = some 13; gap_end = some 14 }

abbrev after_two : RangeWork
after_two = record { gaps = (20, 21) ∷ []; chunk_size = 7; cursor = none; gap_end = none }

abbrev two : List Interval
two = (10, 12) ∷ (13, 14) ∷ []

-- The second chunk is asked for with a size of 7.
two_chunks : Run work two after_two
unfolding next_chunk
two_chunks =
    hand after_one 10 12 7 refl (omega arith) (hand after_two 13 14 7 refl (omega arith) stop)

Run-partition_example :
    IsWork after_two
    × (length two ≤ blocks two)
    × (blocks (remaining work) ≡ blocks two + blocks (remaining after_two))
    × SameBlocks (remaining work) two (remaining after_two)
Run-partition_example = Run-partition work after_two two work-IsWork two_chunks

abbrev completed : List Interval
completed = (15, 17) ∷ (10, 11) ∷ (12, 12) ∷ []

gaps_completed : gaps (10, 20) completed ≡ ok ((13, 14) ∷ (18, 20) ∷ [])
unfolding gaps
gaps_completed = refl

gaps-covers_example :
    Ascends 10 ((13, 14) ∷ (18, 20) ∷ [])
    × ((n : ℕ)
        → covers ((13, 14) ∷ (18, 20) ∷ []) n ≡ (leb 10 n && leb n 20 && not (covers completed n)))
gaps-covers_example =
    gaps-covers 10 20 completed ((13, 14) ∷ (18, 20) ∷ [])
      (omega arith, (omega arith, (omega arith, tt))) gaps_completed

gaps-ok_example : (found : List Interval) × (gaps (10, 20) completed ≡ ok found)
gaps-ok_example =
    gaps-ok 10 20 completed
      ((omega arith, omega arith), ((omega arith, omega arith), ((omega arith, omega arith), tt)))
      ((inr (omega arith), (inr (omega arith), tt)), ((inl (omega arith), tt), (tt, tt)))

-- A leaf of 250 blocks or fewer is collected; a range that ends before it starts is an error.
abbrev collect : ℕ → ℕ → ℕ → ℕ → Unit {0} → Reply Interval × Unit {0}
collect a b size splits s =
    if ltb b a then (failed 0, s) else if leb (b - a) 249 then (done (a, b), s) else (size_limit, s)

abbrev self : Interval → Interval
self i = i

collect_keeps_range :
    (a b size splits : ℕ) (s : Unit {0}) (leaf : Interval) (s' : Unit {0})
    → collect a b size splits s ≡ (done leaf, s')
    → self leaf ≡ (a, b)
collect_keeps_range a b size splits s leaf s' e = elim (Bool-cases (ltb b a)) [
  | inl backward ↦ cc (rw backward at e)
  | inr forward ↦ elim (Bool-cases (leb (b - a) 249)) [
    | inl short ↦ cc (rw (forward, short) at e)
    | inr long ↦ cc (rw (forward, long) at e)
  ]
]

collect_accepts :
    (a b size splits : ℕ) (s : Unit {0})
    → a ≤ b
    → ((leaf : Interval) × (s' : Unit {0}) × (collect a b size splits s ≡ (done leaf, s')))
      ⊎ ((250 ≤ b - a) × (s' : Unit {0}) × (collect a b size splits s ≡ (size_limit, s')))
collect_accepts a b size splits s le =
    let forward : ltb b a ≡ false = ground arith in
    elim (Bool-cases (leb (b - a) 249)) [
      | inl short ↦ inl ((a, b), s, rw (forward, short) refl)
      | inr long ↦ inr (ground arith, s, rw (forward, long) refl)
    ]

collect_parent_range-Tiles_example :
    ((collect_parent_range collect 1000 1000 2000 2000 0 tt).1 ≡ done tt)
    × Tiles 1000 (map self (collect_parent_range collect 1000 1000 2000 2000 0 tt).0) 2001
collect_parent_range-Tiles_example =
    collect_parent_range-Tiles collect self collect_keeps_range 1000 2000 2000 0 tt (omega arith)
      collect_accepts

abbrev fetch : List String → Unit {0} → Reply (Fetched ℕ) × Unit {0}
fetch batch s =
    (done (record { receipts = map (λ hash. (hash, 0)) batch; duration = 100; retried = false }), s)

fetch_receipts_adaptively-Ends_example :
    Ends fetch ("0x1" ∷ "0x2" ∷ []) (fetch_receipts_adaptively fetch ("0x1" ∷ "0x2" ∷ []) 5 tt)
fetch_receipts_adaptively-Ends_example =
    fetch_receipts_adaptively-Ends fetch ("0x1" ∷ "0x2" ∷ []) 5 tt (omega arith) (omega arith)

abbrev settings : PolygonSettlementSyncConfig
settings = record {
  requests_per_second = 5;
  workers = 5;
  initial_block_chunk_size = 8000;
  initial_receipt_batch_size = 20;
  transient_retries = pos 4;
  transient_backoff_seconds = pos 1;
}

settings_accepted : post_init settings ≡ ok tt
unfolding post_init
settings_accepted = refl

post_init-Ends_example :
    Ends fetch ("0x1" ∷ "0x2" ∷ []) (fetch_receipts_adaptively fetch ("0x1" ∷ "0x2" ∷ []) 20 tt)
post_init-Ends_example = post_init-Ends fetch settings ("0x1" ∷ "0x2" ∷ []) tt settings_accepted

abbrev two_ranges : List (ℕ × RangeWork)
two_ranges = (1, work) ∷ (2, after_two) ∷ []

abbrev first_task : Task
first_task = record { ordinal = 0; range = 1; state = after_one; start = 10; end = 12 }

abbrev grown : Outcome
grown = record { next_log_chunk_size = some 7; has_error = false }

-- One worker: the first chunk of range 1 completes, and range 2 is next.
one_round : Reachable 1 two_ranges (round 1 ((first_task, grown) ∷ []) [] (started 1 two_ranges))
unfolding submit_ready next_chunk
one_round = after at_start (complete ((first_task, grown) ∷ []) [] (λ e. cc) (take_one takes_none))

different_ranges : (k : ℕ) → count k (ready_ranges two_ranges) ≤ 1
unfolding count
different_ranges k = ground arith

Reachable-IsBounded_example :
    IsBounded 1 (round 1 ((first_task, grown) ∷ []) [] (started 1 two_ranges))
Reachable-IsBounded_example =
    Reachable-IsBounded 1 two_ranges (round 1 ((first_task, grown) ∷ []) [] (started 1 two_ranges))
      different_ranges one_round

abbrev spent : RangeWork
spent = record { gaps = []; chunk_size = 3; cursor = none; gap_end = none }
