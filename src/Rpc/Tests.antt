-- ===== src/Rpc/Tests.antt =====
-- A provider that refuses requests longer than two, and the theorems on the client's answers to it.
use oddsfox_pipeline.Base.{
  ℕ, ◌≤◌, ◌<◌, ◌*◌, ◌-◌, List, [], ◌∷◌, map, ◌≡◌, ◌⊎◌, inl, inr, refl, true, Bool-cases, Result, ok,
  err, ap, ◌∙◌, ◌==◌, ==_iff, arith, length, false, ltb, leb, All, if◌then◌else◌, Tiles,
}
use oddsfox_pipeline.Rpc.Search.{
  PolygonBlock, RpcError, past_finalized_head, missing_header, first_block_at_or_after,
}
use oddsfox_pipeline.Rpc.Restored.{value_of-here, value_of-later}
use oddsfox_pipeline.Rpc.Vector.{first_blocks_at_or_after}
use oddsfox_pipeline.Rpc.Together.{EachFound, first_blocks_at_or_after-EachFound}
use oddsfox_pipeline.Rpc.FirstBlock.{IsFirstAt, first_block_at_or_after-IsFirstAt}
use oddsfox_pipeline.Rpc.Batches.{
  Reply, done, size_limit, failed, adaptive_batch_call, adaptive_log_leaves,
}
use oddsfox_pipeline.Rpc.Coverage.{Covers}
use oddsfox_pipeline.Rpc.Answered.{IsAnswered}
use oddsfox_pipeline.Rpc.Narrowed.{IsTimed, IsHeaderSource}
use oddsfox_pipeline.Rpc.Tiling.{
  IsSizeLimited, IsRangeLimited, leaf_range, adaptive_batch_call-done, adaptive_log_leaves-Covers,
  adaptive_log_leaves-Tiles,
}

abbrev double : ℕ → ℕ
double n = 2 * n

abbrev head : PolygonBlock
head = record { number = 10; hash = "0x0a"; timestamp = 20 }

first_block_at_or_after-IsFirstAt_example :
    ((7 ≤ 20)
      × (found : ℕ) × (first_block_at_or_after (λ n. ok (double n)) 7 head 1 ≡ ok found)
      × IsFirstAt double 7 1 10 found)
    ⊎ ((20 < 7) × (first_block_at_or_after (λ n. ok (double n)) 7 head 1 ≡ err past_finalized_head))
first_block_at_or_after-IsFirstAt_example =
    first_block_at_or_after-IsFirstAt double 7 (λ m n le. omega arith) head 1 refl (omega arith)

-- A batch of two calls or fewer is answered, each call by its double.
abbrev answer_batch : List ℕ → Unit {0} → Reply (List ℕ) × Unit {0}
answer_batch calls s =
    if leb (length calls) 2 then (done (map double calls), s) else (size_limit, s)

answer_batch-IsSizeLimited : IsSizeLimited answer_batch double
answer_batch-IsSizeLimited = record {
  small =
      λ calls s few. let short : leb (length calls) 2 ≡ true = ground arith in (s, rw short refl);
  any = λ calls s. elim (Bool-cases (leb (length calls) 2)) [
    | inl short ↦ (s, inl (rw short refl))
    | inr long ↦ (s, inr (rw long refl))
  ];
}

adaptive_batch_call-done_example :
    (s : Unit {0}) × (adaptive_batch_call answer_batch 4 (1 ∷ 2 ∷ 3 ∷ 4 ∷ 5 ∷ []) tt
      ≡ (done (map double (1 ∷ 2 ∷ 3 ∷ 4 ∷ 5 ∷ [])), s))
adaptive_batch_call-done_example =
    adaptive_batch_call-done answer_batch double answer_batch-IsSizeLimited 4
      (1 ∷ 2 ∷ 3 ∷ 4 ∷ 5 ∷ []) tt (omega arith)

-- A range of two blocks or fewer is answered; a range that ends before it starts is an error.
abbrev answer_range : ℕ → ℕ → Unit {0} → Reply ℕ × Unit {0}
answer_range a b s =
    if ltb b a then (failed 0, s) else if leb (b - a) 1 then (done a, s) else (size_limit, s)

answer_range-IsRangeLimited : IsRangeLimited answer_range
answer_range-IsRangeLimited = record {
  single = λ n s.
      let forward : ltb n n ≡ false = ground arith in
      let short : leb (n - n) 1 ≡ true = ground arith in (n, s, rw (forward, short) refl);
  longer = λ a b s le.
      let forward : ltb b a ≡ false = ground arith in
      elim (Bool-cases (leb (b - a) 1)) [
        | inl short ↦ inl (a, s, rw (forward, short) refl)
        | inr long ↦ inr (s, rw (forward, long) refl)
      ];
}

adaptive_log_leaves-Covers_example :
    All (IsAnswered answer_range) (adaptive_log_leaves answer_range 10 100 110 tt).0
    × Covers leaf_range 100 111 (adaptive_log_leaves answer_range 10 100 110 tt)
adaptive_log_leaves-Covers_example =
    adaptive_log_leaves-Covers answer_range 10 100 110 tt (omega arith)

adaptive_log_leaves-Tiles_example :
    ((adaptive_log_leaves answer_range 10 100 110 tt).1 ≡ done tt)
    × Tiles 100 (map leaf_range (adaptive_log_leaves answer_range 10 100 110 tt).0) 111
    × All (IsAnswered answer_range) (adaptive_log_leaves answer_range 10 100 110 tt).0
adaptive_log_leaves-Tiles_example =
    adaptive_log_leaves-Tiles answer_range answer_range-IsRangeLimited 100 110 tt (omega arith)

-- A header for each number asked for, none for any other.
abbrev double_headers : List ℕ → List (ℕ × PolygonBlock)
double_headers [] = []
double_headers (n ∷ numbers) =
    (n, record { number = n; hash = "0x0a"; timestamp = double n }) ∷ double_headers numbers

abbrev double_blocks : List ℕ → Result RpcError (List (ℕ × PolygonBlock))
double_blocks numbers = ok (double_headers numbers)

later-IsTimed :
    (m n : ℕ) (numbers : List ℕ)
    → IsTimed double (double_headers numbers) n
    → IsTimed double (double_headers (m ∷ numbers)) n
later-IsTimed m n numbers (block, found, timed) = elim (Bool-cases (m == n)) [
  | inl same ↦
      let e : m ≡ n = (==_iff m n).0 same in
      (_, value_of-here n m _ (double_headers numbers) same, ap double e)
  | inr other ↦ (block, value_of-later n m _ (double_headers numbers) other ∙ found, timed)
]

laters-IsTimed :
    (m : ℕ) (numbers asked : List ℕ)
    → All (IsTimed double (double_headers numbers)) asked
    → All (IsTimed double (double_headers (m ∷ numbers))) asked
laters-IsTimed m numbers [] h = tt
laters-IsTimed m numbers (n ∷ asked) h =
    (later-IsTimed m n numbers h.0, laters-IsTimed m numbers asked h.1)

double_headers-IsTimed : (numbers : List ℕ) → All (IsTimed double (double_headers numbers)) numbers
double_headers-IsTimed [] = tt
double_headers-IsTimed (n ∷ numbers) = (
  (_, value_of-here n n _ (double_headers numbers) ((==_iff n n).1 refl), refl),
  laters-IsTimed n numbers numbers (double_headers-IsTimed numbers),
)

double_blocks-IsHeaderSource : IsHeaderSource double 10 double_blocks
double_blocks-IsHeaderSource numbers h =
    (double_headers numbers, refl, double_headers-IsTimed numbers)

first_blocks_at_or_after-EachFound_example :
    (found : List ℕ) × (first_blocks_at_or_after double_blocks (7 ∷ 20 ∷ 0 ∷ []) head ≡ ok found)
    × EachFound double head (7 ∷ 20 ∷ 0 ∷ []) found
first_blocks_at_or_after-EachFound_example =
    first_blocks_at_or_after-EachFound double head (7 ∷ 20 ∷ 0 ∷ []) double_blocks
      double_blocks-IsHeaderSource (omega arith, (omega arith, (omega arith, tt)))

-- A provider that returns no header is a KeyError.
unanswered : first_blocks_at_or_after (λ numbers. ok []) (7 ∷ []) head ≡ err missing_header
unfolding first_blocks_at_or_after
unanswered = refl

all_found : first_blocks_at_or_after double_blocks (7 ∷ 20 ∷ 0 ∷ []) head ≡ ok (4 ∷ 10 ∷ 0 ∷ [])
unfolding first_blocks_at_or_after
all_found = refl
