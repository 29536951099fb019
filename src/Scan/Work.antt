-- ===== src/Scan/Work.antt =====
-- `_RangeWork.next_chunk` of polygon_settlement_types.py: the next chunk of a range's gaps.
use oddsfox_pipeline.Base.{
  ℕ, ◌+◌, ◌-◌, List, [], ◌∷◌, Option, none, some, min, ◌==◌, if◌then◌else◌, Interval,
}

pub record RangeWork : Type 0 where
  pub gaps : List Interval
  pub chunk_size : ℕ
  pub cursor : Option ℕ
  pub gap_end : Option ℕ

-- What `next_chunk` returns, or its failed `assert`.
pub data Chunk : Type 0 where
  exhausted : Chunk
  chunk : ℕ → ℕ → Chunk
  assertion_failed : Chunk

-- The part below the `assert`. The chunk size is positive, so the subtraction does not truncate.
unfoldable pub cut_chunk : ℕ → Option ℕ → RangeWork → Chunk × RangeWork
cut_chunk start none w = (assertion_failed, w)
cut_chunk start (some gap_end) w =
    let end = min gap_end (start + w.chunk_size - 1) in
    (
      chunk start end,
      (if end == gap_end
          then record w { cursor = none; gap_end = none }
          else record w { cursor = some (end + 1); gap_end = some gap_end }),
    )

unfoldable pub from_gaps : List Interval → RangeWork → Chunk × RangeWork
from_gaps [] w = (exhausted, w)
from_gaps ((start, end) ∷ gaps) w =
    cut_chunk start (some end) (record w { gaps = gaps; cursor = some start; gap_end = some end })

unfoldable pub from_cursor : Option ℕ → RangeWork → Chunk × RangeWork
from_cursor none w = from_gaps w.gaps w
from_cursor (some start) w = cut_chunk start w.gap_end w

unfoldable pub next_chunk : RangeWork → Chunk × RangeWork
unfolding from_cursor from_gaps cut_chunk
next_chunk w = from_cursor w.cursor w
