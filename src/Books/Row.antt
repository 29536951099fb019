-- ===== src/Books/Row.antt =====
-- Normalized book rows, and the depth of a snapshot: `levels` of books.py. A price or a quantity is
-- a non-negative decimal, read as a multiple of a unit that all of them share; a time is a number.
use oddsfox_pipeline.Base.{
  ℕ, String, List, [], ◌∷◌, Option, Bool, true, false, ◌||◌, Result, ok, err, ◌>>=◌, leb, ◌==◌,
  if◌then◌else◌,
}

pub data BookSide : Type 0 where
  buy sell : BookSide

-- (price, quantity)
abbrev pub Level : Type 0
Level = ℕ × ℕ

-- A row's kind, with the keys that only rows of this kind have: the bids and asks of a snapshot
-- ("book"), the side, price and quantity of a change.
pub data RowKind : Type 0 where
  snapshot : List Level → List Level → RowKind
  price_change : BookSide → ℕ → ℕ → RowKind
  tick_size_change market_resolved reset : RowKind

-- A key that a row lacks is `none`.
pub record Row : Type 0 where
  pub source : String
  pub stream : String
  pub sequence : ℕ
  pub ordinal : ℕ
  pub received_at : ℕ
  pub source_at : Option ℕ
  pub condition_id : Option String
  pub token_id : String
  pub kind : RowKind
  pub reason : Option String
  pub tick_size : Option ℕ
  pub source_hash : Option String
  pub raw_identity : String

pub data LevelError : Type 0 where
  duplicate_price : LevelError

unfoldable pub has_price : ℕ → List Level → Bool
has_price price [] = false
has_price price ((p, q) ∷ levels) = p == price || has_price price levels

-- The loop of `levels`, over parsed pairs: `seen` holds the prices met so far, zero sizes too.
unfoldable pub collect_levels : List Level → List Level → Result LevelError (List Level)
collect_levels seen [] = ok []
collect_levels seen ((price, size) ∷ raw) = elim (has_price price seen) [
  | true ↦ err duplicate_price
  | false ↦ collect_levels ((price, size) ∷ seen) raw >>= λ result.
      ok (if size == 0 then result else (price, size) ∷ result)
]

-- `sorted(result, key=price, reverse=bids)`, a stable sort.
unfoldable pub insert_level : Bool → Level → List Level → List Level
insert_level descending level [] = level ∷ []
insert_level descending level (next ∷ levels) =
    if (if descending then leb next.0 level.0 else leb level.0 next.0)
    then level ∷ next ∷ levels
    else next ∷ insert_level descending level levels

unfoldable pub sort_levels : Bool → List Level → List Level
unfolding insert_level
sort_levels descending [] = []
sort_levels descending (level ∷ levels) =
    insert_level descending level (sort_levels descending levels)

unfoldable pub levels : Bool → List Level → Result LevelError (List Level)
unfolding collect_levels sort_levels has_price
levels bids raw = collect_levels [] raw >>= λ result. ok (sort_levels bids result)
