-- ===== src/Books/Replay.antt =====
-- What holds of a book after any rows.
use oddsfox_pipeline.Base.{
  List, [], ◌∷◌, Bool, true, false, not, ◌&&◌, ◌≡◌, refl, ◌∙◌, inl, inr, arith, Bool-cases,
  if◌then◌else◌, All,
}
use oddsfox_pipeline.Books.Row.{
  Row, RowKind, snapshot, price_change, tick_size_change, market_resolved, reset, buy, sell,
}
use oddsfox_pipeline.Books.Book.{
  Book, resolved, status, is_archive, is_reset, conflict, ordered_row, marked, archive_order,
}
use oddsfox_pipeline.Books.Apply.{change_side, apply_kind, apply, replay}
use oddsfox_pipeline.Books.Depth.{IsDepth, IsPositive, change_side-IsDepth, add_levels-IsDepth}

-- Both sides are sound, and a book that is not initialized displays nothing.
pub record IsBook (b : Book) : Type 0 where
  pub bid_depth : IsDepth b.bids
  pub ask_depth : IsDepth b.asks
  pub hidden_bids : b.initialized ≡ false → b.bids ≡ []
  pub hidden_asks : b.initialized ≡ false → b.asks ≡ []

-- The levels of a snapshot have positive sizes, as `levels` leaves them.
abbrev pub IsRowKind : RowKind → Type 0
IsRowKind (snapshot bids asks) = All IsPositive bids × All IsPositive asks
IsRowKind _ = Unit

IsBook-if :
    (t : Bool) (x y : Book)
    → (t ≡ true → IsBook x)
    → (t ≡ false → IsBook y)
    → IsBook (if t then x else y)
IsBook-if true x y f g = f refl
IsBook-if false x y f g = g refl

apply_kind-IsBook :
    (kind : RowKind) (row : Row) (b : Book)
    → IsRowKind kind
    → IsBook b
    → IsBook (apply_kind kind row b)
unfolding apply_kind
apply_kind-IsBook (snapshot bids asks) row b k v = record {
  bid_depth = add_levels-IsDepth [] bids tt k.0;
  ask_depth = add_levels-IsDepth [] asks tt k.1;
  hidden_bids = λ e. cc e;
  hidden_asks = λ e. cc e;
}
apply_kind-IsBook (price_change buy price quantity) row b k v =
    IsBook-if b.initialized (record b { bids = change_side price quantity b.bids }) b
      (λ on. record {
        bid_depth = change_side-IsDepth price quantity b.bids v.bid_depth;
        ask_depth = v.ask_depth;
        hidden_bids = λ e. cc;
        hidden_asks = λ e. cc;
      })
      λ off. v
apply_kind-IsBook (price_change sell price quantity) row b k v =
    IsBook-if b.initialized (record b { asks = change_side price quantity b.asks }) b
      (λ on. record {
        bid_depth = v.bid_depth;
        ask_depth = change_side-IsDepth price quantity b.asks v.ask_depth;
        hidden_bids = λ e. cc;
        hidden_asks = λ e. cc;
      })
      λ off. v
apply_kind-IsBook tick_size_change row b k v = record {
  bid_depth = v.bid_depth;
  ask_depth = v.ask_depth;
  hidden_bids = v.hidden_bids;
  hidden_asks = v.hidden_asks;
}
apply_kind-IsBook market_resolved row b k v = record {
  bid_depth = tt;
  ask_depth = tt;
  hidden_bids = λ e. refl;
  hidden_asks = λ e. refl;
}
apply_kind-IsBook reset row b k v = record {
  bid_depth = tt;
  ask_depth = tt;
  hidden_bids = λ e. refl;
  hidden_asks = λ e. refl;
}

module _ (b : Book) (row : Row) where
  -- The marks of the archive order touch neither side, nor the kind of a row that is not reset.
  archive_order-IsBook : IsBook b → IsBook (archive_order b row).1
  unfolding archive_order
  archive_order-IsBook v = elim (Bool-cases (is_archive row)) [
    | inl archive ↦
        rw (archive, archive_order)
          record {
            bid_depth = v.bid_depth;
            ask_depth = v.ask_depth;
            hidden_bids = v.hidden_bids;
            hidden_asks = v.hidden_asks;
          }
    | inr live ↦ rw (live, archive_order) v
  ]

  archive_order-IsRowKind : IsRowKind row.kind → IsRowKind (archive_order b row).0.kind
  unfolding archive_order
  archive_order-IsRowKind k = elim (Bool-cases (is_archive row)) [
    | inl archive ↦ elim (Bool-cases (conflict b row && not (is_reset row.kind))) [
      | inl bad ↦ rw (archive, archive_order) (rw (bad, ordered_row) tt)
      | inr fine ↦ rw (archive, archive_order) (rw (fine, ordered_row) k)
    ]
    | inr live ↦ rw (live, archive_order) k
  ]

  -- Any row keeps both sides of the book sound, and an uninitialized book empty.
  pub apply-IsBook : IsRowKind row.kind → IsBook b → IsBook (apply row b).1
  unfolding apply
  apply-IsBook k v =
      let (row', ordered) = archive_order b row in
      let after =
        apply_kind-IsBook row'.kind row' ordered (archive_order-IsRowKind k)
          (archive_order-IsBook v) in
      record {
        bid_depth = after.bid_depth;
        ask_depth = after.ask_depth;
        hidden_bids = after.hidden_bids;
        hidden_asks = after.hidden_asks;
      }

-- From a sound book, and after any rows whose snapshots have positive quantities, each side of the
-- book lists each price once with a positive quantity, and a book that is not initialized shows no
-- level.
pub replay-IsBook :
    (rows : List Row) (b : Book)
    → All (λ row. IsRowKind row.kind) rows
    → IsBook b
    → IsBook (replay rows b)
unfolding replay
replay-IsBook [] b k v = v
replay-IsBook (row ∷ rows) b k v = replay-IsBook rows (apply row b).1 k.1 (apply-IsBook b row k.0 v)

apply_kind-terminal :
    (kind : RowKind) (row : Row) (b : Book)
    → b.terminal_seen ≡ true
    → (apply_kind kind row b).terminal_seen ≡ true
unfolding apply_kind
apply_kind-terminal (snapshot bids asks) row b h = h
apply_kind-terminal (price_change buy price quantity) row b h = ground arith
apply_kind-terminal (price_change sell price quantity) row b h = ground arith
apply_kind-terminal tick_size_change row b h = h
apply_kind-terminal market_resolved row b h = ground arith
apply_kind-terminal reset row b h = ground arith

archive_order-terminal :
    (row : Row) (b : Book) → (archive_order b row).1.terminal_seen ≡ b.terminal_seen
unfolding archive_order marked
archive_order-terminal row b = elim (Bool-cases (is_archive row)) [
  | inl archive ↦ rw (archive, archive_order) refl
  | inr live ↦ rw (live, archive_order) refl
]

-- Once a book has seen its market resolved, its status is that, whatever rows follow.
status-replay_resolved :
    (rows : List Row) (b : Book) → b.terminal_seen ≡ true → status (replay rows b) ≡ resolved
unfolding replay status
status-replay_resolved [] b h = rw h
status-replay_resolved (row ∷ rows) b h =
    let ordered = archive_order b row in
    status-replay_resolved rows (apply row b).1 (
      unfold apply in
      apply_kind-terminal ordered.0.kind ordered.0 ordered.1 (archive_order-terminal row b ∙ h))
