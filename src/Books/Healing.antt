-- ===== src/Books/Healing.antt =====
-- A conflict in an archive's order hides the book until a later receive time.
use oddsfox_pipeline.Base.{ℕ, ◌≤◌, List, [], ◌∷◌, some, true, false, ◌≡◌, ◌∙◌, arith, All}
use oddsfox_pipeline.Books.Row.{Row, RowKind}
use oddsfox_pipeline.Books.Book.{
  Book, is_archive, is_reset, conflict, conflicts, ordered_row, marked, archive_order,
}
use oddsfox_pipeline.Books.Apply.{apply_kind, apply, replay}

-- The book is uncertain about the rows received up to `t`, and shows nothing.
pub record IsUncertain (t : ℕ) (b : Book) : Type 0 where
  pub high : b.archive_highwater ≡ some t
  pub uncertain : b.archive_uncertain ≡ true
  pub hidden : b.initialized ≡ false

conflict-le :
    (t : ℕ) (row : Row) (b : Book)
    → b.archive_highwater ≡ some t
    → conflict b row ≡ true
    → row.received_at ≤ t
unfolding conflicts
conflict-le t row b h c = ground arith

conflict_repeats :
    (t : ℕ) (row : Row) (b : Book) → IsUncertain t b → row.received_at ≤ t → conflict b row ≡ true
unfolding conflicts
conflict_repeats t row b u le = ground arith

ordered_row-reset :
    (row : Row) (b : Book) → conflict b row ≡ true → is_reset (ordered_row b row).kind ≡ true
unfolding ordered_row
ordered_row-reset row b c = ground arith

apply_kind-hidden :
    (kind : RowKind) (row : Row) (b : Book)
    → is_reset kind ≡ true
    → (apply_kind kind row b).initialized ≡ false
unfolding apply_kind
apply_kind-hidden kind row b h = ground arith

apply_kind-highwater :
    (kind : RowKind) (row : Row) (b : Book)
    → (apply_kind kind row b).archive_highwater ≡ b.archive_highwater
unfolding apply_kind
apply_kind-highwater kind row b = ground arith

apply_kind-uncertain :
    (kind : RowKind) (row : Row) (b : Book)
    → (apply_kind kind row b).archive_uncertain ≡ b.archive_uncertain
unfolding apply_kind
apply_kind-uncertain kind row b = ground arith

marked-highwater :
    (t : ℕ) (row : Row) (b : Book)
    → b.archive_highwater ≡ some t
    → row.received_at ≤ t
    → (marked b row).archive_highwater ≡ some t
unfolding marked
marked-highwater t row b h le = ground arith

marked-uncertain :
    (row : Row) (b : Book) → conflict b row ≡ true → (marked b row).archive_uncertain ≡ true
unfolding marked
marked-uncertain row b c = ground arith

-- An archive row that conflicts leaves the book uncertain.
conflict-IsUncertain :
    (t : ℕ) (row : Row) (b : Book)
    → is_archive row ≡ true
    → b.archive_highwater ≡ some t
    → conflict b row ≡ true
    → IsUncertain t (apply row b).1
unfolding apply archive_order
conflict-IsUncertain t row b archive h c =
    let next = ordered_row b row in
    let after = marked b row in
    rw (archive, archive_order)
      record {
        high =
            apply_kind-highwater next.kind next after
            ∙ marked-highwater t row b h (conflict-le t row b h c);
        uncertain = apply_kind-uncertain next.kind next after ∙ marked-uncertain row b c;
        hidden = apply_kind-hidden next.kind next after (ordered_row-reset row b c);
      }

-- The archive rows that were received by `t`.
abbrev pub IsArchivedBy : ℕ → Row → Type 0
IsArchivedBy t row = (is_archive row ≡ true) × (row.received_at ≤ t)

replay-IsUncertain :
    (t : ℕ) (rows : List Row) (b : Book)
    → IsUncertain t b
    → All (IsArchivedBy t) rows
    → IsUncertain t (replay rows b)
unfolding replay
replay-IsUncertain t [] b u a = u
replay-IsUncertain t (row ∷ rows) b u a =
    replay-IsUncertain t rows (apply row b).1
      (conflict-IsUncertain t row b a.0.0 u.high (conflict_repeats t row b u a.0.1)) a.1

-- Once an archive row conflicts with the order of a book whose high water is `t`, the book stays
-- uninitialized, and its high water `t`, through all archive rows received up to `t`.
pub replay-conflict_hides :
    (t : ℕ) (row : Row) (rows : List Row) (b : Book)
    → is_archive row ≡ true
    → b.archive_highwater ≡ some t
    → conflict b row ≡ true
    → All (IsArchivedBy t) rows
    → ((replay (row ∷ rows) b).initialized ≡ false)
      × ((replay (row ∷ rows) b).archive_highwater ≡ some t)
unfolding replay
replay-conflict_hides t row rows b archive h c a =
    let u =
      replay-IsUncertain t rows (apply row b).1 (conflict-IsUncertain t row b archive h c) a in
    (u.hidden, u.high)
