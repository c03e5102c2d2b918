-- ===== src/Mdv/Wrap/Put/Rows.antt =====
-- The room that `put` of tools/mdvref.py makes for a character: the row that is broken, and the next one.
use elf_dos.Base.{
  ℕ, ◌+◌, ◌≤◌, ◌<◌, ◌≡◌, refl, ap, ◌∙◌, Bool, true, false, Option, none, some, List, [], ◌∷◌, ◌++◌,
  append_assoc, arith, ltb, leb, ◌||◌, if◌then◌else◌, Bool-cases, inl, inr, length, take, drop,
  take-append, drop-append, drop-drop,
}
use elf_dos.Mdv.Style.{vis, is_cont, reset}
use elf_dos.Mdv.Style.Columns.{
  IsPiece, IsPiece-nil, IsPiece-append, IsPiece-rest, IsPiece-byte, IsPiece-behind,
}
use elf_dos.Mdv.Wrap.{
  prefix_cols, unless_plain, Wrap, start, style_bytes, is_some, end_row, rewrap, break_row,
  make_room,
}
use elf_dos.Mdv.Wrap.Width.{row-OutFits, sequence-IsPiece, reset-IsPiece}
use elf_dos.Mdv.Wrap.Invariant.{IsReady, InRow, BreakAt, BreakOk, start-InRow, style-IsPiece}

-- The row that is written is the piece built so far and perhaps a reset.
pub end_row-IsReady :
    {n : ℕ} (w : Wrap) (k : ℕ) → IsReady n w → IsPiece w.rb k → k ≤ n → IsReady n (end_row w)
unfolding end_row
end_row-IsReady {n} w k r p h = record {
  out =
      row-OutFits _ w.out
        (record {
          cols = k + 0;
          piece = IsPiece-append w.rb _ k 0 p (closing (is_some w.rstyle));
          fits = omega (arith, h);
        })
        r.out;
  params = r.params;
  first = r.first;
  next = r.next;
  order = r.order;
  narrow = r.narrow;
}
  where
    closing : (b : Bool) → IsPiece (if b then unless_plain w.out.plain reset else []) 0
    closing true = sequence-IsPiece w.out.plain reset reset-IsPiece
    closing false = IsPiece-nil

-- A new row after the one that is built.
pub next_row-InRow : {n : ℕ} (w : Wrap) → InRow n w → InRow n (start false (end_row w))
next_row-InRow w h = start-InRow false (end_row w) (end_row-IsReady w w.col h.ready h.piece h.fits)

pub col-next_row : (w : Wrap) → (start false (end_row w)).col ≡ prefix_cols w.cp
unfolding start end_row
col-next_row w = refl

module _ {n : ℕ} (w : Wrap) (h : InRow n w) (idx : ℕ) (bst : Option ℕ)
    (at : BreakAt w.rb w.pcol idx) where
  abbrev pub cut : Wrap
  cut = record w { rb = take idx w.rb; rstyle = bst }

  pub kept : take idx w.rb ≡ at.before
  kept =
      ap (λ (k : ℕ). take k w.rb) at.place
      ∙ ap (take (length at.before)) at.whole
      ∙ take-append at.before (b' ' ∷ at.after)

  pub moved : drop (idx + 1) w.rb ≡ at.after
  moved =
      drop-drop idx 1 w.rb
      ∙ ap (λ (k : ℕ). drop 1 (drop k w.rb)) at.place
      ∙ ap (λ t. drop 1 (drop (length at.before) t)) at.whole
      ∙ ap (drop 1) (drop-append at.before (b' ' ∷ at.after))

  pub space-IsPiece : IsPiece (at.before ++ b' ' ∷ []) (at.cols + 1)
  unfolding is_cont
  space-IsPiece =
      IsPiece-append at.before (b' ' ∷ []) at.cols 1 at.piece (IsPiece-byte b' ' (omega arith))

  pub split : (IsPiece at.after (vis at.after)) × (w.col ≡ at.cols + 1 + vis at.after)
  split =
      IsPiece-rest (at.before ++ b' ' ∷ []) at.after (at.cols + 1) w.col space-IsPiece
        (rw (append_assoc at.before (b' ' ∷ []) at.after) (rw (at.whole) at h.piece))

  pub cut-IsReady : IsReady n (end_row cut)
  cut-IsReady =
      end_row-IsReady cut at.cols
        (record {
          out = h.ready.out;
          params = h.ready.params;
          first = h.ready.first;
          next = h.ready.next;
          order = h.ready.order;
          narrow = h.ready.narrow;
        })
        (rw kept at.piece) (omega (arith, split.1, h.fits))

  abbrev pub fresh : Wrap
  fresh = start false (end_row cut)

  pub fresh-InRow : InRow n fresh
  fresh-InRow = start-InRow false (end_row cut) cut-IsReady

  pub col-fresh : fresh.col ≡ prefix_cols w.cp
  unfolding start end_row
  col-fresh = refl

  pub pcol-fresh : fresh.pcol ≡ prefix_cols w.cp
  unfolding start end_row
  pcol-fresh = refl

  pub brk-fresh : fresh.brk ≡ none
  unfolding start
  brk-fresh = refl

  abbrev pub styled : List ℕ
  styled = elim bst [ none ↦ [] | some s ↦ style_bytes fresh s ]

  pub styled-IsPiece : IsPiece styled 0
  styled-IsPiece = by_style bst
    where
      by_style : (st : Option ℕ) → IsPiece (elim st [ none ↦ [] | some s ↦ style_bytes fresh s ]) 0
      by_style none = IsPiece-nil
      by_style (some s) = style-IsPiece fresh s fresh-InRow.ready

  abbrev pub wrapped : Wrap
  wrapped = record fresh {
    rb = fresh.rb ++ (styled ++ at.after);
    rstyle = w.rstyle;
    col = fresh.col + vis at.after;
  }

  pub wrapped-InRow : InRow n wrapped
  wrapped-InRow = record {
    ready = record {
      out = fresh-InRow.ready.out;
      params = fresh-InRow.ready.params;
      first = fresh-InRow.ready.first;
      next = fresh-InRow.ready.next;
      order = fresh-InRow.ready.order;
      narrow = fresh-InRow.ready.narrow;
    };
    piece =
        IsPiece-append fresh.rb (styled ++ at.after) fresh.col (vis at.after) fresh-InRow.piece
          (IsPiece-behind styled at.after (vis at.after) styled-IsPiece split.0);
    prefix = omega (arith, fresh-InRow.prefix);
    fits = omega (arith, split.1, col-fresh, h.order, at.past, h.fits);
    order = fresh-InRow.order;
    narrow = fresh-InRow.narrow;
    break = rw brk-fresh tt;
  }

  pub rewrap-InRow : (InRow n (rewrap idx bst w)) × ((rewrap idx bst w).col < n)
  unfolding rewrap
  rewrap-InRow =
      rw moved (wrapped-InRow, omega (arith, split.1, col-fresh, h.order, at.past, h.fits))

-- After `make_room` there is a column left.
pub make_room-InRow :
    {n : ℕ} (w : Wrap) → InRow n w → (InRow n (make_room w)) × ((make_room w).col < n)
unfolding make_room break_row
make_room-InRow {n} w h = elim (Bool-cases (leb w.out.width w.col || ltb 900 (length w.rb))) [
  | inr room ↦ rw room (h, ground (arith, h.ready.out.same))
  | inl full ↦ rw full (by_break w.brk h.break)
]
  where
    next : (InRow n (start false (end_row w))) × ((start false (end_row w)).col < n)
    next = (next_row-InRow w h, omega (arith, col-next_row w, h.order, h.narrow))

    choose :
        (b : Bool) (idx : ℕ) (bst : Option ℕ)
        → BreakAt w.rb w.pcol idx
        → (InRow n (if b then rewrap idx bst w else start false (end_row w)))
          × ((if b then rewrap idx bst w else start false (end_row w)).col < n)
    choose true idx bst at = rewrap-InRow w h idx bst at
    choose false idx bst at = next

    by_break :
        (k : Option (ℕ × Option ℕ))
        → BreakOk w.rb w.pcol k
        → (InRow n (break_row k w)) × ((break_row k w).col < n)
    by_break none b = next
    by_break (some (idx, bst)) b = choose w.words idx bst b
