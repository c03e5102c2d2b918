-- ===== src/Mdv/Wrap/Put.antt =====
-- `put` and `finish` of tools/mdvref.py keep the invariant of the row, so every row fits.
mod Rows
use elf_dos.Base.{
  ℕ, ◌+◌, ◌≤◌, ◌<◌, ◌≡◌, refl, ap, ◌∙◌, Bool, true, false, Option, none, some, List, [], ◌∷◌, ◌++◌,
  append_assoc, arith, ltb, leb, ◌==◌, ◌&&◌, ◌||◌, if◌then◌else◌, Bool-cases, inl, inr, length,
  take, drop, take-append, drop-append, drop-drop,
}
use elf_dos.Mdv.Style.{vis, is_cont, reset}
use elf_dos.Mdv.Style.Columns.{
  IsPiece, IsPiece-nil, IsPiece-append, IsPiece-rest, IsPiece-byte, IsPiece-behind,
}
use elf_dos.Mdv.Wrap.{
  prefix_cols, unless_plain, Wrap, start, style_bytes, is_some, apply, end_row, rewrap, break_row,
  make_room, put_space, put_glyph, started_wrap, put_started, put, finish,
}
use elf_dos.Mdv.Wrap.Width.{row-OutFits, sequence-IsPiece, reset-IsPiece}
use elf_dos.Mdv.Wrap.Invariant.{
  IsReady, InRow, BreakAt, BreakOk, break-append, start-InRow, quiet-InRow, style-IsPiece,
  apply-InRow,
}
use elf_dos.Mdv.Wrap.Put.Rows.{
  end_row-IsReady, next_row-InRow, col-next_row, cut, kept, moved, space-IsPiece, split,
  cut-IsReady, fresh, fresh-InRow, col-fresh, pcol-fresh, brk-fresh, styled, styled-IsPiece,
  wrapped, wrapped-InRow, rewrap-InRow, make_room-InRow,
}

-- One more byte that takes a column.
glyph-InRow :
    {n : ℕ} (c : ℕ) (w : Wrap)
    → 31 < c
    → is_cont c ≡ false
    → InRow n w
    → w.col < n
    → InRow n (record w { rb = w.rb ++ c ∷ []; col = w.col + 1 })
glyph-InRow {n} c w hc k h room = record {
  ready = record {
    out = h.ready.out;
    params = h.ready.params;
    first = h.ready.first;
    next = h.ready.next;
    order = h.ready.order;
    narrow = h.ready.narrow;
  };
  piece = IsPiece-append w.rb (c ∷ []) w.col 1 h.piece (rw k at (IsPiece-byte c hc));
  prefix = omega (arith, h.prefix);
  fits = omega arith;
  order = h.order;
  narrow = h.narrow;
  break = break-append w.rb (c ∷ []) w.pcol w.brk h.break;
}

col-apply : (w : Wrap) → (apply w).col ≡ w.col
unfolding apply
col-apply w = ground arith

pcol-apply : (w : Wrap) → (apply w).pcol ≡ w.pcol
unfolding apply
pcol-apply w = ground arith

put_glyph-InRow :
    {n : ℕ} (c : ℕ) (w : Wrap) → 31 < c → is_cont c ≡ false → InRow n w → InRow n (put_glyph c w)
unfolding put_glyph
put_glyph-InRow c w hc k h =
    let (m, room) = make_room-InRow w h in
    glyph-InRow c (apply (make_room w)) hc k (apply-InRow (make_room w) m)
      (omega (arith, col-apply (make_room w), room))

-- A space between words, which a row can later be broken at.
space-InRow :
    {n : ℕ} (w : Wrap)
    → InRow n w
    → w.col < n
    → InRow n
        (record w { rb = w.rb ++ b' ' ∷ []; col = w.col + 1; brk = some (length w.rb, w.rstyle) })
unfolding is_cont
space-InRow {n} w h room =
    let g = glyph-InRow b' ' w (omega arith) refl h room in
    record {
      ready = record {
        out = h.ready.out;
        params = h.ready.params;
        first = h.ready.first;
        next = h.ready.next;
        order = h.ready.order;
        narrow = h.ready.narrow;
      };
      piece = g.piece;
      prefix = g.prefix;
      fits = g.fits;
      order = h.order;
      narrow = h.narrow;
      break = record {
        before = w.rb;
        after = [];
        cols = w.col;
        place = refl;
        whole = refl;
        piece = h.piece;
        past = h.prefix;
      };
    }

put_space-InRow : {n : ℕ} (w : Wrap) → InRow n w → InRow n (put_space w)
unfolding put_space
put_space-InRow {n} w h = elim (Bool-cases (w.col == w.pcol)) [
  | inl e ↦ rw e h
  | inr e ↦ elim (Bool-cases (leb w.out.width w.col)) [
    | inl f ↦ rw (e, f) (next_row-InRow w h)
    | inr f ↦
        rw (e, f)
          (space-InRow (apply w) (apply-InRow w h) (ground (arith, col-apply w, h.ready.out.same)))
  ]
]

put_started-InRow : {n : ℕ} (c : ℕ) (w : Wrap) → InRow n w → InRow n (put_started c w)
unfolding put_started
put_started-InRow {n} c w h = elim (Bool-cases (ltb c 32 || c == 127)) [
  | inl e ↦ rw e h
  | inr e ↦
      let hc : 31 < c = ground arith in
      elim (Bool-cases (is_cont c)) [
        | inl k ↦ rw (e, k) (quiet-InRow w (c ∷ []) w.rstyle (rw k at (IsPiece-byte c hc)) h)
        | inr k ↦ elim (Bool-cases (c == 32 && w.words)) [
          | inl s ↦ rw (e, k, s) (put_space-InRow w h)
          | inr s ↦ rw (e, k, s) (put_glyph-InRow c w hc k h)
        ]
      ]
]

-- The invariant of a row builder between two calls, its row started or not.
pub record Fits (n : ℕ) (w : Wrap) : Type 0 where
  pub ready : IsReady n w
  pub in_row : w.started ≡ true → InRow n w

started_or :
    {n : ℕ} (b : Bool) (w : Wrap)
    → IsReady n w
    → (b ≡ true → InRow n w)
    → InRow n (if b then w else start true w)
started_or true w r h = h refl
started_or false w r h = start-InRow true w r

started-InRow : {n : ℕ} (w : Wrap) → Fits n w → InRow n (started_wrap w)
started-InRow w f = started_or w.started w f.ready f.in_row

pub put-Fits : {n : ℕ} (c : ℕ) (w : Wrap) → Fits n w → Fits n (put c w)
unfolding put
put-Fits c w f =
    let h = put_started-InRow (if c == 9 then 32 else c) (started_wrap w) (started-InRow w f) in
    record { ready = h.ready; in_row = λ _. h }

pub finish-IsReady : {n : ℕ} (w : Wrap) → Fits n w → IsReady n (finish w)
unfolding finish
finish-IsReady w f =
    let h = started-InRow w f in
    let r = end_row-IsReady (started_wrap w) (started_wrap w).col h.ready h.piece h.fits in
    record {
      out = r.out;
      params = r.params;
      first = r.first;
      next = r.next;
      order = r.order;
      narrow = r.narrow;
    }

-- The wanted style is no part of the invariant.
pub cur-Fits : {n : ℕ} (w : Wrap) (st : ℕ) → Fits n w → Fits n (record w { cur = st })
cur-Fits w st f = record {
  ready = record {
    out = f.ready.out;
    params = f.ready.params;
    first = f.ready.first;
    next = f.ready.next;
    order = f.ready.order;
    narrow = f.ready.narrow;
  };
  in_row = λ e.
      let h = f.in_row e in
      record {
        ready = record {
          out = h.ready.out;
          params = h.ready.params;
          first = h.ready.first;
          next = h.ready.next;
          order = h.ready.order;
          narrow = h.ready.narrow;
        };
        piece = h.piece;
        prefix = h.prefix;
        fits = h.fits;
        order = h.order;
        narrow = h.narrow;
        break = h.break;
      };
}
