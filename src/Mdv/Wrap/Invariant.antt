-- ===== src/Mdv/Wrap/Invariant.antt =====
-- The invariant of a row that is being built, and that the steps of `put` keep it.
use elf_dos.Base.{
  ℕ, ◌+◌, ◌≤◌, ◌<◌, ◌≡◌, ap, ◌∙◌, Bool, true, false, Option, none, some, List, ◌∷◌, ◌++◌,
  append_assoc, arith, ◌==◌, ◌||◌, not, Bool-cases, inl, inr, length,
}
use elf_dos.Mdv.Style.{reset, sgr}
use elf_dos.Mdv.Style.Columns.{IsPiece, IsPiece-append, sgr-IsPiece, AreParams}
use elf_dos.Mdv.Wrap.{
  unless_plain, prefix_cols, Wrap, start, style_bytes, is_some, differs, is_empty, apply,
}
use elf_dos.Mdv.Wrap.Width.{
  OutFits, blank-OutFits, IsPrefix, prefix-IsPiece, sequence-IsPiece, reset-IsPiece,
}

-- What holds before and after every step, on a screen of `n` columns.
pub record IsReady (n : ℕ) (w : Wrap) : Type 0 where
  pub out : OutFits n w.out
  pub params : AreParams w.base
  pub first : IsPrefix w.fp
  pub next : IsPrefix w.cp
  pub order : prefix_cols w.cp ≤ prefix_cols w.fp
  pub narrow : prefix_cols w.fp < n

-- The text up to the last break is a piece that reaches past the prefix.
pub record BreakAt (rb : List ℕ) (pcol idx : ℕ) : Type 0 where
  pub before : List ℕ
  pub after : List ℕ
  pub cols : ℕ
  pub place : idx ≡ length before
  pub whole : rb ≡ before ++ b' ' ∷ after
  pub piece : IsPiece before cols
  pub past : pcol ≤ cols

abbrev pub BreakOk : List ℕ → ℕ → Option (ℕ × Option ℕ) → Type 0
BreakOk rb pcol none = Unit
BreakOk rb pcol (some (idx, st)) = BreakAt rb pcol idx

-- What holds in a row that is started.
pub record InRow (n : ℕ) (w : Wrap) : Type 0 where
  pub ready : IsReady n w
  pub piece : IsPiece w.rb w.col
  pub prefix : w.pcol ≤ w.col
  pub fits : w.col ≤ n
  pub order : prefix_cols w.cp ≤ w.pcol
  pub narrow : w.pcol < n
  pub break : BreakOk w.rb w.pcol w.brk

pub break-append :
    (rb b : List ℕ) (pcol : ℕ) (k : Option (ℕ × Option ℕ))
    → BreakOk rb pcol k
    → BreakOk (rb ++ b) pcol k
break-append rb b pcol none h = tt
break-append rb b pcol (some (idx, st)) h = record {
  before = h.before;
  after = h.after ++ b;
  cols = h.cols;
  place = h.place;
  whole = ap (λ t. t ++ b) h.whole ∙ append_assoc h.before (b' ' ∷ h.after) b;
  piece = h.piece;
  past = h.past;
}

pub start-InRow : {n : ℕ} (first : Bool) (w : Wrap) → IsReady n w → InRow n (start first w)
unfolding start
start-InRow {n} true w r = record {
  ready = record {
    out = blank-OutFits w.out r.out;
    params = r.params;
    first = r.first;
    next = r.next;
    order = r.order;
    narrow = r.narrow;
  };
  piece = prefix-IsPiece _ w.fp r.first;
  prefix = omega arith;
  fits = omega (arith, r.narrow);
  order = r.order;
  narrow = r.narrow;
  break = tt;
}
start-InRow {n} false w r = record {
  ready = record {
    out = blank-OutFits w.out r.out;
    params = r.params;
    first = r.first;
    next = r.next;
    order = r.order;
    narrow = r.narrow;
  };
  piece = prefix-IsPiece _ w.cp r.next;
  prefix = omega arith;
  fits = omega (arith, r.narrow, r.order);
  order = omega arith;
  narrow = omega (arith, r.narrow, r.order);
  break = tt;
}

-- A sequence behind the row changes no column.
pub quiet-InRow :
    {n : ℕ} (w : Wrap) (b : List ℕ) (st : Option ℕ)
    → IsPiece b 0
    → InRow n w
    → InRow n (record w { rb = w.rb ++ b; rstyle = st })
quiet-InRow {n} w b st q h = record {
  ready = record {
    out = h.ready.out;
    params = h.ready.params;
    first = h.ready.first;
    next = h.ready.next;
    order = h.ready.order;
    narrow = h.ready.narrow;
  };
  piece = rw (plus_zero w.col) at (IsPiece-append w.rb b w.col 0 h.piece q);
  prefix = h.prefix;
  fits = h.fits;
  order = h.order;
  narrow = h.narrow;
  break = break-append w.rb b w.pcol w.brk h.break;
}
  where
    plus_zero : (k : ℕ) → k + 0 ≡ k
    plus_zero k = omega arith

pub style-IsPiece : {n : ℕ} (w : Wrap) (st : ℕ) → IsReady n w → IsPiece (style_bytes w st) 0
unfolding style_bytes
style-IsPiece w st r = sequence-IsPiece w.out.plain (sgr w.base st) (sgr-IsPiece w.base st r.params)

pub apply-InRow : {n : ℕ} (w : Wrap) → InRow n w → InRow n (apply w)
unfolding apply
apply-InRow {n} w h = elim (Bool-cases (not (w.cur == 0) || not (is_empty w.base))) [
  | inl styled ↦ elim (Bool-cases (differs w.rstyle w.cur)) [
    | inl d ↦
        rw (styled, d)
          (quiet-InRow w (style_bytes w w.cur) (some w.cur) (style-IsPiece w w.cur h.ready) h)
    | inr d ↦ rw (styled, d) h
  ]
  | inr plain ↦ elim (Bool-cases (is_some w.rstyle)) [
    | inl d ↦
        rw (plain, d)
          (quiet-InRow w (unless_plain w.out.plain reset) none
            (sequence-IsPiece w.out.plain reset reset-IsPiece) h)
    | inr d ↦ rw (plain, d) h
  ]
]
