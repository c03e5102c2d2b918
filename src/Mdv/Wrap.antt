-- ===== src/Mdv/Wrap.antt =====
-- `Out` and `Wrap` of tools/mdvref.py: the rows that are written, and the builder of one block.
-- The `Out` object that a `Wrap` refers to is a field of its state.
pub mod Width
pub mod Invariant
pub mod Put
use elf_dos.Base.{
  ℕ, suc, ◌+◌, Bool, true, false, ◌&&◌, ◌||◌, not, Option, none, some, List, [], ◌∷◌, ◌++◌, ltb,
  leb, ◌==◌, if◌then◌else◌, length, take, drop, replicate,
}
use elf_dos.Mdv.Style.{mark_sgr, bar_sgr, reset, sgr, is_cont, vis}

pub record Out : Type 0 where
  pub width : ℕ
  pub plain : Bool
  pub rows : List (List ℕ)
  pub any_out : Bool
  pub need_blank : Bool

-- `Out.row`
unfoldable pub row : List ℕ → Out → Out
row b o = record o { rows = o.rows ++ b ∷ []; any_out = true }

-- `if o.need_blank and o.any_out: o.row(b'')`, and `o.need_blank = False`
unfoldable pub blank : Out → Out
unfolding row
blank o =
    let o' = if o.need_blank && o.any_out then row [] o else o in record o' { need_blank = false }

-- The prefix functions: `spaces(n)`, `fp` of a list item, and `qp`.
pub data Prefix : Type 0 where
  spaces : ℕ → Prefix
  marker : ℕ → List ℕ → Prefix
  bar : Prefix

abbrev pub unless_plain : Bool → List ℕ → List ℕ
unless_plain plain b = if plain then [] else b

-- What a prefix writes, and the columns that it returns.
unfoldable pub prefix_bytes : Bool → Prefix → List ℕ
prefix_bytes plain (spaces n) = replicate n b' '
prefix_bytes plain (marker m mk) =
    replicate m b' '
    ++ (unless_plain plain mark_sgr ++ (mk ++ (unless_plain plain reset ++ b' ' ∷ [])))
prefix_bytes plain bar =
    unless_plain plain bar_sgr ++ (b'|' ∷ unless_plain plain reset ++ b' ' ∷ [])

abbrev pub prefix_cols : Prefix → ℕ
prefix_cols (spaces n) = n
prefix_cols (marker m mk) = m + length mk + 1
prefix_cols bar = 2

pub record Wrap : Type 0 where
  pub out : Out
  pub words : Bool
  pub fp : Prefix
  pub cp : Prefix
  pub base : List ℕ
  pub cur : ℕ
  pub started : Bool
  pub rb : List ℕ
  pub col : ℕ
  pub pcol : ℕ
  pub rstyle : Option ℕ
  pub brk : Option (ℕ × Option ℕ)

-- `Wrap(out, words, first_prefix, cont_prefix, base)`; the row's fields are set by `start`.
abbrev pub new_wrap : Out → Bool → Prefix → Prefix → List ℕ → Wrap
new_wrap o words fp cp base = record {
  out = o;
  words = words;
  fp = fp;
  cp = cp;
  base = base;
  cur = 0;
  started = false;
  rb = [];
  col = 0;
  pcol = 0;
  rstyle = none;
  brk = none;
}

-- `_start`
unfoldable pub start : Bool → Wrap → Wrap
start first w =
    let o = blank w.out in
    let p = if first then w.fp else w.cp in
    record w {
      out = o;
      rb = prefix_bytes o.plain p;
      col = prefix_cols p;
      pcol = prefix_cols p;
      rstyle = none;
      brk = none;
      started = true;
    }

-- `_style_bytes`
unfoldable pub style_bytes : Wrap → ℕ → List ℕ
style_bytes w st = unless_plain w.out.plain (sgr w.base st)

abbrev pub is_empty : List ℕ → Bool
is_empty [] = true
is_empty (c ∷ b) = false

-- `self.rstyle != st`
abbrev pub differs : Option ℕ → ℕ → Bool
differs none st = true
differs (some s) st = not (s == st)

abbrev pub is_some : {A : Type 0} → Option A → Bool
is_some none = false
is_some (some a) = true

-- `_apply`
unfoldable pub apply : Wrap → Wrap
apply w =
    if not (w.cur == 0) || not (is_empty w.base)
    then if differs w.rstyle w.cur
      then record w { rb = w.rb ++ style_bytes w w.cur; rstyle = some w.cur }
      else w
    else if is_some w.rstyle
    then record w { rb = w.rb ++ unless_plain w.out.plain reset; rstyle = none }
    else w

-- `_end_row`
unfoldable pub end_row : Wrap → Wrap
unfolding row
end_row w =
    let rb = w.rb ++ (if is_some w.rstyle then unless_plain w.out.plain reset else []) in
    record w { rb = rb; out = row rb w.out }

-- The last word of the row goes to a new row: the break is at `idx`, with style `bst` there.
unfoldable pub rewrap : ℕ → Option ℕ → Wrap → Wrap
rewrap idx bst w =
    let rest = drop (idx + 1) w.rb in
    let w' = start false (end_row (record w { rb = take idx w.rb; rstyle = bst })) in
    let styled : List ℕ = elim bst [ none ↦ [] | some s ↦ style_bytes w' s ] in
    record w' { rb = w'.rb ++ (styled ++ rest); rstyle = w.rstyle; col = w'.col + vis rest }

-- `put` where the row is full: break it at the last space, or right here.
unfoldable pub break_row : Option (ℕ × Option ℕ) → Wrap → Wrap
break_row none w = start false (end_row w)
break_row (some (idx, bst)) w = if w.words then rewrap idx bst w else start false (end_row w)

unfoldable pub make_room : Wrap → Wrap
make_room w = if leb w.out.width w.col || ltb 900 (length w.rb) then break_row w.brk w else w

-- `put` of a space between words.
unfoldable pub put_space : Wrap → Wrap
put_space w =
    if w.col == w.pcol
    then w
    else if leb w.out.width w.col
    then start false (end_row w)
    else let w' = apply w in
      record w' { rb = w'.rb ++ b' ' ∷ []; col = w'.col + 1; brk = some (length w'.rb, w'.rstyle) }

-- `put` of a byte that takes a column.
unfoldable pub put_glyph : ℕ → Wrap → Wrap
put_glyph c w = let w' = apply (make_room w) in record w' { rb = w'.rb ++ c ∷ []; col = w'.col + 1 }

abbrev pub started_wrap : Wrap → Wrap
started_wrap w = if w.started then w else start true w

-- `put` of a byte in a row that is started, a tab being a space already.
unfoldable pub put_started : ℕ → Wrap → Wrap
put_started c w =
    if ltb c 32 || c == 127
    then w
    else if is_cont c
    then record w { rb = w.rb ++ c ∷ [] }
    else if c == 32 && w.words
    then put_space w
    else put_glyph c w

-- `put`
unfoldable pub put : ℕ → Wrap → Wrap
unfolding put_started
put c w = put_started (if c == 9 then 32 else c) (started_wrap w)

-- `finish`
unfoldable pub finish : Wrap → Wrap
finish w = record (end_row (started_wrap w)) { started = false }
