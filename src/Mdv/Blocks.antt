-- ===== src/Mdv/Blocks.antt =====
-- `Doc` of tools/mdvref.py: its state, and the methods that write a block. `none` is an exception.
pub mod Safe
use elf_dos.Base.{
  ℕ, zero, suc, ◌+◌, ◌-◌, bit_and, bit_or, bit_xor, Bool, true, false, ◌&&◌, ◌||◌, not, Option,
  none, some, List, [], ◌∷◌, ◌++◌, ltb, leb, ◌==◌, if◌then◌else◌, ◌>>=◌, length, get_elem?, slice,
  replicate,
}
use elf_dos.Mdv.Style.{s_c, bar_sgr, hr_sgr, reset, head_sgr, is_cont}
use elf_dos.Mdv.Wrap.{
  Out, row, blank, spaces, marker, bar, unless_plain, Wrap, new_wrap, put, finish,
}
use elf_dos.Mdv.Inline.{put_all, render_inline}

-- `K_NONE, K_PARA, K_LIST, K_QUOTE, K_HEAD, K_TABLE`
pub data Kind : Type 0 where
  no_block para item quote head table : Kind

-- `level` has no value before the first heading, and is read behind one only.
pub record Doc : Type 0 where
  pub out : Out
  pub kind : Kind
  pub blk : List ℕ
  pub margin : ℕ
  pub mark : List ℕ
  pub cont : ℕ
  pub in_list : Bool
  pub list_cont : ℕ
  pub in_fence : Bool
  pub fch : ℕ
  pub flen : ℕ
  pub find : ℕ
  pub level : ℕ

-- `Doc(width, plain)`
abbrev pub new_doc : ℕ → Bool → Doc
new_doc width plain = record {
  out = record { width = width; plain = plain; rows = []; any_out = false; need_blank = false };
  kind = no_block;
  blk = [];
  margin = 0;
  mark = [];
  cont = 0;
  in_list = false;
  list_cont = 0;
  in_fence = false;
  fch = 0;
  flen = 0;
  find = 0;
  level = 0;
}

-- The `Wrap` that `flush` makes for a block.
unfoldable pub block_wrap : Kind → Doc → Wrap
block_wrap para d = new_wrap d.out true (spaces d.margin) (spaces d.margin) []
block_wrap item d = new_wrap d.out true (marker d.margin d.mark) (spaces d.cont) []
block_wrap quote d = new_wrap d.out true bar bar []
block_wrap head d = new_wrap d.out true (spaces 0) (spaces 0) (head_sgr d.level)
block_wrap _ d = new_wrap d.out true (spaces 0) (spaces 0) []

abbrev pub is_none : Kind → Bool
is_none no_block = true
is_none _ = false

unfoldable pub flush : Doc → Option Doc
unfolding block_wrap
flush d = if is_none d.kind then some d else (do
  w ← render_inline (d.blk ++ 0 ∷ []) (block_wrap d.kind d)
  some (record d { out = (finish w).out; kind = no_block; blk = [] }))

-- One character of `code_row` at the column `col`, and the column behind it.
unfoldable pub code_char : ℕ → ℕ → Wrap → Wrap
code_char c col w =
    if c == 9
    then put_all (replicate (8 - bit_and col 7) 32) w
    else if ltb c 32 || c == 127
    then w
    else put c w

unfoldable pub code_col : ℕ → ℕ → ℕ
code_col c col =
    if c == 9
    then col + (8 - bit_and col 7)
    else if ltb c 32 || c == 127
    then col
    else if is_cont c
    then col
    else col + 1

unfoldable pub code_chars : List ℕ → ℕ → Wrap → Wrap
unfolding code_char code_col
code_chars [] col w = w
code_chars (c ∷ text) col w = code_chars text (code_col c col) (code_char c col w)

unfoldable pub code_row : List ℕ → Doc → Doc
unfolding code_chars
code_row text d =
    let w = new_wrap d.out false (spaces 2) (spaces 2) [] in
    record d { out = (finish (code_chars text 0 (record w { cur = s_c }))).out }

unfoldable pub quote_blank : Doc → Doc
quote_blank d =
    let o = blank d.out in
    record d { out = row (unless_plain o.plain bar_sgr ++ (b'|' ∷ unless_plain o.plain reset)) o }

unfoldable pub hr : Doc → Doc
hr d =
    let o = blank d.out in
    record d {
      out =
          row
            (unless_plain o.plain hr_sgr ++ (replicate o.width b'-' ++ unless_plain o.plain reset))
            o;
    }

unfoldable pub start : Kind → List ℕ → Doc → Option Doc
unfolding flush
start kind content d = do d' ← flush d; some (record d' { kind = kind; blk = content })
