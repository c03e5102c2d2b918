-- ===== src/Mdv/Tests.antt =====
-- Small documents through the model of tools/mdvref.py, and the theorems at concrete inputs.
use elf_dos.Base.{Option, ℕ, ◌≤◌, ◌≡◌, refl, true, false, some, List, [], ◌∷◌, ◌++◌, All}
use elf_dos.Base.Text.{codes}
use elf_dos.Mdv.Style.{vis, vis_from, step, width, is_cont, sgr, flags, has_bit}
use elf_dos.Mdv.Wrap.{
  Wrap, new_wrap, spaces, put, start, blank, row, prefix_bytes, apply, style_bytes, end_row, rewrap,
  break_row, make_room, put_space, put_glyph, finish,
}
use elf_dos.Mdv.Wrap.Width.{FitsIn}
use elf_dos.Mdv.Scan.{
  is_punct, is_ws, run_len, run_loop, find_code_close, code_loop, flank_of, flank, char_before,
  can_open, can_close, is_escape, find_emph_close, emph_loop, skip_code, closes, find_bracket,
  find_paren, match_loop,
}
use elf_dos.Mdv.Inline.{render_inline, render_step, code_text, all_spaces}
use elf_dos.Mdv.Inline.Total.{render_inline_total}
use elf_dos.Mdv.Blocks.{new_doc, flush, start as start_block}
use elf_dos.Mdv.Line.{line}
use elf_dos.Mdv.Render.{render, columns}
use elf_dos.Mdv.Render.Safe.{render-columns}

-- `render` without escape sequences, open for evaluation.
rows_of : List ℕ → ℕ → Option (List (List ℕ))
unfolding render line flush start_block put start blank row prefix_bytes apply style_bytes end_row
    rewrap break_row make_room put_space put_glyph finish render_inline render_step has_bit is_cont
    vis vis_from step width run_len run_loop can_open flank char_before flank_of is_ws is_punct
    find_emph_close emph_loop is_escape closes can_close find_code_close code_loop code_text
    skip_code find_bracket find_paren match_loop all_spaces sgr flags
rows_of text width = render text width true

-- A list item wraps between words, and behind it a heading takes the underline away.
document_rows :
    rows_of (codes "Title\n=====\n\n- one two three four five\nsix\n") 20
    ≡ some (codes "Title" ∷ [] ∷ codes "* one two three four" ∷ codes "  five six" ∷ [])
unfolding rows_of
document_rows = refl

-- Emphasis, a code span, a link with its address, an escape and a quote.
inline_rows :
    rows_of (codes "*ab* `c*` [text](u) \\*\n\n> q\n") 20
    ≡ some (codes "ab c* text (u) *" ∷ [] ∷ codes "| q" ∷ [])
unfolding rows_of
inline_rows = refl

abbrev plain_wrap : Wrap
plain_wrap = new_wrap (new_doc 20 true).out true (spaces 0) (spaces 0) []

abbrev sample : List ℕ
sample = codes "# A *b*\n\n12. some `code` and more\n"

render_inline_total_example :
    (w : Wrap) × (render_inline (codes "*a" ++ 0 ∷ []) plain_wrap ≡ some w)
render_inline_total_example = render_inline_total (codes "*a" ++ 0 ∷ []) 2 refl plain_wrap

render-columns_example :
    (rows : List (List ℕ)) × (render sample (columns 8) false ≡ some rows)
    × All (FitsIn (columns 8)) rows
    × (columns 8 ≤ 250)
render-columns_example = render-columns sample 8 false
