-- ===== src/Mdv/Render/Safe.antt =====
-- The rows that tools/mdvref.py prints for any text.
use elf_dos.Base.{ℕ, ◌≤◌, Bool, some, List, [], ◌∷◌, ◌≡◌, refl, arith, All, Gives, Gives-bind}
use elf_dos.Mdv.Wrap.Width.{FitsIn}
use elf_dos.Mdv.Blocks.{Doc, new_doc, flush}
use elf_dos.Mdv.Blocks.Safe.{IsSafe, flush_total}
use elf_dos.Mdv.Line.{line}
use elf_dos.Mdv.Line.Safe.{line_total}
use elf_dos.Mdv.Render.{split_lines, clean, all_lines, render, columns}

all_lines_total :
    {n : ℕ} (wide : 20 ≤ n) (ls : List (List ℕ)) (d : Doc)
    → IsSafe n d
    → Gives (IsSafe n) (all_lines ls d)
unfolding all_lines
all_lines_total wide [] d h = (d, refl, h)
all_lines_total {n} wide (l ∷ ls) d h =
    let (d', r, safe) = line_total wide d h (clean l) in
    Gives-bind (IsSafe n) (line (clean l) d) _ d' r (all_lines_total wide ls d' safe)

-- On a screen of 20 columns or more, for any text: `render` ends and raises no exception, and
-- every row that it returns takes at most the screen's columns, not counting escape sequences and
-- continuation bytes, and ends outside an escape sequence.
pub render_fits :
    (text : List ℕ) (width : ℕ) (plain : Bool)
    → 20 ≤ width
    → (rows : List (List ℕ)) × (render text width plain ≡ some rows) × All (FitsIn width) rows
unfolding render
render_fits text width plain wide =
    let first : IsSafe width (new_doc width plain) = record {
      out = record { same = refl; rows = tt };
      block = tt;
      list = omega arith;
      fence = λ e. absurd (cc);
    } in
    let (d, r, h) = all_lines_total wide (split_lines [] text) (new_doc width plain) first in
    let (d', r', f) = flush_total wide d h in
    Gives-bind (All (FitsIn width)) (all_lines (split_lines [] text) (new_doc width plain)) _ d r
      (Gives-bind (All (FitsIn width)) (flush d) _ d' r' (d'.out.rows, refl, f.safe.out.rows))

columns_bounds : (w : ℕ) → (20 ≤ columns w) × (columns w ≤ 250)
unfolding columns
columns_bounds w = omega arith

-- For every text and every argument of `-w`, in colour or plain, the program prints rows of at most
-- 250 columns that fit the columns asked for, which are raised to 20 where fewer are asked for.
pub render-columns :
    (text : List ℕ) (w : ℕ) (plain : Bool)
    → (rows : List (List ℕ)) × (render text (columns w) plain ≡ some rows)
      × All (FitsIn (columns w)) rows
      × (columns w ≤ 250)
render-columns text w plain =
    let (rows, r, h) = render_fits text (columns w) plain (columns_bounds w).0 in
    (rows, r, h, (columns_bounds w).1)
