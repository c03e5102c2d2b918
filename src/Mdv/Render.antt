-- ===== src/Mdv/Render.antt =====
-- `render` of tools/mdvref.py, and the columns that the command line allows.
pub mod Safe
use elf_dos.Base.{
  ℕ, zero, suc, ◌+◌, ◌-◌, Bool, true, false, ◌||◌, Option, none, some, List, [], ◌∷◌, ◌++◌, ◌==◌,
  if◌then◌else◌, ◌>>=◌, min, max,
}
use elf_dos.Mdv.Blocks.{Doc, new_doc, flush}
use elf_dos.Mdv.Line.{line}

-- `data.split(b'\n')`, and without the last piece if that is empty; `cur` is the piece so far.
unfoldable pub split_lines : List ℕ → List ℕ → List (List ℕ)
split_lines [] [] = []
split_lines (x ∷ cur) [] = (x ∷ cur) ∷ []
split_lines cur (c ∷ rest) =
    let more = split_lines (if c == b'\n' then [] else cur ++ c ∷ []) rest in
    if c == b'\n' then cur ∷ more else more

-- `bytes(x for x in L if x not in (13, 0))`
unfoldable pub clean : List ℕ → List ℕ
clean [] = []
clean (x ∷ l) = let rest = clean l in if x == 13 || x == 0 then rest else x ∷ rest

-- `for L in lines:`
unfoldable pub all_lines : List (List ℕ) → Doc → Option Doc
unfolding clean
all_lines [] d = some d
all_lines (l ∷ ls) d = do d' ← line (clean l) d; all_lines ls d'

unfoldable pub render : List ℕ → ℕ → Bool → Option (List (List ℕ))
unfolding split_lines all_lines
render text width plain = do
  d ← all_lines (split_lines [] text) (new_doc width plain)
  d' ← flush d
  some d'.out.rows

-- `max(20, min(250, a.w - 1))`, for the argument of `-w`; what is below 1 is taken as 0.
unfoldable pub columns : ℕ → ℕ
columns w = max 20 (min 250 (w - 1))
