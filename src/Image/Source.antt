-- ===== src/Image/Source.antt =====
-- `read_equs` of tools/split_kernel.py, on the lines of a file. A line is the list of its ASCII
-- codes. The scanner does what matching the regular expression amounts to: after the name comes
-- white space with a colon in it or none, and behind the colon, or where there is none, some white
-- space.
pub mod RoundTrip
pub mod Dictionary
use elf_dos.Base.{
  ℕ, ◌+◌, Bool, true, false, ◌&&◌, ◌||◌, not, Option, none, some, List, [], ◌∷◌, leb, ◌==◌,
  if◌then◌else◌, ◌>>=◌, ◌>>◌, require,
}
use elf_dos.Base.Text.{codes, text_eq}
use elf_dos.Base.Scan.{is_letter, is_name_char, span}
use elf_dos.Image.Equates.{Equs, is_space, skip_spaces}

-- `line.split(";", 1)[0]`
unfoldable pub until_comment : List ℕ → List ℕ
until_comment [] = []
until_comment (c ∷ s) = let r = until_comment s in if c == b';' then [] else c ∷ r

abbrev pub not_space : ℕ → Bool
not_space c = not (is_space c)

-- `\s+`
unfoldable pub some_spaces : List ℕ → Option (List ℕ)
unfolding is_space
some_spaces [] = none
some_spaces (c ∷ s) = if is_space c then some (skip_spaces s) else none

-- `\s*:?\s+`
unfoldable pub colon_spaces : List ℕ → Option (List ℕ)
unfolding some_spaces
colon_spaces s = elim (skip_spaces s) [
  | [] ↦ some_spaces s
  | c ∷ r ↦ if c == b':' then some_spaces r else some_spaces s
]

-- `c` in either case, for a lower case letter `c`.
abbrev pub is_either_case : ℕ → ℕ → Bool
is_either_case c x = x == c || x + 32 == c

-- `equ`, in either case.
unfoldable pub keyword : List ℕ → Option (List ℕ)
keyword (e ∷ q ∷ u ∷ s) =
    if is_either_case b'e' e && is_either_case b'q' q && is_either_case b'u' u then some s else none
keyword _ = none

-- A text that is not empty.
abbrev pub some_text : List ℕ → Option (List ℕ)
some_text [] = none
some_text (c ∷ s) = some (c ∷ s)

abbrev pub name_at : List ℕ → Option (List ℕ × List ℕ)
name_at [] = none
name_at (c ∷ s) = if is_letter c then some (span is_name_char (c ∷ s)) else none

-- `pat.match(line)`: the two groups.
unfoldable pub match_equ : List ℕ → Option (List ℕ × List ℕ)
match_equ line = do
  n ← name_at (skip_spaces line)
  s ← colon_spaces n.1
  t ← keyword s
  u ← some_spaces t
  v ← some_text (span not_space u).0
  some (n.0, v)

-- `equs[k] = v`
unfoldable pub assign_equ : List ℕ → List ℕ → Equs → Equs
assign_equ k v [] = (k, v) ∷ []
assign_equ k v ((j, w) ∷ equs) =
    let rest = assign_equ k v equs in if text_eq j k then (j, v) ∷ equs else (j, w) ∷ rest

-- The loop of `read_equs`, with the equates so far.
unfoldable pub read_from : Equs → List (List ℕ) → Equs
read_from equs [] = equs
read_from equs (line ∷ lines) = elim (match_equ (until_comment line)) [
  | none ↦ read_from equs lines
  | some kv ↦ read_from (assign_equ kv.0 kv.1 equs) lines
]

unfoldable pub read_equs : List (List ℕ) → Equs
read_equs lines = read_from [] lines
