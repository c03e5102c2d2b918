-- ===== src/Mdv/Line.antt =====
-- `Doc.line` of tools/mdvref.py: what one source line is, and what it does.
pub mod Safe
use elf_dos.Base.{
  ℕ, zero, suc, ◌+◌, ◌-◌, bit_and, bit_or, bit_xor, Bool, true, false, ◌&&◌, ◌||◌, not, Option,
  none, some, List, [], ◌∷◌, ◌++◌, ltb, leb, ◌==◌, if◌then◌else◌, ◌>>=◌, length, get_elem?, slice,
  replicate, take, drop, min,
}
use elf_dos.Mdv.Wrap.{is_empty}
use elf_dos.Mdv.Blocks.{
  Kind, no_block, para, item, quote, head, table, Doc, is_none, flush, code_row, quote_blank, hr,
  start,
}

-- `x in (32, 9)`
unfoldable pub is_blank : ℕ → Bool
is_blank x = x == 32 || x == 9

-- `all(x in (32, 9) for x in s)`
unfoldable pub all_blank : List ℕ → Bool
unfolding is_blank
all_blank [] = true
all_blank (x ∷ s) = is_blank x && all_blank s

-- `(ind + 4) & ~3 if c == 9 else ind + 1`
unfoldable pub next_stop : ℕ → ℕ → ℕ
next_stop c ind = if c == 9 then bit_xor (ind + 4) (bit_and (ind + 4) 3) else ind + 1

-- The indentation of a line, and the line behind it.
unfoldable pub indent : ℕ → List ℕ → ℕ × List ℕ
unfolding is_blank next_stop
indent ind [] = (ind, [])
indent ind (c ∷ l) = if is_blank c then indent (next_stop c ind) l else (ind, c ∷ l)

-- `while k < len(s) and s[k] == c: k += 1`
unfoldable pub run_of : ℕ → List ℕ → ℕ
run_of c [] = 0
run_of c (x ∷ s) = if x == c then suc (run_of c s) else 0

-- `while q < self.find and q < len(L) and L[q] == 32: q += 1`, and `L[q:]`
unfoldable pub strip_spaces : ℕ → List ℕ → List ℕ
strip_spaces zero l = l
strip_spaces (suc n) [] = []
strip_spaces (suc n) (c ∷ l) = if c == 32 then strip_spaces n l else c ∷ l

-- Whether a line closes the fence that is open.
unfoldable pub closes_fence : ℕ → List ℕ → Doc → Option Bool
unfolding run_of all_blank
closes_fence ind s d =
    if ltb ind 4 && leb d.flen (length s)
    then (do
      x ← get_elem? s 0
      let k = run_of d.fch s
      some (x == d.fch && (leb d.flen k && all_blank (drop k s))))
    else some false

-- `if self.in_fence:`
unfoldable pub fence_line : ℕ → List ℕ → List ℕ → Doc → Option Doc
unfolding closes_fence strip_spaces
fence_line ind s l d = do
  done ← closes_fence ind s d
  some (if done then record d { in_fence = false } else code_row (strip_spaces d.find l) d)

-- `if not s:`
unfoldable pub blank_line : Doc → Option Doc
blank_line d = do
  d' ← flush d
  some (if d'.out.any_out then record d' { out = record d'.out { need_blank = true } } else d')

unfoldable pub has : ℕ → List ℕ → Bool
has c [] = false
has c (x ∷ s) = x == c || has c s

-- A fence opens: three backquotes or tildes, and no backquote behind a run of backquotes.
unfoldable pub opens_fence : ℕ → List ℕ → Bool
unfolding run_of has
opens_fence ind (x ∷ y ∷ z ∷ s) =
    ltb ind 4
    && (x == 96 || x == 126)
    && y == x
    && z == x
    && not (x == 96 && has 96 (drop (run_of x (x ∷ y ∷ z ∷ s)) (x ∷ y ∷ z ∷ s)))
opens_fence ind _ = false

unfoldable pub open_fence : ℕ → ℕ → List ℕ → Doc → Option Doc
unfolding run_of
open_fence ind x s d = do
  d' ← flush d
  some (record d' { in_fence = true; fch = x; flen = run_of x s; find = ind; in_list = false })

-- `s.rstrip(...)` for the bytes that pass a test, and `s.lstrip(b' \t')`
unfoldable pub drop_end : (ℕ → Bool) → List ℕ → List ℕ
drop_end p [] = []
drop_end p (x ∷ s) = let r = drop_end p s in if is_empty r && p x then [] else x ∷ r

unfoldable pub lstrip : List ℕ → List ℕ
unfolding is_blank
lstrip [] = []
lstrip (x ∷ s) = if is_blank x then lstrip s else x ∷ s

unfoldable pub all_are : ℕ → List ℕ → Bool
all_are c [] = true
all_are c (x ∷ s) = x == c && all_are c s

abbrev pub is_para : Kind → Bool
is_para para = true
is_para _ = false

abbrev pub is_quote : Kind → Bool
is_quote quote = true
is_quote _ = false

-- The underline of a heading, below a paragraph.
unfoldable pub is_setext : ℕ → ℕ → List ℕ → Doc → Bool
unfolding drop_end all_are is_blank
is_setext ind x s d =
    ltb ind 4 && is_para d.kind && (x == 61 || x == 45) && all_are x (drop_end is_blank s)

unfoldable pub setext : ℕ → Doc → Option Doc
setext x d = do
  d' ← flush (record d { kind = head; level = if x == 61 then 1 else 2 })
  some (record d' { in_list = false })

-- The count of `c` in a line of `c` and blanks.
unfoldable pub break_count : ℕ → List ℕ → Option ℕ
unfolding is_blank
break_count c [] = some 0
break_count c (x ∷ s) = do
  n ← break_count c s
  if x == c then some (n + 1) else if is_blank x then some n else none

unfoldable pub is_break : ℕ → ℕ → List ℕ → Bool
unfolding break_count
is_break ind x s =
    ltb ind 4
    && (x == 45 || x == 42 || x == 95)
    && elim (break_count x s) [ none ↦ false | some n ↦ leb 3 n ]

unfoldable pub thematic_break : Doc → Option Doc
thematic_break d = do d' ← flush d; some (record (hr d') { in_list = false })

-- `q == len(s) or s[q] in (32, 9)`, for what is left of `s` at `q`
unfoldable pub ends_word : List ℕ → Bool
unfolding is_blank
ends_word [] = true
ends_word (x ∷ s) = is_blank x

unfoldable pub is_atx : ℕ → ℕ → List ℕ → Bool
unfolding run_of ends_word
is_atx ind x s = ltb ind 4 && x == 35 && leb (run_of 35 s) 6 && ends_word (drop (run_of 35 s) s)

-- `c[-1] in (32, 9)`, or an empty `c`
unfoldable pub ends_blank : List ℕ → Bool
unfolding is_blank
ends_blank [] = true
ends_blank (x ∷ []) = is_blank x
ends_blank (x ∷ y ∷ s) = ends_blank (y ∷ s)

-- The heading's text: without blanks around it and a closing run of `#` behind a blank.
unfoldable pub atx_text : List ℕ → List ℕ
unfolding lstrip drop_end is_blank ends_blank run_of
atx_text s =
    let c = drop_end is_blank (lstrip (drop (run_of 35 s) s)) in
    let body = drop_end (λ x. x == 35) c in if ends_blank body then drop_end is_blank body else c

unfoldable pub atx : List ℕ → Doc → Option Doc
unfolding atx_text run_of
atx s d = do
  d1 ← start head (atx_text s) d
  d2 ← flush (record d1 { level = run_of 35 s })
  some (record d2 { in_list = false })

unfoldable pub is_digit : ℕ → Bool
is_digit c = leb 48 c && leb c 57

-- At most `n` digits.
unfoldable pub digit_count : ℕ → List ℕ → ℕ
unfolding is_digit
digit_count zero s = 0
digit_count (suc n) [] = 0
digit_count (suc n) (x ∷ s) = if is_digit x then suc (digit_count n s) else 0

-- The end of a number's marker: `.` or `)`, and then a blank or the end of the line.
unfoldable pub ends_number : List ℕ → Bool
unfolding ends_word
ends_number [] = false
ends_number (x ∷ s) = (x == 46 || x == 41) && ends_word s

-- `mk`, and what is left of the line behind it.
unfoldable pub list_mark : ℕ → ℕ → List ℕ → Option (List ℕ × List ℕ)
unfolding is_digit digit_count ends_number ends_word
list_mark ind x s =
    let q = digit_count 9 s in
    if (x == 45 || x == 42 || x == 43) && ends_word (drop 1 s)
    then some ((if ind == 0 then b'*' else b'-') ∷ [], drop 1 s)
    else if is_digit x && ends_number (drop q s)
    then some (take (q + 1) s, drop (q + 1) s)
    else none

unfoldable pub list_item : ℕ → List ℕ → List ℕ → Doc → Option Doc
unfolding lstrip
list_item ind mk rest d = do
  d' ← start item (lstrip rest) d
  let m = min ind 8
  some (record d' {
    margin = m;
    mark = mk;
    cont = m + length mk + 1;
    in_list = true;
    list_cont = m + length mk + 1;
  })

-- `while q < len(s) and s[q] == 62:` with the blank behind each mark; `after` says that a mark
-- has just been passed.
unfoldable pub strip_quote : Bool → List ℕ → List ℕ
strip_quote after [] = []
strip_quote after (x ∷ s) = if (after && x == 32) || x == 62 then strip_quote (x == 62) s else x ∷ s

unfoldable pub quote_line : List ℕ → Doc → Option Doc
unfolding strip_quote lstrip
quote_line s d =
    let c = lstrip (strip_quote false s) in
    if is_empty c
    then (do d' ← flush d; some (quote_blank d'))
    else if is_quote d.kind
    then some (record d { blk = d.blk ++ b' ' ∷ c; in_list = false })
    else (do d' ← start quote c d; some (record d' { in_list = false }))

unfoldable pub table_row : List ℕ → Doc → Option Doc
table_row s d = do d1 ← start table s d; d2 ← flush d1; some (record d2 { in_list = false })

-- `while q < len(L) and col < 4 and L[q] in (32, 9):`, and `L[q:]`
unfoldable pub strip_cols : ℕ → List ℕ → List ℕ
unfolding is_blank next_stop
strip_cols col [] = []
strip_cols col (c ∷ l) = if ltb col 4 && is_blank c then strip_cols (next_stop c col) l else c ∷ l

-- `self.kind in (K_PARA, K_LIST, K_QUOTE)`
abbrev pub goes_on : Kind → Bool
goes_on para = true
goes_on item = true
goes_on quote = true
goes_on _ = false

unfoldable pub text_line : ℕ → List ℕ → Doc → Option Doc
text_line ind s d =
    if goes_on d.kind
    then some (record d { blk = (if is_empty d.blk then d.blk else d.blk ++ b' ' ∷ []) ++ s })
    else (do
      let d0 = record d { in_list = if ind == 0 then false else d.in_list }
      d1 ← start para s d0
      some (record d1 { margin = if d1.in_list then d1.list_cont else 0 }))

-- Behind the headings: a list item, a quote, a table row, indented code or text.
unfoldable pub body_line : ℕ → ℕ → List ℕ → List ℕ → Doc → Option Doc
unfolding list_mark list_item quote_line table_row strip_cols text_line
body_line ind x s l d =
    let other =
      if ltb ind 4 && x == 62
      then quote_line s d
      else if ltb ind 4 && x == 124
      then table_row s d
      else if leb 4 ind && not d.in_list && is_none d.kind
      then some (code_row (strip_cols 0 l) d)
      else text_line ind s d in
    if ltb ind (if d.in_list then 64 else 4)
    then elim (list_mark ind x s) [ none ↦ other | some (mk, rest) ↦ list_item ind mk rest d ]
    else other

-- A line outside fences that is not blank: `s`, which begins with `x`, is `l` without indentation.
unfoldable pub block_line : ℕ → ℕ → List ℕ → List ℕ → Doc → Option Doc
unfolding opens_fence open_fence is_setext setext is_break thematic_break is_atx atx body_line
block_line ind x s l d =
    if opens_fence ind s
    then open_fence ind x s d
    else if is_setext ind x s d
    then setext x d
    else if is_break ind x s
    then thematic_break d
    else if is_atx ind x s
    then atx s d
    else body_line ind x s l d

-- A line outside fences.
unfoldable pub open_line : ℕ → List ℕ → List ℕ → Doc → Option Doc
unfolding blank_line block_line
open_line ind [] l d = blank_line d
open_line ind (x ∷ s) l d = block_line ind x (x ∷ s) l d

unfoldable pub line : List ℕ → Doc → Option Doc
unfolding indent fence_line open_line
line l d =
    let (ind, s) = indent 0 l in if d.in_fence then fence_line ind s l d else open_line ind s l d
