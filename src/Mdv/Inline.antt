-- ===== src/Mdv/Inline.antt =====
-- `render_inline` of tools/mdvref.py: one block's text through the row builder. `none` is an
-- IndexError, or rounds that ran out.
pub mod Width
pub mod Spans
pub mod Links
pub mod Total
use elf_dos.Base.{
  ℕ, zero, suc, ◌+◌, ◌-◌, bit_and, bit_or, bit_xor, Bool, true, false, ◌&&◌, ◌||◌, not, Option,
  none, some, List, [], ◌∷◌, ◌++◌, ltb, leb, ◌==◌, if◌then◌else◌, ◌>>=◌, length, get_elem?, slice,
  replicate,
}
use elf_dos.Mdv.Style.{s_b, s_i, s_l, s_c, s_u, has_bit}
use elf_dos.Mdv.Wrap.{Wrap, put, is_empty}
use elf_dos.Mdv.Scan.{
  is_punct, run_len, find_code_close, can_open, can_close, find_emph_close, find_bracket,
  find_paren,
}

-- The variables of the loop. `link_end` is `none` for -1.
pub record State : Type 0 where
  pub i : ℕ
  pub it_ch : ℕ
  pub bo_ch : ℕ
  pub link_end : Option ℕ
  pub link_after : ℕ
  pub url : Option (List ℕ)
  pub w : Wrap

-- The variables before the loop.
abbrev pub initial : Wrap → State
initial w = record {
  i = 0;
  it_ch = 0;
  bo_ch = 0;
  link_end = none;
  link_after = 0;
  url = none;
  w = w;
}

-- `for b in bs: w.put(b)`
unfoldable pub put_all : List ℕ → Wrap → Wrap
put_all [] w = w
put_all (b ∷ bs) w = put_all bs (put b w)

-- `w.cur |= st` and `w.cur &= ~st`
unfoldable pub style_on : ℕ → Wrap → Wrap
style_on st w = record w { cur = bit_or w.cur st }

unfoldable pub style_off : ℕ → Wrap → Wrap
style_off st w = record w { cur = bit_xor w.cur (bit_and w.cur st) }

-- `put(c)` and on to the next character.
unfoldable pub plain_char : ℕ → State → State
plain_char c s = record s { w = put c s.w; i = s.i + 1 }

-- `bs` in the style `st`.
unfoldable pub put_styled : ℕ → List ℕ → Wrap → Wrap
unfolding put_all style_on style_off
put_styled st bs w = style_off st (put_all bs (style_on st w))

-- `if i == link_end:`
unfoldable pub at_link_end : State → Bool
at_link_end s = elim s.link_end [ none ↦ false | some j ↦ s.i == j ]

unfoldable pub show_url : Option (List ℕ) → Wrap → Wrap
unfolding put_styled
show_url none w = w
show_url (some u) w = put_styled s_u (b' ' ∷ b'(' ∷ (u ++ b')' ∷ [])) w

unfoldable pub leave_link : State → State
unfolding show_url style_off
leave_link s = record s {
  w = show_url s.url (style_off s_l s.w);
  i = s.link_after;
  link_end = none;
}

unfoldable pub all_spaces : List ℕ → Bool
all_spaces [] = true
all_spaces (x ∷ xs) = x == 32 && all_spaces xs

-- `bytes == bytes`
unfoldable pub same_bytes : List ℕ → List ℕ → Bool
same_bytes [] [] = true
same_bytes [] (y ∷ ys) = false
same_bytes (x ∷ xs) [] = false
same_bytes (x ∷ xs) (y ∷ ys) = x == y && same_bytes xs ys

module _ (t : List ℕ) where
  -- `if c == 92:`
  unfoldable pub on_backslash : State → Option State
  unfolding plain_char
  on_backslash s = do
    n ← get_elem? t (s.i + 1)
    some (if is_punct n then record s { w = put n s.w; i = s.i + 2 } else plain_char 92 s)

  -- The text of a code span between `a` and `e`: one space less at each end, if both ends have
  -- one and the text is not all spaces.
  unfoldable pub code_text : ℕ → ℕ → Option (List ℕ)
  unfolding all_spaces
  code_text a e =
      if leb 2 (e - a)
      then (do
        x ← get_elem? t a
        y ← get_elem? t (e - 1)
        some (
            if x == 32 && y == 32 && not (all_spaces (slice a e t))
            then slice (a + 1) (e - 1) t
            else slice a e t))
      else some (slice a e t)

  -- `if c == 96:`
  unfoldable pub on_backquote : State → Option State
  unfolding put_all put_styled
  on_backquote s = do
    k ← run_len t s.i 96
    close ← find_code_close t s.i k
    elim close [
      | none ↦ some (record s { w = put_all (replicate k 96) s.w; i = s.i + k })
      | some e ↦ do
        code ← code_text (s.i + k) e
        some (record s { w = put_styled s_c code s.w; i = e + k })
    ]

  -- The style bits of a run of `k` characters.
  unfoldable pub need_of : ℕ → ℕ
  unfolding has_bit
  need_of k = bit_or (if has_bit k 1 then s_i else 0) (if has_bit k 2 then s_b else 0)

  -- Whether the run closes what it opened: `on == need and chars_ok and can_close(...)`.
  unfoldable pub ends_emph : ℕ → ℕ → ℕ → State → Option Bool
  unfolding has_bit
  ends_emph c k need s =
      if bit_and s.w.cur need == need
        && (not (has_bit need s_i) || s.it_ch == c)
        && (not (has_bit need s_b) || s.bo_ch == c)
      then can_close t s.i k c
      else some false

  -- `on == 0 and can_open(...) and find_emph_close(...) >= 0`
  unfoldable pub begins_emph : ℕ → ℕ → ℕ → State → Option Bool
  begins_emph c k need s =
      if bit_and s.w.cur need == 0
      then (do
        open_ok ← can_open t s.i k c
        if open_ok
            then (do
              close ← find_emph_close t s.i k c
              some (elim close [ none ↦ false | some j ↦ true ]))
            else some false)
      else some false

  unfoldable pub begin_emph : ℕ → ℕ → State → State
  unfolding has_bit style_on
  begin_emph c need s = record s {
    w = style_on need s.w;
    it_ch = if has_bit need s_i then c else s.it_ch;
    bo_ch = if has_bit need s_b then c else s.bo_ch;
  }

  -- The state behind the run, but for `i`.
  unfoldable pub emph_run : ℕ → ℕ → State → Option State
  unfolding need_of ends_emph begins_emph begin_emph put_all style_off
  emph_run c k s =
      let need = need_of k in
      let literal = record s { w = put_all (replicate k c) s.w } in
      if leb 1 k && leb k 3
      then (do
        ends ← ends_emph c k need s
        if ends then some (record s { w = style_off need s.w }) else (do
          begins ← begins_emph c k need s
          some (if begins then begin_emph c need s else literal)))
      else some literal

  -- `if c in (42, 95):`
  unfoldable pub on_emph : ℕ → State → Option State
  unfolding emph_run
  on_emph c s = do k ← run_len t s.i c; s' ← emph_run c k s; some (record s' { i = s.i + k })

  -- `if c == 33 and t[i + 1] == 91 and not (w.cur & S_L):`, else the character itself.
  unfoldable pub on_bang : State → Option State
  unfolding plain_char has_bit
  on_bang s = do
    n ← get_elem? t (s.i + 1)
    if n == 91 && not (has_bit s.w.cur s_l)
        then (do
          close ← find_bracket t (s.i + 1)
          elim close [
            | none ↦ some (plain_char 33 s)
            | some j ↦ do
              d ← get_elem? t (j + 1)
              some (if d == 40 || d == 91 then record s { i = s.i + 1 } else plain_char 33 s)
          ])
        else some (plain_char 33 s)

  -- `while ue < e and t[ue] not in (32, 9): ue += 1`, with `r` characters left before `e`.
  unfoldable pub url_end : ℕ → ℕ → Option ℕ
  url_end zero ue = some ue
  url_end (suc r) ue = do
    c ← get_elem? t ue
    elim (c == 32 || c == 9) [ true ↦ some ue | false ↦ url_end r (ue + 1) ]

  -- Into the text of a link that ends at `j`; behind it the scan goes on at `after`.
  unfoldable pub enter_link : Option (List ℕ) → ℕ → ℕ → State → State
  unfolding style_on
  enter_link u j after s = record s {
    url = u;
    link_end = some j;
    link_after = after;
    w = style_on s_l s.w;
    i = s.i + 1;
  }

  -- The bracket at `i` closes at `j`, and a parenthesis follows.
  unfoldable pub inline_link : ℕ → State → Option State
  unfolding url_end enter_link same_bytes plain_char
  inline_link j s = do
    close ← find_paren t (j + 1)
    elim close [
      | none ↦ some (plain_char 91 s)
      | some e ↦ do
        ue ← url_end (e - (j + 2)) (j + 2)
        let u = slice (j + 2) ue t
        let shown = not (is_empty u) && not (same_bytes u (slice (s.i + 1) j t))
        some (enter_link (if shown then some u else none) j (e + 1) s)
    ]

  -- The bracket at `i` closes at `j`, and another one follows.
  unfoldable pub reference_link : ℕ → State → Option State
  unfolding enter_link plain_char
  reference_link j s = do
    close ← find_bracket t (j + 1)
    some (elim close [ none ↦ plain_char 91 s | some e ↦ enter_link none j (e + 1) s ])

  -- `if c == 91 and not (w.cur & S_L):`, else the character itself.
  unfoldable pub on_bracket : State → Option State
  unfolding inline_link reference_link plain_char has_bit
  on_bracket s = if has_bit s.w.cur s_l then some (plain_char 91 s) else (do
    close ← find_bracket t s.i
    elim close [
      | none ↦ some (plain_char 91 s)
      | some j ↦ do
        d ← get_elem? t (j + 1)
        if d == 40
            then inline_link j s
            else if d == 91
            then reference_link j s
            else some (plain_char 91 s)
    ])

  -- The loop of an autolink: its end, and whether a colon or an at sign was seen.
  unfoldable pub angle_loop : ℕ → ℕ → Bool → Option (ℕ × Bool)
  angle_loop zero j special = none
  angle_loop (suc f) j special = do
    c ← get_elem? t j
    elim (ltb 32 c && not (c == 60 || c == 62)) [
      | true ↦ angle_loop f (j + 1) (special || c == 58 || c == 64)
      | false ↦ some (j, special)
    ]

  -- `if c == 60:`
  unfoldable pub on_angle : State → Option State
  unfolding angle_loop put_styled plain_char
  on_angle s = do
    (j, special) ← angle_loop (length t) (s.i + 1) false
    d ← get_elem? t j
    some (
        if d == 62 && ltb (s.i + 1) j && special
        then record s { w = put_styled s_l (slice (s.i + 1) j t) s.w; i = j + 1 }
        else plain_char 60 s)

  -- The body of the loop at the character `c`.
  unfoldable pub render_step : ℕ → State → Option State
  unfolding at_link_end leave_link on_backslash on_backquote on_emph on_bang on_bracket on_angle
  render_step c s =
      if at_link_end s
      then some (leave_link s)
      else if c == 92
      then on_backslash s
      else if c == 96
      then on_backquote s
      else if c == 42 || c == 95
      then on_emph c s
      else if c == 33
      then on_bang s
      else if c == 91
      then on_bracket s
      else if c == 60
      then on_angle s
      else some (plain_char c s)

  -- `while t[i]:`
  unfoldable pub render_loop : ℕ → State → Option State
  render_loop zero s = none
  render_loop (suc f) s = do
    c ← get_elem? t s.i
    elim (c == 0) [ true ↦ some s | false ↦ do s' ← render_step c s; render_loop f s' ]

  unfoldable pub render_inline : Wrap → Option Wrap
  unfolding render_loop
  render_inline w = do s ← render_loop (length t) (initial w); some (record s.w { cur = 0 })
