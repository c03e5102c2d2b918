-- ===== src/Mdv/Scan.antt =====
-- The look-ahead functions of tools/mdvref.py over a text that ends in a NUL. An outer `none` is
-- an IndexError (or rounds that ran out, which Mdv/Scan/Total rules out); an inner `none` is the
-- result -1.
pub mod Total
pub mod Marks
use elf_dos.Base.{
  ℕ, zero, suc, ◌+◌, ◌-◌, Bool, true, false, ◌&&◌, ◌||◌, not, Option, none, some, List, ltb, leb,
  ◌==◌, if◌then◌else◌, ◌>>=◌, length, get_elem?,
}

-- `c in PUNCT`
unfoldable pub is_punct : ℕ → Bool
is_punct c =
    (leb 33 c && leb c 47)
    || (leb 58 c && leb c 64)
    || (leb 91 c && leb c 96)
    || (leb 123 c && leb c 126)

unfoldable pub is_ws : ℕ → Bool
is_ws c = c == 0 || c == 32 || c == 9

module _ (t : List ℕ) where
  -- `while t[i + k] == ch: k += 1`
  unfoldable pub run_loop : ℕ → ℕ → ℕ → ℕ → Option ℕ
  run_loop zero i ch k = none
  run_loop (suc f) i ch k = do
    c ← get_elem? t (i + k)
    elim (c == ch) [ true ↦ run_loop f i ch (k + 1) | false ↦ some k ]

  unfoldable pub run_len : ℕ → ℕ → Option ℕ
  run_len i ch = run_loop (length t) i ch 0

  unfoldable pub code_loop : ℕ → ℕ → ℕ → Option (Option ℕ)
  code_loop zero j k = none
  code_loop (suc f) j k = do
    c ← get_elem? t j
    elim (c == 0) [
      | true ↦ some none
      | false ↦ elim (c == 96) [
        | false ↦ code_loop f (j + 1) k
        | true ↦ do
          m ← run_len j 96
          elim (m == k) [ true ↦ some (some j) | false ↦ code_loop f (j + m) k ]
      ]
    ]

  unfoldable pub find_code_close : ℕ → ℕ → Option (Option ℕ)
  find_code_close i k = code_loop (length t) (i + k) k

-- What `flank` returns.
pub record Flank : Type 0 where
  pub left : Bool
  pub right : Bool
  pub pp : Bool
  pub npn : Bool

-- The result of `flank` from the characters before and behind a run.
unfoldable pub flank_of : ℕ → ℕ → Flank
flank_of prev nxt =
    let pw = is_ws prev in
    let nw = is_ws nxt in
    let pp = is_punct prev in
    let npn = is_punct nxt in
    record {
      left = not nw && (not npn || pw || pp);
      right = not pw && (not pp || nw || npn);
      pp = pp;
      npn = npn;
    }

module _ (t : List ℕ) where
  -- `t[i - 1] if i > 0 else 32`
  unfoldable pub char_before : ℕ → Option ℕ
  char_before zero = some 32
  char_before (suc i) = get_elem? t i

  unfoldable pub flank : ℕ → ℕ → Option Flank
  flank i k = do prev ← char_before i; nxt ← get_elem? t (i + k); some (flank_of prev nxt)

  unfoldable pub can_open : ℕ → ℕ → ℕ → Option Bool
  can_open i k ch = do
    f ← flank i k
    some (if ch == 42 then f.left else f.left && (not f.right || f.pp))

  unfoldable pub can_close : ℕ → ℕ → ℕ → Option Bool
  can_close i k ch = do
    f ← flank i k
    some (if ch == 42 then f.right else f.right && (not f.left || f.npn))

  -- `c == 92 and t[j + 1]`: a backslash with a character behind it.
  unfoldable pub is_escape : ℕ → ℕ → Option Bool
  is_escape c j = if c == 92 then (do n ← get_elem? t (j + 1); some (not (n == 0))) else some false

  -- Behind the code span at `j`, or behind its opening run if it is not closed.
  unfoldable pub skip_code : ℕ → Option ℕ
  skip_code j = do
    m ← run_len t j 96
    e ← find_code_close t j m
    some (elim e [ none ↦ j + m | some e' ↦ e' + m ])

  -- Whether the run of length `m` at `j` closes emphasis that was opened by `k` characters.
  unfoldable pub closes : ℕ → ℕ → ℕ → ℕ → Option Bool
  closes j m k ch = if m == k then can_close j k ch else some false

  unfoldable pub emph_loop : ℕ → ℕ → ℕ → ℕ → Option (Option ℕ)
  emph_loop zero j k ch = none
  emph_loop (suc f) j k ch = do
    c ← get_elem? t j
    elim (c == 0) [
      | true ↦ some none
      | false ↦ do
        esc ← is_escape c j
        elim esc [
          | true ↦ emph_loop f (j + 2) k ch
          | false ↦ elim (c == 96) [
            | true ↦ do j' ← skip_code j; emph_loop f j' k ch
            | false ↦ elim (c == ch) [
              | false ↦ emph_loop f (j + 1) k ch
              | true ↦ do
                m ← run_len t j ch
                ok ← closes j m k ch
                elim ok [ true ↦ some (some j) | false ↦ emph_loop f (j + m) k ch ]
            ]
          ]
        ]
    ]

  unfoldable pub find_emph_close : ℕ → ℕ → ℕ → Option (Option ℕ)
  find_emph_close i k ch = emph_loop (length t) (i + k) k ch

  -- The loop of `find_bracket` and `find_paren`: the match of `depth` open brackets.
  unfoldable pub match_loop : ℕ → ℕ → ℕ → ℕ → ℕ → Option (Option ℕ)
  match_loop op cl zero j depth = none
  match_loop op cl (suc f) j depth = do
    c ← get_elem? t j
    elim (c == 0) [
      | true ↦ some none
      | false ↦ do
        esc ← is_escape c j
        elim esc [
          | true ↦ match_loop op cl f (j + 2) depth
          | false ↦ elim (c == op) [
            | true ↦ match_loop op cl f (j + 1) (depth + 1)
            | false ↦ elim (c == cl) [
              | false ↦ match_loop op cl f (j + 1) depth
              | true ↦ elim (depth - 1 == 0) [
                | true ↦ some (some j)
                | false ↦ match_loop op cl f (j + 1) (depth - 1)
              ]
            ]
          ]
        ]
    ]

  unfoldable pub find_bracket : ℕ → Option (Option ℕ)
  find_bracket i = match_loop 91 93 (length t) (i + 1) 1

  unfoldable pub find_paren : ℕ → Option (Option ℕ)
  find_paren j = match_loop 40 41 (length t) (j + 1) 1
