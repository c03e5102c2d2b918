-- ===== src/Image/Equates.antt =====
-- `eval_equ` of tools/split_kernel.py. The dictionary of equates is the list of its items, and a
-- text is the list of its ASCII codes. An outer `none` is fuel that ran out; the inner one is the
-- ValueError.
pub mod Meaning
use elf_dos.Base.{
  ℕ, zero, suc, ◌+◌, ◌-◌, ◌*◌, Bool, true, false, ◌&&◌, ◌||◌, not, Option, none, some, List, [],
  ◌∷◌, leb, ◌==◌, if◌then◌else◌, ◌>>=◌, length,
}
use elf_dos.Base.Text.{lookup_text, has_text}

-- Names and the texts behind `equ`.
abbrev pub Equs : Type 0
Equs = List (List ℕ × List ℕ)

-- The characters that `str.strip` takes off.
unfoldable pub is_space : ℕ → Bool
is_space c = (leb 9 c && leb c 13) || (leb 28 c && leb c 32)

unfoldable pub skip_spaces : List ℕ → List ℕ
unfolding is_space
skip_spaces [] = []
skip_spaces (c ∷ s) = if is_space c then skip_spaces s else c ∷ s

abbrev pub is_nil : List ℕ → Bool
is_nil [] = true
is_nil (c ∷ s) = false

unfoldable pub drop_spaces : List ℕ → List ℕ
unfolding is_space
drop_spaces [] = []
drop_spaces (c ∷ s) = let r = drop_spaces s in if is_nil r && is_space c then [] else c ∷ r

unfoldable pub strip : List ℕ → List ℕ
unfolding skip_spaces drop_spaces
strip s = drop_spaces (skip_spaces s)

-- The value of a digit in base 16, and in base 10.
unfoldable pub hex_value : ℕ → Option ℕ
hex_value c =
    if leb b'0' c && leb c b'9'
    then some (c - b'0')
    else if leb b'A' c && leb c b'F'
    then some (c - b'A' + 10)
    else if leb b'a' c && leb c b'f'
    then some (c - b'a' + 10)
    else none

unfoldable pub dec_value : ℕ → Option ℕ
dec_value c = if leb b'0' c && leb c b'9' then some (c - b'0') else none

-- `int(s, base)` of a text of digits, with the number read so far.
unfoldable pub digits_from : (ℕ → Option ℕ) → ℕ → ℕ → List ℕ → Option ℕ
digits_from value base n [] = some n
digits_from value base n (c ∷ s) = do d ← value c; digits_from value base (n * base + d) s

-- One digit at least, and nothing else.
unfoldable pub number : (ℕ → Option ℕ) → ℕ → List ℕ → Option ℕ
unfolding digits_from
number value base [] = none
number value base (c ∷ s) = digits_from value base 0 (c ∷ s)

-- `re.fullmatch(r"\$([0-9A-Fa-f]+)", text)` and `re.fullmatch(r"\d+", text)`, with the value.
unfoldable pub literal : List ℕ → Option ℕ
unfolding number hex_value dec_value
literal [] = none
literal (c ∷ s) = if c == b'$' then number hex_value 16 s else number dec_value 10 (c ∷ s)

unfoldable pub eval_equ_loop : Equs → ℕ → List ℕ → List (List ℕ) → Option (Option ℕ)
unfolding strip literal
eval_equ_loop equs zero text seen = none
eval_equ_loop equs (suc f) text seen = elim (literal (strip text)) [
  | some n ↦ some (some n)
  | none ↦ elim (lookup_text (strip text) equs) [
    | none ↦ some none
    | some body ↦ elim (has_text (strip text) seen) [
      | true ↦ some none
      | false ↦ eval_equ_loop equs f body (strip text ∷ seen)
    ]
  ]
]

-- `eval_equ(text, equs)`: each call on a name has one more name in `seen`.
unfoldable pub eval_equ : List ℕ → Equs → Option (Option ℕ)
unfolding eval_equ_loop
eval_equ text equs = eval_equ_loop equs (suc (length equs)) text []
