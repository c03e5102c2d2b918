-- ===== src/Fat/Names.antt =====
-- The string methods that tools/fat12-proto/fatx.py calls, on the code points of a text. Lower case,
-- and the tests for either case, are those of the characters below 256, which a short name has; upper
-- case, which only the name for `putroot` is brought to, is that of ASCII letters.
pub mod Laws
use elf_dos.Base.{
  ℕ, ◌+◌, ◌-◌, ◌/◌, ◌%◌, ◌^◌, Bool, true, false, ◌&&◌, ◌||◌, not, Option, none, some, ◌>>=◌, ltb,
  List, [], ◌∷◌, ◌++◌, map, leb, ◌==◌, if◌then◌else◌, length, replicate,
}

-- White space of `str.rstrip`, below 256.
unfoldable pub is_space : ℕ → Bool
is_space c = (leb 9 c && leb c 13) || (leb 28 c && leb c 32) || c == 0x85 || c == 0xA0

abbrev pub is_empty : List ℕ → Bool
is_empty [] = true
is_empty (c ∷ s) = false

unfoldable pub rstrip : List ℕ → List ℕ
rstrip [] = []
rstrip (c ∷ s) = let r = rstrip s in if is_empty r && is_space c then [] else c ∷ r

unfoldable pub is_upper_char : ℕ → Bool
is_upper_char c = (leb b'A' c && leb c b'Z') || (leb 0xC0 c && leb c 0xDE && not (c == 0xD7))

abbrev pub is_ascii_lower : ℕ → Bool
is_ascii_lower c = leb b'a' c && leb c b'z'

unfoldable pub is_lower_char : ℕ → Bool
is_lower_char c =
    is_ascii_lower c
    || c == 0xAA
    || c == 0xB5
    || c == 0xBA
    || (leb 0xDF c && leb c 0xFF && not (c == 0xF7))

unfoldable pub lower_char : ℕ → ℕ
lower_char c = if is_upper_char c then c + 32 else c

unfoldable pub upper_char : ℕ → ℕ
upper_char c = if is_ascii_lower c then c - 32 else c

abbrev pub lower : List ℕ → List ℕ
lower = map lower_char

abbrev pub upper : List ℕ → List ℕ
upper = map upper_char

unfoldable pub any_char : (ℕ → Bool) → List ℕ → Bool
any_char p [] = false
any_char p (c ∷ s) = p c || any_char p s

-- `str.islower`: a letter that is lower case, and none that is upper case.
unfoldable pub is_lower : List ℕ → Bool
is_lower s = any_char is_lower_char s && not (any_char is_upper_char s)

-- `s.ljust(n)`
abbrev pub ljust : ℕ → List ℕ → List ℕ
ljust n s = s ++ replicate (n - length s) b' '

-- A code point in UTF-8; that of a surrogate is refused.
unfoldable pub encode_char : ℕ → Option (List ℕ)
encode_char c =
    if ltb c 0x80
    then some (c ∷ [])
    else if ltb c 0x800
    then some ((0xC0 + c / 2 ^ 6) ∷ (0x80 + c % 2 ^ 6) ∷ [])
    else if leb 0xD800 c && ltb c 0xE000
    then none
    else if ltb c 0x10000
    then some ((0xE0 + c / 2 ^ 12) ∷ (0x80 + c / 2 ^ 6 % 2 ^ 6) ∷ (0x80 + c % 2 ^ 6) ∷ [])
    else some (
        (0xF0 + c / 2 ^ 18)
        ∷ (0x80 + c / 2 ^ 12 % 2 ^ 6)
        ∷ (0x80 + c / 2 ^ 6 % 2 ^ 6)
        ∷ (0x80 + c % 2 ^ 6)
        ∷ [])

-- `s.encode()`
unfoldable pub encode : List ℕ → Option (List ℕ)
unfolding encode_char
encode [] = some []
encode (c ∷ s) = do b ← encode_char c; t ← encode s; some (b ++ t)

-- The pieces of `s.split(sep)`, in their order.
unfoldable pub split_from : ℕ → List ℕ → List ℕ → List (List ℕ)
split_from sep piece [] = piece ∷ []
split_from sep piece (c ∷ s) = elim (c == sep) [
  | true ↦ piece ∷ split_from sep [] s
  | false ↦ split_from sep (piece ++ c ∷ []) s
]

abbrev pub split : ℕ → List ℕ → List (List ℕ)
split sep s = split_from sep [] s

-- `s.split('\x00')[0]`
unfoldable pub until_nul : List ℕ → List ℕ
until_nul [] = []
until_nul (c ∷ s) = let r = until_nul s in if c == 0 then [] else c ∷ r
