-- ===== src/Margin/Expr/Lexer.antt =====
-- `TOKEN_RE.findall` of tools/check_kernel_margin.py, on the ASCII codes of a text. Where no
-- alternative matches, one character is passed over.
pub mod RoundTrip
use elf_dos.Base.{
  ℕ, zero, suc, ◌+◌, ◌-◌, ◌*◌, Bool, true, false, ◌&&◌, ◌||◌, not, Option, none, some, List, [],
  ◌∷◌, leb, ◌==◌, if◌then◌else◌, length,
}
use elf_dos.Base.Scan.{is_letter, is_name_char, span}
use elf_dos.Margin.Expr.{Token, number, word}

unfoldable pub is_dec : ℕ → Bool
is_dec c = leb b'0' c && leb c b'9'

unfoldable pub is_hex : ℕ → Bool
unfolding is_dec
is_hex c = is_dec c || (leb b'A' c && leb c b'F') || (leb b'a' c && leb c b'f')

unfoldable pub is_operator : ℕ → Bool
is_operator c = c == b'*' || c == b'+' || c == b'-'

-- The value of a digit.
unfoldable pub digit_of : ℕ → ℕ
digit_of c = if leb c b'9' then c - b'0' else if leb c b'F' then c - b'A' + 10 else c - b'a' + 10

-- `int(s, base)` of a text of digits, with the number read so far.
unfoldable pub int_of : ℕ → ℕ → List ℕ → ℕ
int_of base n [] = n
int_of base n (c ∷ s) = int_of base (n * base + digit_of c) s

-- `\$[0-9A-Fa-f]+`, behind the dollar sign.
unfoldable pub hex_token : List ℕ × List ℕ → Option (Token × List ℕ)
hex_token ([], r) = none
hex_token (c ∷ s, r) = some (number (int_of 16 0 (c ∷ s)), r)

-- `'.'`, behind the first quote.
unfoldable pub char_token : List ℕ → Option (Token × List ℕ)
char_token (c ∷ q ∷ r) = if not (c == 10) && q == 39 then some (number c, r) else none
char_token _ = none

-- `[0-9]+` and a name, behind their first character.
abbrev pub dec_token : ℕ → List ℕ × List ℕ → Option (Token × List ℕ)
dec_token c (s, r) = some (number (int_of 10 0 (c ∷ s)), r)

abbrev pub name_token : ℕ → List ℕ × List ℕ → Option (Token × List ℕ)
name_token c (s, r) = some (word (c ∷ s), r)

-- The token at the start of `c ∷ s`, and what follows it.
unfoldable pub token_at : ℕ → List ℕ → Option (Token × List ℕ)
token_at c s =
    if c == b'$'
    then hex_token (span is_hex s)
    else if c == 39
    then char_token s
    else if is_dec c
    then dec_token c (span is_dec s)
    else if is_letter c
    then name_token c (span is_name_char s)
    else if is_operator c
    then some (word (c ∷ []), s)
    else none

unfoldable pub find_tokens : ℕ → List ℕ → List Token
find_tokens zero s = []
find_tokens (suc f) [] = []
find_tokens (suc f) (c ∷ s) = elim (token_at c s) [
  | none ↦ find_tokens f s
  | some (t, r) ↦ t ∷ find_tokens f r
]

-- `TOKEN_RE.findall(text)`: every step takes a character at least.
unfoldable pub find_all : List ℕ → List Token
find_all s = find_tokens (length s) s
