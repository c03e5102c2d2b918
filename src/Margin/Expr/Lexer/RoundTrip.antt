-- ===== src/Margin/Expr/Lexer/RoundTrip.antt =====
-- An expression written out, and its tokens found again.
use elf_dos.Base.{
  refl, ap, ◌∙◌, ℕ, zero, suc, ◌≤◌, ◌<◌, ◌≡◌, ◌≢◌, true, false, none, some, List, [], ◌∷◌, ◌++◌,
  map, ◌==◌, length, All, arith, length-append,
}
use elf_dos.Base.Scan.{is_letter, is_name_char, Stops, span-Stops}
use elf_dos.Margin.Expr.{Token, number, word}
use elf_dos.Margin.Expr.Lexer.{
  is_dec, is_hex, is_operator, int_of, hex_token, char_token, token_at, find_tokens, find_all,
}

-- The five kinds of token, as they are written. The name has a first letter.
pub data Lexeme : Type 0 where
  hex dec : ℕ → List ℕ → Lexeme
  char : ℕ → Lexeme
  name : ℕ → List ℕ → Lexeme
  operator : ℕ → Lexeme

abbrev pub written : Lexeme → List ℕ
written (hex c s) = b'$' ∷ c ∷ s
written (dec c s) = c ∷ s
written (char c) = 39 ∷ c ∷ 39 ∷ []
written (name c s) = c ∷ s
written (operator c) = c ∷ []

abbrev pub meant : Lexeme → Token
meant (hex c s) = number (int_of 16 0 (c ∷ s))
meant (dec c s) = number (int_of 10 0 (c ∷ s))
meant (char c) = number c
meant (name c s) = word (c ∷ s)
meant (operator c) = word (c ∷ [])

abbrev pub IsLexeme : Lexeme → Type 0
IsLexeme (hex c s) = All (λ x. is_hex x ≡ true) (c ∷ s)
IsLexeme (dec c s) = All (λ x. is_dec x ≡ true) (c ∷ s)
IsLexeme (char c) = c ≢ 10
IsLexeme (name c s) = (is_letter c ≡ true) × All (λ x. is_name_char x ≡ true) s
IsLexeme (operator c) = is_operator c ≡ true

-- What may follow a number or a name: nothing, or a character that is in no name.
abbrev pub IsFollowed : Lexeme → List ℕ → Type 0
IsFollowed (char c) r = Unit
IsFollowed (operator c) r = Unit
IsFollowed _ r = Stops is_name_char r

-- Characters that start no token.
abbrev pub IsGap : List ℕ → Type 0
IsGap = All (λ c. c < 33)

-- The lexemes, each with the white space behind it.
abbrev pub expression : List (Lexeme × List ℕ) → List ℕ
expression [] = []
expression ((l, gap) ∷ ls) = written l ++ (gap ++ expression ls)

-- Numbers and names do not run into what follows them.
abbrev pub IsExpression : List (Lexeme × List ℕ) → Type 0
IsExpression [] = Unit
IsExpression ((l, gap) ∷ ls) =
    IsLexeme l × IsGap gap × IsFollowed l (gap ++ expression ls) × IsExpression ls

abbrev rest_of : Lexeme → List ℕ
rest_of (hex c s) = c ∷ s
rest_of (dec c s) = s
rest_of (char c) = c ∷ 39 ∷ []
rest_of (name c s) = s
rest_of (operator c) = []

abbrev initial : Lexeme → ℕ
initial (hex c s) = b'$'
initial (dec c s) = c
initial (char c) = 39
initial (name c s) = c
initial (operator c) = c

name-hex : (c : ℕ) → is_name_char c ≡ false → (is_hex c ≡ false) × (is_dec c ≡ false)
unfolding is_name_char is_hex is_dec is_letter
name-hex c h = (ground arith, ground arith)

Stops-weaken : (r : List ℕ) → Stops is_name_char r → Stops is_hex r × Stops is_dec r
Stops-weaken [] h = (tt, tt)
Stops-weaken (c ∷ r) h = name-hex c h

dec_first : (c : ℕ) → is_dec c ≡ true → ((c == b'$') ≡ false) × ((c == 39) ≡ false)
unfolding is_dec
dec_first c h = (ground arith, ground arith)

letter_first :
    (c : ℕ) → is_letter c ≡ true → ((c == b'$') ≡ false) × ((c == 39) ≡ false) × (is_dec c ≡ false)
unfolding is_letter is_dec
letter_first c h = (ground arith, ground arith, ground arith)

operator_first :
    (c : ℕ)
    → is_operator c ≡ true
    → ((c == b'$') ≡ false) × ((c == 39) ≡ false) × (is_dec c ≡ false) × (is_letter c ≡ false)
unfolding is_operator is_letter is_dec
operator_first c h = (ground arith, ground arith, ground arith, ground arith)

gap_first : (c : ℕ) (s : List ℕ) → c < 33 → token_at c s ≡ none
unfolding token_at is_dec is_letter is_operator
gap_first c s h =
    let a : (c == b'$') ≡ false = ground arith in
    let b : (c == 39) ≡ false = ground arith in
    let d : is_dec c ≡ false = ground arith in
    let l : is_letter c ≡ false = ground arith in
    let o : is_operator c ≡ false = ground arith in rw (token_at, a, b, d, l, o) refl

-- The token, and the rest.
token-written :
    (l : Lexeme) (r : List ℕ)
    → IsLexeme l
    → IsFollowed l r
    → token_at (initial l) (rest_of l ++ r) ≡ some (meant l, r)
unfolding token_at hex_token char_token
token-written (hex c s) r h k = rw (span-Stops is_hex (c ∷ s) r h (Stops-weaken r k).0) refl
token-written (dec c s) r h k =
    let (a, b) = dec_first c h.0 in
    rw (token_at, a, b, h.0, span-Stops is_dec s r h.1 (Stops-weaken r k).1) refl
token-written (char c) r h k = let a : (c == 10) ≡ false = ground (arith, h) in rw a refl
token-written (name c s) r h k =
    let (a, b, d) = letter_first c h.0 in
    rw (token_at, a, b, d, h.0, span-Stops is_name_char s r h.1 k) refl
token-written (operator c) r h k =
    let (a, b, d, n) = operator_first c h in rw (token_at, a, b, d, n, h) refl

head-written : (l : Lexeme) (r : List ℕ) → written l ++ r ≡ initial l ∷ (rest_of l ++ r)
head-written (hex c s) r = refl
head-written (dec c s) r = refl
head-written (char c) r = refl
head-written (name c s) r = refl
head-written (operator c) r = refl

-- White space is passed over.
find-gap :
    (f : ℕ) (gap s : List ℕ) (ts : List Token)
    → IsGap gap
    → length (gap ++ s) ≤ f
    → ((g : ℕ) → length s ≤ g → find_tokens g s ≡ ts)
    → find_tokens f (gap ++ s) ≡ ts
unfolding find_tokens
find-gap f [] s ts h le next = next f le
find-gap zero (c ∷ gap) s ts h le next = absurd (omega arith)
find-gap (suc f) (c ∷ gap) s ts h le next =
    rw (find_tokens, gap_first c (gap ++ s) h.0) (find-gap f gap s ts h.1 (omega arith) next)

find-expression :
    (ls : List (Lexeme × List ℕ)) (f : ℕ)
    → IsExpression ls
    → length (expression ls) ≤ f
    → find_tokens f (expression ls) ≡ map (λ l. meant l.0) ls
unfolding find_tokens
find-expression [] zero h le = refl
find-expression [] (suc f) h le = refl
find-expression ((l, gap) ∷ ls) f h le =
    let r : List ℕ = gap ++ expression ls in
    let split = head-written l r in
    ap (λ t. find_tokens f t) split
    ∙ one f (initial l) (rest_of l ++ r) r (meant l) (map (λ x. meant x.0) ls)
        (token-written l r h.0 h.2) (omega (arith, ap length split))
        (omega (arith, length-append (rest_of l) r))
        (λ g k. find-gap g gap (expression ls) _ h.1 k (λ f' k'. find-expression ls f' h.3 k'))
  where
    one :
        (f c : ℕ) (s r : List ℕ) (t : Token) (ts : List Token)
        → token_at c s ≡ some (t, r)
        → length (c ∷ s) ≤ f
        → length r ≤ length s
        → ((g : ℕ) → length r ≤ g → find_tokens g r ≡ ts)
        → find_tokens f (c ∷ s) ≡ t ∷ ts
    one zero c s r t ts e le short next = absurd (omega arith)
    one (suc f) c s r t ts e le short next =
        rw (find_tokens, e) (ap (λ x. t ∷ x) (next f (omega arith)))

-- The tokens of an expression that is written out, with any white space between them, and with some
-- or an operator where a number and a name would run together, are its tokens again.
pub find_all-expression :
    (ls : List (Lexeme × List ℕ))
    → IsExpression ls
    → find_all (expression ls) ≡ map (λ l. meant l.0) ls
unfolding find_all
find_all-expression ls h = find-expression ls (length (expression ls)) h (omega arith)
