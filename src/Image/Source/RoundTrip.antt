-- ===== src/Image/Source/RoundTrip.antt =====
-- Source lines with `equ`, written out and read by `read_equs` of tools/split_kernel.py.
use elf_dos.Base.{
  refl, ap, ◌∙◌, ℕ, ◌≡◌, ◌≢◌, true, false, Option, none, some, List, [], ◌∷◌, ◌++◌, ◌==◌, ◌>>=◌,
  All, All-append, arith, ◌<◌,
}
use elf_dos.Base.Scan.{is_letter, is_name_char, span, Stops, span-Stops}
use elf_dos.Image.Equates.{is_space, skip_spaces}
use elf_dos.Image.Source.{
  until_comment, not_space, some_spaces, colon_spaces, is_either_case, keyword, match_equ,
}

abbrev pub IsBlank : List ℕ → Type 0
IsBlank = All (λ c. is_space c ≡ true)

-- A line that defines `initial ∷ name`, with all that the expression accepts around it: white space,
-- in `colon` that before a colon where there is one, the letters of the keyword, and the text
-- behind the value.
pub record EquLine : Type 0 where
  pub indent : List ℕ
  pub initial : ℕ
  pub name : List ℕ
  pub colon : Option (List ℕ)
  pub gap : ℕ
  pub gaps : List ℕ
  pub letter_e : ℕ
  pub letter_q : ℕ
  pub letter_u : ℕ
  pub stop : ℕ
  pub stops : List ℕ
  pub first : ℕ
  pub value : List ℕ
  pub trailing : List ℕ
  pub comment : Option (List ℕ)

abbrev mark : Option (List ℕ) → List ℕ → List ℕ
mark (some before) s = before ++ b':' ∷ s
mark none s = s

abbrev remark : Option (List ℕ) → List ℕ
remark none = []
remark (some t) = b';' ∷ t

-- From the keyword on, and from the name on, without the comment.
abbrev behind : EquLine → List ℕ
behind l =
    l.letter_e ∷ l.letter_q ∷ l.letter_u ∷ l.stop ∷ (l.stops ++ (l.first ∷ l.value ++ l.trailing))

abbrev body : EquLine → List ℕ
body l = l.initial ∷ (l.name ++ mark l.colon (l.gap ∷ (l.gaps ++ behind l)))

abbrev pub printed : EquLine → List ℕ
printed l = (l.indent ++ body l) ++ remark l.comment

abbrev pub IsBlankMark : Option (List ℕ) → Type 0
IsBlankMark none = Unit
IsBlankMark (some before) = IsBlank before

-- The parts are what they are called, the keyword is in either case, the value is not empty and ends
-- where white space begins, and nothing before the comment is a semicolon.
pub record IsEquLine (l : EquLine) : Type 0 where
  pub indent_blank : IsBlank l.indent
  pub letter : is_letter l.initial ≡ true
  pub name_chars : All (λ c. is_name_char c ≡ true) l.name
  pub colon_blank : IsBlankMark l.colon
  pub is_e : is_either_case b'e' l.letter_e ≡ true
  pub is_q : is_either_case b'q' l.letter_q ≡ true
  pub is_u : is_either_case b'u' l.letter_u ≡ true
  pub gap_blank : IsBlank (l.gap ∷ l.gaps)
  pub stop_blank : IsBlank (l.stop ∷ l.stops)
  pub value_solid : All (λ c. not_space c ≡ true) (l.first ∷ l.value)
  pub value_ends : Stops not_space l.trailing
  pub no_comment : All (λ c. c ≢ b';') (l.first ∷ l.value ++ l.trailing)

skip-blank : (i s : List ℕ) → IsBlank i → skip_spaces (i ++ s) ≡ skip_spaces s
unfolding skip_spaces
skip-blank [] s h = refl
skip-blank (c ∷ i) s h = rw (skip_spaces, h.0) (skip-blank i s h.1)

skip_solid : (c : ℕ) (s : List ℕ) → is_space c ≡ false → skip_spaces (c ∷ s) ≡ c ∷ s
unfolding skip_spaces
skip_solid c s h = rw (skip_spaces, h) refl

some-blank :
    (c : ℕ) (i s : List ℕ) → IsBlank (c ∷ i) → some_spaces (c ∷ (i ++ s)) ≡ some (skip_spaces s)
unfolding some_spaces
some-blank c i s h = rw (some_spaces, h.0) (ap some (skip-blank i s h.1))

letter_solid : (c : ℕ) → is_letter c ≡ true → is_space c ≡ false
unfolding is_letter is_space
letter_solid c h = ground arith

space_other :
    (c : ℕ) → is_space c ≡ true → (is_name_char c ≡ false) × ((c == b':') ≡ false) × (c ≢ b';')
unfolding is_space is_name_char is_letter
space_other c h = (ground arith, ground arith, ground arith)

-- The first letter of the keyword is neither white space nor a colon.
either_e : (c : ℕ) → is_either_case b'e' c ≡ true → (is_space c ≡ false) × ((c == b':') ≡ false)
unfolding is_space
either_e c h = (ground arith, ground arith)

colon_solid : is_space b':' ≡ false
colon_solid = unfold is_space in refl

colon_spaces-mark :
    (b : Option (List ℕ)) (c : ℕ) (i : List ℕ) (e : ℕ) (t : List ℕ)
    → IsBlankMark b
    → IsBlank (c ∷ i)
    → is_either_case b'e' e ≡ true
    → colon_spaces (mark b (c ∷ (i ++ e ∷ t))) ≡ some (e ∷ t)
unfolding colon_spaces
colon_spaces-mark (some s) c i e t k h w =
    let solid : skip_spaces (s ++ b':' ∷ c ∷ (i ++ e ∷ t)) ≡ b':' ∷ c ∷ (i ++ e ∷ t) =
      skip-blank s _ k ∙ skip_solid b':' _ colon_solid in
    rw (colon_spaces, solid) (some-blank c i (e ∷ t) h ∙ ap some (skip_solid e t (either_e e w).0))
colon_spaces-mark none c i e t k h w =
    let other = either_e e w in
    let skipped : skip_spaces (c ∷ (i ++ e ∷ t)) ≡ e ∷ t =
      skip-blank (c ∷ i) (e ∷ t) h ∙ skip_solid e t other.0 in
    rw (colon_spaces, skipped, other.1)
      (some-blank c i (e ∷ t) h ∙ ap some (skip_solid e t other.0))

mark-Stops :
    (b : Option (List ℕ)) (c : ℕ) (s : List ℕ)
    → IsBlankMark b
    → is_space c ≡ true
    → Stops is_name_char (mark b (c ∷ s))
mark-Stops (some []) c s k h = unfold is_name_char in unfold is_letter in refl
mark-Stops (some (x ∷ before)) c s k h = (space_other x k.0).0
mark-Stops none c s k h = (space_other c h).0

solid_first : (c : ℕ) → not_space c ≡ true → is_space c ≡ false
solid_first c h = ground arith

initial_char : (c : ℕ) → is_letter c ≡ true → is_name_char c ≡ true
unfolding is_name_char
initial_char c h = rw h refl

-- The two groups are the name and the value.
match_equ-body :
    (l : EquLine)
    → IsEquLine l
    → match_equ (l.indent ++ body l) ≡ some (l.initial ∷ l.name, l.first ∷ l.value)
unfolding match_equ keyword
match_equ-body l k =
    let start : skip_spaces (l.indent ++ body l) ≡ body l =
      skip-blank l.indent (body l) k.indent_blank
      ∙ skip_solid l.initial _ (letter_solid l.initial k.letter) in
    let named : span is_name_char (body l)
        ≡ (l.initial ∷ l.name, mark l.colon (l.gap ∷ (l.gaps ++ behind l))) =
      span-Stops is_name_char (l.initial ∷ l.name) _ (initial_char l.initial k.letter, k.name_chars)
        (mark-Stops l.colon l.gap _ k.colon_blank k.gap_blank.0) in
    let value_start : skip_spaces (l.first ∷ l.value ++ l.trailing)
        ≡ l.first ∷ l.value ++ l.trailing =
      skip_solid l.first _ (solid_first l.first k.value_solid.0) in
    let valued : span not_space (l.first ∷ l.value ++ l.trailing)
        ≡ (l.first ∷ l.value, l.trailing) =
      span-Stops not_space (l.first ∷ l.value) l.trailing k.value_solid k.value_ends in
    rw
      (
        match_equ,
        start,
        k.letter,
        ◌>>=◌,
        named,
        colon_spaces-mark l.colon l.gap l.gaps l.letter_e _ k.colon_blank k.gap_blank k.is_e,
        keyword,
        k.is_e,
        k.is_q,
        k.is_u,
        some-blank l.stop l.stops (l.first ∷ l.value ++ l.trailing) k.stop_blank,
        value_start,
        valued,
      )
      refl

until-remark :
    (s : List ℕ) (c : Option (List ℕ)) → All (λ x. x ≢ b';') s → until_comment (s ++ remark c) ≡ s
unfolding until_comment
until-remark [] none h = refl
until-remark [] (some t) h = refl
until-remark (x ∷ s) c h =
    let other : (x == b';') ≡ false = ground (arith, h.0) in
    rw (until_comment, other, until-remark s c h.1) refl

All-weaken : (P Q : ℕ → Type 0) (s : List ℕ) → ((c : ℕ) → P c → Q c) → All P s → All Q s
All-weaken P Q [] f h = tt
All-weaken P Q (c ∷ s) f h = (f c h.0, All-weaken P Q s f h.1)

name_char_other : (c : ℕ) → is_name_char c ≡ true → c ≢ b';'
unfolding is_name_char is_letter
name_char_other c h = ground arith

either_other : (c x : ℕ) → is_either_case c x ≡ true → 91 < c → x ≢ b';'
either_other c x h le = ground arith

-- No semicolon stands before the comment.
body_other : (l : EquLine) → IsEquLine l → All (λ x. x ≢ b';') (l.indent ++ body l)
body_other l k =
    let other : ℕ → Type 0 = λ x. x ≢ b';' in
    let blank = λ (s : List ℕ) (h : IsBlank s).
      All-weaken (λ c. is_space c ≡ true) (λ x. x ≢ b';') s (λ c e. (space_other c e).2) h in
    let stops =
      All-append other (l.stop ∷ l.stops) _ (blank (l.stop ∷ l.stops) k.stop_blank) k.no_comment in
    let gaps = All-append other (l.gap ∷ l.gaps) (behind l) (blank (l.gap ∷ l.gaps) k.gap_blank) (
      either_other b'e' l.letter_e k.is_e (omega arith),
      (
        either_other b'q' l.letter_q k.is_q (omega arith),
        (either_other b'u' l.letter_u k.is_u (omega arith), stops),
      ),
    ) in
    All-append other l.indent (body l) (blank l.indent k.indent_blank) (
      name_char_other l.initial (initial_char l.initial k.letter),
      All-append other l.name _
          (All-weaken (λ c. is_name_char c ≡ true) (λ x. x ≢ b';') l.name name_char_other
            k.name_chars)
          (marked _ l.colon k.colon_blank gaps),
    )
  where
    marked :
        (t : List ℕ) (b : Option (List ℕ))
        → IsBlankMark b
        → All (λ x. x ≢ b';') t
        → All (λ x. x ≢ b';') (mark b t)
    marked t (some s) k h =
        All-append (λ x. x ≢ b';') s (b':' ∷ t)
          (All-weaken (λ c. is_space c ≡ true) (λ x. x ≢ b';') s (λ c e. (space_other c e).2) k)
          (omega arith, h)
    marked t none k h = h

pub match_equ-printed :
    (l : EquLine)
    → IsEquLine l
    → match_equ (until_comment (printed l)) ≡ some (l.initial ∷ l.name, l.first ∷ l.value)
match_equ-printed l k =
    ap match_equ (until-remark (l.indent ++ body l) l.comment (body_other l k)) ∙ match_equ-body l k
