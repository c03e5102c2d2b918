-- ===== src/Fat/Names/Laws.antt =====
-- Upper and lower case, padding with spaces, and splitting of names.
use elf_dos.Base.{
  ℕ, zero, suc, ◌<◌, ◌≡◌, ◌≢◌, refl, sym, ap, ◌∙◌, Bool, true, false, ◌&&◌, List, [], ◌∷◌, ◌++◌,
  arith, replicate, All, All-append, ltb, some, ◌>>=◌, ◌-◌, length, ◌==◌, if◌then◌else◌, append-nil,
  append_assoc,
}
use elf_dos.Fat.Names.{
  is_space, is_empty, rstrip, is_upper_char, is_lower_char, lower_char, upper_char, lower, upper,
  split_from, ljust, encode_char, encode,
}

lower-upper_char : (c : ℕ) → lower_char (upper_char c) ≡ lower_char c
unfolding lower_char upper_char is_upper_char is_lower_char
lower-upper_char c = ground arith

lower-lower_char : (c : ℕ) → lower_char (lower_char c) ≡ lower_char c
unfolding lower_char is_upper_char
lower-lower_char c = ground arith

pub lower-upper : (s : List ℕ) → lower (upper s) ≡ lower s
lower-upper [] = refl
lower-upper (c ∷ s) = rw (lower-upper_char c, lower-upper s) refl

pub lower-lower : (s : List ℕ) → lower (lower s) ≡ lower s
lower-lower [] = refl
lower-lower (c ∷ s) = rw (lower-lower_char c, lower-lower s) refl

pub lower-append : (s t : List ℕ) → lower (s ++ t) ≡ lower s ++ lower t
lower-append [] t = refl
lower-append (c ∷ s) t = ap (λ u. lower_char c ∷ u) (lower-append s t)

-- The name's characters: ASCII, not blank, and neither a dot nor a slash.
abbrev pub IsPlain : ℕ → Type 0
IsPlain c = (32 < c) × (c < 128) × (c ≢ b'.') × (c ≢ b'/')

upper-IsPlain : (c : ℕ) → IsPlain c → is_space (upper_char c) ≡ false
unfolding is_space upper_char is_lower_char
upper-IsPlain c h = ground arith

-- Ordinary characters are their own bytes.
pub encode-ascii : (s : List ℕ) → All (λ c. c < 128) s → encode s ≡ some s
unfolding encode encode_char
encode-ascii [] h = refl
encode-ascii (c ∷ s) h =
    let low : ltb c 0x80 ≡ true = ground (arith, h.0) in
    rw (encode, low, encode-ascii s h.1, ◌>>=◌) refl

upper-ascii : (s : List ℕ) → All IsPlain s → All (λ c. c < 128) (upper s)
unfolding upper_char is_lower_char
upper-ascii [] h = tt
upper-ascii (c ∷ s) h = (ground (arith, h.0), upper-ascii s h.1)

-- A padded part of a plain name is encoded as it is.
pub encode-ljust :
    (n : ℕ) (s : List ℕ) → All IsPlain s → encode (ljust n (upper s)) ≡ some (ljust n (upper s))
encode-ljust n s h = encode-ascii (ljust n (upper s)) (
    All-append (λ c. c < 128) (upper s) (replicate (n - length (upper s)) b' ') (upper-ascii s h)
      (blanks (n - length (upper s))))
  where
    blanks : (k : ℕ) → All (λ c. c < 128) (replicate k b' ')
    blanks zero = tt
    blanks (suc k) = (omega arith, blanks k)

rstrip-spaces : (n : ℕ) → rstrip (replicate n b' ') ≡ []
unfolding rstrip is_space
rstrip-spaces zero = refl
rstrip-spaces (suc n) = rw (rstrip-spaces n, rstrip) refl

and_false : (b : Bool) → (b && false) ≡ false
and_false true = refl
and_false false = refl

-- Padding is taken off again.
pub rstrip-ljust :
    (s : List ℕ) (n : ℕ) → All IsPlain s → rstrip (upper s ++ replicate n b' ') ≡ upper s
unfolding rstrip
rstrip-ljust [] n h = rstrip-spaces n
rstrip-ljust (c ∷ s) n h =
    rw (rstrip-ljust s n h.1, rstrip, upper-IsPlain c h.0)
      (ap (λ b. if b then [] else upper_char c ∷ upper s) (and_false (is_empty (upper s))))

-- A text without the separator is one piece.
pub split_whole :
    (sep : ℕ) (piece s : List ℕ) → All (λ c. c ≢ sep) s → split_from sep piece s ≡ (piece ++ s) ∷ []
unfolding split_from
split_whole sep piece [] h = ap (λ p. p ∷ []) (sym (append-nil piece))
split_whole sep piece (c ∷ s) h =
    let other : (c == sep) ≡ false = ground (arith, h.0) in
    rw (other, split_from)
      (split_whole sep (piece ++ c ∷ []) s h.1 ∙ ap (λ p. p ∷ []) (append_assoc piece (c ∷ []) s))

-- The first separator ends a piece.
pub split_first :
    (sep : ℕ) (piece s t : List ℕ)
    → All (λ c. c ≢ sep) s
    → split_from sep piece (s ++ sep ∷ t) ≡ (piece ++ s) ∷ split_from sep [] t
unfolding split_from
split_first sep piece [] t h =
    let same : (sep == sep) ≡ true = ground arith in
    rw (same, split_from) (ap (λ p. p ∷ split_from sep [] t) (sym (append-nil piece)))
split_first sep piece (c ∷ s) t h =
    let other : (c == sep) ≡ false = ground (arith, h.0) in
    rw (other, split_from)
      (split_first sep (piece ++ c ∷ []) s t h.1
        ∙ ap (λ p. p ∷ split_from sep [] t) (append_assoc piece (c ∷ []) s))
