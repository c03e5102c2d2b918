-- ===== src/Mdv/Line/Safe/Marks.antt =====
-- The marker of a list item takes at most ten columns, and a fence has at least three characters.
use elf_dos.Base.{
  ℕ, zero, suc, ◌+◌, ◌≤◌, ◌<◌, true, false, ◌&&◌, ◌||◌, not, some, some-injective, List, [], ◌∷◌,
  leb, ◌==◌, if◌then◌else◌, length, ◌≡◌, refl, ap, arith, inl, inr, Bool-cases, take, drop, subst,
}
use elf_dos.Base.Bits.{passes_below, table}
use elf_dos.Mdv.Style.{is_cont}
use elf_dos.Mdv.Wrap.Width.{IsMarker}
use elf_dos.Mdv.Line.{run_of, opens_fence, is_digit, digit_count, ends_number, ends_word, list_mark}

ascii-is_cont : (c : ℕ) → c < 128 → is_cont c ≡ false
unfolding is_cont passes_below
ascii-is_cont c h = let e = table (λ x. not (is_cont x)) 128 c h refl in ground arith

-- What is asked of a list item's marker.
abbrev pub MarkOk : List ℕ → Type 0
MarkOk mk = IsMarker mk × (length mk ≤ 10)

one_byte : (c : ℕ) → 31 < c → c < 128 → (31 < c) × (is_cont c ≡ false)
one_byte c h k = (h, ascii-is_cont c k)

digits_mark :
    (n : ℕ) (s : List ℕ)
    → ends_number (drop (digit_count n s) s) ≡ true
    → IsMarker (take (suc (digit_count n s)) s) × (length (take (suc (digit_count n s)) s) ≤ suc n)
unfolding digit_count ends_number is_digit
digits_mark zero [] e = absurd (cc)
digits_mark zero (x ∷ s) e = ((one_byte x (ground arith) (ground arith), tt), omega arith)
digits_mark (suc n) [] e = absurd (cc)
digits_mark (suc n) (x ∷ s) e = elim (Bool-cases (leb 48 x && leb x 57)) [
  | inl d ↦
      let (m, l) = digits_mark n s (rw (d) at e) in
      rw d ((one_byte x (ground arith) (ground arith), m), omega arith)
  | inr d ↦ let e' = rw d at e in rw d ((one_byte x (ground arith) (ground arith), tt), omega arith)
]

pub list_mark-MarkOk :
    (ind x : ℕ) (s mk rest : List ℕ) → list_mark ind x s ≡ some (mk, rest) → MarkOk mk
unfolding list_mark
list_mark-MarkOk ind x s mk rest e =
    elim (Bool-cases ((x == 45 || x == 42 || x == 43) && ends_word (drop 1 s))) [
      | inl b ↦
          let e' = rw b at e in
          subst MarkOk (ap (λ (p : List ℕ × List ℕ). p.0) (some-injective _ _ e')) (
            (one_byte (if ind == 0 then b'*' else b'-') (ground arith) (ground arith), tt),
            omega arith,
          )
      | inr b ↦ elim (Bool-cases (is_digit x && ends_number (drop (digit_count 9 s) s))) [
        | inl g ↦
            let e' = rw (b, g) at e in
            let ok : MarkOk (take (suc (digit_count 9 s)) s) = digits_mark 9 s (ground arith) in
            let next : digit_count 9 s + 1 ≡ suc (digit_count 9 s) = omega arith in
            subst MarkOk (ap (λ (p : List ℕ × List ℕ). p.0) (some-injective _ _ e')) (rw next ok)
        | inr g ↦ let e' = rw (b, g) at e in absurd (cc e')
      ]
    ]

pub opens_fence-run_of :
    (ind x : ℕ) (s : List ℕ) → opens_fence ind (x ∷ s) ≡ true → 3 ≤ run_of x (x ∷ s)
unfolding opens_fence run_of
opens_fence-run_of ind x [] e = absurd (cc)
opens_fence-run_of ind x (y ∷ []) e = absurd (cc)
opens_fence-run_of ind x (y ∷ z ∷ s) e = ground arith
