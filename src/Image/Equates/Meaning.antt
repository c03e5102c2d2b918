-- ===== src/Image/Equates/Meaning.antt =====
-- What an equate means: a literal, or the meaning of the text behind its name.
use elf_dos.Base.{
  ℕ, zero, suc, ◌<◌, false, none, some, some-injective, List, [], ◌∷◌, ◌≡◌, ◌≢◌, ◌↔◌, refl, sym, ap,
  ◌∙◌, arith, inl, inr, Bool-cases, Option-cases, length,
}
use elf_dos.Base.Text.{
  lookup_text, has_text, unseen, unseen_lt, unseen-le-length, text_eq, text_eq_iff,
}
use elf_dos.Image.Equates.{Equs, strip, literal, eval_equ_loop, eval_equ}

-- The text stands for `n` through `k` names.
abbrev pub Means : Equs → ℕ → List ℕ → ℕ → Type 0
Means equs zero text n = literal (strip text) ≡ some n
Means equs (suc k) text n =
    (literal (strip text) ≡ none)
    × (body : List ℕ) × (lookup_text (strip text) equs ≡ some body)
    × Means equs k body n

loop_total :
    (equs : Equs) (f : ℕ) (text : List ℕ) (seen : List (List ℕ))
    → unseen equs seen < f
    → eval_equ_loop equs f text seen ≢ none
unfolding eval_equ_loop
loop_total equs zero text seen h = absurd (omega arith)
loop_total equs (suc f) text seen h = elim (Option-cases (literal (strip text))) [
  | inr (n, e) ↦ rw (e, eval_equ_loop) (cc)
  | inl e ↦ elim (Option-cases (lookup_text (strip text) equs)) [
    | inl l ↦ rw (e, eval_equ_loop, l) (cc)
    | inr (body, l) ↦ elim (Bool-cases (has_text (strip text) seen)) [
      | inl s ↦ rw (e, eval_equ_loop, l, s) (cc)
      | inr s ↦
          rw (e, eval_equ_loop, l, s)
            (loop_total equs f body (strip text ∷ seen)
              (omega (arith, unseen_lt equs (strip text) seen l s)))
    ]
  ]
]

loop_sound :
    (equs : Equs) (f : ℕ) (text : List ℕ) (seen : List (List ℕ)) (n : ℕ)
    → eval_equ_loop equs f text seen ≡ some (some n)
    → (k : ℕ) × Means equs k text n
unfolding eval_equ_loop
loop_sound equs zero text seen n h = absurd (cc)
loop_sound equs (suc f) text seen n h = elim (Option-cases (literal (strip text))) [
  | inr (m, e) ↦ let q : some (some m) ≡ some (some n) = rw (e, eval_equ_loop) at h in (0, cc)
  | inl e ↦
      let h1 = rw (e, eval_equ_loop) at h in
      elim (Option-cases (lookup_text (strip text) equs)) [
        | inl l ↦ absurd (let h2 = rw l at h1 in cc h2)
        | inr (body, l) ↦
            let h2 = rw l at h1 in
            elim (Bool-cases (has_text (strip text) seen)) [
              | inl s ↦ absurd (let h3 = rw s at h2 in cc h3)
              | inr s ↦
                  let h3 : eval_equ_loop equs f body (strip text ∷ seen) ≡ some (some n) =
                    rw s at h2 in
                  let (k, m) = loop_sound equs f body (strip text ∷ seen) n h3 in
                  (suc k, (e, body, l, m))
            ]
      ]
]

-- A text goes through as many names, however it is read.
same_depth :
    (equs : Equs) (j k : ℕ) (s t : List ℕ) (n m : ℕ)
    → strip s ≡ strip t
    → Means equs j s n
    → Means equs k t m
    → j ≡ k
same_depth equs zero zero s t n m q a b = refl
same_depth equs zero (suc k) s t n m q a b =
    absurd (let a' : literal (strip t) ≡ some n = rw q at a in cc (a', b.0))
same_depth equs (suc j) zero s t n m q a b =
    absurd (let a' : literal (strip t) ≡ none = rw q at a.0 in cc (a', b))
same_depth equs (suc j) (suc k) s t n m q a b =
    let l : lookup_text (strip t) equs ≡ some a.1 = rw q at a.2 in
    let same : a.1 ≡ b.1 = some-injective _ _ (sym l ∙ b.2) in
    ap suc (same_depth equs j k a.1 b.1 n m (ap strip same) a.3 b.3)

-- Every name that has been seen goes through more names than `k`.
abbrev Deeper : Equs → ℕ → List (List ℕ) → Type 0
Deeper equs k [] = Unit
Deeper equs k (s ∷ seen) =
    ((t : List ℕ) × (strip t ≡ s) × (j : ℕ) × (m : ℕ) × Means equs j t m × (k < j))
    × Deeper equs k seen

Deeper-pred :
    (equs : Equs) (k : ℕ) (seen : List (List ℕ)) → Deeper equs (suc k) seen → Deeper equs k seen
Deeper-pred equs k [] d = tt
Deeper-pred equs k (s ∷ seen) d =
    let (t, q, j, m, a, lt) = d.0 in ((t, q, j, m, a, omega arith), Deeper-pred equs k seen d.1)

not_seen :
    (equs : Equs) (k : ℕ) (text : List ℕ) (n : ℕ) (seen : List (List ℕ))
    → Means equs k text n
    → Deeper equs k seen
    → has_text (strip text) seen ≡ false
unfolding has_text
not_seen equs k text n [] a d = refl
not_seen equs k text n (s ∷ seen) a d =
    let (t, q, j, m, b, lt) = d.0 in
    let ih = not_seen equs k text n seen a d.1 in
    elim (Bool-cases (text_eq s (strip text))) [
      | inr other ↦ rw other ih
      | inl same ↦
          let e : strip t ≡ strip text = q ∙ (text_eq_iff s (strip text)).0 same in
          absurd (omega (arith, same_depth equs j k t text m n e b a))
    ]

loop_complete :
    (equs : Equs) (f k : ℕ) (text : List ℕ) (seen : List (List ℕ)) (n : ℕ)
    → Means equs k text n
    → Deeper equs k seen
    → unseen equs seen < f
    → eval_equ_loop equs f text seen ≡ some (some n)
unfolding eval_equ_loop
loop_complete equs zero k text seen n a d h = absurd (omega arith)
loop_complete equs (suc f) zero text seen n a d h = rw (a, eval_equ_loop) refl
loop_complete equs (suc f) (suc k) text seen n (e, body, l, a) d h =
    let s = not_seen equs (suc k) text n seen (e, body, l, a) d in
    rw (e, eval_equ_loop, l, s)
      (loop_complete equs f k body (strip text ∷ seen) n a
        ((text, refl, suc k, n, (e, body, l, a), omega arith), Deeper-pred equs k seen d)
        (omega (arith, unseen_lt equs (strip text) seen l s)))

-- The evaluation always ends, with a number exactly when the text stands for that number through
-- some finite chain of names; in every other case, a circle of names among them, it is a ValueError.
pub eval_equ_iff :
    (text : List ℕ) (equs : Equs)
    → (eval_equ text equs ≢ none)
      × ((n : ℕ) → (eval_equ text equs ≡ some (some n)) ↔ ((k : ℕ) × Means equs k text n))
unfolding eval_equ
eval_equ_iff text equs = (
  loop_total equs (suc (length equs)) text [] (omega (arith, unseen-le-length equs)),
  λ n. (
    loop_sound equs (suc (length equs)) text [] n,
    λ (k, m).
        loop_complete equs (suc (length equs)) k text [] n m tt
          (omega (arith, unseen-le-length equs)),
  ),
)
