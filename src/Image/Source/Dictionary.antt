-- ===== src/Image/Source/Dictionary.antt =====
-- The dictionary that `read_equs` of tools/split_kernel.py builds: the last definition of a name wins.
use elf_dos.Base.{
  sym, refl, ap, ◌∙◌, ℕ, ◌≡◌, Bool, true, false, Option, none, some, List, [], ◌∷◌, map,
  if◌then◌else◌, All, Bool-cases, inl, inr,
}
use elf_dos.Base.Text.{text_eq, text_eq_iff, lookup_text}
use elf_dos.Image.Equates.{Equs}
use elf_dos.Image.Source.{assign_equ, read_from, read_equs}
use elf_dos.Image.Source.RoundTrip.{EquLine, IsEquLine, printed, match_equ-printed}

-- The value on the last line that defines `k`.
unfoldable pub last_value : List ℕ → List EquLine → Option (List ℕ)
last_value k [] = none
last_value k (l ∷ ls) = elim (last_value k ls) [
  | some v ↦ some v
  | none ↦ if text_eq (l.initial ∷ l.name) k then some (l.first ∷ l.value) else none
]

lookup-assign :
    (k j v : List ℕ) (equs : Equs)
    → lookup_text k (assign_equ j v equs) ≡ (if text_eq j k then some v else lookup_text k equs)
unfolding lookup_text assign_equ
lookup-assign k j v [] = refl
lookup-assign k j v ((i, w) ∷ equs) = elim (Bool-cases (text_eq i j)) [
  | inl t ↦
      let same : text_eq i k ≡ text_eq j k = ap (λ x. text_eq x k) ((text_eq_iff i j).0 t) in
      rw t
        (elim (Bool-cases (text_eq j k)) [ inl y ↦ rw (same, y) refl | inr y ↦ rw (same, y) refl ])
  | inr t ↦ rw t (elim (Bool-cases (text_eq i k)) [
    | inr y ↦ rw y (lookup-assign k j v equs)
    | inl y ↦
        let other : text_eq j k ≡ false = elim (Bool-cases (text_eq j k)) [
          | inr z ↦ z
          | inl z ↦ absurd (
              let same =
                (text_eq_iff i j).1 ((text_eq_iff i k).0 y ∙ sym ((text_eq_iff j k).0 z)) in
              cc (t, same))
        ] in
        rw (y, other) refl
  ])
]

-- What was there stays where no line defines the name.
or_else : Option (List ℕ) → Option (List ℕ) → Option (List ℕ)
or_else (some v) o = some v
or_else none o = o

or_else-if :
    (o : Option (List ℕ)) (b : Bool) (v : List ℕ) (rest : Option (List ℕ))
    → or_else o (if b then some v else rest)
      ≡ or_else (elim o [ some w ↦ some w | none ↦ if b then some v else none ]) rest
unfolding or_else
or_else-if (some w) b v rest = refl
or_else-if none true v rest = refl
or_else-if none false v rest = refl

or_else-none : (o : Option (List ℕ)) → or_else o none ≡ o
unfolding or_else
or_else-none (some v) = refl
or_else-none none = refl

read_from-printed :
    (k : List ℕ) (equs : Equs) (ls : List EquLine)
    → All IsEquLine ls
    → lookup_text k (read_from equs (map printed ls))
      ≡ or_else (last_value k ls) (lookup_text k equs)
unfolding read_from last_value or_else
read_from-printed k equs [] h = refl
read_from-printed k equs (l ∷ ls) h =
    let name : List ℕ = l.initial ∷ l.name in
    let value : List ℕ = l.first ∷ l.value in
    rw (read_from, match_equ-printed l h.0)
      (read_from-printed k (assign_equ name value equs) ls h.1
        ∙ ap (λ o. or_else (last_value k ls) o) (lookup-assign k name value equs)
        ∙ or_else-if (last_value k ls) (text_eq name k) value (lookup_text k equs))

-- For source lines that define names with `equ`, laid out in any way that the expression accepts (white
-- space before and behind the name, a colon or none, the keyword in either case, any text behind the
-- value) and with any comments, the dictionary of `read_equs` has for every text the value of the
-- last line that defines it, and nothing for the others.
pub read_equs-printed :
    (k : List ℕ) (ls : List EquLine)
    → All IsEquLine ls
    → lookup_text k (read_equs (map printed ls)) ≡ last_value k ls
unfolding read_equs or_else lookup_text
read_equs-printed k ls h = read_from-printed k [] ls h ∙ or_else-none (last_value k ls)
