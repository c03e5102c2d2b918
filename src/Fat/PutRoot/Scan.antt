-- ===== src/Fat/PutRoot/Scan.antt =====
-- `entries` and the loop of `find` of tools/fat12-proto/fatx.py over a directory with a new entry.
use elf_dos.Base.{
  ◌⊎◌, ℕ, ◌≡◌, ◌≢◌, refl, sym, ap, true, false, inl, inr, Option, some, none, some-injective, List,
  [], ◌∷◌, ◌++◌, arith, get_elem?, All, ◌==◌, Option-cases, Bool-cases,
}
use elf_dos.Base.Text.{text_eq}
use elf_dos.Fat.Names.{lower}
use elf_dos.Fat.Dir.{Item, Slot, last, broken, skipped, long, entry, slot_of, item_of, scan, pick}
use elf_dos.Fat.PutRoot.Place.{Starts}

-- The slot holds no part of a long name.
abbrev pub IsNotLong : List ℕ → Type 0
IsNotLong s = (part : List ℕ) → slot_of s ≢ long part

-- No part of a long name stands right before a free slot.
abbrev pub IsTidy : List (List ℕ) → Type 0
IsTidy [] = Unit
IsTidy (s ∷ []) = Unit
IsTidy (s ∷ t ∷ ss) = (Starts true t → IsNotLong s) × IsTidy (t ∷ ss)

-- The parts of a long name before the next slot, after the slot `s`.
abbrev pending : Slot → List (List ℕ) → List (List ℕ)
pending (long part) lfn = part ∷ lfn
pending _ lfn = []

-- No name is pending behind the slots.
abbrev EndsClear : List (List ℕ) → List (List ℕ) → Type 0
EndsClear lfn [] = lfn ≡ []
EndsClear lfn (s ∷ ss) = EndsClear (pending (slot_of s) lfn) ss

-- A slot in use is not the end mark.
not_last : (s : List ℕ) → Starts false s → slot_of s ≢ last
unfolding slot_of
not_last s (k, g, f) =
    let a : (k == 0) ≡ false = ground arith in
    let b : (k == 0xE5) ≡ false = ground arith in
    rw (slot_of, g, a, b)
      (elim (Option-cases (get_elem? s 11)) [
        | inl z ↦ rw z (cc)
        | inr (t, z) ↦ rw z (ground arith)
      ])

-- A free slot is the end mark, or skipped.
free_slot_of : (s : List ℕ) → Starts true s → (slot_of s ≡ last) ⊎ (slot_of s ≡ skipped)
unfolding slot_of
free_slot_of s (k, g, f) = elim (Bool-cases (k == 0)) [
  | inl a ↦ inl (rw (slot_of, g, a) refl)
  | inr a ↦ let b : (k == 0xE5) ≡ true = ground arith in inr (rw (slot_of, g, a, b) refl)
]

-- One more slot before the rest of a directory, which `old` and `new` stand for. What is found in
-- the slot is found in both.
pick-step :
    (part s : List ℕ) (old new : List (List ℕ)) (z y : Option Item) (lfn : List (List ℕ)) (k : Slot)
    → slot_of s ≡ k
    → Starts false s
    → ((x : Item) → z ≡ some x → y ≡ some x)
    → (pick part (scan old (pending k lfn)) ≡ some z
        → pick part (scan new (pending k lfn)) ≡ some y)
    → pick part (scan (s ∷ old) lfn) ≡ some z
    → pick part (scan (s ∷ new) lfn) ≡ some y
unfolding pick scan
pick-step part s old new z y lfn last e u m ih h = absurd (not_last s u e)
pick-step part s old new z y lfn broken e u m ih h = absurd (let h1 = rw (scan, e) at h in cc h1)
pick-step part s old new z y lfn skipped e u m ih h = rw (scan, e) (ih (rw (scan, e) at h))
pick-step part s old new z y lfn (long p) e u m ih h = rw (scan, e) (ih (rw (scan, e) at h))
pick-step part s old new z y lfn (entry a) e u m ih h =
    let h1 = rw (scan, e) at h in
    rw (scan, e)
      (elim (Option-cases (item_of s a lfn)) [
        | inl w ↦ absurd (let h2 = rw w at h1 in cc h2)
        | inr (x, g) ↦
            let h2 = rw g at h1 in
            rw g (elim (Bool-cases (text_eq (lower x.name) (lower part))) [
              | inl t ↦
                  let h3 = rw (pick, t) at h2 in
                  rw (pick, t) (ap some (sym (m x (sym (some-injective _ _ h3)))))
              | inr t ↦ rw (pick, t) (ih (rw (pick, t) at h2))
            ])
      ])

-- The new entry is found: the slots before it are in use, no name is pending there, and the name
-- was not found before.
module _ (e part : List ℕ) (old : List ℕ) (behind : List (List ℕ)) (x : Item)
    (shape : slot_of e ≡ entry 0x20) (read : item_of e 0x20 [] ≡ some x)
    (same : text_eq (lower x.name) (lower part) ≡ true) where
  pub pick-scan :
      (before lfn : List (List ℕ))
      → All (Starts false) before
      → EndsClear lfn before
      → pick part (scan (before ++ old ∷ behind) lfn) ≡ some none
      → pick part (scan (before ++ e ∷ behind) lfn) ≡ some (some x)
  unfolding pick scan
  pick-scan [] lfn u c h = rw (scan, shape, c, read, pick, same) refl
  pick-scan (s ∷ before) lfn u c h =
      pick-step part s (before ++ old ∷ behind) (before ++ e ∷ behind) none (some x) lfn (slot_of s)
        refl u.0 (λ y q. absurd (cc)) (pick-scan before (pending (slot_of s) lfn) u.1 c) h

-- What is found under another name is found still.
module _ (e part : List ℕ) (old : List ℕ) (behind : List (List ℕ)) (x : Item)
    (shape : slot_of e ≡ entry 0x20) (read : item_of e 0x20 [] ≡ some x)
    (other : text_eq (lower x.name) (lower part) ≡ false) (free : Starts true old) where
  pub pick-scan_other :
      (before lfn : List (List ℕ)) (y : Item)
      → All (Starts false) before
      → EndsClear lfn before
      → pick part (scan (before ++ old ∷ behind) lfn) ≡ some (some y)
      → pick part (scan (before ++ e ∷ behind) lfn) ≡ some (some y)
  unfolding pick scan
  pick-scan_other [] lfn y u c h = elim (free_slot_of old free) [
    | inl z ↦ absurd (let h1 = rw (scan, z) at h in cc h1)
    | inr z ↦ rw (scan, shape, c, read, pick, other) (rw (scan, z) at h)
  ]
  pick-scan_other (s ∷ before) lfn y u c h =
      pick-step part s (before ++ old ∷ behind) (before ++ e ∷ behind) (some y) (some y) lfn
        (slot_of s) refl u.0 (λ _ q. q) (pick-scan_other before (pending (slot_of s) lfn) y u.1 c) h

-- In a tidy directory no name is pending before a free slot.
IsTidy-EndsClear :
    (before lfn : List (List ℕ)) (s old : List ℕ) (behind : List (List ℕ))
    → IsTidy (s ∷ before ++ old ∷ behind)
    → Starts true old
    → EndsClear (pending (slot_of s) lfn) before
IsTidy-EndsClear [] lfn s old behind t f = clear (slot_of s) refl
  where
    clear : (k : Slot) → slot_of s ≡ k → pending k lfn ≡ []
    clear (long p) e = absurd (t.0 f p e)
    clear last e = refl
    clear broken e = refl
    clear skipped e = refl
    clear (entry a) e = refl
IsTidy-EndsClear (r ∷ before) lfn s old behind t f =
    IsTidy-EndsClear before (pending (slot_of s) lfn) r old behind t.1 f

pub tidy-EndsClear :
    (before : List (List ℕ)) (old : List ℕ) (behind : List (List ℕ))
    → IsTidy (before ++ old ∷ behind)
    → Starts true old
    → EndsClear [] before
tidy-EndsClear [] old behind t f = refl
tidy-EndsClear (s ∷ before) old behind t f = IsTidy-EndsClear before [] s old behind t f
