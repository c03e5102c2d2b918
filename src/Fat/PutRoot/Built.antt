-- ===== src/Fat/PutRoot/Built.antt =====
-- The entry that `putroot` of tools/fat12-proto/fatx.py builds gives `entries` the file's name, its
-- first cluster and its size.
use elf_dos.Base.{
  ℕ, ◌-◌, ◌≡◌, refl, sym, ap, ◌∙◌, subst, Bool, true, false, not, some, some-injective, List, [],
  ◌∷◌, ◌++◌, arith, Option-cases, inl, inr, length, slice, bit_and, ◌==◌, All,
}
use elf_dos.Fat.Names.{lower_char, is_upper_char, rstrip, lower, upper, ljust}
use elf_dos.Fat.Names.Laws.{
  IsPlain, lower-upper, lower-lower, lower-append, rstrip-ljust, encode-ljust,
}
use elf_dos.Fat.Vol.{le16, le32}
use elf_dos.Fat.Dir.{Item, entry, slot_of, item_of, short_name, dotted, lower_if, join_parts}
use elf_dos.Fat.PutRoot.{case_flags, packed, dir_entry}
use elf_dos.Fat.PutRoot.Slot.{
  built, Holding, built-Holding, length-upper, length-ljust, IsShort, head_ok, slot_of-Holding,
  packed-reads,
}

lower_if-lower : (b : Bool) (s : List ℕ) → lower (lower_if b s) ≡ lower s
lower_if-lower true s = lower-lower s
lower_if-lower false s = refl

-- Names that differ in case only are dotted to names that differ in case only.
dotted-lower :
    (a b c d : List ℕ)
    → lower a ≡ lower c
    → lower b ≡ lower d
    → lower (dotted a b) ≡ lower (dotted c d)
unfolding lower_char is_upper_char
dotted-lower a [] c [] e f = e
dotted-lower a [] c (y ∷ d) e f = absurd (cc)
dotted-lower a (x ∷ b) c [] e f = absurd (cc)
dotted-lower a (x ∷ b) c (y ∷ d) e f =
    lower-append a (b'.' ∷ x ∷ b)
    ∙ ap (λ s. s ++ lower (b'.' ∷ x ∷ b)) e
    ∙ ap (λ s. lower c ++ b'.' ∷ s) f
    ∙ sym (lower-append c (b'.' ∷ y ∷ d))

field-lower :
    (n : ℕ) (s t : List ℕ) (b : Bool)
    → All IsPlain s
    → t ≡ ljust n (upper s)
    → lower (lower_if b (rstrip t)) ≡ lower s
field-lower n s t b p e =
    lower_if-lower b (rstrip t)
    ∙ ap (λ u. lower (rstrip u)) e
    ∙ ap lower (rstrip-ljust s (n - length (upper s)) p)
    ∙ lower-upper s

-- What `entries` yields for the slot `e`, with no long name before it.
pub record Reads (e name : List ℕ) (first size : ℕ) : Type 0 where
  pub whole : length e ≡ 32
  pub shape : slot_of e ≡ entry 0x20
  pub found : Item
  pub read : item_of e 0x20 [] ≡ some found
  pub named : lower found.name ≡ lower name
  pub at : found.cluster ≡ first
  pub long : found.size ≡ size

built-Reads :
    (base ext p : List ℕ) (flags first size : ℕ)
    → IsShort base ext
    → Holding
        (built (ljust 8 (upper base)) (ljust 3 (upper ext)) flags p)
        (ljust 8 (upper base))
        (ljust 3 (upper ext))
        flags
        p
    → le16 p 4 ≡ some first
    → le32 p 6 ≡ some size
    → Reads
        (built (ljust 8 (upper base)) (ljust 3 (upper ext)) flags p)
        (dotted base ext)
        first
        size
unfolding item_of short_name join_parts
built-Reads base ext p flags first size s h f z =
    let b : List ℕ = ljust 8 (upper base) in
    let x : List ℕ = ljust 3 (upper ext) in
    let e : List ℕ = built b x flags p in
    let (k, k0, k1, k2) = head_ok base s.some_base s.base_plain in
    record {
      whole = h.whole;
      shape = slot_of-Holding e b x flags k p h k0 k1 k2;
      found = record { name = short_name e flags; attr = 0x20; cluster = first; size = size };
      read = rw (item_of, h.case, h.cluster, f, h.size, z, join_parts) refl;
      named =
          dotted-lower _ _ base ext
            (field-lower 8 base (slice 0 8 e) (not (bit_and flags 0x08 == 0)) s.base_plain h.base)
            (field-lower 3 ext (slice 8 11 e) (not (bit_and flags 0x10 == 0)) s.ext_plain h.ext);
      at = refl;
      long = refl;
    }

-- The entry that `putroot` builds for a name of at most 8 and 3 plain characters is a whole slot,
-- neither free nor a part of a long name; `entries` reads it as a file with that name, up to case,
-- with that first cluster and that size.
pub dir_entry-Reads :
    (base ext : List ℕ) (first size : ℕ) (e : List ℕ)
    → IsShort base ext
    → dir_entry base ext first size ≡ some e
    → Reads e (dotted base ext) first size
unfolding dir_entry
dir_entry-Reads base ext first size e s h = elim (Option-cases (packed first size)) [
  | inl n ↦ absurd (
      let k = rw (encode-ljust 8 base s.base_plain, encode-ljust 3 ext s.ext_plain, n) at h in cc k)
  | inr (p, g) ↦
      let same =
        some-injective _ _
          (rw (encode-ljust 8 base s.base_plain, encode-ljust 3 ext s.ext_plain, g) at h) in
      let (p0, p1, p2, p3, p4, p5, p6, p7, p8, p9, q, f, z) = packed-reads first size p g in
      let flags : ℕ = case_flags base ext in
      let lb = length-ljust 8 (upper base) (omega (arith, s.base_fits, length-upper base)) in
      let lx = length-ljust 3 (upper ext) (omega (arith, s.ext_fits, length-upper ext)) in
      let hold =
        built-Holding (ljust 8 (upper base)) (ljust 3 (upper ext)) flags p0 p1 p2 p3 p4 p5 p6 p7 p8
          p9 lb lx in
      let hold2 =
        subst
          (λ (t : List ℕ).
            Holding (built (ljust 8 (upper base)) (ljust 3 (upper ext)) flags t)
              (ljust 8 (upper base)) (ljust 3 (upper ext)) flags t)
          (sym q) hold in
      subst (λ (t : List ℕ). Reads t (dotted base ext) first size) same
        (built-Reads base ext p flags first size s hold2 f z)
]
