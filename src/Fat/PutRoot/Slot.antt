-- ===== src/Fat/PutRoot/Slot.antt =====
-- The directory entry that `putroot` of tools/fat12-proto/fatx.py builds, read as `entries` reads it.
use elf_dos.Base.{
  ℕ, suc, ◌-◌, ◌/◌, ◌%◌, ◌^◌, ◌≤◌, ◌≡◌, ◌≢◌, refl, sym, ap, ◌∙◌, false, some, some-injective, List,
  [], ◌∷◌, arith, length, get_elem?, set, slice, replicate, All, length-append, length-replicate,
  ◌>>=◌, Bool-cases, inl, inr, ltb, ◌==◌,
}
use elf_dos.Fat.Vol.{le16, le32}
use elf_dos.Fat.Names.{upper, ljust, upper_char, is_lower_char}
use elf_dos.Fat.Names.Laws.{IsPlain}
use elf_dos.Fat.Dir.{entry, slot_of}
use elf_dos.Fat.PutRoot.{assign_slice, packed}

-- The entry with its names, its flags and its last ten bytes.
abbrev pub built : List ℕ → List ℕ → ℕ → List ℕ → List ℕ
built b x flags p =
    assign_slice 22 32 p
      (set (set (assign_slice 8 11 x (assign_slice 0 8 b (replicate 32 0))) 11 0x20) 12 flags)

-- What is read from an entry.
pub record Holding (e b x : List ℕ) (flags : ℕ) (p : List ℕ) : Type 0 where
  pub whole : length e ≡ 32
  pub head : get_elem? e 0 ≡ get_elem? b 0
  pub base : slice 0 8 e ≡ b
  pub ext : slice 8 11 e ≡ x
  pub attr : get_elem? e 11 ≡ some 0x20
  pub case : get_elem? e 12 ≡ some flags
  pub cluster : le16 e 26 ≡ le16 p 4
  pub size : le32 e 28 ≡ le32 p 6

pub built-Holding :
    (b x : List ℕ) (flags p0 p1 p2 p3 p4 p5 p6 p7 p8 p9 : ℕ)
    → length b ≡ 8
    → length x ≡ 3
    → Holding
        (built b x flags (p0 ∷ p1 ∷ p2 ∷ p3 ∷ p4 ∷ p5 ∷ p6 ∷ p7 ∷ p8 ∷ p9 ∷ []))
        b
        x
        flags
        (p0 ∷ p1 ∷ p2 ∷ p3 ∷ p4 ∷ p5 ∷ p6 ∷ p7 ∷ p8 ∷ p9 ∷ [])
unfolding assign_slice le16 le32
built-Holding (b0 ∷ b1 ∷ b2 ∷ b3 ∷ b4 ∷ b5 ∷ b6 ∷ b7 ∷ []) (x0 ∷ x1 ∷ x2 ∷ []) flags p0 p1 p2 p3 p4
      p5 p6 p7 p8 p9 lb lx =
    record {
      whole = refl;
      head = refl;
      base = refl;
      ext = refl;
      attr = refl;
      case = refl;
      cluster = refl;
      size = refl;
    }
built-Holding _ _ flags p0 p1 p2 p3 p4 p5 p6 p7 p8 p9 lb lx = absurd (omega arith)

pub length-upper : (s : List ℕ) → length (upper s) ≡ length s
length-upper [] = refl
length-upper (c ∷ s) = ap suc (length-upper s)

pub length-ljust : (n : ℕ) (s : List ℕ) → length s ≤ n → length (ljust n s) ≡ n
length-ljust n s h =
    length-append s (replicate (n - length s) b' ')
    ∙ omega (arith, length-replicate {A = ℕ} (n - length s) b' ')

-- The names fit, and their characters are plain; the base is not empty.
pub record IsShort (base ext : List ℕ) : Type 0 where
  pub some_base : 1 ≤ length base
  pub base_fits : length base ≤ 8
  pub ext_fits : length ext ≤ 3
  pub base_plain : All IsPlain base
  pub ext_plain : All IsPlain ext

pub head_ok :
    (base : List ℕ)
    → 1 ≤ length base
    → All IsPlain base
    → (k : ℕ) × (get_elem? (ljust 8 (upper base)) 0 ≡ some k) × (k ≢ 0) × (k ≢ 0xE5)
unfolding upper_char is_lower_char
head_ok [] h p = absurd (omega arith)
head_ok (c ∷ base) h p = (upper_char c, refl, ground (arith, p.0), ground (arith, p.0))

pub slot_of-Holding :
    (e b x : List ℕ) (flags k : ℕ) (p : List ℕ)
    → Holding e b x flags p
    → get_elem? b 0 ≡ some k
    → k ≢ 0
    → k ≢ 0xE5
    → slot_of e ≡ entry 0x20
unfolding slot_of
slot_of-Holding e b x flags k p h g z d =
    let first : get_elem? e 0 ≡ some k = h.head ∙ g in
    let a : (k == 0) ≡ false = ground arith in
    let c : (k == 0xE5) ≡ false = ground arith in rw (slot_of, first, a, c, h.attr) refl

-- What is read from the ten bytes of `struct.pack`.
pub packed-reads :
    (first size : ℕ) (p : List ℕ)
    → packed first size ≡ some p
    → (p0 p1 p2 p3 p4 p5 p6 p7 p8 p9 : ℕ) × (p
        ≡ p0 ∷ p1 ∷ p2 ∷ p3 ∷ p4 ∷ p5 ∷ p6 ∷ p7 ∷ p8 ∷ p9 ∷ [])
      × (le16 p 4 ≡ some first)
      × (le32 p 6 ≡ some size)
unfolding packed le16 le32
packed-reads first size p h = elim (Bool-cases (ltb first (2 ^ 16))) [
  | inr e ↦ absurd (let k = rw (e, ◌>>=◌) at h in cc k)
  | inl e ↦ elim (Bool-cases (ltb size (2 ^ 32))) [
    | inr e2 ↦ absurd (let k = rw (e, e2, ◌>>=◌) at h in cc k)
    | inl e2 ↦
        let k = some-injective _ _ (rw (e, e2, ◌>>=◌) at h) in
        (
          0,
          0,
          0x21,
          0x5A,
          first % 2 ^ 8,
          first / 2 ^ 8,
          size % 2 ^ 8,
          size / 2 ^ 8 % 2 ^ 8,
          size / 2 ^ 16 % 2 ^ 8,
          size / 2 ^ 24,
          sym k,
          rw (sym k) (ap some (omega arith)),
          rw (sym k) (ap some (omega arith)),
        )
  ]
]
