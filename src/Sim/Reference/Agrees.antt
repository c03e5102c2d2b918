-- ===== src/Sim/Reference/Agrees.antt =====
-- The reference model of the simulator and the tool that reads and writes volumes hold the same view
-- of a table.
use elf_dos.Base.{
  ℕ, ◌+◌, ◌*◌, ◌/◌, ◌%◌, ◌^◌, ◌<◌, ◌≤◌, ◌≡◌, refl, ap, Bool, true, false, leb, if◌then◌else◌,
  bit_and, bit_or, some, List, arith, ltb, ◌==◌, ◌>>=◌, get_elem?, set, Option-cases, Bool-cases,
  inl, inr, All-get_elem?, lt_of_get_elem?, get_elem?-some, get_elem?-set_ne,
}
use elf_dos.Base.Bits.{bit_and_mask, bit_or_shifted}
use elf_dos.Fat.Entry.{is_odd, unpack12, get12, pack_lo, pack_hi, set12, get16, set16}
use elf_dos.Fat.Entry.Laws.{AreBytes}
use elf_dos.Sim.Reference.{
  assign, extend, ref_get, ref_set_odd, ref_set_even, ref_set, ref_get16, ref_set16,
}

-- For an entry, the upper four bits are added.
extend_lem : (w : ℕ) → w < 4096 → extend w ≡ (if leb 0xFF7 w then w + 0xF000 else w)
unfolding extend
extend_lem w h = rw (bit_or_shifted 12 w 15 h) refl

unpack12-lt : (odd : Bool) (lo hi : ℕ) → lo < 256 → hi < 256 → unpack12 odd lo hi < 4096
unfolding unpack12
unpack12-lt true lo hi a b = rw (bit_or_shifted 8 lo hi a) (omega arith)
unpack12-lt false lo hi a b = rw (bit_and_mask 12 (bit_or lo (hi * 2 ^ 8))) (omega arith)

ref_get_lem :
    (fat : List ℕ) (cl : ℕ)
    → AreBytes fat
    → ref_get fat cl ≡ (get12 fat cl >>= λ w. some (if leb 0xFF7 w then w + 0xF000 else w))
unfolding ref_get get12 unpack12 is_odd
ref_get_lem fat cl bytes = elim (Option-cases (get_elem? fat (cl + cl / 2))) [
  | inl n ↦ rw n refl
  | inr (lo, e) ↦ elim (Option-cases (get_elem? fat (cl + cl / 2 + 1))) [
    | inl n ↦ rw (e, n) refl
    | inr (hi, g) ↦
        let a : lo < 256 = All-get_elem? (λ b. b < 256) fat (cl + cl / 2) bytes e in
        let b : hi < 256 = All-get_elem? (λ b. b < 256) fat (cl + cl / 2 + 1) bytes g in
        rw (e, g) (ap some (extend_lem _ (unpack12-lt (bit_and cl 1 == 1) lo hi a b)))
  ]
]

ref_set_lem : (fat : List ℕ) (cl v : ℕ) → ref_set fat cl v ≡ set12 fat cl v
unfolding ref_set set12 ref_set_odd ref_set_even assign pack_lo pack_hi is_odd
ref_set_lem fat cl v =
    let o : ℕ = cl + cl / 2 in
    let w : ℕ = bit_and v 0xFFF in
    elim (Option-cases (get_elem? fat o)) [
      | inl n ↦ elim (Bool-cases (bit_and cl 1 == 1)) [
        | inl e ↦ rw (e, n) refl
        | inr e ↦ rw (e, n) refl
      ]
      | inr (lo, g) ↦ elim (Bool-cases (bit_and cl 1 == 1)) [
        | inl e ↦
            let byte : ℕ = bit_or (bit_and lo 0x0F) (bit_and (w * 2 ^ 4) 0xF0) in
            elim (Option-cases (get_elem? (set fat o byte) (o + 1))) [
              | inl n ↦ rw (e, g, n) refl
              | inr (hi, k) ↦ rw (e, g, k) refl
            ]
        | inr e ↦ elim (Option-cases (get_elem? (set fat o (bit_and w 0xFF)) (o + 1))) [
          | inl n ↦ rw (e, g, n) refl
          | inr (hi, k) ↦ rw (e, g, k) refl
        ]
      ]
    ]

ref_get16_lem : (fat : List ℕ) (cl : ℕ) → AreBytes fat → ref_get16 fat cl ≡ get16 fat cl
unfolding ref_get16 get16
ref_get16_lem fat cl bytes = elim (Option-cases (get_elem? fat (2 * cl))) [
  | inl n ↦ rw n refl
  | inr (lo, e) ↦ elim (Option-cases (get_elem? fat (2 * cl + 1))) [
    | inl n ↦ rw (e, n) refl
    | inr (hi, g) ↦
        rw (e, g)
          (ap some (bit_or_shifted 8 lo hi (All-get_elem? (λ b. b < 256) fat (2 * cl) bytes e)))
  ]
]

ref_set16_small : (fat : List ℕ) (cl v : ℕ) → v < 2 ^ 16 → ref_set16 fat cl v ≡ set16 fat cl v
unfolding ref_set16 set16 assign
ref_set16_small fat cl v small =
    let a : ltb v (2 ^ 16) ≡ true = ground arith in
    let b : ltb (v / 2 ^ 8) 256 ≡ true = ground arith in
    let m : bit_and v 0xFF ≡ v % 2 ^ 8 = bit_and_mask 8 v in
    let keep : get_elem? (set fat (2 * cl) (v % 2 ^ 8)) (2 * cl + 1) ≡ get_elem? fat (2 * cl + 1) =
      get_elem?-set_ne fat (2 * cl) (2 * cl + 1) (v % 2 ^ 8) (omega arith) in
    elim (Option-cases (get_elem? fat (2 * cl + 1))) [
      | inl n ↦ elim (Option-cases (get_elem? fat (2 * cl))) [
        | inl z ↦ rw (z, n, a) refl
        | inr (lo, e) ↦ rw (e, m, b, keep, n, a) refl
      ]
      | inr (hi, g) ↦
          let (lo, e) = get_elem?-some fat (2 * cl) (omega (arith, lt_of_get_elem? fat _ g)) in
          rw (e, m, b, keep, g, a) refl
    ]

-- A value of more than 16 bits raises in both.
ref_set16_large : (fat : List ℕ) (cl v : ℕ) → 2 ^ 16 ≤ v → ref_set16 fat cl v ≡ set16 fat cl v
unfolding ref_set16 set16 assign
ref_set16_large fat cl v large =
    let a : ltb v (2 ^ 16) ≡ false = ground arith in
    let b : ltb (v / 2 ^ 8) 256 ≡ false = ground arith in
    elim (Option-cases (get_elem? fat (2 * cl))) [
      | inl n ↦ rw (n, a) refl
      | inr (lo, e) ↦ rw (e, b, a) refl
    ]

ref_set16_lem : (fat : List ℕ) (cl v : ℕ) → ref_set16 fat cl v ≡ set16 fat cl v
ref_set16_lem fat cl v = elim (Bool-cases (ltb v (2 ^ 16))) [
  | inl t ↦ ref_set16_small fat cl v (ground arith)
  | inr f ↦ ref_set16_large fat cl v (ground arith)
]

-- The reference model of the simulator agrees with the entries of `Vol` on every table of bytes: the
-- writes of both kinds give the same table, or fail both, the reads on FAT16 are the same, and on
-- FAT12 the reference reads 0xF000 more for an entry of 0xFF7 or more, and the same for any other.
pub ref_agrees :
    (fat : List ℕ) (cl v : ℕ)
    → AreBytes fat
    → (ref_get fat cl ≡ (get12 fat cl >>= λ w. some (if leb 0xFF7 w then w + 0xF000 else w)))
      × (ref_set fat cl v ≡ set12 fat cl v)
      × (ref_get16 fat cl ≡ get16 fat cl)
      × (ref_set16 fat cl v ≡ set16 fat cl v)
ref_agrees fat cl v bytes = (
  ref_get_lem fat cl bytes,
  ref_set_lem fat cl v,
  ref_get16_lem fat cl bytes,
  ref_set16_lem fat cl v,
)
