-- ===== src/Fat/Entry/Laws.antt =====
-- Reading an entry of the table back, after a write to it or to another entry.
use elf_dos.Base.{
  ℕ, ◌+◌, ◌*◌, ◌/◌, ◌%◌, ◌^◌, ◌<◌, ◌≡◌, ◌≢◌, sym, ap, ◌∙◌, inl, inr, true, false, bit_and, some,
  List, arith, ◌==◌, Option-cases, if◌then◌else◌, length, get_elem?, set, get_elem?-set_ne,
  length-set, lt_of_get_elem?, get_elem?-some, ◌↔◌, All, All-get_elem?, All-set,
}
use elf_dos.Base.Words.{get_elem?-set-set}
use native.Mathlib.Decide.{ℕ_discrete}
use elf_dos.Base.Bits.{bit_and_mask}
use elf_dos.Fat.Entry.{offset12, is_odd, unpack12, get12, pack_lo, pack_hi, set12, get16, set16}
use elf_dos.Fat.Entry.Nibbles.{
  is_odd_mod, unpack-pack_self, unpack-pack_next, unpack-pack_prev, pack_lo-lt, pack_hi-lt,
}

abbrev pub AreBytes : List ℕ → Type 0
AreBytes = All (λ b. b < 256)

-- What a write of a FAT12 entry has done.
record Written (fat : List ℕ) (c w : ℕ) (fat' : List ℕ) : Type 0 where
  lo : ℕ
  hi : ℕ
  at_lo : get_elem? fat (offset12 c) ≡ some lo
  at_hi : get_elem? fat (offset12 c + 1) ≡ some hi
  result :
      fat'
      ≡ set
          (set fat (offset12 c) (pack_lo (is_odd c) w lo))
          (offset12 c + 1)
          (pack_hi (is_odd c) w hi)

set12-Written :
    (fat : List ℕ) (c v : ℕ) {fat' : List ℕ}
    → set12 fat c v ≡ some fat'
    → Written fat c (bit_and v 0xFFF) fat'
unfolding set12
set12-Written fat c v {fat'} h =
    let o : ℕ = offset12 c in
    let w : ℕ = bit_and v 0xFFF in
    elim (Option-cases (get_elem? fat o)) [
      | inl n ↦ absurd (ground arith)
      | inr (x, e) ↦
          let fat1 : List ℕ = set fat o (pack_lo (is_odd c) w x) in
          elim (Option-cases (get_elem? fat1 (o + 1))) [
            | inl n ↦ absurd (ground arith)
            | inr (y, g) ↦ record {
              lo = x;
              hi = y;
              at_lo = e;
              at_hi =
                  sym (get_elem?-set_ne fat o (o + 1) (pack_lo (is_odd c) w x) (omega arith)) ∙ g;
              result = ground arith;
            }
          ]
    ]

mask12-lt : (v : ℕ) → bit_and v 0xFFF < 4096
mask12-lt v = rw (bit_and_mask 12 v) (omega arith)

-- The bytes of the table at any place, after the write.
read-Written :
    (fat : List ℕ) (c w : ℕ) {fat' : List ℕ} (r : Written fat c w fat') (j : ℕ)
    → get_elem? fat' j ≡ (
        if j == offset12 c + 1
        then some (pack_hi (is_odd c) w r.hi)
        else if j == offset12 c
        then some (pack_lo (is_odd c) w r.lo)
        else get_elem? fat j)
read-Written fat c w r j =
    rw r.result (get_elem?-set-set fat (offset12 c) _ _ j (lt_of_get_elem? fat _ r.at_hi))

module _ (fat : List ℕ) (c v : ℕ) {fat' : List ℕ} (bytes : AreBytes fat)
    (wrote : set12 fat c v ≡ some fat') where
  abbrev written : Written fat c (bit_and v 0xFFF) fat'
  written = set12-Written fat c v wrote

  byte_at : (j b : ℕ) → get_elem? fat j ≡ some b → b < 256
  byte_at j b e = All-get_elem? (λ b. b < 256) fat j bytes e

  -- A FAT12 entry reads back as the low twelve bits of what was written.
  pub get12-set12_self : get12 fat' c ≡ some (v % 4096)
  unfolding get12
  get12-set12_self =
      let w : ℕ = bit_and v 0xFFF in
      let first : get_elem? fat' (offset12 c) ≡ some (pack_lo (is_odd c) w written.lo) =
        ground (arith, read-Written fat c w written (offset12 c)) in
      let second : get_elem? fat' (offset12 c + 1) ≡ some (pack_hi (is_odd c) w written.hi) =
        ground (arith, read-Written fat c w written (offset12 c + 1)) in
      let same : unpack12 (is_odd c) (pack_lo (is_odd c) w written.lo)
            (pack_hi (is_odd c) w written.hi)
          ≡ w =
        unpack-pack_self w written.lo written.hi (mask12-lt v) (byte_at _ _ written.at_lo)
          (byte_at _ _ written.at_hi) (is_odd c) in
      rw (first, second, same) (ap some (bit_and_mask 12 v))

  module _ (d : ℕ) (ne : c ≢ d) where
    -- The entry begins in the second byte that was written.
    read_next : offset12 d ≡ offset12 c + 1 → get12 fat' d ≡ get12 fat d
    unfolding get12
    read_next e =
        let even : is_odd c ≡ false = is_odd_mod c ∙ ground arith in
        let odd : is_odd d ≡ true = is_odd_mod d ∙ ground arith in
        let before : get_elem? fat (offset12 d) ≡ some written.hi = rw e written.at_hi in
        let first : get_elem? fat' (offset12 d)
            ≡ some (pack_hi false (bit_and v 0xFFF) written.hi) =
          ground (arith, read-Written fat c (bit_and v 0xFFF) written (offset12 d)) in
        let second : get_elem? fat' (offset12 d + 1) ≡ get_elem? fat (offset12 d + 1) =
          ground (arith, read-Written fat c (bit_and v 0xFFF) written (offset12 d + 1)) in
        rw (first, second, before, odd)
          (elim (Option-cases (get_elem? fat (offset12 d + 1))) [
            | inl n ↦ rw n
            | inr (y, g) ↦ rw g (
                ap some (
                  unpack-pack_next (bit_and v 0xFFF) written.hi y (mask12-lt v)
                    (byte_at _ _ written.at_hi) (byte_at _ _ g)))
          ])

    -- The entry ends in the first byte that was written.
    read_prev : offset12 d + 1 ≡ offset12 c → get12 fat' d ≡ get12 fat d
    unfolding get12
    read_prev e =
        let odd : is_odd c ≡ true = is_odd_mod c ∙ ground arith in
        let even : is_odd d ≡ false = is_odd_mod d ∙ ground arith in
        let before : get_elem? fat (offset12 d + 1) ≡ some written.lo = rw e written.at_lo in
        let second : get_elem? fat' (offset12 d + 1)
            ≡ some (pack_lo true (bit_and v 0xFFF) written.lo) =
          ground (arith, read-Written fat c (bit_and v 0xFFF) written (offset12 d + 1)) in
        let first : get_elem? fat' (offset12 d) ≡ get_elem? fat (offset12 d) =
          ground (arith, read-Written fat c (bit_and v 0xFFF) written (offset12 d)) in
        rw (first, second, before, even)
          (elim (Option-cases (get_elem? fat (offset12 d))) [
            | inl n ↦ rw n
            | inr (x, g) ↦ rw g (
                ap some (
                  unpack-pack_prev (bit_and v 0xFFF) x written.lo (mask12-lt v) (byte_at _ _ g)
                    (byte_at _ _ written.at_lo)))
          ])

    read_apart :
        offset12 d ≢ offset12 c + 1 → offset12 d + 1 ≢ offset12 c → get12 fat' d ≡ get12 fat d
    unfolding get12
    read_apart n m =
        let first : get_elem? fat' (offset12 d) ≡ get_elem? fat (offset12 d) =
          ground (arith, read-Written fat c (bit_and v 0xFFF) written (offset12 d)) in
        let second : get_elem? fat' (offset12 d + 1) ≡ get_elem? fat (offset12 d + 1) =
          ground (arith, read-Written fat c (bit_and v 0xFFF) written (offset12 d + 1)) in
        rw (first, second)

    -- Every other entry reads as before, the one that shares a byte with it included.
    pub get12-set12_ne : get12 fat' d ≡ get12 fat d
    get12-set12_ne = elim (ℕ_discrete (offset12 d) (offset12 c + 1)) [
      | yes e ↦ read_next e
      | no n ↦ elim (ℕ_discrete (offset12 d + 1) (offset12 c)) [
        | yes e ↦ read_prev e
        | no m ↦ read_apart n m
      ]
    ]

  pub length-set12 : length fat' ≡ length fat
  length-set12 = ap length written.result ∙ length-set _ _ _ ∙ length-set fat (offset12 c) _

-- A write succeeds exactly when both bytes of the entry are in the table.
pub set12_iff :
    (fat : List ℕ) (c v : ℕ)
    → ((fat' : List ℕ) × (set12 fat c v ≡ some fat')) ↔ (offset12 c + 1 < length fat)
unfolding set12
set12_iff fat c v = (λ s. lt_of_get_elem? fat _ (set12-Written fat c v s.1).at_hi, there)
  where
    there : offset12 c + 1 < length fat → (fat' : List ℕ) × (set12 fat c v ≡ some fat')
    there h =
        let (x, e) = get_elem?-some fat (offset12 c) (omega arith) in
        let fat1 : List ℕ = set fat (offset12 c) (pack_lo (is_odd c) (bit_and v 0xFFF) x) in
        let (y, g) =
          get_elem?-some fat1 (offset12 c + 1)
            (omega (arith, length-set fat (offset12 c) (pack_lo (is_odd c) (bit_and v 0xFFF) x))) in
        (set fat1 (offset12 c + 1) (pack_hi (is_odd c) (bit_and v 0xFFF) y), rw (e, g))

module _ (fat : List ℕ) (c v : ℕ) {fat' : List ℕ} (wrote : set16 fat c v ≡ some fat') where
  pub set16_result :
      (v < 2 ^ 16)
      × (2 * c + 1 < length fat)
      × (fat' ≡ set (set fat (2 * c) (v % 2 ^ 8)) (2 * c + 1) (v / 2 ^ 8))
  unfolding set16
  set16_result = elim (Option-cases (get_elem? fat (2 * c + 1))) [
    | inl n ↦ absurd (ground arith)
    | inr (y, g) ↦ (ground arith, lt_of_get_elem? fat _ g, ground arith)
  ]

  pub get16-set16_self : get16 fat' c ≡ some v
  unfolding get16
  get16-set16_self =
      let r = set16_result in
      rw r.2 (
        ground (
          arith,
          get_elem?-set-set fat (2 * c) (v % 2 ^ 8) (v / 2 ^ 8) (2 * c) r.1,
          get_elem?-set-set fat (2 * c) (v % 2 ^ 8) (v / 2 ^ 8) (2 * c + 1) r.1,
        ))

  pub get16-set16_ne : (d : ℕ) → c ≢ d → get16 fat' d ≡ get16 fat d
  unfolding get16
  get16-set16_ne d ne =
      let r = set16_result in
      rw r.2 (
        ground (
          arith,
          get_elem?-set-set fat (2 * c) (v % 2 ^ 8) (v / 2 ^ 8) (2 * d) r.1,
          get_elem?-set-set fat (2 * c) (v % 2 ^ 8) (v / 2 ^ 8) (2 * d + 1) r.1,
        ))

-- The table stays a list of bytes.
pub set12-AreBytes :
    (fat : List ℕ) (c v : ℕ) {fat' : List ℕ}
    → AreBytes fat
    → set12 fat c v ≡ some fat'
    → AreBytes fat'
set12-AreBytes fat c v bytes wrote =
    let r = set12-Written fat c v wrote in
    let w : ℕ = bit_and v 0xFFF in
    let fat1 : List ℕ = set fat (offset12 c) (pack_lo (is_odd c) w r.lo) in
    let b1 : AreBytes fat1 =
      All-set (λ b. b < 256) fat (offset12 c) _ bytes
        (pack_lo-lt w r.lo (mask12-lt v) (byte_at fat c v bytes wrote _ _ r.at_lo) (is_odd c)) in
    rw r.result (
      All-set (λ b. b < 256) fat1 (offset12 c + 1) _ b1
        (pack_hi-lt w r.hi (mask12-lt v) (byte_at fat c v bytes wrote _ _ r.at_hi) (is_odd c)))

module _ (fat : List ℕ) (c v : ℕ) {fat' : List ℕ} where
  pub set16-AreBytes : AreBytes fat → set16 fat c v ≡ some fat' → AreBytes fat'
  set16-AreBytes bytes wrote =
      let r = set16_result fat c v wrote in
      let b1 : AreBytes (set fat (2 * c) (v % 2 ^ 8)) =
        All-set (λ b. b < 256) fat (2 * c) _ bytes (omega arith) in
      let small : v / 2 ^ 8 < 256 = omega (arith, r.0) in
      rw r.2 (All-set (λ b. b < 256) (set fat (2 * c) (v % 2 ^ 8)) (2 * c + 1) _ b1 small)

  pub length-set16 : set16 fat c v ≡ some fat' → length fat' ≡ length fat
  length-set16 wrote =
      let r = set16_result fat c v wrote in
      ap length r.2 ∙ length-set _ _ _ ∙ length-set fat (2 * c) _
