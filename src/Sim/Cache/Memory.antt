-- ===== src/Sim/Cache/Memory.antt =====
-- Memory after the mocked sector cache has read a sector into its buffer.
use elf_dos.Base.{
  ℕ, zero, suc, ◌+◌, ◌-◌, ◌%◌, ◌^◌, ◌≤◌, ◌<◌, ◌≡◌, ◌≢◌, refl, sym, ap, ◌∙◌, false, some, List, [],
  ◌∷◌, arith, ltb, ◌==◌, if◌then◌else◌, length, get_elem?, ◌⊎◌, inl, inr, Option-cases,
  lt_of_get_elem?,
}
use elf_dos.Base.Bits.{bit_or_shifted}
use elf_dos.Sim.Cpu.{Cpu, rd, wr, word}
use elf_dos.Sim.Cache.{Symbols, load, store, current, buffer, fill}

pub length-load : (m : ℕ → ℕ) (a n : ℕ) → length (load m a n) ≡ n
unfolding load
length-load m a zero = refl
length-load m a (suc n) = ap suc (length-load m (suc a) n)

-- Memory that holds the bytes from `a` on is loaded as them.
load_bytes :
    (m : ℕ → ℕ) (a : ℕ) (bytes : List ℕ)
    → ((i v : ℕ) → get_elem? bytes i ≡ some v → m (a + i) ≡ v)
    → load m a (length bytes) ≡ bytes
unfolding load
load_bytes m a [] h = refl
load_bytes m a (x ∷ bytes) h =
    let head : m a ≡ x = ap m {x = a} {y = a + 0} (omega arith) ∙ h 0 x refl in
    let rest =
      load_bytes m (suc a) bytes
        (λ i v e. ap m {x = suc a + i} {y = a + suc i} (omega arith) ∙ h (suc i) v e) in
    rw (head, rest) refl

store_at :
    (m : ℕ → ℕ) (a : ℕ) (bytes : List ℕ) (i v : ℕ)
    → get_elem? bytes i ≡ some v
    → store m a bytes (a + i) ≡ v
unfolding store
store_at m a bytes i v e =
    let lo : ltb (a + i) a ≡ false = ground arith in
    let q : a + i - a ≡ i = omega arith in rw (lo, q, e) refl

store_outside :
    (m : ℕ → ℕ) (a : ℕ) (bytes : List ℕ) (j : ℕ)
    → (j < a) ⊎ (a + length bytes ≤ j)
    → store m a bytes j ≡ m j
unfolding store
store_outside m a bytes j h = elim (Option-cases (get_elem? bytes (j - a))) [
  | inl n ↦ rw n (ground arith)
  | inr (v, e) ↦ ground (arith, lt_of_get_elem? bytes (j - a) e)
]

-- The cache's variables lie below 64K, apart, and outside of the buffer.
pub record IsPlaced (a : Symbols) : Type 0 where
  pub buffer_below : a.cache + 512 ≤ 2 ^ 16
  pub csec_below : a.csec + 1 < 2 ^ 16
  pub dirty_below : a.dirty < 2 ^ 16
  pub csec_apart : (a.csec + 1 < a.cache) ⊎ (a.cache + 512 ≤ a.csec)
  pub dirty_apart : (a.dirty < a.cache) ⊎ (a.cache + 512 ≤ a.dirty)
  pub csec_ne : a.csec ≢ a.dirty
  pub csec_next_ne : a.csec + 1 ≢ a.dirty

rd_lem : (c : Cpu) (j : ℕ) → j < 2 ^ 16 → rd c j ≡ c.m j
unfolding rd
rd_lem c j h = let e : j % 2 ^ 16 ≡ j = omega arith in ap c.m e

-- The memory after a sector was filled in.
fill_at :
    (a : Symbols) (idx : ℕ) (bytes : List ℕ) (c : Cpu) (j : ℕ)
    → IsPlaced a
    → (fill a idx bytes c).m j ≡ (
        if j == a.dirty
        then 0
        else if j == a.csec + 1
        then idx % 2 ^ 8
        else if j == a.csec
        then 0
        else store c.m a.cache bytes j)
unfolding fill wr
fill_at a idx bytes c j p =
    let d : a.dirty % 2 ^ 16 ≡ a.dirty = omega (arith, p.dirty_below) in
    let s : a.csec % 2 ^ 16 ≡ a.csec = omega (arith, p.csec_below) in
    let n : (a.csec + 1) % 2 ^ 16 ≡ a.csec + 1 = omega (arith, p.csec_below) in rw (d, s, n) refl

module _ (a : Symbols) (p : IsPlaced a) (idx : ℕ) (bytes : List ℕ) (c : Cpu) where
  pub fill_dirty : rd (fill a idx bytes c) a.dirty ≡ 0
  fill_dirty =
      rd_lem (fill a idx bytes c) a.dirty p.dirty_below
      ∙ fill_at a idx bytes c a.dirty p
      ∙ ground arith

  pub current-fill : idx < 256 → current a (fill a idx bytes c) ≡ idx
  unfolding current
  current-fill small =
      let f : Cpu = fill a idx bytes c in
      let hi : rd f a.csec ≡ 0 =
        rd_lem f a.csec (omega (arith, p.csec_below))
        ∙ fill_at a idx bytes c a.csec p
        ∙ ground (arith, p.csec_ne) in
      let lo : rd f (a.csec + 1) ≡ idx =
        rd_lem f (a.csec + 1) p.csec_below
        ∙ fill_at a idx bytes c (a.csec + 1) p
        ∙ ground (arith, p.csec_next_ne) in
      ap (λ h. word h (rd f (a.csec + 1))) hi
      ∙ ap (λ l. word 0 l) lo
      ∙ bit_or_shifted 8 idx 0 small
      ∙ omega arith

  pub buffer-fill : length bytes ≡ 512 → buffer a (fill a idx bytes c) ≡ bytes
  buffer-fill len =
      ap (λ (k : ℕ). load (fill a idx bytes c).m a.cache k) {x = 512} {y = length bytes} (sym len)
      ∙ load_bytes _ a.cache bytes (λ i v e.
        fill_at a idx bytes c (a.cache + i) p
        ∙ ground (
          arith,
          lt_of_get_elem? bytes i e,
          p.csec_apart,
          p.dirty_apart,
          store_at c.m a.cache bytes i v e,
        ))

  pub fill_else :
      (j : ℕ)
      → length bytes ≡ 512
      → (j < a.cache) ⊎ (a.cache + 512 ≤ j)
      → j ≢ a.dirty
      → j ≢ a.csec
      → j ≢ a.csec + 1
      → (fill a idx bytes c).m j ≡ c.m j
  fill_else j len out x y z =
      fill_at a idx bytes c j p ∙ ground (arith, store_outside c.m a.cache bytes j (rw len out))
