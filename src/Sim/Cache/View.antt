-- ===== src/Sim/Cache/View.antt =====
-- The table as the kernel sees it, through a coherent sector cache.
use elf_dos.Base.{
  ℕ, ◌+◌, ◌≤◌, ◌<◌, ◌≡◌, ◌≢◌, refl, true, false, some, List, arith, ltb, ◌==◌, if◌then◌else◌,
  length, get_elem?, set, ◌⊎◌, inl, inr, All, Gives, Bool-cases, get_elem?-set_self, All-set,
  length-set,
}
use elf_dos.Sim.Cpu.{Cpu, set_r, rd}
use elf_dos.Sim.Cache.{World, Symbols, current, is_dirty, buffer, clobber, evict, join, effective}
use elf_dos.Sim.Cache.Memory.{length-load}

-- The sectors as the kernel sees them: those of the disk, with the buffer where it is newer.
abbrev pub view : Symbols → World × Cpu → List (List ℕ)
view a (w, c) = if is_dirty a c then set w.disk (current a c) (buffer a c) else w.disk

-- The disk has at most 256 sectors of 512 bytes; a dirty buffer is of one of them, and a clean
-- buffer, unless there is none yet, is as on the disk.
pub record IsCoherent (a : Symbols) (s : World × Cpu) : Type 0 where
  pub few : length s.0.disk ≤ 256
  pub sized : All (λ b. length b ≡ 512) s.0.disk
  pub of_disk : is_dirty a s.1 ≡ true → current a s.1 < length s.0.disk
  pub clean :
      is_dirty a s.1 ≡ false
      → current a s.1 ≢ 0xFFFF
      → get_elem? s.0.disk (current a s.1) ≡ some (buffer a s.1)

pub effective-view :
    (a : Symbols) (s : World × Cpu) → IsCoherent a s → effective a s ≡ some (join (view a s))
unfolding effective
effective-view a (w, c) h = elim (Bool-cases (is_dirty a c)) [
  | inl e ↦
      let lt = h.of_disk e in
      let in_disk : ltb (current a c) (length w.disk) ≡ true = ground arith in
      let n : (current a c == 0xFFFF) ≡ false = ground (arith, h.few) in rw (n, e, in_disk) refl
  | inr e ↦ elim (Bool-cases (current a c == 0xFFFF)) [
    | inl z ↦ rw (z, e) refl
    | inr z ↦ rw (z, e) refl
  ]
]

-- What the hook has done.
pub record HasLoaded (a : Symbols) (idx : ℕ) (s t : World × Cpu) : Type 0 where
  pub no_error : t.1.df ≡ 0
  pub is_current : current a t.1 ≡ idx
  pub in_buffer : get_elem? (view a s) idx ≡ some (buffer a t.1)
  pub same_view : view a t ≡ view a s
  pub coherent : IsCoherent a t
  pub elsewhere :
      (j : ℕ)
      → (j < a.cache) ⊎ (a.cache + 512 ≤ j)
      → j ≢ a.dirty
      → j ≢ a.csec
      → j ≢ a.csec + 1
      → t.1.m j ≡ s.1.m j

in_view :
    (a : Symbols) (w : World) (c : Cpu)
    → IsCoherent a (w, c)
    → current a c < length w.disk
    → get_elem? (view a (w, c)) (current a c) ≡ some (buffer a c)
in_view a w c h lt = elim (Bool-cases (is_dirty a c)) [
  | inl e ↦ rw e (get_elem?-set_self w.disk (current a c) (buffer a c) lt)
  | inr e ↦ rw e (h.clean e (omega (arith, h.few)))
]

-- The sector is in the buffer already.
pub hit :
    (a : Symbols) (rnd : ℕ → ℕ) (w : World) (c : Cpu)
    → IsCoherent a (w, c)
    → current a c < length w.disk
    → HasLoaded a (current a c) (w, c) (w, record (clobber rnd c) { df = 0 })
unfolding current rd
hit a rnd w c h lt = record {
  no_error = refl;
  is_current = refl;
  in_buffer = in_view a w c h lt;
  same_view = refl;
  coherent = record { few = h.few; sized = h.sized; of_disk = h.of_disk; clean = h.clean };
  elsewhere = λ j o x y z. refl;
}

pub evicted :
    (a : Symbols) (rnd : ℕ → ℕ) (w : World) (c : Cpu)
    → IsCoherent a (w, c)
    → Gives (λ e. (e.0.disk ≡ view a (w, c)) × (e.1.m ≡ c.m)) (evict a rnd (w, c))
unfolding evict
evicted a rnd w c h = elim (Bool-cases (is_dirty a c)) [
  | inl e ↦
      let lt = h.of_disk e in
      let in_disk : ltb (current a c) (length w.disk) ≡ true = ground arith in
      rw (e, in_disk)
        (
          (
            record w { disk = set w.disk (current a c) (buffer a c); writes = w.writes + 1 },
            set_r 12 (rnd 12) c,
          ),
          refl,
          (refl, refl),
        )
  | inr e ↦ rw e ((w, c), refl, (refl, refl))
]

pub sized_view :
    (a : Symbols) (w : World) (c : Cpu)
    → IsCoherent a (w, c)
    → All (λ b. length b ≡ 512) (view a (w, c)) × (length (view a (w, c)) ≡ length w.disk)
sized_view a w c h = elim (Bool-cases (is_dirty a c)) [
  | inl e ↦ rw e (
    All-set (λ b. length b ≡ 512) w.disk (current a c) (buffer a c) h.sized
        (length-load c.m a.cache 512),
    length-set w.disk (current a c) (buffer a c),
  )
  | inr e ↦ rw e (h.sized, refl)
]
