-- ===== src/Sim/Cache.antt =====
-- The model disk of tools/fat12-proto/sim12.py, with the hook that stands for the kernel's sector
-- cache. `none` is an exception. The random words that the hook leaves in registers are an argument.
-- A write of a sector to memory is modelled where the buffer ends below 64K.
pub mod Memory
pub mod View
pub mod Coherence
use elf_dos.Base.{
  ℕ, zero, suc, ◌+◌, ◌-◌, ◌*◌, ◌/◌, ◌^◌, Bool, true, false, ◌&&◌, not, Option, none, some, List, [],
  ◌∷◌, ◌++◌, ltb, ◌==◌, if◌then◌else◌, ◌>>=◌, ◌>>◌, require, length, get_elem?, set,
}
use elf_dos.Sim.Cpu.{Cpu, set_r, rd, wr, word}

-- `World`
pub record World : Type 0 where
  pub disk : List (List ℕ)
  pub reads : ℕ
  pub writes : ℕ
  pub fail_next : Bool

-- The symbols of the kernel's cache.
pub record Symbols : Type 0 where
  pub cache : ℕ
  pub csec : ℕ
  pub dirty : ℕ

-- `m[a:a + n]`
unfoldable pub load : (ℕ → ℕ) → ℕ → ℕ → List ℕ
load m a zero = []
load m a (suc n) = m a ∷ load m (suc a) n

-- `m[a:a + len(bytes)] = bytes`
unfoldable pub store : (ℕ → ℕ) → ℕ → List ℕ → ℕ → ℕ
store m a bytes j =
    if ltb j a then m j else elim (get_elem? bytes (j - a)) [ none ↦ m j | some v ↦ v ]

unfoldable pub current : Symbols → Cpu → ℕ
current a c = word (rd c a.csec) (rd c (a.csec + 1))

abbrev pub is_dirty : Symbols → Cpu → Bool
is_dirty a c = not (rd c a.dirty == 0)

abbrev pub buffer : Symbols → Cpu → List ℕ
buffer a c = load c.m a.cache 512

-- `for k in (7, 8, 15): R[k] = random.getrandbits(16)`
abbrev pub clobber : (ℕ → ℕ) → Cpu → Cpu
clobber rnd c = set_r 15 (rnd 15) (set_r 8 (rnd 8) (set_r 7 (rnd 7) c))

-- The write of a dirty buffer before another sector is read.
unfoldable pub evict : Symbols → (ℕ → ℕ) → World × Cpu → Option (World × Cpu)
evict a rnd (w, c) =
    if is_dirty a c
    then (do
      require (ltb (current a c) (length w.disk))
      some (
        record w { disk = set w.disk (current a c) (buffer a c); writes = w.writes + 1 },
        set_r 12 (rnd 12) c,
      ))
    else some (w, c)

-- The buffer and the cache's variables for sector `idx`.
unfoldable pub fill : Symbols → ℕ → List ℕ → Cpu → Cpu
fill a idx bytes c =
    wr a.dirty 0 (wr (a.csec + 1) idx (wr a.csec 0 (record c { m = store c.m a.cache bytes })))

-- The rest of `fls` where no error is to come.
unfoldable pub load_sector : Symbols → (ℕ → ℕ) → World × Cpu → Option (World × Cpu)
load_sector a rnd (w, c) =
    let idx : ℕ = c.r 13 / 2 ^ 8 in
    if current a c == idx then some (w, record (clobber rnd c) { df = 0 }) else do
      e ← evict a rnd (w, c)
      bytes ← get_elem? e.0.disk idx
      some (
        record e.0 { reads = e.0.reads + 1 },
        record (clobber rnd (fill a idx bytes e.1)) { df = 0 },
      )

-- `fls`, the hook of `_fat_load_sector`
unfoldable pub fls : Symbols → (ℕ → ℕ) → World × Cpu → Option (World × Cpu)
fls a rnd (w, c) =
    if w.fail_next
    then some (record w { fail_next = false }, clobber rnd (record c { df = 1 }))
    else load_sector a rnd (w, c)

-- `b''.join(d)`
unfoldable pub join : List (List ℕ) → List ℕ
join [] = []
join (s ∷ ss) = s ++ join ss

-- `effective(c, w)`: the table as the kernel sees it.
unfoldable pub effective : Symbols → World × Cpu → Option (List ℕ)
effective a (w, c) =
    if not (current a c == 0xFFFF) && is_dirty a c
    then (do
      require (ltb (current a c) (length w.disk))
      some (join (set w.disk (current a c) (buffer a c))))
    else some (join w.disk)
