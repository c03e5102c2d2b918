-- ===== src/Sim/Tests.antt =====
-- Small programs and disks through the model of tools/fat12-proto/sim12.py, and the theorems at
-- concrete inputs.
use elf_dos.Base.{
  leb, true, ◌++◌, ◌*◌, ◌↔◌, ℕ, ◌+◌, ◌≡◌, refl, false, Option, none, some, List, [], ◌∷◌, arith,
  get_elem?, if◌then◌else◌, ◌==◌, replicate, length-replicate, inr, ◌>>=◌,
}
use elf_dos.Sim.Cpu.{
  Cpu, rd, word, call, return, fetch, pop16, operand, execute_f, execute_high, execute_67, execute,
}
use elf_dos.Sim.Cpu.Calls.{HasCalled, HasReturned, call-return}
use elf_dos.Sim.Cpu.Sound.{IsSound}
use elf_dos.Sim.Cpu.Invariant.{execute-IsSound}
use elf_dos.Sim.Run.{Hooks, run, instruction, round, sent}
use elf_dos.Sim.Cache.{World, Symbols, fls, effective, current}
use elf_dos.Sim.Cache.View.{IsCoherent, HasLoaded}
use elf_dos.Sim.Cache.Coherence.{fls-coherent}
use elf_dos.Sim.Cache.Memory.{IsPlaced}
use elf_dos.Sim.Reference.{extend, ref_get, ref_set, ref_get16, ref_set16}
use elf_dos.Sim.Reference.Agrees.{ref_agrees}
use elf_dos.Base.Int.{pos}
use elf_dos.Fat.Vol.{Vol, mount, read_at, le16, le32, read_fat}
use elf_dos.Sim.Expected.{expected_max, expected_fat16}
use elf_dos.Sim.Expected.Agrees.{expected-mount}
use elf_dos.Fat.Entry.{get12, set12, get16, set16}

-- F8 05, FC 03, then a call of $0FF0.
abbrev program : List ℕ
program = 0xF8 ∷ 5 ∷ 0xFC ∷ 3 ∷ 0xD5 ∷ []

abbrev memory : ℕ → ℕ
memory a = elim (get_elem? program a) [ none ↦ 0 | some b ↦ b ]

abbrev registers : ℕ → ℕ
registers k = if k == 2 then 0x7F00 else if k == 6 then sent else 0

abbrev cpu : Cpu
cpu = record { m = memory; r = registers; d = 0; df = 0; x = 2; p = 3; steps = 0 }

abbrev no_hooks : Hooks (Unit {0})
no_hooks pc = none

call-return_example :
    ((t : Cpu) × (call cpu ≡ some t)
      × HasCalled cpu t (word 0xF8 5)
      × (word (t.m (t.r 2 + 1)) (t.m (t.r 2 + 2)) ≡ sent))
    × HasReturned cpu (
        return record {
          m = λ a. if a == 0x7EFF then 0xFF else 0xF0;
          r = λ k. if k == 2 then 0x7EFE else 2;
          d = 7;
          df = 1;
          x = 2;
          p = 3;
          steps = 9;
        })
call-return_example =
    call-return cpu
      record {
        m = λ a. if a == 0x7EFF then 0xFF else 0xF0;
        r = λ k. if k == 2 then 0x7EFE else 2;
        d = 7;
        df = 1;
        x = 2;
        p = 3;
        steps = 9;
      }
      refl (omega arith) (omega arith) (omega arith) (omega arith) refl refl refl

-- The entry of cluster 1 is 0xFFF.
abbrev marked : List ℕ
marked = 1 ∷ 0xF2 ∷ 0xFF ∷ []

ref_agrees_example :
    (ref_get marked 1 ≡ (get12 marked 1 >>= λ w. some (if leb 0xFF7 w then w + 0xF000 else w)))
    × (ref_set marked 1 0x10ABC ≡ set12 marked 1 0x10ABC)
    × (ref_get16 marked 1 ≡ get16 marked 1)
    × (ref_set16 marked 1 0x10ABC ≡ set16 marked 1 0x10ABC)
ref_agrees_example = ref_agrees marked 1 0x10ABC (omega arith, (omega arith, (omega arith, tt)))

marked_reads : ref_get marked 1 ≡ some 0xFFFF
unfolding ref_get extend
marked_reads = refl

abbrev d_of : {W : Type 0} → Option (Option (W × Cpu)) → ℕ
d_of none = 999
d_of (some none) = 998
d_of (some (some s)) = s.1.d

-- 5 and 3 are added.
sum_of_program : d_of (run no_hooks 4 (tt, cpu)) ≡ 8
unfolding run round instruction fetch execute execute_67 execute_high execute_f operand return pop16
    rd
sum_of_program = refl

abbrev symbols : Symbols
symbols = record { cache = 0x1000; csec = 0x2000; dirty = 0x2002 }

abbrev world : World
world = record {
  disk = replicate 512 7 ∷ replicate 512 9 ∷ [];
  reads = 0;
  writes = 0;
  fail_next = false;
}

-- No sector yet; sector 1 is asked for.
abbrev empty_cache : Cpu
empty_cache = record {
  m = λ a. if a == 0x2000 then 0xFF else if a == 0x2001 then 0xFF else 0;
  r = λ k. if k == 13 then 0x0123 else 0;
  d = 0;
  df = 0;
  x = 2;
  p = 3;
  steps = 0;
}

symbols-IsPlaced : IsPlaced symbols
symbols-IsPlaced = record {
  buffer_below = omega arith;
  csec_below = omega arith;
  dirty_below = omega arith;
  csec_apart = inr (omega arith);
  dirty_apart = inr (omega arith);
  csec_ne = omega arith;
  csec_next_ne = omega arith;
}

empty_cache-IsCoherent : IsCoherent symbols (world, empty_cache)
unfolding current rd
empty_cache-IsCoherent = record {
  few = omega arith;
  sized = (length-replicate {A = ℕ} 512 7, (length-replicate {A = ℕ} 512 9, tt));
  of_disk = λ e. absurd (cc e);
  clean = λ e n. absurd (n refl);
}

fls-coherent_example :
    (t : World × Cpu) × (fls symbols (λ k. 0x55) (world, empty_cache) ≡ some t)
    × HasLoaded symbols 1 (world, empty_cache) t
    × (effective symbols t ≡ effective symbols (world, empty_cache))
fls-coherent_example =
    fls-coherent symbols (λ k. 0x55) world empty_cache symbols-IsPlaced empty_cache-IsCoherent refl
      (omega arith)

-- A boot sector, which ends after the fields that are read.
abbrev boot : List ℕ
boot = replicate 13 0 ++ (1 ∷ 1 ∷ 0 ∷ 1 ∷ 16 ∷ 0 ∷ 7 ∷ 0 ∷ 0xF0 ∷ 1 ∷ 0 ∷ [])

abbrev boot_volume : Vol
boot_volume = record {
  file = boot;
  base = 0;
  spc = 1;
  rsvd = 1;
  nfats = 1;
  rootents = 16;
  spf = 1;
  rootsec = 2;
  data0 = 3;
  count = pos 4;
  fat12 = true;
  fat = [];
}

boot_mounts : mount boot 0 ≡ some boot_volume
unfolding mount read_at le16 le32 read_fat
boot_mounts = refl

expected-mount_example :
    (expected_max (read_at boot (0 * 512) 0 1) 2048 ≡ some (some (pos (4 + 1))))
    × ((expected_fat16 (4 + 1) ≡ 0) ↔ (true ≡ true))
expected-mount_example =
    expected-mount boot 0 2048 4 boot_volume boot_mounts refl (omega arith) (omega arith) refl

-- A CPU that is about to return.
abbrev returning : Cpu
returning = record { m = λ a. 0x22; r = λ k. 0x7F00; d = 0xFF; df = 1; x = 2; p = 3; steps = 0 }

returning-IsSound : IsSound returning
returning-IsSound = record {
  memory = λ a. omega arith;
  registers = λ k. omega arith;
  accumulator = omega arith;
  flag = omega arith;
}

return_runs : execute 0x100 0xD5 returning ≡ some (return returning)
unfolding execute execute_67 execute_high
return_runs = refl

execute-IsSound_example : IsSound (return returning)
execute-IsSound_example =
    execute-IsSound 0x100 0xD5 returning (return returning) returning-IsSound (omega arith)
      (omega arith) return_runs
