-- ===== src/Sim/Run.antt =====
-- `CPU.run` of tools/fat12-proto/sim12.py. The world that the hooks change is passed along; an outer
-- `none` is fuel that ran out, the inner one an exception.
use elf_dos.Base.{
  ℕ, zero, suc, ◌+◌, true, false, Option, none, some, ltb, ◌==◌, ◌>>=◌, ◌>>◌, require,
}
use elf_dos.Sim.Cpu.{Cpu, fetch, return, execute}

-- `SENT`, and the most instructions that a run may take.
abbrev pub sent : ℕ
sent = 0xFFF0

abbrev pub step_limit : ℕ
step_limit = 200000

-- A hook of the routine at an address: it changes the world and the CPU, or raises.
abbrev pub Hooks : Type 0 → Type 0
Hooks W = ℕ → Option (W × Cpu → Option (W × Cpu))

-- One instruction: the count, the fetch and the execution.
unfoldable pub instruction : Cpu → Option Cpu
instruction c = do
  require (ltb c.steps step_limit)
  op ← fetch (record c { steps = c.steps + 1 })
  execute (c.r 3) op.0 op.1

-- One round of the loop that does not return: a hook and the return from it, or an instruction.
unfoldable pub round : {W : Type 0} → Hooks W → W × Cpu → Option (W × Cpu)
unfolding instruction
round hooks s = elim (hooks (s.1.r 3)) [
  | some h ↦ h s >>= (λ t. some (t.0, return t.1))
  | none ↦ instruction s.1 >>= (λ c. some (s.0, c))
]

unfoldable pub run : {W : Type 0} → Hooks W → ℕ → W × Cpu → Option (Option (W × Cpu))
unfolding round
run hooks zero s = none
run hooks (suc f) s = elim (s.1.r 3 == sent) [
  | true ↦ some (some s)
  | false ↦ elim (round hooks s) [ none ↦ some none | some t ↦ run hooks f t ]
]
