-- ===== src/Sim/Cpu/Sound.antt =====
-- The word sizes of the simulated CPU: bytes in memory, D and DF, and 16-bit registers.
use elf_dos.Base.{
  ℕ, ◌-◌, ◌/◌, ◌%◌, ◌^◌, ◌<◌, Bool, true, false, arith, ltb, ◌==◌, Bool-cases, inl, inr, Holds,
  Holds-next, if_either, ◌>>=◌,
}
use elf_dos.Base.Bits.{bit_or_shifted}
use elf_dos.Sim.Cpu.{Cpu, set_r, rd, wr, word, fetch, lower_stack, push16, operand, with_operand}

-- Every part of the state has its size.
pub record IsSound (c : Cpu) : Type 0 where
  pub memory : (a : ℕ) → c.m a < 2 ^ 8
  pub registers : (k : ℕ) → c.r k < 2 ^ 16
  pub accumulator : c.d < 2 ^ 8
  pub flag : c.df < 2

pub set_r-IsSound : (n v : ℕ) (c : Cpu) → v < 2 ^ 16 → IsSound c → IsSound (set_r n v c)
set_r-IsSound n v c h s = record {
  memory = s.memory;
  registers = λ k. if_either (λ (x : ℕ). x < 2 ^ 16) (k == n) v (c.r k) h (s.registers k);
  accumulator = s.accumulator;
  flag = s.flag;
}

pub d-IsSound : (v : ℕ) (c : Cpu) → v < 2 ^ 8 → IsSound c → IsSound (record c { d = v })
d-IsSound v c h s = record {
  memory = s.memory;
  registers = s.registers;
  accumulator = h;
  flag = s.flag;
}

pub d_df-IsSound :
    (v f : ℕ) (c : Cpu) → v < 2 ^ 8 → f < 2 → IsSound c → IsSound (record c { d = v; df = f })
d_df-IsSound v f c h k s = record {
  memory = s.memory;
  registers = s.registers;
  accumulator = h;
  flag = k;
}

pub wr-IsSound : (a v : ℕ) (c : Cpu) → IsSound c → IsSound (wr a v c)
unfolding wr
wr-IsSound a v c s = record {
  memory = λ j.
      if_either (λ (x : ℕ). x < 2 ^ 8) (j == a % 2 ^ 16) (v % 2 ^ 8) (c.m j) (omega arith)
        (s.memory j);
  registers = s.registers;
  accumulator = s.accumulator;
  flag = s.flag;
}

pub rd-lt : (c : Cpu) (a : ℕ) → IsSound c → rd c a < 2 ^ 8
unfolding rd
rd-lt c a s = s.memory (a % 2 ^ 16)

pub word-lt : (hi lo : ℕ) → hi < 2 ^ 8 → lo < 2 ^ 8 → word hi lo < 2 ^ 16
word-lt hi lo h l = omega (arith, bit_or_shifted 8 lo hi l, h, l)

-- A fetched byte, and the CPU behind it.
unfoldable pub HasFetched : ℕ × Cpu → Type 0
HasFetched t = (t.0 < 2 ^ 8) × IsSound t.1

pub fetch-HasFetched : (c : Cpu) → IsSound c → Holds HasFetched (fetch c)
unfolding fetch HasFetched
fetch-HasFetched c s = elim (Bool-cases (ltb (c.r c.p) (2 ^ 16))) [
  | inr e ↦ rw (fetch, e, ◌>>=◌) tt
  | inl e ↦ rw (fetch, e, ◌>>=◌) (s.memory (c.r c.p), set_r-IsSound c.p _ c (omega arith) s)
]

operand-HasFetched : (imm : Bool) (c : Cpu) → IsSound c → Holds HasFetched (operand imm c)
unfolding operand HasFetched
operand-HasFetched true c s = fetch-HasFetched c s
operand-HasFetched false c s = (rd-lt c (c.r c.x) s, s)

pub with_operand-IsSound :
    (imm : Bool) (f : ℕ → Cpu → Cpu) (c : Cpu)
    → IsSound c
    → ((v : ℕ) (c' : Cpu) → v < 2 ^ 8 → IsSound c' → IsSound (f v c'))
    → Holds IsSound (with_operand imm f c)
unfolding HasFetched
with_operand-IsSound imm f c s h =
    Holds-next HasFetched IsSound (operand imm c) _ (λ t k. h t.0 t.1 k.0 k.1)
      (operand-HasFetched imm c s)

lower_stack-IsSound : (c : Cpu) → IsSound c → Holds IsSound (lower_stack c)
unfolding lower_stack
lower_stack-IsSound c s = elim (Bool-cases (ltb 0 (c.r 2))) [
  | inr e ↦ rw (lower_stack, e, ◌>>=◌) tt
  | inl e ↦
      rw (lower_stack, e, ◌>>=◌) (set_r-IsSound 2 (c.r 2 - 1) c (omega (arith, s.registers 2)) s)
]

pub push16-IsSound : (v : ℕ) (c : Cpu) → IsSound c → Holds IsSound (push16 v c)
unfolding push16
push16-IsSound v c s =
    Holds-next IsSound IsSound (lower_stack (wr (c.r 2) (v % 2 ^ 8) c)) _
      (λ c1 k. lower_stack-IsSound _ (wr-IsSound (c1.r 2) (v / 2 ^ 8) c1 k))
      (lower_stack-IsSound _ (wr-IsSound (c.r 2) (v % 2 ^ 8) c s))
