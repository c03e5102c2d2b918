-- ===== src/Sim/Cpu/Calls.antt =====
-- SCRT calls and returns of the simulated CPU.
use elf_dos.Base.{
  ℕ, ◌+◌, ◌-◌, ◌/◌, ◌%◌, ◌^◌, ◌≤◌, ◌<◌, ◌≡◌, refl, ap, ◌∙◌, true, some, arith, ltb, ◌==◌,
  if◌then◌else◌,
}
use elf_dos.Base.Bits.{bit_or_shifted}
use elf_dos.Sim.Cpu.{Cpu, set_r, rd, wr, word, fetch, lower_stack, push16, pop16, call, return}

-- A word from its two bytes.
word_bytes : (v : ℕ) → word (v / 2 ^ 8) (v % 2 ^ 8) ≡ v
word_bytes v = bit_or_shifted 8 (v % 2 ^ 8) (v / 2 ^ 8) (omega arith) ∙ omega arith

-- What a call leaves: the target in R3, the return address in R6, and the caller's R6 on the stack.
pub record HasCalled (c t : Cpu) (target : ℕ) : Type 0 where
  pub to_target : t.r 3 ≡ target
  pub link : t.r 6 ≡ (c.r 3 + 2) % 2 ^ 16
  pub lowered : t.r 2 + 2 ≡ c.r 2
  pub saved_hi : t.m (t.r 2 + 1) ≡ c.r 6 / 2 ^ 8
  pub saved_lo : t.m (t.r 2 + 2) ≡ c.r 6 % 2 ^ 8
  pub same_below : (j : ℕ) → j ≤ t.r 2 → t.m j ≡ c.m j
  pub same_above : (j : ℕ) → c.r 2 < j → t.m j ≡ c.m j

fetch_at :
    (c : Cpu)
    → c.p ≡ 3
    → c.r 3 < 2 ^ 16
    → fetch c ≡ some (c.m (c.r 3), set_r 3 ((c.r 3 + 1) % 2 ^ 16) c)
unfolding fetch
fetch_at c p h = let lt : ltb (c.r 3) (2 ^ 16) ≡ true = ground arith in rw (p, lt) refl

-- After a push where the stack pointer stays above zero.
abbrev pushed : ℕ → Cpu → Cpu
pushed v c =
    set_r 2 (c.r 2 - 1 - 1)
      (wr (c.r 2 - 1) (v / 2 ^ 8) (set_r 2 (c.r 2 - 1) (wr (c.r 2) (v % 2 ^ 8) c)))

push16-pushed : (v : ℕ) (c : Cpu) → 2 ≤ c.r 2 → push16 v c ≡ some (pushed v c)
unfolding push16 lower_stack wr
push16-pushed v c h =
    let one : ltb 0 (c.r 2) ≡ true = ground arith in
    let two : ltb 0 (c.r 2 - 1) ≡ true = ground arith in rw (one, two) refl

-- The CPU with both bytes of the target fetched.
abbrev fetched : Cpu → Cpu
fetched c = set_r 3 ((((c.r 3 + 1) % 2 ^ 16) + 1) % 2 ^ 16) (set_r 3 ((c.r 3 + 1) % 2 ^ 16) c)

abbrev called : Cpu → Cpu
called c =
    let c1 = pushed (c.r 6) (fetched c) in
    set_r 3 (word (c.m (c.r 3)) (c.m ((c.r 3 + 1) % 2 ^ 16))) (set_r 6 (c1.r 3) c1)

call_lem : (c : Cpu) → c.p ≡ 3 → c.r 3 + 1 < 2 ^ 16 → 2 ≤ c.r 2 → call c ≡ some (called c)
unfolding call
call_lem c p pc low =
    rw
      (
        fetch_at c p (omega arith),
        fetch_at (set_r 3 ((c.r 3 + 1) % 2 ^ 16) c) p (omega arith),
        push16-pushed (c.r 6) (fetched c) low,
      )
      refl

called_memory :
    (c : Cpu) (j : ℕ)
    → 2 ≤ c.r 2
    → c.r 2 < 2 ^ 16
    → (called c).m j ≡ (
        if j == c.r 2 - 1
        then c.r 6 / 2 ^ 8 % 2 ^ 8
        else if j == c.r 2
        then c.r 6 % 2 ^ 8 % 2 ^ 8
        else c.m j)
unfolding wr
called_memory c j low high =
    let a : (c.r 2 - 1) % 2 ^ 16 ≡ c.r 2 - 1 = omega arith in
    let b : c.r 2 % 2 ^ 16 ≡ c.r 2 = omega arith in rw (a, b) refl

called-HasCalled :
    (c : Cpu)
    → c.r 3 + 1 < 2 ^ 16
    → c.r 6 < 2 ^ 16
    → 2 ≤ c.r 2
    → c.r 2 < 2 ^ 16
    → HasCalled c (called c) (word (c.m (c.r 3)) (c.m (c.r 3 + 1)))
unfolding wr
called-HasCalled c pc link low high = record {
  to_target =
      ap (λ (k : ℕ). word (c.m (c.r 3)) (c.m k)) {x = (c.r 3 + 1) % 2 ^ 16} {y = c.r 3 + 1}
        (omega arith);
  link = omega arith;
  lowered = omega arith;
  saved_hi = called_memory c (c.r 2 - 1 - 1 + 1) low high ∙ ground arith;
  saved_lo = called_memory c (c.r 2 - 1 - 1 + 2) low high ∙ ground arith;
  same_below = λ j h. called_memory c j low high ∙ ground arith;
  same_above = λ j h. called_memory c j low high ∙ ground arith;
}

-- The CPU after a return is back behind the call.
pub record HasReturned (c u : Cpu) : Type 0 where
  pub behind_call : u.r 3 ≡ (c.r 3 + 2) % 2 ^ 16
  pub link_back : u.r 6 ≡ c.r 6
  pub stack_back : u.r 2 ≡ c.r 2

return-HasReturned :
    (c u : Cpu)
    → c.r 2 < 2 ^ 16
    → u.r 2 + 2 ≡ c.r 2
    → u.r 6 ≡ (c.r 3 + 2) % 2 ^ 16
    → word (u.m (c.r 2 - 1)) (u.m (c.r 2)) ≡ c.r 6
    → HasReturned c (return u)
unfolding return pop16 rd
return-HasReturned c u high sp link saved =
    let a : (u.r 2 + 1) % 2 ^ 16 ≡ c.r 2 - 1 = omega arith in
    let b : (u.r 2 + 1 + 1) % 2 ^ 16 ≡ c.r 2 = omega arith in
    record { behind_call = link; link_back = rw (a, b) saved; stack_back = omega arith }

-- What the call itself saves is what the return needs.
word-saved :
    (c t : Cpu) {target : ℕ}
    → HasCalled c t target
    → word (t.m (t.r 2 + 1)) (t.m (t.r 2 + 2)) ≡ c.r 6
word-saved c t h = rw (h.saved_hi, h.saved_lo) (word_bytes (c.r 6))

-- With P = 3, the program counter below 0xFFFF, a word in R6 and room on the stack, a call succeeds:
-- it goes to the target, with the return address in R6 and the caller's R6 on the stack. From any
-- later state with that return address in R6, the stack pointer where the call left it and the
-- caller's R6 still on the stack, a return goes on behind the call, with R6 and the stack pointer
-- of the caller.
pub call-return :
    (c u : Cpu)
    → c.p ≡ 3
    → c.r 3 + 1 < 2 ^ 16
    → c.r 6 < 2 ^ 16
    → 2 ≤ c.r 2
    → c.r 2 < 2 ^ 16
    → u.r 2 + 2 ≡ c.r 2
    → u.r 6 ≡ (c.r 3 + 2) % 2 ^ 16
    → word (u.m (c.r 2 - 1)) (u.m (c.r 2)) ≡ c.r 6
    → ((t : Cpu) × (call c ≡ some t)
        × HasCalled c t (word (c.m (c.r 3)) (c.m (c.r 3 + 1)))
        × (word (t.m (t.r 2 + 1)) (t.m (t.r 2 + 2)) ≡ c.r 6))
      × HasReturned c (return u)
call-return c u regs pc link low high sp ra saved =
    let h = called-HasCalled c pc link low high in
    (
      (called c, call_lem c regs pc low, h, word-saved c (called c) h),
      return-HasReturned c u high sp ra saved,
    )
