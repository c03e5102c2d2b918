-- ===== src/Sim/Cpu/Invariant.antt =====
-- Every instruction of the simulated CPU keeps the word sizes.
use elf_dos.Base.{
  ℕ, ◌+◌, ◌*◌, ◌/◌, ◌%◌, ◌^◌, ◌<◌, ◌≤◌, ◌≡◌, Bool, true, false, some, arith, leb, ◌==◌, bit_and,
  Holds, Holds-bind_eq, Holds-next, Holds-if, if_either,
}
use elf_dos.Base.Bits.{bit_and-lt, bit_or-lt, bit_xor-lt, bit_and_mask}
use elf_dos.Sim.Cpu.{
  Cpu, set_r, word, fetch, push16, pop16, condition, jump_if, short_branch, long_branch, call,
  return, at_x, add_to_d, sub_to_d, is_one_of, execute_f, execute_high, execute_67, execute,
}
use elf_dos.Sim.Cpu.Sound.{
  IsSound, set_r-IsSound, d-IsSound, d_df-IsSound, wr-IsSound, rd-lt, word-lt, HasFetched,
  fetch-HasFetched, with_operand-IsSound, push16-IsSound,
}

jump_if-IsSound : (b : Bool) (a : ℕ) (c : Cpu) → a < 2 ^ 16 → IsSound c → IsSound (jump_if b a c)
jump_if-IsSound true a c h s = set_r-IsSound 3 a c h s
jump_if-IsSound false a c h s = s

short_branch-IsSound : (pc n : ℕ) (c : Cpu) → IsSound c → Holds IsSound (short_branch pc n c)
unfolding short_branch HasFetched
short_branch-IsSound pc n c s =
    Holds-next HasFetched IsSound (fetch c) _
      (λ t k. Holds-bind_eq IsSound (condition n t.1) _ (λ b e.
        jump_if-IsSound b _ t.1
          (bit_or-lt 16 _ _ (bit_and-lt 16 (pc + 1) 0xFF00 (omega arith)) (omega (arith, k.0)))
          k.1))
      (fetch-HasFetched c s)

long_branch-IsSound : (n : ℕ) (c : Cpu) → IsSound c → Holds IsSound (long_branch n c)
unfolding long_branch HasFetched
long_branch-IsSound n c s =
    Holds-next HasFetched IsSound (fetch c) _
      (λ hi h.
        Holds-next HasFetched IsSound (fetch hi.1) _
          (λ lo l.
            Holds-bind_eq IsSound (condition n lo.1) _
              (λ b e. jump_if-IsSound b (word hi.0 lo.0) lo.1 (word-lt hi.0 lo.0 h.0 l.0) l.1))
          (fetch-HasFetched hi.1 h.1))
      (fetch-HasFetched c s)

call-IsSound : (c : Cpu) → IsSound c → Holds IsSound (call c)
unfolding call HasFetched
call-IsSound c s =
    Holds-next HasFetched IsSound (fetch c) _
      (λ hi h.
        Holds-next HasFetched IsSound (fetch hi.1) _
          (λ lo l.
            Holds-next IsSound IsSound (push16 (lo.1.r 6) lo.1) _
              (λ c1 k.
                set_r-IsSound 3 (word hi.0 lo.0) _ (word-lt hi.0 lo.0 h.0 l.0)
                  (set_r-IsSound 6 (c1.r 3) c1 (k.registers 3) k))
              (push16-IsSound (lo.1.r 6) lo.1 l.1))
          (fetch-HasFetched hi.1 h.1))
      (fetch-HasFetched c s)

return-IsSound : (c : Cpu) → c.r 2 + 2 < 2 ^ 16 → IsSound c → IsSound (return c)
unfolding return pop16
return-IsSound c top s =
    let c1 : Cpu = set_r 3 (c.r 6) c in
    let s1 = set_r-IsSound 3 (c.r 6) c (s.registers 6) s in
    let c2 : Cpu = set_r 2 (c.r 2 + 1) c1 in
    let s2 = set_r-IsSound 2 (c.r 2 + 1) c1 (omega arith) s1 in
    let c3 : Cpu = set_r 2 (c.r 2 + 1 + 1) c2 in
    let s3 = set_r-IsSound 2 (c.r 2 + 1 + 1) c2 (omega arith) s2 in
    set_r-IsSound 6 _ c3 (word-lt _ _ (rd-lt c2 _ s2) (rd-lt c3 _ s3)) s3

add_to_d-IsSound : (s : ℕ) (c : Cpu) → s < 2 ^ 9 → IsSound c → IsSound (add_to_d s c)
add_to_d-IsSound s c h k = d_df-IsSound (s % 2 ^ 8) (s / 2 ^ 8) c (omega arith) (omega arith) k

sub_to_d-IsSound : (a b : ℕ) (c : Cpu) → IsSound c → IsSound (sub_to_d a b c)
sub_to_d-IsSound a b c k =
    d_df-IsSound ((a + 255 * b) % 2 ^ 8) _ c (omega arith)
      (if_either (λ (x : ℕ). x < 2) (leb b a) 1 0 (omega arith) (omega arith)) k

low_bit : (v : ℕ) → bit_and v 1 < 2
low_bit v = omega (arith, bit_and_mask 1 v)

execute_f-IsSound : (op : ℕ) (c : Cpu) → IsSound c → Holds IsSound (execute_f op c)
unfolding execute_f
execute_f-IsSound op c s =
    let m = rd-lt c (c.r c.x) s in
    let a = s.accumulator in
    Holds-if IsSound (op == 0xF0) _ _ (d-IsSound _ c m s) (
      Holds-if IsSound (op == 0xF1) _ _ (d-IsSound _ c (bit_or-lt 8 c.d (at_x c) a m) s) (
        Holds-if IsSound (op == 0xF2) _ _ (d-IsSound _ c (bit_and-lt 8 c.d (at_x c) m) s) (
          Holds-if IsSound (op == 0xF3) _ _ (d-IsSound _ c (bit_xor-lt 8 c.d (at_x c) a m) s) (
            Holds-if IsSound (is_one_of 0xF4 0xFC op) _ _
              (with_operand-IsSound _ _ c s
                (λ v t h k. add_to_d-IsSound (t.d + v) t (omega (arith, h, k.accumulator)) k))
              (Holds-if IsSound (is_one_of 0xF7 0xFF op) _ _
                (with_operand-IsSound _ _ c s (λ v t h k. sub_to_d-IsSound t.d v t k))
                (Holds-if IsSound (op == 0xF6) _ _
                  (d_df-IsSound (c.d / 2) (bit_and c.d 1) c (omega (arith, a)) (low_bit c.d) s)
                  (Holds-if IsSound (op == 0xFE) _ _
                    (d_df-IsSound (c.d * 2 % 2 ^ 8) (c.d / 2 ^ 7) c (omega arith) (omega (arith, a))
                      s)
                    (Holds-if IsSound (op == 0xF8) _ _
                      (with_operand-IsSound true _ c s (λ v t h k. d-IsSound v t h k))
                      (Holds-if IsSound (op == 0xF9) _ _
                        (with_operand-IsSound true _ c s
                          (λ v t h k. d-IsSound _ t (bit_or-lt 8 t.d v k.accumulator h) k))
                        (Holds-if IsSound (op == 0xFA) _ _
                          (with_operand-IsSound true _ c s
                            (λ v t h k. d-IsSound _ t (bit_and-lt 8 t.d v h) k))
                          (Holds-if IsSound (op == 0xFB) _ _
                            (with_operand-IsSound true _ c s
                              (λ v t h k. d-IsSound _ t (bit_xor-lt 8 t.d v k.accumulator h) k))
                            tt)))))))))))

execute_high-IsSound :
    (op : ℕ) (c : Cpu) → c.r 2 + 2 < 2 ^ 16 → IsSound c → Holds IsSound (execute_high op c)
unfolding execute_high
execute_high-IsSound op c top s =
    let i : ℕ = op / 2 ^ 4 in
    let n : ℕ = bit_and op 15 in
    let a = s.accumulator in
    let r = s.registers n in
    Holds-if IsSound (i == 8) _ _ (d-IsSound _ c (bit_and-lt 8 (c.r n) 0xFF (omega arith)) s) (
      Holds-if IsSound (i == 9) _ _ (d-IsSound _ c (omega (arith, r)) s) (
        Holds-if IsSound (i == 10) _ _
          (set_r-IsSound n _ c
            (bit_or-lt 16 _ c.d (bit_and-lt 16 (c.r n) 0xFF00 (omega arith)) (omega (arith, a))) s)
          (Holds-if IsSound (i == 11) _ _
            (set_r-IsSound n _ c
              (bit_or-lt 16 _ (c.d * 2 ^ 8) (bit_and-lt 16 (c.r n) 0xFF (omega arith))
                (omega (arith, a)))
              s)
            (Holds-if IsSound (i == 12) _ _ (long_branch-IsSound n c s) (
              Holds-if IsSound (op == 0xD4) _ _ (call-IsSound c s) (
                Holds-if IsSound (op == 0xD5) _ _ (return-IsSound c top s)
                  (execute_f-IsSound op c s)))))))

execute_67-IsSound :
    (op : ℕ) (c : Cpu) → c.r 2 + 2 < 2 ^ 16 → IsSound c → Holds IsSound (execute_67 op c)
unfolding execute_67
execute_67-IsSound op c top s =
    let a = s.accumulator in
    let f = s.flag in
    Holds-if IsSound (op == 0x60) _ _ (set_r-IsSound c.x _ c (omega arith) s) (
      Holds-if IsSound (op == 0x72) _ _
        (set_r-IsSound c.x _ _ (omega arith) (d-IsSound _ c (rd-lt c (c.r c.x) s) s))
        (Holds-if IsSound (op == 0x73) _ _
          (set_r-IsSound c.x _ _ (omega arith) (wr-IsSound (c.r c.x) c.d c s))
          (Holds-if IsSound (is_one_of 0x74 0x7C op) _ _
            (with_operand-IsSound _ _ c s (λ v t h k.
              add_to_d-IsSound (t.d + v + t.df) t (omega (arith, h, k.accumulator, k.flag)) k))
            (Holds-if IsSound (is_one_of 0x77 0x7F op) _ _
              (with_operand-IsSound _ _ c s (λ v t h k. sub_to_d-IsSound (t.d + t.df) (v + 1) t k))
              (Holds-if IsSound (op == 0x76) _ _
                (d_df-IsSound _ (bit_and c.d 1) c
                  (bit_or-lt 8 (c.d / 2) (c.df * 2 ^ 7) (omega (arith, a)) (omega (arith, f)))
                  (low_bit c.d) s)
                (Holds-if IsSound (op == 0x7E) _ _
                  (d_df-IsSound _ (c.d / 2 ^ 7) c (omega arith) (omega (arith, a)) s)
                  (execute_high-IsSound op c top s)))))))

execute-Holds :
    (pc op : ℕ) (c : Cpu) → IsSound c → c.r 2 + 2 < 2 ^ 16 → Holds IsSound (execute pc op c)
unfolding execute
execute-Holds pc op c s top =
    let i : ℕ = op / 2 ^ 4 in
    let n : ℕ = bit_and op 15 in
    Holds-if IsSound (i == 0) _ _
      (Holds-if IsSound (n == 0) _ _ tt (d-IsSound _ c (rd-lt c (c.r n) s) s))
      (Holds-if IsSound (i == 1) _ _ (set_r-IsSound n _ c (omega arith) s) (
        Holds-if IsSound (i == 2) _ _ (set_r-IsSound n _ c (omega arith) s) (
          Holds-if IsSound (i == 3) _ _ (short_branch-IsSound pc n c s) (
            Holds-if IsSound (i == 4) _ _
              (set_r-IsSound n _ _ (omega arith) (d-IsSound _ c (rd-lt c (c.r n) s) s))
              (Holds-if IsSound (i == 5) _ _ (wr-IsSound (c.r n) c.d c s)
                (execute_67-IsSound op c top s))))))

-- On a CPU with bytes in memory and in D, a flag of one bit and 16-bit registers, with the stack
-- pointer at least 2 and below 0xFFFE, every instruction that raises no exception leaves such a CPU.
pub execute-IsSound :
    (pc op : ℕ) (c c' : Cpu)
    → IsSound c
    → 2 ≤ c.r 2
    → c.r 2 + 2 < 2 ^ 16
    → execute pc op c ≡ some c'
    → IsSound c'
execute-IsSound pc op c c' s room top e = rw e at (execute-Holds pc op c s top)
