-- ===== src/Sim/Cpu.antt =====
-- The class `CPU` of tools/fat12-proto/sim12.py up to one instruction. Memory and registers are
-- functions of the address and the number. `none` is an exception: a RuntimeError of the simulator
-- or the IndexError of a fetch. The stack pointer is not masked in the source; where it would become
-- negative, the model stops with `none` too.
pub mod Calls
pub mod Sound
pub mod Invariant
use elf_dos.Base.{
  ℕ, ◌+◌, ◌-◌, ◌*◌, ◌/◌, ◌%◌, ◌^◌, bit_and, bit_or, bit_xor, Bool, true, false, ◌||◌, not, Option,
  none, some, ltb, leb, ◌==◌, if◌then◌else◌, ◌>>=◌, ◌>>◌, require,
}

pub record Cpu : Type 0 where
  pub m : ℕ → ℕ
  pub r : ℕ → ℕ
  pub d : ℕ
  pub df : ℕ
  pub x : ℕ
  pub p : ℕ
  pub steps : ℕ

-- `f[k] = v`
abbrev pub update : (ℕ → ℕ) → ℕ → ℕ → ℕ → ℕ
update f k v j = if j == k then v else f j

-- `R[n] = v`
abbrev pub set_r : ℕ → ℕ → Cpu → Cpu
set_r n v c = record c { r = update c.r n v }

unfoldable pub rd : Cpu → ℕ → ℕ
rd c a = c.m (a % 2 ^ 16)

unfoldable pub wr : ℕ → ℕ → Cpu → Cpu
wr a v c = record c { m = update c.m (a % 2 ^ 16) (v % 2 ^ 8) }

-- A big-endian word, `(hi << 8) | lo`.
abbrev pub word : ℕ → ℕ → ℕ
word hi lo = bit_or lo (hi * 2 ^ 8)

unfoldable pub fetch : Cpu → Option (ℕ × Cpu)
fetch c = do
  require (ltb (c.r c.p) (2 ^ 16))
  some (c.m (c.r c.p), set_r c.p ((c.r c.p + 1) % 2 ^ 16) c)

-- `self.r[2] -= 1`, on a stack that has room. The source lets R2 go below zero, where the model, whose
-- registers are natural numbers, ends with `none`: nothing is said of a run with such a stack.
unfoldable pub lower_stack : Cpu → Option Cpu
lower_stack c = do require (ltb 0 (c.r 2)); some (set_r 2 (c.r 2 - 1) c)

unfoldable pub push16 : ℕ → Cpu → Option Cpu
push16 v c = do
  c1 ← lower_stack (wr (c.r 2) (v % 2 ^ 8) c)
  lower_stack (wr (c1.r 2) (v / 2 ^ 8) c1)

unfoldable pub pop16 : Cpu → ℕ × Cpu
pop16 c =
    let c1 = set_r 2 (c.r 2 + 1) c in
    let hi = rd c1 (c1.r 2) in let c2 = set_r 2 (c1.r 2 + 1) c1 in (word hi (rd c2 (c2.r 2)), c2)

-- The table of conditions of the short and the long branches.
unfoldable pub condition : ℕ → Cpu → Option Bool
condition n c =
    if n == 0
    then some true
    else if n == 2
    then some (c.d == 0)
    else if n == 3
    then some (c.df == 1)
    else if n == 10
    then some (not (c.d == 0))
    else if n == 11
    then some (c.df == 0)
    else none

abbrev pub jump_if : Bool → ℕ → Cpu → Cpu
jump_if b a c = if b then set_r 3 a c else c

-- The branch within a page.
unfoldable pub short_branch : ℕ → ℕ → Cpu → Option Cpu
short_branch pc n c = do
  t ← fetch c
  b ← condition n t.1
  some (jump_if b (bit_or (bit_and (pc + 1) 0xFF00) t.0) t.1)

unfoldable pub long_branch : ℕ → Cpu → Option Cpu
long_branch n c = do
  hi ← fetch c
  lo ← fetch hi.1
  b ← condition n lo.1
  some (jump_if b (word hi.0 lo.0) lo.1)

-- SCRT call and return.
unfoldable pub call : Cpu → Option Cpu
call c = do
  hi ← fetch c
  lo ← fetch hi.1
  c1 ← push16 (lo.1.r 6) lo.1
  some (set_r 3 (word hi.0 lo.0) (set_r 6 (c1.r 3) c1))

unfoldable pub return : Cpu → Cpu
return c = let c1 = set_r 3 (c.r 6) c in let v = pop16 c1 in set_r 6 v.0 v.1

-- `M()`
abbrev pub at_x : Cpu → ℕ
at_x c = rd c (c.r c.x)

-- The operand of an instruction: the byte that follows, or `M()`.
unfoldable pub operand : Bool → Cpu → Option (ℕ × Cpu)
operand true c = fetch c
operand false c = some (at_x c, c)

-- `s = a + b` into D and DF.
abbrev pub add_to_d : ℕ → Cpu → Cpu
add_to_d s c = record c { d = s % 2 ^ 8; df = s / 2 ^ 8 }

-- `s = a - b` into D and DF; modulo 256 a `- b` is `+ 255 * b`.
abbrev pub sub_to_d : ℕ → ℕ → Cpu → Cpu
sub_to_d a b c = record c { d = (a + 255 * b) % 2 ^ 8; df = if leb b a then 1 else 0 }

abbrev pub with_operand : Bool → (ℕ → Cpu → Cpu) → Cpu → Option Cpu
with_operand imm f c = do v ← operand imm c; some (f v.0 v.1)

abbrev pub is_one_of : ℕ → ℕ → ℕ → Bool
is_one_of a b op = op == a || op == b

-- The instructions that are known by the whole byte, from 0xF0 on.
unfoldable pub execute_f : ℕ → Cpu → Option Cpu
execute_f op c =
    if op == 0xF0
    then some (record c { d = at_x c })
    else if op == 0xF1
    then some (record c { d = bit_or c.d (at_x c) })
    else if op == 0xF2
    then some (record c { d = bit_and c.d (at_x c) })
    else if op == 0xF3
    then some (record c { d = bit_xor c.d (at_x c) })
    else if is_one_of 0xF4 0xFC op
    then with_operand (op == 0xFC) (λ v c'. add_to_d (c'.d + v) c') c
    else if is_one_of 0xF7 0xFF op
    then with_operand (op == 0xFF) (λ v c'. sub_to_d c'.d v c') c
    else if op == 0xF6
    then some (record c { df = bit_and c.d 1; d = c.d / 2 })
    else if op == 0xFE
    then some (record c { df = c.d / 2 ^ 7; d = c.d * 2 % 2 ^ 8 })
    else if op == 0xF8
    then with_operand true (λ v c'. record c' { d = v }) c
    else if op == 0xF9
    then with_operand true (λ v c'. record c' { d = bit_or c'.d v }) c
    else if op == 0xFA
    then with_operand true (λ v c'. record c' { d = bit_and c'.d v }) c
    else if op == 0xFB
    then with_operand true (λ v c'. record c' { d = bit_xor c'.d v }) c
    else none

-- From `elif i == 8` on.
unfoldable pub execute_high : ℕ → Cpu → Option Cpu
execute_high op c =
    let i : ℕ = op / 2 ^ 4 in
    let n : ℕ = bit_and op 15 in
    if i == 8
    then some (record c { d = bit_and (c.r n) 0xFF })
    else if i == 9
    then some (record c { d = c.r n / 2 ^ 8 })
    else if i == 10
    then some (set_r n (bit_or (bit_and (c.r n) 0xFF00) c.d) c)
    else if i == 11
    then some (set_r n (bit_or (bit_and (c.r n) 0xFF) (c.d * 2 ^ 8)) c)
    else if i == 12
    then long_branch n c
    else if op == 0xD4
    then call c
    else if op == 0xD5
    then some (return c)
    else execute_f op c

-- From `elif op == 0x60` to 0x7E.
unfoldable pub execute_67 : ℕ → Cpu → Option Cpu
execute_67 op c =
    if op == 0x60
    then some (set_r c.x ((c.r c.x + 1) % 2 ^ 16) c)
    else if op == 0x72
    then some (set_r c.x ((c.r c.x + 1) % 2 ^ 16) (record c { d = at_x c }))
    else if op == 0x73
    then some (set_r c.x ((c.r c.x + 0xFFFF) % 2 ^ 16) (wr (c.r c.x) c.d c))
    else if is_one_of 0x74 0x7C op
    then with_operand (op == 0x7C) (λ v c'. add_to_d (c'.d + v + c'.df) c') c
    else if is_one_of 0x77 0x7F op
    then with_operand (op == 0x7F) (λ v c'. sub_to_d (c'.d + c'.df) (v + 1) c') c
    else if op == 0x76
    then some (record c { d = bit_or (c.d / 2) (c.df * 2 ^ 7); df = bit_and c.d 1 })
    else if op == 0x7E
    then some (record c { d = bit_or (c.d * 2) c.df % 2 ^ 8; df = c.d / 2 ^ 7 })
    else execute_high op c

-- The instruction `op`, which was fetched at `pc`.
unfoldable pub execute : ℕ → ℕ → Cpu → Option Cpu
execute pc op c =
    let i : ℕ = op / 2 ^ 4 in
    let n : ℕ = bit_and op 15 in
    if i == 0
    then if n == 0 then none else some (record c { d = rd c (c.r n) })
    else if i == 1
    then some (set_r n ((c.r n + 1) % 2 ^ 16) c)
    else if i == 2
    then some (set_r n ((c.r n + 0xFFFF) % 2 ^ 16) c)
    else if i == 3
    then short_branch pc n c
    else if i == 4
    then some (set_r n ((c.r n + 1) % 2 ^ 16) (record c { d = rd c (c.r n) }))
    else if i == 5
    then some (wr (c.r n) c.d c)
    else execute_67 op c
