-- ===== src/Sim/Reference.antt =====
-- The reference model of the table in tools/fat12-proto/sim12.py: `ref_get` and `ref_set`, and the
-- versions of both for FAT16. `none` is an IndexError.
pub mod Agrees
use elf_dos.Base.{
  ℕ, ◌+◌, ◌*◌, ◌/◌, ◌^◌, bit_and, bit_or, Option, some, List, leb, ◌==◌, if◌then◌else◌, ◌>>=◌, ◌>>◌,
  get_elem?, set, require, ltb,
}

-- `fat[i] = v`
unfoldable pub assign : List ℕ → ℕ → ℕ → Option (List ℕ)
assign fat i v = do get_elem? fat i; some (set fat i v)

-- `v | 0xF000 if v >= 0xFF7 else v`
unfoldable pub extend : ℕ → ℕ
extend v = if leb 0xFF7 v then bit_or v 0xF000 else v

unfoldable pub ref_get : List ℕ → ℕ → Option ℕ
ref_get fat cl = do
  let o = cl + cl / 2
  lo ← get_elem? fat o
  hi ← get_elem? fat (o + 1)
  let w = bit_or lo (hi * 2 ^ 8)
  some (extend (if bit_and cl 1 == 1 then w / 2 ^ 4 else bit_and w 0xFFF))

unfoldable pub ref_set_odd : List ℕ → ℕ → ℕ → Option (List ℕ)
ref_set_odd fat o v = do
  lo ← get_elem? fat o
  fat1 ← assign fat o (bit_or (bit_and lo 0x0F) (bit_and (v * 2 ^ 4) 0xF0))
  assign fat1 (o + 1) (v / 2 ^ 4)

unfoldable pub ref_set_even : List ℕ → ℕ → ℕ → Option (List ℕ)
ref_set_even fat o v = do
  fat1 ← assign fat o (bit_and v 0xFF)
  hi ← get_elem? fat1 (o + 1)
  assign fat1 (o + 1) (bit_or (bit_and hi 0xF0) (v / 2 ^ 8))

unfoldable pub ref_set : List ℕ → ℕ → ℕ → Option (List ℕ)
ref_set fat cl v =
    let o : ℕ = cl + cl / 2 in
    let w : ℕ = bit_and v 0xFFF in
    if bit_and cl 1 == 1 then ref_set_odd fat o w else ref_set_even fat o w

-- The versions for FAT16. A byte of a bytearray is below 256.
unfoldable pub ref_get16 : List ℕ → ℕ → Option ℕ
ref_get16 fat cl = do
  lo ← get_elem? fat (2 * cl)
  hi ← get_elem? fat (2 * cl + 1)
  some (bit_or lo (hi * 2 ^ 8))

unfoldable pub ref_set16 : List ℕ → ℕ → ℕ → Option (List ℕ)
ref_set16 fat cl v = do
  fat1 ← assign fat (2 * cl) (bit_and v 0xFF)
  require (ltb (v / 2 ^ 8) 256)
  assign fat1 (2 * cl + 1) (v / 2 ^ 8)
