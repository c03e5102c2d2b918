-- ===== src/Fat/Entry.antt =====
-- One entry of a file allocation table, as bytes: `Vol.get` and `Vol.set` of
-- tools/fat12-proto/fatx.py. `none` is an IndexError or a struct.error.
mod Nibbles
pub mod Laws
use elf_dos.Base.{
  ℕ, ◌+◌, ◌*◌, ◌/◌, ◌%◌, ◌^◌, bit_and, bit_or, Bool, Option, none, some, List, ltb, ◌==◌,
  if◌then◌else◌, ◌>>=◌, ◌>>◌, require, get_elem?, set,
}

-- `o = c + c // 2`
abbrev pub offset12 : ℕ → ℕ
offset12 c = c + c / 2

-- `c & 1`
unfoldable pub is_odd : ℕ → Bool
is_odd c = bit_and c 1 == 1

-- The value of entry `c` from the two bytes that hold it.
unfoldable pub unpack12 : Bool → ℕ → ℕ → ℕ
unpack12 odd lo hi = let w = bit_or lo (hi * 2 ^ 8) in if odd then w / 2 ^ 4 else bit_and w 0xFFF

unfoldable pub get12 : List ℕ → ℕ → Option ℕ
get12 fat c = do
  lo ← get_elem? fat (offset12 c)
  hi ← get_elem? fat (offset12 c + 1)
  some (unpack12 (is_odd c) lo hi)

-- The first byte written for the 12-bit value `v` over the byte `lo`, and the second over `hi`.
unfoldable pub pack_lo : Bool → ℕ → ℕ → ℕ
pack_lo odd v lo =
    if odd then bit_or (bit_and lo 0x0F) (bit_and (v * 2 ^ 4) 0xF0) else bit_and v 0xFF

unfoldable pub pack_hi : Bool → ℕ → ℕ → ℕ
pack_hi odd v hi = if odd then v / 2 ^ 4 else bit_or (bit_and hi 0xF0) (v / 2 ^ 8)

unfoldable pub set12 : List ℕ → ℕ → ℕ → Option (List ℕ)
set12 fat c v = do
  let o = offset12 c
  let w = bit_and v 0xFFF
  lo ← get_elem? fat o
  let fat' = set fat o (pack_lo (is_odd c) w lo)
  hi ← get_elem? fat' (o + 1)
  some (set fat' (o + 1) (pack_hi (is_odd c) w hi))

-- `struct.unpack_from('<H', fat, 2 * c)`
unfoldable pub get16 : List ℕ → ℕ → Option ℕ
get16 fat c = do lo ← get_elem? fat (2 * c); hi ← get_elem? fat (2 * c + 1); some (lo + hi * 2 ^ 8)

-- `struct.pack_into('<H', fat, 2 * c, v)`, which refuses a value of more than 16 bits.
unfoldable pub set16 : List ℕ → ℕ → ℕ → Option (List ℕ)
set16 fat c v = do
  require (ltb v (2 ^ 16))
  get_elem? fat (2 * c + 1)
  some (set (set fat (2 * c) (v % 2 ^ 8)) (2 * c + 1) (v / 2 ^ 8))
