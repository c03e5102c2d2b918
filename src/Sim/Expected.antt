-- ===== src/Sim/Expected.antt =====
-- What tools/fat12-proto/simb7.py expects krnboot to compute from a boot sector, and what
-- tools/fat12-proto/simswd.py expects the kernel to choose by it. `none` is an exception
-- (struct.error or ZeroDivisionError).
pub mod Agrees
use elf_dos.Base.{
  ℕ, ◌+◌, ◌-◌, ◌*◌, ◌/◌, ◌^◌, Bool, not, Option, none, some, List, ltb, ◌==◌, if◌then◌else◌, ◌>>=◌,
  ◌>>◌, require, get_elem?,
}
use elf_dos.Base.Int.{ℤ, pos, sub_ℕ, add_ℤ, ltb_ℤ, div_ℤ}
use elf_dos.Fat.Vol.{le16, le32}

-- `data = root + (roots >> 4)`, the sector of the first cluster, for a partition at `part1`.
unfoldable pub data_start : ℕ → ℕ → ℕ → ℕ → ℕ → ℕ
data_start part1 rsvd nf spf roots = let root = part1 + rsvd + nf * spf in root + roots / 2 ^ 4

-- `None if count >= 65525 else count + 1`
unfoldable pub max_cluster : ℤ → Option ℤ
max_cluster count = if not (ltb_ℤ count (pos 65525)) then none else some (add_ℤ count (pos 1))

-- `exp` of `run`, from the boot sector and the partition's start.
unfoldable pub expected_max : List ℕ → ℕ → Option (Option ℤ)
expected_max vbr part1 = do
  spc ← get_elem? vbr 13
  rsvd ← le16 vbr 14
  nf ← get_elem? vbr 16
  roots ← le16 vbr 17
  tot16 ← le16 vbr 19
  small ← le16 vbr 22
  spf ← if small == 0 then le32 vbr 36 else some small
  tot ← if tot16 == 0 then le32 vbr 32 else some tot16
  require (not (spc == 0))
  let first = data_start part1 rsvd nf spf roots
  some (max_cluster (div_ℤ (sub_ℕ tot (first - part1)) spc))

-- `exp=0 if mc<0x0FF6 else 1`, the kernel's `bpb_fat16` for the highest cluster `mc`.
unfoldable pub expected_fat16 : ℕ → ℕ
expected_fat16 mc = if ltb mc 0x0FF6 then 0 else 1
