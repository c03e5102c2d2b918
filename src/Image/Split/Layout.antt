-- ===== src/Image/Split/Layout.antt =====
-- What a boot loader finds in the installable image of tools/split_kernel.py.
use elf_dos.Base.{
  ℕ, ◌+◌, ◌-◌, ◌*◌, ◌^◌, ◌≤◌, ◌<◌, ◌≡◌, Option, some, List, ◌++◌, arith, length, get_elem?, take,
  drop, slice, ◌>>=◌, ◌>>◌, require, not, ◌==◌,
}
use elf_dos.Image.Split.{
  sector_size, krnboot_sectors, kvol_cnt_offset, knv_cnt_offset, knv_last_offset, sectors, patch,
  last_count, pad,
}

-- A big-endian word of the image.
unfoldable pub be16 : List ℕ → ℕ → Option ℕ
be16 xs o = do hi ← get_elem? xs o; lo ← get_elem? xs (o + 1); some (hi * 2 ^ 8 + lo)

pub last_count_bounds : (n : ℕ) → 0 < n → (1 ≤ last_count n) × (last_count n ≤ sector_size)
unfolding last_count sectors
last_count_bounds n h = omega arith

-- The header after the three counts are patched in.
abbrev header : List ℕ → List ℕ → List ℕ → List ℕ
header vol nv boot =
    patch
      (patch (patch boot kvol_cnt_offset (sectors (length vol))) knv_cnt_offset
        (sectors (length nv)))
      knv_last_offset (last_count (length nv))

record Assembled (vol nv boot full : List ℕ) : Type 0 where
  image : full ≡ header vol nv boot ++ (pad vol ++ nv)
  size : length boot ≡ krnboot_sectors * sector_size
  vol_fits : sectors (length vol) ≤ 0xFFFF
  nv_fits : sectors (length nv) ≤ 0xFFFF
  last_fits : last_count (length nv) ≤ 0xFFFF

-- `boot_main` of boot/krnboot.asm: the header says how many sectors of the volatile image follow it.
-- `none` is `load_err`, for a count of zero.
unfoldable pub load_volatile : List ℕ → Option (ℕ × List ℕ)
unfolding be16
load_volatile full = do
  v ← be16 full kvol_cnt_offset
  require (not (v == 0))
  some (v, slice (krnboot_sectors * sector_size) ((krnboot_sectors + v) * sector_size) full)

-- `boot_load_nv`: all but the last of the sectors that follow, and as many bytes of the last one as
-- the header says, up to the check of the magic in what was loaded.
unfoldable pub load_non_volatile : List ℕ → ℕ → Option (List ℕ)
unfolding be16
load_non_volatile full v = do
  s ← be16 full knv_cnt_offset
  require (not (s == 0))
  last ← be16 full knv_last_offset
  some (take ((s - 1) * sector_size + last) (drop ((krnboot_sectors + v) * sector_size) full))

-- Both images, as krnboot loads them where there is RAM at NVK_BASE.
unfoldable pub loaded : List ℕ → Option (List ℕ × List ℕ)
unfolding load_volatile load_non_volatile
loaded full = do vol ← load_volatile full; nv ← load_non_volatile full vol.0; some (vol.1, nv)

module _ (vol nv boot full : List ℕ) (a : Assembled vol nv boot full) where
  abbrev one : List ℕ
  one = patch boot kvol_cnt_offset (sectors (length vol))

  abbrev two : List ℕ
  two = patch one knv_cnt_offset (sectors (length nv))
