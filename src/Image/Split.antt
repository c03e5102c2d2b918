-- ===== src/Image/Split.antt =====
-- `main` of tools/split_kernel.py: the linked kernel cut into the volatile and the non-volatile
-- image, and the installable image put together. The equates and the linker's symbol table are
-- arguments; what is written to a file is part of the result.
pub mod Layout
pub mod Guards
use elf_dos.Base.{
  ℕ, suc, ◌+◌, ◌-◌, ◌*◌, ◌/◌, ◌%◌, ◌^◌, bit_and, Bool, true, false, ◌&&◌, not, Option, none, some,
  List, [], ◌∷◌, ◌++◌, ltb, leb, ◌==◌, if◌then◌else◌, length, get_elem?, set, take, drop, replicate,
}
use elf_dos.Base.Int.{ℤ, pos, negsuc, sub_ℕ}
use elf_dos.Image.Hex.{intel_hex}

-- `SECTOR_SIZE`, `KRNBOOT_SECTORS`
abbrev pub sector_size : ℕ
sector_size = 512

abbrev pub krnboot_sectors : ℕ
krnboot_sectors = 5

-- `KVOL_CNT_OFFSET`, `KNV_CNT_OFFSET`, `KNV_LAST_OFFSET`
abbrev pub kvol_cnt_offset : ℕ
kvol_cnt_offset = 4

abbrev pub knv_cnt_offset : ℕ
knv_cnt_offset = 9

abbrev pub knv_last_offset : ℕ
knv_last_offset = 11

-- `base`, the link's lowest address
abbrev pub link_base : ℕ
link_base = 0x0100

unfoldable pub sectors : ℕ → ℕ
sectors n = (n + sector_size - 1) / sector_size

-- Why the tool stops.
pub data Stop : Type 0 where
  no_marker past_nvk_base past_nvk_top no_nvk_signature : Stop
  no_krn_signature wrong_krnboot_size bad_last_count : Stop
  count_too_large : ℕ → Stop

-- The files that were written, and the error that ended the run, if one did.
pub record Outcome : Type 0 where
  pub vol_out : Option (List ℕ)
  pub nv_out : Option (List ℕ)
  pub hex_out : Option (List ℕ)
  pub full_out : Option (List ℕ)
  pub stop : Option Stop

-- `xs[0:k]` and `xs[k:]`, which count from the end for a negative k.
unfoldable pub slice_to : ℤ → List ℕ → List ℕ
slice_to (pos k) xs = take k xs
slice_to (negsuc k) xs = take (length xs - suc k) xs

unfoldable pub slice_from : ℤ → List ℕ → List ℕ
slice_from (pos k) xs = drop k xs
slice_from (negsuc k) xs = drop (length xs - suc k) xs

-- `xs[0:3] == b"..."`
unfoldable pub has_prefix : ℕ → ℕ → ℕ → List ℕ → Bool
has_prefix a b c (x ∷ y ∷ z ∷ rest) = x == a && y == b && z == c
has_prefix a b c _ = false

-- `boot[off] = (n >> 8) & 0xFF; boot[off + 1] = n & 0xFF`
unfoldable pub patch : List ℕ → ℕ → ℕ → List ℕ
patch boot off n = set (set boot off (bit_and (n / 2 ^ 8) 0xFF)) (off + 1) (bit_and n 0xFF)

-- The loop that patches the header; the error names the count that does not fit.
unfoldable pub patch_all : List ℕ → List (ℕ × ℕ) → Option ℕ × List ℕ
patch_all boot [] = (none, boot)
patch_all boot ((off, n) ∷ rest) =
    if ltb 0xFFFF n then (some n, boot) else patch_all (patch boot off n) rest

-- The bytes of the non-volatile image in its last sector. (The sum is not negative: the sectors
-- hold at most 511 bytes more than the image.)
unfoldable pub last_count : ℕ → ℕ
last_count n = n + sector_size - sectors n * sector_size

-- `vol + b"\x00" * (vol_sectors * SECTOR_SIZE - len(vol))`
unfoldable pub pad : List ℕ → List ℕ
pad vol = vol ++ replicate (sectors (length vol) * sector_size - length vol) 0

-- From `boot = bytearray(...)` on: the installable image, or the error.
unfoldable pub assemble : List ℕ → List ℕ → List ℕ → Option Stop × Option (List ℕ)
assemble vol nv boot =
    let v = sectors (length vol) in
    let s = sectors (length nv) in
    let last = last_count (length nv) in
    let (bad, patched) =
      patch_all boot ((kvol_cnt_offset, v) ∷ (knv_cnt_offset, s) ∷ (knv_last_offset, last) ∷ []) in
    if not (has_prefix b'K' b'R' b'N' boot)
    then (some no_krn_signature, none)
    else if not (length boot == krnboot_sectors * sector_size)
    then (some wrong_krnboot_size, none)
    else if not (leb 1 last && leb last sector_size)
    then (some bad_last_count, none)
    else elim bad [
      | some n ↦ (some (count_too_large n), none)
      | none ↦ (none, some (patched ++ (pad vol ++ nv)))
    ]

-- A run that ends before anything is written.
abbrev pub stopped : Stop → Outcome
stopped e = record { vol_out = none; nv_out = none; hex_out = none; full_out = none; stop = some e }

-- What `main` writes once the two images are cut.
unfoldable pub write_images : List ℕ → List ℕ → ℕ → List ℕ → Outcome
write_images vol nv nvk_base boot =
    let (e, full) = assemble vol nv boot in
    record {
      vol_out = some vol;
      nv_out = some nv;
      hex_out = some (intel_hex nv nvk_base 16);
      full_out = full;
      stop = e;
    }

-- `main`, for the values of NVK_BASE and NVK_TOP, the symbol `kvol_end` and the two input files.
unfoldable pub split_kernel : ℕ → ℕ → Option ℕ → List ℕ → List ℕ → Outcome
split_kernel nvk_base nvk_top none kernel boot = stopped no_marker
split_kernel nvk_base nvk_top (some vol_end) kernel boot =
    let vol = slice_to (sub_ℕ (vol_end + 1) link_base) kernel in
    let nv = slice_from (sub_ℕ nvk_base link_base) kernel in
    if leb nvk_base vol_end
    then stopped past_nvk_base
    else if ltb (nvk_top + 1) (link_base + length kernel)
    then stopped past_nvk_top
    else if not (has_prefix b'N' b'V' b'K' nv)
    then stopped no_nvk_signature
    else write_images vol nv nvk_base boot
