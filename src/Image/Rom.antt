-- ===== src/Image/Rom.antt =====
-- `main` of tools/rom_info.py, for the values of the three equates and the bytes of the ROM image.
-- What it prints is the record `Report`; the file's name is not modelled.
pub mod Accepts
use elf_dos.Base.{
  ℕ, ◌+◌, ◌-◌, not, Option, none, some, List, [], ◌∷◌, ltb, ◌==◌, if◌then◌else◌, length, get_elem?,
  take,
}
use elf_dos.Image.Split.{sectors, has_prefix}

pub record Report : Type 0 where
  pub burn_at : ℕ
  pub ends : ℕ
  pub size : ℕ
  pub whole_sectors : ℕ
  pub headroom : ℕ
  pub signature : List ℕ
  pub version : ℕ

-- The two errors of `main`, an IndexError, and the report.
pub data Rom : Type 0 where
  no_signature past_top index_error : Rom
  reported : Report → Rom

-- `rom[sig_len - 1]`, the last byte where `sig_len` is 0.
unfoldable pub version_byte : ℕ → List ℕ → Option ℕ
version_byte sig_len rom =
    if sig_len == 0 then get_elem? rom (length rom - 1) else get_elem? rom (sig_len - 1)

unfoldable pub rom_info : ℕ → ℕ → ℕ → List ℕ → Rom
unfolding version_byte
rom_info nvk_base nvk_top sig_len rom =
    let end_at : ℕ = nvk_base + length rom - 1 in
    if not (has_prefix b'N' b'V' b'K' rom)
    then no_signature
    else if ltb nvk_top end_at
    then past_top
    else elim (version_byte sig_len rom) [
      | none ↦ index_error
      | some v ↦ reported record {
        burn_at = nvk_base;
        ends = end_at;
        size = length rom;
        whole_sectors = sectors (length rom);
        headroom = nvk_top - end_at;
        signature = take 3 rom;
        version = v;
      }
    ]
