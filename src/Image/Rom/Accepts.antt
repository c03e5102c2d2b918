-- ===== src/Image/Rom/Accepts.antt =====
-- tools/rom_info.py on the image that tools/split_kernel.py writes.
use elf_dos.Base.{
  ℕ, ◌+◌, ◌-◌, ◌≤◌, ◌<◌, ◌≡◌, refl, sym, ap, ◌∙◌, true, false, zero, suc, get_elem?-some, none,
  some, some-injective, List, arith, length, ◌==◌, ltb, take,
}
use elf_dos.Image.Split.{link_base, sectors, has_prefix, split_kernel, Outcome}
use elf_dos.Image.Split.Guards.{
  split_kernel-CanSplit, split_kernel-Parts, written_by, nv_written, has_prefix-pos,
}
use elf_dos.Image.Rom.{Report, reported, version_byte, rom_info}

-- What the report says of an image of `n` bytes between the two addresses.
pub record Describes (nvk_base nvk_top n : ℕ) (r : Report) : Type 0 where
  pub burn_at : r.burn_at ≡ nvk_base
  pub occupies : r.ends + 1 ≡ nvk_base + n
  pub size : r.size ≡ n
  pub whole_sectors : r.whole_sectors ≡ sectors n
  pub below_top : r.ends + r.headroom ≡ nvk_top

version_byte-some :
    (sig_len : ℕ) (rom : List ℕ)
    → 0 < length rom
    → sig_len ≤ length rom
    → (v : ℕ) × (version_byte sig_len rom ≡ some v)
unfolding version_byte
version_byte-some zero rom h enough = get_elem?-some rom (length rom - 1) (omega arith)
version_byte-some (suc k) rom h enough =
    let n : (suc k == 0) ≡ false = ground arith in
    rw n (get_elem?-some rom (suc k - 1) (omega arith))

-- What the report is for an image that fits.
rom_info-Describes :
    (nvk_base nvk_top sig_len : ℕ) (rom : List ℕ)
    → has_prefix b'N' b'V' b'K' rom ≡ true
    → nvk_base + length rom ≤ nvk_top + 1
    → sig_len ≤ length rom
    → (r : Report) × (rom_info nvk_base nvk_top sig_len rom ≡ reported r)
      × Describes nvk_base nvk_top (length rom) r
unfolding rom_info
rom_info-Describes nvk_base nvk_top sig_len rom sig fits enough =
    let pos : 0 < length rom = has_prefix-pos _ _ _ _ sig in
    let (v, e) = version_byte-some sig_len rom pos enough in
    let under : ltb nvk_top (nvk_base + length rom - 1) ≡ false = ground arith in
    (
      record {
        burn_at = nvk_base;
        ends = nvk_base + length rom - 1;
        size = length rom;
        whole_sectors = sectors (length rom);
        headroom = nvk_top - (nvk_base + length rom - 1);
        signature = take 3 rom;
        version = v;
      },
      rw (sig, under, e) refl,
      record {
        burn_at = refl;
        occupies = omega arith;
        size = refl;
        whole_sectors = refl;
        below_top = omega arith;
      },
    )

-- The non-volatile image of a successful split, for a volatile region that is not empty, is a ROM image that the
-- report accepts with the same equates, if the signature's length is within it: it is to be burned
-- at NVK_BASE, and the range, the sectors and the headroom are those of the image.
pub rom_info-split_kernel :
    (nvk_base nvk_top vol_end sig_len : ℕ) (kernel boot nv : List ℕ)
    → link_base ≤ vol_end
    → (split_kernel nvk_base nvk_top (some vol_end) kernel boot).stop ≡ none
    → (split_kernel nvk_base nvk_top (some vol_end) kernel boot).nv_out ≡ some nv
    → sig_len ≤ length nv
    → (r : Report) × (rom_info nvk_base nvk_top sig_len nv ≡ reported r)
      × Describes nvk_base nvk_top (length nv) r
rom_info-split_kernel nvk_base nvk_top vol_end sig_len kernel boot nv low ok wrote enough =
    let c = (split_kernel-CanSplit nvk_base nvk_top vol_end kernel boot).0 ok in
    let w = written_by nvk_base nvk_top vol_end kernel boot c in
    let p = split_kernel-Parts nvk_base nvk_top vol_end kernel boot low ok in
    let cut =
      some-injective _ _
        (sym (nv_written _ _ nvk_base boot) ∙ sym (ap (λ (o : Outcome). o.nv_out) w) ∙ wrote) in
    let same : p.nv ≡ nv = some-injective _ _ (sym p.wrote_nv ∙ wrote) in
    let sig : has_prefix b'N' b'V' b'K' nv ≡ true = rw (← cut) c.nvk in
    let fits : nvk_base + length nv ≤ nvk_top + 1 = rw (← same) p.nv_ends in
    rom_info-Describes nvk_base nvk_top sig_len nv sig fits enough
