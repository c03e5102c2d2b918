-- ===== src/Image/Split/Guards.antt =====
-- When tools/split_kernel.py succeeds, and how the two images lie in the linked kernel.
use elf_dos.Base.{
  ℕ, ◌+◌, ◌-◌, ◌*◌, ◌≤◌, ◌<◌, ◌≡◌, ◌≢◌, ◌↔◌, refl, sym, ap, ◌∙◌, true, none, some, List, [], ◌∷◌,
  ◌++◌, arith, length, take, drop, slice, take-append-drop, slice-append-drop, length-take,
  length-drop,
}
use elf_dos.Base.Int.{sub_ℕ}
use elf_dos.Image.Split.{
  sector_size, krnboot_sectors, link_base, sectors, bad_last_count, has_prefix, patch_all, assemble,
  slice_to, slice_from, write_images, split_kernel, Outcome,
}
use elf_dos.Image.Split.Layout.{last_count_bounds}

pub has_prefix-pos : (a b c : ℕ) (xs : List ℕ) → has_prefix a b c xs ≡ true → 0 < length xs
unfolding has_prefix
has_prefix-pos a b c [] h = absurd (cc)
has_prefix-pos a b c (x ∷ xs) h = omega arith

-- The assertion on the last sector's count never fails: with a non-volatile image that is not
-- empty, the tool does not stop there, whatever the other inputs are.
pub assemble-ne-bad_last_count :
    (vol nv boot : List ℕ) → 0 < length nv → (assemble vol nv boot).0 ≢ some bad_last_count
unfolding assemble patch_all
assemble-ne-bad_last_count vol nv boot h = ground (arith, last_count_bounds (length nv) h)

-- The conditions on the images and on krnboot.
pub record CanAssemble (vol nv boot : List ℕ) : Type 0 where
  pub krn : has_prefix b'K' b'R' b'N' boot ≡ true
  pub size : length boot ≡ krnboot_sectors * sector_size
  pub vol_fits : sectors (length vol) ≤ 0xFFFF
  pub nv_fits : sectors (length nv) ≤ 0xFFFF

assemble-CanAssemble :
    (vol nv boot : List ℕ)
    → 0 < length nv
    → ((assemble vol nv boot).0 ≡ none) ↔ CanAssemble vol nv boot
unfolding assemble patch_all
assemble-CanAssemble vol nv boot h = (
  (λ e. record {
    krn = ground arith;
    size = ground arith;
    vol_fits = ground arith;
    nv_fits = ground arith;
  }),
  λ c. ground (arith, last_count_bounds (length nv) h, c.krn, c.size, c.vol_fits, c.nv_fits),
)

abbrev vol_of : ℕ → List ℕ → List ℕ
vol_of vol_end kernel = slice_to (sub_ℕ (vol_end + 1) link_base) kernel

abbrev nv_of : ℕ → List ℕ → List ℕ
nv_of nvk_base kernel = slice_from (sub_ℕ nvk_base link_base) kernel

pub record CanSplit (nvk_base nvk_top vol_end : ℕ) (kernel boot : List ℕ) : Type 0 where
  pub below_base : vol_end < nvk_base
  pub below_top : link_base + length kernel ≤ nvk_top + 1
  pub nvk : has_prefix b'N' b'V' b'K' (nv_of nvk_base kernel) ≡ true
  pub images : CanAssemble (vol_of vol_end kernel) (nv_of nvk_base kernel) boot

-- The run succeeds exactly when the two regions do not meet, the image ends below the ceiling,
-- both signatures are there, krnboot has its size and both sector counts fit 16 bits.
pub split_kernel-CanSplit :
    (nvk_base nvk_top vol_end : ℕ) (kernel boot : List ℕ)
    → ((split_kernel nvk_base nvk_top (some vol_end) kernel boot).stop ≡ none)
      ↔ CanSplit nvk_base nvk_top vol_end kernel boot
unfolding split_kernel write_images
split_kernel-CanSplit nvk_base nvk_top vol_end kernel boot = (there, back)
  where
    there :
        (split_kernel nvk_base nvk_top (some vol_end) kernel boot).stop ≡ none
        → CanSplit nvk_base nvk_top vol_end kernel boot
    there e =
        let sig : has_prefix b'N' b'V' b'K' (nv_of nvk_base kernel) ≡ true = ground arith in
        record {
          below_base = ground arith;
          below_top = ground arith;
          nvk = sig;
          images = (assemble-CanAssemble _ _ boot (has_prefix-pos _ _ _ _ sig)).0 (ground arith);
        }

    back :
        CanSplit nvk_base nvk_top vol_end kernel boot
        → (split_kernel nvk_base nvk_top (some vol_end) kernel boot).stop ≡ none
    back c =
        let ok =
          (assemble-CanAssemble (vol_of vol_end kernel) (nv_of nvk_base kernel) boot
              (has_prefix-pos _ _ _ _ c.nvk)).1
            c.images in
        ground (arith, ok, c.below_base, c.below_top, c.nvk)

vol_of_lem :
    (vol_end : ℕ) (kernel : List ℕ)
    → link_base ≤ vol_end
    → vol_of vol_end kernel ≡ take (vol_end + 1 - link_base) kernel
unfolding slice_to
vol_of_lem vol_end kernel h = ground arith

nv_of_lem :
    (nvk_base : ℕ) (kernel : List ℕ)
    → link_base ≤ nvk_base
    → nv_of nvk_base kernel ≡ drop (nvk_base - link_base) kernel
unfolding slice_from
nv_of_lem nvk_base kernel h = ground arith

vol_written :
    (vol nv : List ℕ) (nvk_base : ℕ) (boot : List ℕ)
    → (write_images vol nv nvk_base boot).vol_out ≡ some vol
unfolding write_images
vol_written vol nv nvk_base boot = refl

pub nv_written :
    (vol nv : List ℕ) (nvk_base : ℕ) (boot : List ℕ)
    → (write_images vol nv nvk_base boot).nv_out ≡ some nv
unfolding write_images
nv_written vol nv nvk_base boot = refl

-- The three parts of the linked kernel.
pub record Parts (nvk_base nvk_top vol_end : ℕ) (kernel : List ℕ) (out : Outcome) : Type 0 where
  pub vol : List ℕ
  pub gap : List ℕ
  pub nv : List ℕ
  pub wrote_vol : out.vol_out ≡ some vol
  pub wrote_nv : out.nv_out ≡ some nv
  pub whole : kernel ≡ vol ++ (gap ++ nv)
  pub vol_ends : link_base + length vol ≡ vol_end + 1
  pub gap_ends : length gap + vol_end + 1 ≡ nvk_base
  pub nv_ends : nvk_base + length nv ≤ nvk_top + 1

pub written_by :
    (nvk_base nvk_top vol_end : ℕ) (kernel boot : List ℕ)
    → CanSplit nvk_base nvk_top vol_end kernel boot
    → split_kernel nvk_base nvk_top (some vol_end) kernel boot
      ≡ write_images (vol_of vol_end kernel) (nv_of nvk_base kernel) nvk_base boot
unfolding split_kernel
written_by nvk_base nvk_top vol_end kernel boot c = ground (arith, c.below_base, c.below_top, c.nvk)

-- On success, for a volatile region that is not empty, the linked kernel is the volatile image,
-- a gap that goes to neither file, and the non-volatile image, which lies at NVK_BASE and ends
-- at or below NVK_TOP.
pub split_kernel-Parts :
    (nvk_base nvk_top vol_end : ℕ) (kernel boot : List ℕ)
    → link_base ≤ vol_end
    → (split_kernel nvk_base nvk_top (some vol_end) kernel boot).stop ≡ none
    → Parts nvk_base nvk_top vol_end kernel
        (split_kernel nvk_base nvk_top (some vol_end) kernel boot)
split_kernel-Parts nvk_base nvk_top vol_end kernel boot h e =
    let c = (split_kernel-CanSplit nvk_base nvk_top vol_end kernel boot).0 e in
    let w = written_by nvk_base nvk_top vol_end kernel boot c in
    let cut : ℕ = vol_end + 1 - link_base in
    let from : ℕ = nvk_base - link_base in
    let low : link_base ≤ nvk_base = omega (arith, c.below_base) in
    let nv_eq = nv_of_lem nvk_base kernel low in
    let pos : 0 < length (drop from kernel) = rw (← nv_eq) (has_prefix-pos _ _ _ _ c.nvk) in
    let room : from < length kernel = omega (arith, length-drop from kernel) in
    let mid : cut ≤ from = omega (arith, c.below_base) in
    record {
      vol = take cut kernel;
      gap = slice cut (cut + (from - cut)) kernel;
      nv = drop (cut + (from - cut)) kernel;
      wrote_vol =
          ap (λ (o : Outcome). o.vol_out) w
          ∙ vol_written _ _ nvk_base boot
          ∙ ap some (vol_of_lem vol_end kernel h);
      wrote_nv =
          ap (λ (o : Outcome). o.nv_out) w
          ∙ nv_written _ _ nvk_base boot
          ∙ ap some (
              nv_eq
              ∙ ap (λ (k : ℕ). drop k kernel) {x = from} {y = cut + (from - cut)} (omega arith));
      whole = sym (
          ap (λ t. take cut kernel ++ t) (slice-append-drop cut (from - cut) kernel)
          ∙ take-append-drop cut kernel);
      vol_ends = omega (arith, length-take cut kernel);
      gap_ends = omega (
        arith,
        c.below_base,
        length-take (cut + (from - cut) - cut) (drop cut kernel),
        length-drop cut kernel,
      );
      nv_ends = omega (arith, c.below_top, length-drop (cut + (from - cut)) kernel);
    }
