-- ===== src/Fat/Mount.antt =====
-- The layout of a volume that `Vol.__init__` of tools/fat12-proto/fatx.py has opened.
use elf_dos.Base.{
  ℕ, zero, suc, ◌+◌, ◌*◌, ◌≤◌, ◌<◌, ◌≡◌, refl, ap, ◌∙◌, Bool, true, false, not, Option, some, List,
  arith, ◌==◌, if◌then◌else◌, ◌>>◌, require, length, get_elem?, length-append, drop, length-take,
  length-drop, Holds, Holds-bind,
}
use elf_dos.Base.Int.{pos, ltb_ℤ}
use native.Mathlib.Nat.{mul-le-mul_right}
use elf_dos.Fat.Vol.{Vol, sec, read_at, le16, le32, read_fat, mount}
use elf_dos.Fat.Dir.{root_sectors}

-- The table, the root directory and the clusters follow one another, clusters are not empty, and a
-- volume is FAT12 exactly when it has fewer than 4085 clusters.
pub record IsLaidOut (v : Vol) : Type 0 where
  pub some_sectors : 0 < v.spc
  pub root_at : v.rootsec ≡ v.rsvd + v.nfats * v.spf
  pub clusters_at : v.data0 ≡ v.rootsec + root_sectors v
  pub kind : v.fat12 ≡ ltb_ℤ v.count (pos 4085)
  pub table : v.fat ≡ read_fat v.spf v.file v.base v.rsvd

Holds-require :
    {A : Type 0} (P : A → Type 0) (b : Bool) (o : Option A)
    → (b ≡ true → Holds P o)
    → Holds P (require b >> o)
Holds-require P true o h = h refl
Holds-require P false o h = tt

mount-Holds : (file : List ℕ) (lba : ℕ) → Holds IsLaidOut (mount file lba)
unfolding mount
mount-Holds file lba =
    let b : List ℕ = read_at file (lba * sec) 0 1 in
    Holds-bind IsLaidOut (get_elem? b 13) _ (λ spc. Holds-bind IsLaidOut (le16 b 14) _ (λ rsvd.
      Holds-bind IsLaidOut (get_elem? b 16) _ (λ nfats.
        Holds-bind IsLaidOut (le16 b 17) _ (λ rootents. Holds-bind IsLaidOut (le16 b 22) _ (λ spf.
          Holds-bind IsLaidOut (le16 b 19) _ (λ small.
            Holds-bind IsLaidOut (if small == 0 then le32 b 32 else some small) _ (λ tot.
              Holds-require IsLaidOut (not (spc == 0)) _ (λ e. record {
                some_sectors = ground arith;
                root_at = refl;
                clusters_at = omega arith;
                kind = refl;
                table = refl;
              }))))))))

-- Every volume that `mount` returns is laid out as it should be: the tables, the root directory and
-- the clusters in this order, and FAT12 exactly with fewer than 4085 clusters.
pub mount-IsLaidOut : (file : List ℕ) (lba : ℕ) (v : Vol) → mount file lba ≡ some v → IsLaidOut v
mount-IsLaidOut file lba v e = rw e at (mount-Holds file lba)

length-read_fat :
    (n : ℕ) (file : List ℕ) (base s : ℕ)
    → base + (s + n) * sec ≤ length file
    → length (read_fat n file base s) ≡ n * sec
unfolding read_fat
length-read_fat zero file base s h = omega arith
length-read_fat (suc n) file base s h =
    length-append (read_at file base s 1) (read_fat n file base (s + 1))
    ∙ omega (arith, length-read_at, length-read_fat n file base (s + 1) (omega arith))
  where
    length-read_at : length (read_at file base s 1) ≡ sec
    length-read_at =
        unfold read_at in
        omega (
          arith,
          length-take (1 * sec) (drop (base + s * sec) file),
          length-drop (base + s * sec) file,
        )

-- The table in memory has its full size where the file reaches to the clusters.
pub fat-size :
    (v : Vol)
    → IsLaidOut v
    → 1 ≤ v.nfats
    → v.base + v.data0 * sec ≤ length v.file
    → length v.fat ≡ v.spf * sec
fat-size v l one h =
    let m : 1 * v.spf ≤ v.nfats * v.spf = mul-le-mul_right v.spf one in
    let fits : v.base + (v.rsvd + v.spf) * sec ≤ length v.file =
      omega (arith, h, m, l.root_at, l.clusters_at) in
    ap length l.table ∙ length-read_fat v.spf v.file v.base v.rsvd fits
