-- ===== src/Sim/Expected/Agrees.antt =====
-- The expectations of tools/fat12-proto/simb7.py and simswd.py against `Vol` of
-- tools/fat12-proto/fatx.py.
use elf_dos.Base.{
  Holds, Holds-bind_eq, ap, ◌∙◌, sym, refl, ℕ, ◌+◌, ◌-◌, ◌*◌, ◌/◌, ◌%◌, ◌<◌, ◌≤◌, ◌≡◌, ◌↔◌, Bool,
  true, false, not, Option, leb, some, List, ◌==◌, if◌then◌else◌, ◌>>=◌, ◌>>◌, require, get_elem?,
  arith,
}
use elf_dos.Base.Int.{pos, sub_ℕ, add_ℤ, ltb_ℤ, div_ℤ}
use elf_dos.Fat.Vol.{Vol, sec, read_at, le16, le32, mount}
use elf_dos.Sim.Expected.{data_start, max_cluster, expected_max, expected_fat16}

-- The fields of the boot sector that `mount` has read.
record Fields (b : List ℕ) (v : Vol) : Type 0 where
  tot16 : ℕ
  tot : ℕ
  spc_read : get_elem? b 13 ≡ some v.spc
  rsvd_read : le16 b 14 ≡ some v.rsvd
  nfats_read : get_elem? b 16 ≡ some v.nfats
  rootents_read : le16 b 17 ≡ some v.rootents
  spf_read : le16 b 22 ≡ some v.spf
  tot16_read : le16 b 19 ≡ some tot16
  tot_read : (if tot16 == 0 then le32 b 32 else some tot16) ≡ some tot
  some_sectors : not (v.spc == 0) ≡ true
  counted : v.count ≡ div_ℤ (sub_ℕ tot v.data0) v.spc
  start : v.data0 ≡ v.rsvd + v.nfats * v.spf + (v.rootents * 32 + 511) / 512
  kind : v.fat12 ≡ ltb_ℤ v.count (pos 4085)

require-Holds :
    {A : Type 0} (P : A → Type 0) (b : Bool) (o : Option A)
    → (b ≡ true → Holds P o)
    → Holds P (require b >> o)
require-Holds P true o h = h refl
require-Holds P false o h = tt

mount-Holds :
    (file : List ℕ) (lba : ℕ) → Holds (Fields (read_at file (lba * sec) 0 1)) (mount file lba)
unfolding mount
mount-Holds file lba =
    let b : List ℕ = read_at file (lba * sec) 0 1 in
    let F : Vol → Type 0 = Fields b in
    Holds-bind_eq F (get_elem? b 13) _ (λ spc e1. Holds-bind_eq F (le16 b 14) _ (λ rsvd e2.
      Holds-bind_eq F (get_elem? b 16) _ (λ nfats e3. Holds-bind_eq F (le16 b 17) _ (λ rootents e4.
        Holds-bind_eq F (le16 b 22) _ (λ spf e5. Holds-bind_eq F (le16 b 19) _ (λ small e6.
          Holds-bind_eq F (if small == 0 then le32 b 32 else some small) _ (λ tot e7.
            require-Holds F (not (spc == 0)) _ (λ e8. record {
              tot16 = small;
              tot = tot;
              spc_read = e1;
              rsvd_read = e2;
              nfats_read = e3;
              rootents_read = e4;
              spf_read = e5;
              tot16_read = e6;
              tot_read = e7;
              some_sectors = e8;
              counted = refl;
              start = omega arith;
              kind = refl;
            }))))))))

mount-Fields :
    (file : List ℕ) (lba : ℕ) (v : Vol)
    → mount file lba ≡ some v
    → Fields (read_at file (lba * sec) 0 1) v
mount-Fields file lba v e = rw e at (mount-Holds file lba)

add_one : (n : ℕ) → add_ℤ (pos n) (pos 1) ≡ pos (n + 1)
add_one n = let e : leb 0 (n + 1) ≡ true = ground arith in rw e (ap pos (omega arith))

-- For a boot sector that `mount` accepts, with `n` clusters, fewer than 65525, a table size that is
-- not 0 and a root directory of whole sectors: simb7.py expects the highest cluster n + 1, wherever
-- the partition starts, and for it simswd.py expects FAT12 exactly where `mount` finds FAT12.
pub expected-mount :
    (file : List ℕ) (lba part1 n : ℕ) (v : Vol)
    → mount file lba ≡ some v
    → v.count ≡ pos n
    → n < 65525
    → 1 ≤ v.spf
    → v.rootents % 16 ≡ 0
    → (expected_max (read_at file (lba * sec) 0 1) part1 ≡ some (some (pos (n + 1))))
      × ((expected_fat16 (n + 1) ≡ 0) ↔ (v.fat12 ≡ true))
unfolding expected_max expected_fat16 data_start max_cluster
expected-mount file lba part1 n v m count few spf roots =
    let b : List ℕ = read_at file (lba * sec) 0 1 in
    let f = mount-Fields file lba v m in
    let full : (v.spf == 0) ≡ false = ground arith in
    let from : part1 + v.rsvd + v.nfats * v.spf + v.rootents / 16 - part1 ≡ v.data0 =
      omega (arith, f.start, roots) in
    let counted : div_ℤ (sub_ℕ f.tot (part1 + v.rsvd + v.nfats * v.spf + v.rootents / 16 - part1))
          v.spc
        ≡ pos n =
      ap (λ (k : ℕ). div_ℤ (sub_ℕ f.tot k) v.spc) from ∙ sym f.counted ∙ count in
    let below : ltb_ℤ (pos n) (pos 65525) ≡ true = ground arith in
    let kind : v.fat12 ≡ ltb_ℤ (pos n) (pos 4085) = f.kind ∙ ap (λ c. ltb_ℤ c (pos 4085)) count in
    (
      rw
          (
            expected_max, f.spc_read, f.rsvd_read, f.nfats_read, f.rootents_read, f.tot16_read,
            f.spf_read, full, f.tot_read, f.some_sectors, ◌>>=◌, counted, max_cluster, below,
          )
          (ap (λ k. some (some k)) (add_one n)),
      ground (arith, kind),
    )
