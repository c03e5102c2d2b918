-- ===== src/Fat/Below.antt =====
-- The loop of `putroot` of tools/fat12-proto/fatx.py writes nothing before the clusters.
use elf_dos.Base.{
  ℕ, ◌+◌, ◌*◌, ◌≤◌, ◌≡◌, refl, ap, ◌∙◌, some, some-injective, subst, List, [], ◌∷◌, arith, length,
  take, drop, All,
}
use elf_dos.Fat.Entry.Laws.{AreBytes}
use elf_dos.Fat.Vol.{Vol, sec, wr, clus_sec, link}
use elf_dos.Fat.Link.{padded, Round, link-Round}
use elf_dos.Fat.Regions.{read-overwrite_before}
use elf_dos.Fat.Contents.{place, IsHeld, length-padded, round-IsLike, All-IsHeld}

pub data0-le-place : (v : Vol) (c : ℕ) → v.base + v.data0 * sec ≤ place v c
unfolding clus_sec
data0-le-place v c = omega arith

-- What lies before the clusters, the size of the table and its bytes.
pub record Keeps (v w : Vol) : Type 0 where
  pub before :
      (p n : ℕ) → p + n ≤ v.base + v.data0 * sec → take n (drop p w.file) ≡ take n (drop p v.file)
  pub fat_size : length w.fat ≡ length v.fat
  pub fat_bytes : AreBytes w.fat

Round-Keeps :
    (v : Vol) (c : ℕ) (rest : List ℕ) (i : ℕ) (bytes : List ℕ) {v' : Vol}
    (r : Round v c rest i bytes v')
    → IsHeld v c
    → Keeps v r.mid
unfolding wr
Round-Keeps v c rest i bytes r h =
    let len = length-padded v i bytes in
    record {
      before = λ p n le.
          ap (λ (x : Vol). take n (drop p x.file)) r.wrote
          ∙ read-overwrite_before v.file (place v c) (padded v i bytes) (omega (arith, len, h.held))
              p n (omega (arith, le, data0-le-place v c));
      fat_size = r.fat_size;
      fat_bytes = r.keeps;
    }

-- The loop leaves all that lies before the clusters, and the table keeps its size.
pub link-Keeps :
    (v : Vol) (cs : List ℕ) (i : ℕ) (bytes : List ℕ) (v' : Vol)
    → AreBytes v.fat
    → All (IsHeld v) cs
    → link v cs i bytes ≡ some v'
    → Keeps v v'
link-Keeps v [] i bytes v' ok held h =
    let same : v ≡ v' = unfold link in some-injective _ _ h in
    subst (λ x. Keeps v x) same
      (record { before = λ p n le. refl; fat_size = refl; fat_bytes = ok })
link-Keeps v (c ∷ rest) i bytes v' ok held h =
    let r = link-Round v c rest i bytes ok h in
    let l = round-IsLike v c rest i bytes r held.0 in
    let a = Round-Keeps v c rest i bytes r held.0 in
    let b =
      link-Keeps r.mid rest (i + 1) bytes v' r.keeps (All-IsHeld v r.mid rest l held.1) r.onward in
    record {
      before = λ p n le. b.before p n (rw (l.base, l.data0) le) ∙ a.before p n le;
      fat_size = b.fat_size ∙ a.fat_size;
      fat_bytes = b.fat_bytes;
    }
