-- ===== src/Fat/PutRoot/Done.antt =====
-- What `putroot` of tools/fat12-proto/fatx.py has done to the volume where it ends well.
use elf_dos.Base.{
  subst, ℕ, ◌+◌, ◌-◌, ◌*◌, ◌/◌, ◌≤◌, ◌<◌, ◌≡◌, sym, ap, ◌∙◌, true, inr, some, List, ◌∷◌, arith,
  length, take, drop, All, All-take,
}
use native.Mathlib.Nat.{add-mul, mul-le-mul_right}
use elf_dos.Base.Int.{pos, pos_part, ltb_ℤ}
use elf_dos.Fat.Entry.Laws.{AreBytes}
use elf_dos.Fat.Vol.{read_at, Vol, sec, rd, get, clus_sec, free_from, link, flush, mount}
use elf_dos.Fat.Mount.{IsLaidOut, mount-IsLaidOut, fat-size}
use elf_dos.Fat.Contents.{place, cluster, IsLike, IsHeld, link-IsLike}
use elf_dos.Fat.Below.{data0-le-place, Keeps, link-Keeps}
use elf_dos.Fat.Free.{
  AreWithin, free_from-AreWithin, free_from-IsFree, take-AreWithin, All-AreWithin,
}
use elf_dos.Fat.Flush.{FitsTables, Flushed, flush-Flushed}
use elf_dos.Fat.Dir.{root_sectors, slots_at, dotted}
use elf_dos.Fat.PutRoot.{putroot}
use elf_dos.Fat.PutRoot.Slot.{IsShort}
use elf_dos.Fat.PutRoot.Built.{Reads, dir_entry-Reads}
use elf_dos.Fat.PutRoot.Place.{Placed}
use elf_dos.Fat.PutRoot.Sectors.{Entered, put_entry-Entered, rd-same, slots_at-same}
use elf_dos.Fat.PutRoot.Steps.{Steps, putroot-Steps, split-dotted}

cluster-same :
    (v w : Vol) (c : ℕ)
    → w ≡ record v { file = w.file }
    → take (v.spc * sec) (drop (place v c) w.file) ≡ take (v.spc * sec) (drop (place v c) v.file)
    → cluster w c ≡ cluster v c
unfolding rd read_at clus_sec
cluster-same v w c e h = ap (λ (x : Vol). cluster x c) e ∙ h

-- What `putroot` has done to `v`: the clusters that it took were free and are linked, with the data in
-- them; the entry stands in the first free slot of the root directory; and only the file differs from
-- the volume behind the loop over the clusters, outside of them.
pub record Done (v : Vol) (n : ℕ) (base ext bytes free : List ℕ) (v' : Vol) : Type 0 where
  pub few : n < 4085
  pub within : AreWithin 2 n free
  pub was_free : All (λ c. get v c ≡ some 0) free
  pub all_held : All (IsHeld v) free
  pub first : ℕ
  pub rest : List ℕ
  pub parts : free ≡ first ∷ rest
  pub mid : Vol
  pub linked : link v free 0 bytes ≡ some mid
  pub like : IsLike v mid
  pub only_file : v' ≡ record mid { file = v'.file }
  pub clusters : (c : ℕ) → cluster v' c ≡ cluster mid c
  pub e : List ℕ
  pub reads : Reads e (dotted base ext) first (length bytes)
  pub placed :
      Placed e (slots_at v (root_sectors v) v.rootsec) (slots_at v' (root_sectors v') v'.rootsec)

-- A FAT12 volume with `n` clusters, all of them inside of the file.
module _ (v : Vol) (n : ℕ) (laid : IsLaidOut v) (count : v.count ≡ pos n) (kind : v.fat12 ≡ true)
    (copies : 1 ≤ v.nfats) (size : v.base + (v.data0 + n * v.spc) * sec ≤ length v.file) where
  pub few : n < 4085
  few =
      let t : ltb_ℤ (pos n) (pos 4085) ≡ true =
        sym (ap (λ c. ltb_ℤ c (pos 4085)) count) ∙ sym laid.kind ∙ kind in
      ground (arith, t)

  pub held : (c : ℕ) → 2 ≤ c → c < 2 + n → IsHeld v c
  unfolding clus_sec
  held c lo hi = record {
    from_two = lo;
    held =
        let m : (c - 2 + 1) * v.spc ≤ n * v.spc = mul-le-mul_right v.spc (omega arith) in
        omega (arith, size, m, add-mul (c - 2) 1 v.spc);
  }

  pub fits-tables :
      (mid : Vol) → IsLike v mid → length mid.fat ≡ length v.fat → FitsTables mid mid.nfats
  fits-tables mid l e = record {
    full = e ∙ fat-size v laid copies (omega (arith, size)) ∙ ap (λ (k : ℕ). k * sec) (sym l.spf);
    held =
        rw (l.base, l.rsvd, l.nfats, l.spf, l.size)
          (omega (arith, size, laid.root_at, laid.clusters_at));
  }

  -- The root directory is where it was, and as it was.
  pub slots-kept :
      (mid w : Vol)
      → IsLike v mid
      → Keeps v mid
      → Flushed mid 0 mid.nfats w
      → slots_at w (root_sectors v) v.rootsec ≡ slots_at v (root_sectors v) v.rootsec
  slots-kept mid w l k f = slots_at-same (root_sectors v) v.rootsec v w (λ t lo hi.
      rd-same v w t 1 (ap (λ (x : Vol). x.base) f.only_file ∙ l.base) (
        f.behind (v.base + t * sec) (1 * sec)
          (rw (l.base, l.rsvd, l.nfats, l.spf) (omega (arith, lo, laid.root_at)))
        ∙ k.before (v.base + t * sec) (1 * sec) (omega (arith, hi, laid.clusters_at))))

  -- What follows the loop leaves the clusters alone.
  clusters-kept :
      (mid w v' : Vol) (e : List ℕ)
      → IsLike v mid
      → Flushed mid 0 mid.nfats w
      → Entered w (root_sectors v) v.rootsec e v'
      → (c : ℕ) → cluster v' c ≡ cluster mid c
  clusters-kept mid w v' e l f i c =
      let low : mid.base + mid.data0 * sec ≤ place mid c = data0-le-place mid c in
      let tables : mid.rsvd + (0 + mid.nfats) * mid.spf ≡ v.rootsec =
        rw (l.rsvd, l.nfats, l.spf) (omega (arith, laid.root_at)) in
      let start : w.base ≡ mid.base = ap (λ (x : Vol). x.base) f.only_file in
      cluster-same mid v' c
        (i.only_file ∙ ap (λ (x : Vol). record x { file = v'.file }) f.only_file)
        (i.elsewhere (place mid c) (mid.spc * sec)
            (inr (omega (arith, low, start, l.data0, laid.clusters_at)))
          ∙ f.behind (place mid c) (mid.spc * sec)
              (omega (arith, low, tables, l.data0, laid.clusters_at)))

  -- The steps of `putroot` one after the other.
  module _ (base ext bytes free : List ℕ) (v' : Vol) (ok : AreBytes v.fat)
      (short : IsShort base ext) (st : Steps v (base, ext) bytes free v') where
    rising : AreWithin 2 n free
    rising =
        subst (λ t. AreWithin 2 n t) (sym st.taken)
          (take-AreWithin st.need 2 n st.all (
            free_from-AreWithin v n 2 st.all
              (ap (λ (k : ℕ). free_from v k 2) (sym (ap pos_part count)) ∙ st.listed)))

    All-IsHeld : All (IsHeld v) free
    All-IsHeld = All-AreWithin (IsHeld v) 2 n free held rising

    like : IsLike v st.mid
    like = link-IsLike v free 0 bytes st.mid ok All-IsHeld st.linked

    keeps : Keeps v st.mid
    keeps = link-Keeps v free 0 bytes st.mid ok All-IsHeld st.linked

    flushed : Flushed st.mid 0 st.mid.nfats (flush st.mid)
    flushed = flush-Flushed st.mid (fits-tables st.mid like keeps.fat_size)

    reads : Reads st.e (dotted base ext) st.first (length bytes)
    reads = dir_entry-Reads base ext st.first (length bytes) st.e short st.built

    in_file : (flush st.mid).base + (v.rootsec + root_sectors v) * sec ≤ length (flush st.mid).file
    in_file =
        let start : (flush st.mid).base ≡ st.mid.base =
          ap (λ (x : Vol). x.base) flushed.only_file in
        omega (arith, start, like.base, flushed.size, like.size, size, laid.clusters_at)

    entered : Entered (flush st.mid) (root_sectors v) v.rootsec st.e v'
    entered =
        put_entry-Entered (flush st.mid) (root_sectors v) v.rootsec st.e v' reads.whole in_file
          st.entered

    only_file : v' ≡ record st.mid { file = v'.file }
    only_file = entered.only_file ∙ ap (λ (x : Vol). record x { file = v'.file }) flushed.only_file

    same_root : slots_at v' (root_sectors v') v'.rootsec ≡ slots_at v' (root_sectors v) v.rootsec
    same_root =
        let r : v'.rootsec ≡ v.rootsec = ap (λ (x : Vol). x.rootsec) only_file ∙ like.rootsec in
        let m : v'.rootents ≡ v.rootents = ap (λ (x : Vol). x.rootents) only_file ∙ like.rootents in
        ap (λ (k : ℕ). slots_at v' ((k * 32 + 511) / 512) v'.rootsec) m
        ∙ ap (λ (k : ℕ). slots_at v' (root_sectors v) k) r

    listed_all : free_from v n 2 ≡ some st.all
    listed_all = ap (λ (k : ℕ). free_from v k 2) (sym (ap pos_part count)) ∙ st.listed

    steps-Done : Done v n base ext bytes free v'
    steps-Done = record {
      few = few;
      within = rising;
      was_free =
          subst (λ t. All (λ c. get v c ≡ some 0) t) (sym st.taken)
            (All-take (λ c. get v c ≡ some 0) st.need st.all
              (free_from-IsFree v n 2 st.all listed_all));
      all_held = All-IsHeld;
      first = st.first;
      rest = st.rest;
      parts = st.parts;
      mid = st.mid;
      linked = st.linked;
      like = like;
      only_file = only_file;
      clusters = clusters-kept st.mid (flush st.mid) v' st.e like flushed entered;
      e = st.e;
      reads = reads;
      placed =
          subst (λ t. Placed st.e t (slots_at v' (root_sectors v') v'.rootsec))
            (slots-kept st.mid (flush st.mid) like keeps flushed)
            (subst (λ t. Placed st.e (slots_at (flush st.mid) (root_sectors v) v.rootsec) t)
              (sym same_root) entered.placed);
    }

-- `putroot`, where it ends well, for a short name, on a FAT12 volume that `mount` has opened, with
-- all clusters in the file and one or more tables.
pub putroot-Done :
    (image : List ℕ) (lba : ℕ) (v : Vol) (n : ℕ) (base ext bytes free : List ℕ) (v' : Vol)
    → mount image lba ≡ some v
    → v.count ≡ pos n
    → v.fat12 ≡ true
    → 1 ≤ v.nfats
    → AreBytes v.fat
    → v.base + (v.data0 + n * v.spc) * sec ≤ length v.file
    → IsShort base ext
    → putroot v (dotted base ext) bytes ≡ some (free, v')
    → Done v n base ext bytes free v'
putroot-Done image lba v n base ext bytes free v' m count kind copies ok size short put =
    steps-Done v n (mount-IsLaidOut image lba v m) count kind copies size base ext bytes free v' ok
      short
      (subst (λ be. Steps v be bytes free v') (split-dotted base ext short)
        (putroot-Steps v (dotted base ext) bytes free v' put))
