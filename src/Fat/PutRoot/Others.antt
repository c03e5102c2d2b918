-- ===== src/Fat/PutRoot/Others.antt =====
-- What `putroot` of tools/fat12-proto/fatx.py leaves of the other files.
use elf_dos.Base.{
  subst, ℕ, ◌+◌, ◌*◌, ◌≤◌, ◌≡◌, ◌≢◌, leb, ltb, ◌&&◌, if◌then◌else◌, refl, sym, ap, ◌∙◌, true, false,
  inl, inr, some, List, [], ◌∷◌, ◌++◌, arith, length, take, All, Bool-cases,
}
use elf_dos.Base.Int.{pos}
use elf_dos.Base.Text.{text_eq, text_eq_iff}
use elf_dos.Fat.Names.{lower, split}
use elf_dos.Fat.Entry.Laws.{AreBytes}
use elf_dos.Fat.Chain.{IsChain, chain_iff}
use elf_dos.Fat.Vol.{Vol, sec, get, is_data, done, chain, read_clusters, mount}
use elf_dos.Fat.Contents.{cluster, link-cluster_other}
use elf_dos.Fat.Link.{Avoids, link-others}
use elf_dos.Fat.Dir.{Item, root_sectors, slots_at, scan, pick, find, readfile, dotted, nonempty}
use elf_dos.Fat.PutRoot.{putroot}
use elf_dos.Fat.PutRoot.Slot.{IsShort}
use elf_dos.Fat.PutRoot.Scan.{pick-scan_other, IsTidy, tidy-EndsClear}
use elf_dos.Fat.PutRoot.Done.{Done, putroot-Done}
use elf_dos.Fat.PutRoot.Reading.{chain-file, find-pick-some, readfile-chain}

-- A cluster that is not free is none of those that were.
Avoids-was_free :
    (v : Vol) (c : ℕ) (free : List ℕ)
    → All (λ x. get v x ≡ some 0) free
    → get v c ≢ some 0
    → Avoids c free
Avoids-was_free v c [] f h = tt
Avoids-was_free v c (x ∷ free) f h =
    (λ e. h (ap (λ y. get v y) (sym e) ∙ f.0), Avoids-was_free v c free f.1 h)

is_data_ge : (v : Vol) (c : ℕ) → is_data v c ≡ true → 2 ≤ c
unfolding is_data
is_data_ge v c h = ground arith

is_data-same : (v w : Vol) (c : ℕ) → w.fat12 ≡ v.fat12 → is_data w c ≡ is_data v c
unfolding is_data
is_data-same v w c e = ap (λ b. leb 2 c && ltb c (if b then 0xFF7 else 0xFFF7)) e

module _ (v : Vol) (n : ℕ) (base ext bytes free : List ℕ) (v' : Vol)
    (d : Done v n base ext bytes free v') (ok : AreBytes v.fat) where
  -- A chain without free clusters stays, with its data.
  IsChain-kept :
      (c : ℕ) (cs : List ℕ)
      → IsChain v c cs
      → All (λ x. get v x ≢ some 0) cs
      → IsChain d.mid c cs × (read_clusters v' cs ≡ read_clusters v cs)
  unfolding read_clusters
  IsChain-kept c [] i u = (is_data-same v d.mid c d.like.fat12 ∙ i, refl)
  IsChain-kept c (x ∷ xs) (same, e, m, g, i) u =
      let av = Avoids-was_free v x free d.was_free u.0 in
      let lo : 2 ≤ x = omega (arith, same, is_data_ge v c e) in
      let entry_kept : get d.mid x ≡ get v x =
        (link-others v free 0 bytes d.mid x ok av d.linked).0 in
      let data_kept : cluster d.mid x ≡ cluster v x =
        (link-cluster_other v free 0 bytes d.mid x ok d.all_held av lo d.linked).0 in
      let (j, r) = IsChain-kept m xs i u.1 in
      (
        (
          same,
          is_data-same v d.mid c d.like.fat12 ∙ e,
          m,
          ap (λ y. get d.mid y) same ∙ entry_kept ∙ ap (λ y. get v y) (sym same) ∙ g,
          j,
        ),
        ap (λ t. t ++ read_clusters v' xs) (d.clusters x ∙ data_kept)
            ∙ ap (λ t. cluster v x ++ t) r,
      )

  other_kept :
      (other : List ℕ) (x : Item) (cs : List ℕ)
      → v.count ≡ pos n
      → IsTidy (slots_at v (root_sectors v) v.rootsec)
      → nonempty (split b'/' other) ≡ other ∷ []
      → lower other ≢ lower (dotted base ext)
      → find v other ≡ some (some x)
      → chain v x.cluster ≡ done cs
      → All (λ c. get v c ≢ some 0) cs
      → readfile v' other ≡ readfile v other
  other_kept other x cs count tidy one ne found walk used =
      let p = d.placed in
      let picked = find-pick-some v other x one found in
      let differs : text_eq (lower d.reads.found.name) (lower other) ≡ false =
        elim (Bool-cases (text_eq (lower d.reads.found.name) (lower other))) [
          | inl t ↦ absurd (ne (sym ((text_eq_iff _ _).0 t) ∙ d.reads.named))
          | inr f ↦ f
        ] in
      let again =
        ap (λ t. pick other (scan t [])) p.now
        ∙ pick-scan_other d.e other p.old p.behind d.reads.found d.reads.shape d.reads.read differs
            p.free p.before [] x p.used
            (tidy-EndsClear p.before p.old p.behind (subst (λ t. IsTidy t) p.was tidy) p.free)
            (subst (λ t. pick other (scan t []) ≡ some (some x)) p.was picked) in
      let (i, l) = (chain_iff v n x.cluster cs count).0 walk in
      let (j, r) = IsChain-kept x.cluster cs i used in
      let walk' : chain v' x.cluster ≡ done cs =
        ap (λ w. chain w x.cluster) d.only_file
        ∙ chain-file d.mid v'.file n x.cluster cs (d.like.count ∙ count)
            ((chain_iff d.mid n x.cluster cs (d.like.count ∙ count)).1 (j, l)) in
      readfile-chain v' other x cs one again walk'
      ∙ ap (λ t. some (some (take x.size t))) r
      ∙ sym (readfile-chain v other x cs one picked walk)

-- On a FAT12 volume with `n` clusters that `mount` has opened, whose file holds all of them, with
-- bytes in its table and one or more copies of it, and with a root directory in which no part of a
-- long name stands right before a free slot: when `putroot` of a file with a name of at most 8 and
-- 3 plain characters ends well, whether the name was there or not and whether the data fits or not,
-- a file of the root directory that `find` found under a name that differs by more than case from
-- the new one, with a chain that has no free cluster, is read as before.
pub readfile-putroot_other :
    (image : List ℕ) (lba : ℕ) (v : Vol) (n : ℕ) (base ext bytes free : List ℕ) (v' : Vol)
    (other : List ℕ) (x : Item) (cs : List ℕ)
    → mount image lba ≡ some v
    → v.count ≡ pos n
    → v.fat12 ≡ true
    → 1 ≤ v.nfats
    → AreBytes v.fat
    → v.base + (v.data0 + n * v.spc) * sec ≤ length v.file
    → IsShort base ext
    → IsTidy (slots_at v (root_sectors v) v.rootsec)
    → putroot v (dotted base ext) bytes ≡ some (free, v')
    → nonempty (split b'/' other) ≡ other ∷ []
    → lower other ≢ lower (dotted base ext)
    → find v other ≡ some (some x)
    → chain v x.cluster ≡ done cs
    → All (λ c. get v c ≢ some 0) cs
    → readfile v' other ≡ readfile v other
readfile-putroot_other image lba v n base ext bytes free v' other x cs m count kind copies ok size
      short tidy put one ne found walk used =
    let d =
      putroot-Done image lba v n base ext bytes free v' m count kind copies ok size short put in
    other_kept v n base ext bytes free v' d ok other x cs count tidy one ne found walk used
