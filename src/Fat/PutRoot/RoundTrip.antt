-- ===== src/Fat/PutRoot/RoundTrip.antt =====
-- A file that `putroot` of tools/fat12-proto/fatx.py has written is found again by `readfile`.
use elf_dos.Base.{
  subst, ℕ, ◌+◌, ◌*◌, ◌≤◌, ◌<◌, ◌≡◌, ap, ◌∙◌, true, some, none, List, [], ◌∷◌, arith, length, All,
}
use elf_dos.Base.Int.{pos}
use elf_dos.Base.Text.{text_eq_iff}
use elf_dos.Fat.Entry.Laws.{AreBytes}
use elf_dos.Fat.Vol.{Vol, sec, read_data, link, mount}
use elf_dos.Fat.Contents.{IsHeld}
use elf_dos.Fat.Free.{AreWithin, AreWithin-AreDistinct, length-AreWithin, All-AreWithin}
use elf_dos.Fat.Files.{read_data-link}
use elf_dos.Fat.Dir.{root_sectors, slots_at, scan, pick, find, readfile, dotted}
use elf_dos.Fat.PutRoot.{putroot}
use elf_dos.Fat.PutRoot.Slot.{IsShort}
use elf_dos.Fat.PutRoot.Scan.{IsTidy, pick-scan, tidy-EndsClear}
use elf_dos.Fat.PutRoot.Steps.{path-dotted}
use elf_dos.Fat.PutRoot.Done.{Done, putroot-Done}
use elf_dos.Fat.PutRoot.Reading.{read_data-same, find-pick-none, readfile-pick}

module _ (v : Vol) (n : ℕ) (base ext bytes free : List ℕ) (v' : Vol)
    (d : Done v n base ext bytes free v') (count : v.count ≡ pos n) where
  -- The data is read back from the clusters.
  data_back :
      v.fat12 ≡ true
      → AreBytes v.fat
      → length bytes ≤ length free * (v.spc * sec)
      → read_data v' d.first (length bytes) ≡ some bytes
  data_back kind ok enough =
      let cs : List ℕ = d.first ∷ d.rest in
      let within = subst (λ t. AreWithin 2 n t) d.parts d.within in
      let named =
        All-AreWithin (λ c. (2 ≤ c) × (c < 0xFF7)) 2 n cs (λ c lo hi. (lo, omega (arith, d.few)))
          within in
      let limit : length cs ≤ n + 2 = omega (arith, length-AreWithin 2 n cs within) in
      read_data-same d.mid v' n d.first (length bytes) bytes (d.like.count ∙ count) d.only_file
        d.clusters
        (read_data-link v n d.first d.rest bytes d.mid count kind ok
          (AreWithin-AreDistinct 2 n cs within) named
          (subst (λ t. All (IsHeld v) t) d.parts d.all_held) limit
          (subst (λ t. length bytes ≤ length t * (v.spc * sec)) d.parts enough)
          (subst (λ t. link v t 0 bytes ≡ some d.mid) d.parts d.linked))

  -- The item is found.
  item_found :
      IsTidy (slots_at v (root_sectors v) v.rootsec)
      → pick (dotted base ext) (scan (slots_at v (root_sectors v) v.rootsec) []) ≡ some none
      → pick (dotted base ext) (scan (slots_at v' (root_sectors v') v'.rootsec) [])
        ≡ some (some d.reads.found)
  item_found tidy absent =
      let p = d.placed in
      let name : List ℕ = dotted base ext in
      ap (λ t. pick name (scan t [])) p.now
      ∙ pick-scan d.e name p.old p.behind d.reads.found d.reads.shape d.reads.read
          ((text_eq_iff _ _).1 d.reads.named) p.before [] p.used
          (tidy-EndsClear p.before p.old p.behind (subst (λ t. IsTidy t) p.was tidy) p.free)
          (subst (λ t. pick name (scan t []) ≡ some none) p.was absent)

  found_again :
      v.fat12 ≡ true
      → AreBytes v.fat
      → IsShort base ext
      → IsTidy (slots_at v (root_sectors v) v.rootsec)
      → find v (dotted base ext) ≡ some none
      → length bytes ≤ length free * (v.spc * sec)
      → readfile v' (dotted base ext) ≡ some (some bytes)
  found_again kind ok short tidy absent enough =
      let one = path-dotted base ext short in
      readfile-pick v' (dotted base ext) bytes d.reads.found one
        (item_found tidy (find-pick-none v (dotted base ext) one absent))
        (ap (λ (c : ℕ). read_data v' c d.reads.found.size) d.reads.at
          ∙ ap (λ (z : ℕ). read_data v' d.first z) d.reads.long
          ∙ data_back kind ok enough)

-- On a FAT12 volume with `n` clusters that `mount` has opened, whose file holds all of them, with
-- bytes in its table and one or more copies of it, with a root directory in which no part of a long
-- name stands right before a free slot, and in which `find` does not find the name: when `putroot`
-- of a file with a name of at most 8 and 3 plain characters ends well, and the clusters that it
-- took are enough for the data, `readfile` of that name returns exactly the data.
pub readfile-putroot :
    (image : List ℕ) (lba : ℕ) (v : Vol) (n : ℕ) (base ext bytes free : List ℕ) (v' : Vol)
    → mount image lba ≡ some v
    → v.count ≡ pos n
    → v.fat12 ≡ true
    → 1 ≤ v.nfats
    → AreBytes v.fat
    → v.base + (v.data0 + n * v.spc) * sec ≤ length v.file
    → IsShort base ext
    → IsTidy (slots_at v (root_sectors v) v.rootsec)
    → find v (dotted base ext) ≡ some none
    → putroot v (dotted base ext) bytes ≡ some (free, v')
    → length bytes ≤ length free * (v.spc * sec)
    → readfile v' (dotted base ext) ≡ some (some bytes)
readfile-putroot image lba v n base ext bytes free v' m count kind copies ok size short tidy absent
      put enough =
    let d =
      putroot-Done image lba v n base ext bytes free v' m count kind copies ok size short put in
    found_again v n base ext bytes free v' d count kind ok short tidy absent enough
