-- ===== src/Fat/Tests.antt =====
-- A small FAT12 volume through the model of tools/fat12-proto/fatx.py, and the theorems at concrete
-- inputs.
mod Disk
use elf_dos.Base.{
  ℕ, ◌+◌, ◌≤◌, ◌<◌, ◌≡◌, ◌≢◌, ◌↔◌, refl, Bool, true, false, some, none, List, [], ◌∷◌, arith,
  replicate, length, length-replicate, length-append, ◌++◌, All, ◌∙◌,
}
use elf_dos.Base.Int.{pos}
use elf_dos.Fat.Entry.{offset12, is_odd, unpack12, get12, pack_lo, pack_hi, set12, set16}
use elf_dos.Fat.Vol.{
  Vol, get, put, eoc, is_data, done, out_of_fuel, too_long, chain, wr, overwrite, clus_sec, link,
  read_data,
}
use elf_dos.Fat.Table.{Stored, put-Stored}
use elf_dos.Fat.Chain.{IsChain, chain_total, chain_iff}
use elf_dos.Fat.Contents.{IsHeld}
use elf_dos.Fat.Files.{read_data-link}
use elf_dos.Fat.Link.{link-IsChain}
use elf_dos.Fat.EndMark.{link-end_mark16}
use elf_dos.Fat.Bounds.{HasEntry, IsWord, entry_iff}

-- Four clusters of one sector each, in either format.
abbrev small : Bool → List ℕ → Vol
small fat12 fat = record {
  file = [];
  base = 0;
  spc = 1;
  rsvd = 1;
  nfats = 1;
  rootents = 16;
  spf = 1;
  rootsec = 2;
  data0 = 3;
  count = pos 4;
  fat12 = fat12;
  fat = fat;
}

abbrev empty_fat : List ℕ
empty_fat = 0xF0 ∷ 0xFF ∷ 0xFF ∷ replicate 9 0

-- The clusters 2 and 3, linked.
abbrev linked_fat : List ℕ
linked_fat = 0xF0 ∷ 0xFF ∷ 0xFF ∷ 0x03 ∷ 0xF0 ∷ 0xFF ∷ replicate 6 0

entries_read : (get12 linked_fat 2 ≡ some 3) × (get12 linked_fat 3 ≡ some 0xFFF)
unfolding get12 unpack12 is_odd
entries_read = (refl, refl)

chain_found : chain (small true linked_fat) 2 ≡ done (2 ∷ 3 ∷ [])
unfolding chain is_data get get12 unpack12 is_odd too_long
chain_found = refl

put_runs :
    put (small true empty_fat) 2 3
    ≡ some (small true (0xF0 ∷ 0xFF ∷ 0xFF ∷ 0x03 ∷ 0x00 ∷ replicate 7 0))
unfolding put set12 is_odd pack_lo pack_hi
put_runs = refl

put-Stored_example :
    Stored
      (small true empty_fat)
      2
      3
      (small true (0xF0 ∷ 0xFF ∷ 0xFF ∷ 0x03 ∷ 0x00 ∷ replicate 7 0))
put-Stored_example = put-Stored (small true empty_fat) 2 3 _ (omega arith) put_runs

chain_total_example : chain (small true linked_fat) 2 ≢ out_of_fuel
chain_total_example = chain_total (small true linked_fat) 2

chain_iff_example :
    (chain (small true linked_fat) 2 ≡ done (2 ∷ 3 ∷ []))
    ↔ (IsChain (small true linked_fat) 2 (2 ∷ 3 ∷ []) × (length {A = ℕ} (2 ∷ 3 ∷ []) ≤ 4 + 2))
chain_iff_example = chain_iff (small true linked_fat) 4 2 (2 ∷ 3 ∷ []) refl

entry_iff_example :
    (((n : ℕ) × (get (small true empty_fat) 7 ≡ some n)) ↔ HasEntry (small true empty_fat) 7)
    × (((v : Vol) × (put (small true empty_fat) 7 9 ≡ some v))
        ↔ (HasEntry (small true empty_fat) 7 × IsWord (small true empty_fat) 9))
entry_iff_example = entry_iff (small true empty_fat) 7 9

-- Twelve bytes hold eight entries of twelve bits.
last_entry : HasEntry (small true empty_fat) 7 × ¬ HasEntry (small true empty_fat) 8
last_entry = (omega arith, λ h. omega arith)

-- The volume behind the loop of `putroot` over the clusters 2 and 3.
abbrev after : Bool → List ℕ → List ℕ → Vol
after fat12 fat cs = elim (link (small fat12 fat) cs 0 (7 ∷ [])) [
  | none ↦ small fat12 []
  | some v ↦ v
]

link_runs :
    link (small true empty_fat) (2 ∷ 3 ∷ []) 0 (7 ∷ []) ≡ some (after true empty_fat (2 ∷ 3 ∷ []))
unfolding link put set12 is_odd pack_lo pack_hi wr overwrite clus_sec
link_runs = refl

link-IsChain_example : IsChain (after true empty_fat (2 ∷ 3 ∷ [])) 2 (2 ∷ 3 ∷ [])
link-IsChain_example =
    link-IsChain (small true empty_fat) 2 (3 ∷ []) 0 (7 ∷ []) (after true empty_fat (2 ∷ 3 ∷ []))
      refl (omega arith) (omega arith) (omega arith) link_runs

link16_runs :
    link (small false empty_fat) (2 ∷ 3 ∷ []) 0 (7 ∷ []) ≡ some (after false empty_fat (2 ∷ 3 ∷ []))
unfolding link put set16 wr overwrite clus_sec
link16_runs = refl

link-end_mark16_example :
    (chain (after false empty_fat (2 ∷ 3 ∷ [])) 2 ≡ done (2 ∷ 3 ∷ 4095 ∷ [])) ↔ (
      (ys : List ℕ) × ((2 ∷ 3 ∷ 4095 ∷ []) ≡ (2 ∷ 3 ∷ []) ++ 4095 ∷ ys)
      × IsChain (after false empty_fat (2 ∷ 3 ∷ [])) 4095 (4095 ∷ ys)
      × (length {A = ℕ} (2 ∷ 3 ∷ 4095 ∷ []) ≤ 4 + 2))
link-end_mark16_example =
    link-end_mark16 (small false empty_fat) 4 2 (3 ∷ []) 0 (7 ∷ [])
      (after false empty_fat (2 ∷ 3 ∷ [])) (2 ∷ 3 ∷ 4095 ∷ []) refl refl (omega arith) (omega arith)
      (omega arith) link16_runs

-- The same volume in a file of seven sectors.
abbrev on_disk : Vol
on_disk = record (small true empty_fat) { file = replicate 3584 0 }

-- A file of one cluster and a part of the next.
abbrev contents : List ℕ
contents = replicate 512 7 ++ (1 ∷ 2 ∷ 3 ∷ [])

abbrev after_disk : Vol
after_disk = elim (link on_disk (2 ∷ 3 ∷ []) 0 contents) [ none ↦ on_disk | some v ↦ v ]

disk_runs : link on_disk (2 ∷ 3 ∷ []) 0 contents ≡ some after_disk
unfolding link put set12 is_odd pack_lo pack_hi wr overwrite clus_sec
disk_runs = refl

clusters-IsHeld : All (IsHeld on_disk) (2 ∷ 3 ∷ [])
unfolding clus_sec
clusters-IsHeld =
    let size : length on_disk.file ≡ 3584 = length-replicate {A = ℕ} 3584 0 in
    (
      record { from_two = omega arith; held = omega (arith, size) },
      (record { from_two = omega arith; held = omega (arith, size) }, tt),
    )

read_data-link_example : read_data after_disk 2 (length contents) ≡ some contents
read_data-link_example =
    let size : length contents ≡ 515 =
      length-append {A = ℕ} (replicate 512 7) (1 ∷ 2 ∷ 3 ∷ [])
      ∙ omega (arith, length-replicate {A = ℕ} 512 7) in
    read_data-link on_disk 4 2 (3 ∷ []) contents after_disk refl refl (omega arith) (omega arith)
      (omega arith) clusters-IsHeld (omega arith) (omega (arith, size)) disk_runs
