-- ===== src/Fat/Tests/Disk.antt =====
-- A disk image of seven sectors through the model of tools/fat12-proto/fatx.py.
use elf_dos.Base.{
  ap, take, drop, ◌<◌, inl, inr, ℕ, ◌+◌, ◌*◌, ◌≤◌, ◌≡◌, ◌≢◌, refl, Bool, true, false, ◌&&◌, some,
  none, List, [], ◌∷◌, ◌++◌, arith, replicate, length, length-replicate, ltb, All,
}
use elf_dos.Base.Text.{codes, text_eq}
use elf_dos.Base.Int.{pos}
use elf_dos.Fat.Entry.{is_odd, unpack12, get12, pack_lo, pack_hi, set12}
use elf_dos.Fat.Entry.Laws.{AreBytes}
use elf_dos.Fat.Names.{
  encode, encode_char, split, lower, is_space, lower_char, any_char, is_lower, is_lower_char,
  is_upper_char, upper_char, rstrip, split_from,
}
use elf_dos.Fat.Vol.{
  chain, done, is_data, too_long, Vol, mount, read_at, le16, le32, read_fat, rd, wr, overwrite,
  clus_sec, get, free_from, link, put, put_data, flush_from, flush,
}
use elf_dos.Fat.Synced.{flush-mount}
use elf_dos.Fat.Flush.{copy_at, FitsTables, Flushed, flush-Flushed}
use elf_dos.Fat.Dir.{
  Item, Slot, long, slot_of, slots_at, slots_from, root_sectors, dotted, short_name, item_of,
  join_parts, scan, entries, pick, find_from, find, nonempty, readfile,
}
use elf_dos.Fat.PutRoot.{
  assign_slice, base_ext, case_flags, packed, dir_entry, free_slot, put_entry, putroot,
}
use elf_dos.Fat.PutRoot.Slot.{IsShort}
use elf_dos.Fat.PutRoot.Scan.{IsTidy}
use elf_dos.Fat.PutRoot.RoundTrip.{readfile-putroot}
use elf_dos.Fat.PutRoot.Total.{HasFree, putroot_total}
use elf_dos.Fat.PutRoot.Others.{readfile-putroot_other}
use elf_dos.Fat.PutRoot.Sectors.{Entered, put_entry-Entered}
use elf_dos.Fat.PutRoot.Built.{Reads, dir_entry-Reads}

-- A boot sector, one table, a root directory with the file OLD.TXT of one cluster, and four clusters.
abbrev boot : List ℕ
boot = replicate 13 0 ++ ((1 ∷ 1 ∷ 0 ∷ 1 ∷ 16 ∷ 0 ∷ 7 ∷ 0 ∷ 0xF0 ∷ 1 ∷ 0 ∷ []) ++ replicate 488 0)

abbrev table : List ℕ
table = 0xF0 ∷ 0xFF ∷ 0xFF ∷ 0xFF ∷ 0x0F ∷ replicate 507 0

abbrev root : List ℕ
root = codes "OLD     TXT" ++ (0x20 ∷ (replicate 14 0 ++ (2 ∷ 0 ∷ 3 ∷ 0 ∷ 0 ∷ 0 ∷ replicate 480 0)))

abbrev disk : List ℕ
disk = boot ++ (table ++ (root ++ replicate 2048 0))

abbrev opened : Vol
opened = record {
  file = disk;
  base = 0;
  spc = 1;
  rsvd = 1;
  nfats = 1;
  rootents = 16;
  spf = 1;
  rootsec = 2;
  data0 = 3;
  count = pos 4;
  fat12 = true;
  fat = table;
}

mount_runs : mount disk 0 ≡ some opened
unfolding mount read_at le16 le32 read_fat
mount_runs = refl

-- The first copy is the only one.
only_copy :
    (j : ℕ)
    → j < opened.nfats
    → take (opened.spf * 512) (drop (copy_at opened j) opened.file)
      ≡ take (opened.spf * 512) (drop (copy_at opened 0) opened.file)
only_copy j h =
    ap (λ (k : ℕ). take (opened.spf * 512) (drop (copy_at opened k) opened.file)) {x = j} {y = 0}
      (omega arith)

flush-mount_example : flush opened ≡ opened
flush-mount_example =
    let size : length disk ≡ 3584 = refl in
    flush-mount disk 0 opened mount_runs (omega (arith, size)) only_copy

-- A file of two clusters.
abbrev text : List ℕ
text = replicate 513 b'x'

abbrev name : List ℕ
name = dotted (codes "new") (codes "Md")

abbrev written : Vol
written = elim (putroot opened name text) [ none ↦ opened | some (free, v) ↦ v ]

putroot_runs : putroot opened name text ≡ some (3 ∷ 4 ∷ [], written)
unfolding putroot base_ext split_from dir_entry encode encode_char assign_slice case_flags packed
    is_lower any_char is_lower_char is_upper_char upper_char free_slot put_entry put_data free_from
    link flush flush_from rd wr read_at overwrite clus_sec get put get12 set12 is_odd unpack12
    pack_lo pack_hi
putroot_runs = refl

not_there : find opened name ≡ some none
unfolding find find_from nonempty split_from entries scan slots_at slots_from slot_of item_of
    short_name join_parts pick rd read_at le16 le32 rstrip text_eq is_space lower_char is_upper_char
not_there = refl

all_bytes : List ℕ → Bool
all_bytes [] = true
all_bytes (b ∷ bs) = ltb b 256 && all_bytes bs

all_bytes-AreBytes : (bs : List ℕ) → all_bytes bs ≡ true → AreBytes bs
unfolding all_bytes
all_bytes-AreBytes [] h = tt
all_bytes-AreBytes (b ∷ bs) h = (ground (arith, h), all_bytes-AreBytes bs (ground (arith, h)))

is_short : Slot → Bool
is_short (long part) = false
is_short _ = true

all_short : List (List ℕ) → Bool
unfolding is_short
all_short [] = true
all_short (s ∷ ss) = is_short (slot_of s) && all_short ss

-- A directory without long names is tidy.
all_short-IsTidy : (ss : List (List ℕ)) → all_short ss ≡ true → IsTidy ss
unfolding all_short is_short
all_short-IsTidy [] h = tt
all_short-IsTidy (s ∷ []) h = tt
all_short-IsTidy (s ∷ t ∷ ss) h = (
  λ _ part e. let h1 = rw (all_short, e) at h in cc h1,
  all_short-IsTidy (t ∷ ss) (ground (arith, h)),
)

root-IsTidy : IsTidy (slots_at opened (root_sectors opened) opened.rootsec)
unfolding all_short is_short slot_of slots_at slots_from rd read_at
root-IsTidy = all_short-IsTidy (slots_at opened (root_sectors opened) opened.rootsec) refl

table-AreBytes : AreBytes table
unfolding all_bytes
table-AreBytes = all_bytes-AreBytes table refl

name-IsShort : IsShort (codes "new") (codes "Md")
name-IsShort = record {
  some_base = omega arith;
  base_fits = omega arith;
  ext_fits = omega arith;
  base_plain = omega arith;
  ext_plain = omega arith;
}

text_fits : length text ≤ length {A = ℕ} (3 ∷ 4 ∷ []) * (1 * 512)
text_fits = omega (arith, length-replicate {A = ℕ} 513 b'x')

disk_fits : 0 + (3 + 4 * 1) * 512 ≤ length disk
disk_fits = let size : length disk ≡ 3584 = refl in omega (arith, size)

readfile-putroot_example : readfile written name ≡ some (some text)
readfile-putroot_example =
    readfile-putroot disk 0 opened 4 (codes "new") (codes "Md") text (3 ∷ 4 ∷ []) written mount_runs
      refl refl (omega arith) table-AreBytes disk_fits name-IsShort root-IsTidy not_there
      putroot_runs text_fits

opened-FitsTables : FitsTables opened 1
opened-FitsTables = record {
  full = let size : length table ≡ 512 = refl in omega (arith, size);
  held = let size : length disk ≡ 3584 = refl in omega (arith, size);
}

flush-Flushed_example : Flushed opened 0 1 (flush opened)
flush-Flushed_example = flush-Flushed opened opened-FitsTables

abbrev old_item : Item
old_item = record { name = codes "OLD.TXT"; attr = 0x20; cluster = 2; size = 3 }

old_found : find opened (codes "old.txt") ≡ some (some old_item)
unfolding find find_from nonempty split_from entries scan slots_at slots_from slot_of item_of
    short_name join_parts pick rd read_at le16 le32 rstrip text_eq is_space lower_char is_upper_char
old_found = refl

old_path : nonempty (split b'/' (codes "old.txt")) ≡ codes "old.txt" ∷ []
unfolding nonempty split_from
old_path = refl

names_differ : lower (codes "old.txt") ≢ lower name
names_differ e = cc e

old_chain : chain opened 2 ≡ done (2 ∷ [])
unfolding chain is_data get get12 unpack12 is_odd too_long
old_chain = refl

old_used : All (λ c. get opened c ≢ some 0) (2 ∷ [])
unfolding get get12 unpack12 is_odd
old_used = (λ e. cc e, tt)

readfile-putroot_other_example :
    readfile written (codes "old.txt") ≡ readfile opened (codes "old.txt")
readfile-putroot_other_example =
    readfile-putroot_other disk 0 opened 4 (codes "new") (codes "Md") text (3 ∷ 4 ∷ []) written
      (codes "old.txt") old_item (2 ∷ []) mount_runs refl refl (omega arith) table-AreBytes
      disk_fits name-IsShort root-IsTidy putroot_runs old_path names_differ old_found old_chain
      old_used

-- The entry for the new file.
abbrev new_entry : List ℕ
new_entry = elim (dir_entry (codes "new") (codes "Md") 3 513) [ none ↦ [] | some e ↦ e ]

dir_entry_runs : dir_entry (codes "new") (codes "Md") 3 513 ≡ some new_entry
unfolding dir_entry encode encode_char assign_slice case_flags packed is_lower any_char
    is_lower_char is_upper_char upper_char
dir_entry_runs = refl

dir_entry-Reads_example : Reads new_entry name 3 513
dir_entry-Reads_example =
    dir_entry-Reads (codes "new") (codes "Md") 3 513 new_entry name-IsShort dir_entry_runs

abbrev entered : Vol
entered = elim (put_entry 1 2 new_entry opened) [ none ↦ opened | some v ↦ v ]

put_entry_runs : put_entry 1 2 new_entry opened ≡ some entered
unfolding dir_entry encode encode_char assign_slice case_flags packed is_lower any_char
    is_lower_char is_upper_char upper_char put_entry free_slot rd wr read_at overwrite
put_entry_runs = refl

put_entry-Entered_example : Entered opened 1 2 new_entry entered
put_entry-Entered_example =
    put_entry-Entered opened 1 2 new_entry entered
      (dir_entry-Reads (codes "new") (codes "Md") 3 513 new_entry name-IsShort dir_entry_runs).whole
      (let size : length disk ≡ 3584 = refl in omega (arith, size)) put_entry_runs

root-HasFree : HasFree (slots_at opened (root_sectors opened) opened.rootsec)
unfolding slots_at slots_from rd read_at
root-HasFree = inr (inl (0, refl, refl))

free_cluster : get opened 3 ≡ some 0
unfolding get get12 unpack12 is_odd
free_cluster = refl

putroot_total_example : (free : List ℕ) × (v' : Vol) × (putroot opened name text ≡ some (free, v'))
putroot_total_example =
    let size : length table ≡ 512 = refl in
    putroot_total disk 0 opened 4 (codes "new") (codes "Md") text 3 mount_runs refl refl
      (omega arith) table-AreBytes disk_fits (omega (arith, size)) name-IsShort root-HasFree
      (omega arith) (omega arith) free_cluster (omega (arith, length-replicate {A = ℕ} 513 b'x'))
