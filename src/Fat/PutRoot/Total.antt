-- ===== src/Fat/PutRoot/Total.antt =====
-- `putroot` of tools/fat12-proto/fatx.py ends well where there is a free cluster and a free slot.
use elf_dos.Base.{
  subst, sym, ap, ◌∙◌, ℕ, zero, suc, ◌+◌, ◌-◌, ◌*◌, ◌/◌, ◌^◌, ◌≤◌, ◌<◌, ◌≡◌, refl, true, false, not,
  ◌||◌, ◌⊎◌, Option, some, none, List, [], ◌∷◌, ◌++◌, arith, length, take, max, All, get_elem?-some,
  ltb, ◌==◌, Bool-cases, inl, inr, ◌>>=◌, length-take,
}
use elf_dos.Base.Int.{pos, pos_part}
use elf_dos.Fat.Entry.{offset12}
use elf_dos.Fat.Entry.Laws.{AreBytes}
use elf_dos.Fat.Vol.{Vol, sec, rd, wr, get, free_from, link, flush, put_data, mount}
use elf_dos.Fat.Mount.{IsLaidOut, mount-IsLaidOut}
use elf_dos.Fat.Contents.{IsLike, IsHeld, link-IsLike}
use elf_dos.Fat.Below.{Keeps, link-Keeps}
use elf_dos.Fat.Free.{AreWithin, free_from-AreWithin, take-AreWithin, All-AreWithin}
use elf_dos.Fat.Flush.{Flushed, flush-Flushed}
use elf_dos.Fat.Total.{free_from_total, link_total}
use elf_dos.Fat.Names.Laws.{encode-ljust}
use elf_dos.Fat.Dir.{root_sectors, slots_from, slots_at, dotted}
use elf_dos.Fat.PutRoot.{assign_slice, packed, dir_entry, free_slot, put_entry, first_of, putroot}
use elf_dos.Fat.PutRoot.Slot.{IsShort}
use elf_dos.Fat.PutRoot.Place.{Starts, free_slot-none}
use elf_dos.Fat.PutRoot.Sectors.{length-rd}
use elf_dos.Fat.PutRoot.Steps.{split-dotted}
use elf_dos.Fat.PutRoot.Done.{slots-kept, fits-tables, held, few}

-- One of the slots is free.
abbrev pub HasFree : List (List ℕ) → Type 0
HasFree [] = ⊥
HasFree (s ∷ ss) = Starts true s ⊎ HasFree ss

HasFree-append : (xs ys : List (List ℕ)) → HasFree (xs ++ ys) → HasFree xs ⊎ HasFree ys
HasFree-append [] ys h = inr h
HasFree-append (x ∷ xs) ys (inl a) = inl (inl a)
HasFree-append (x ∷ xs) ys (inr b) = elim (HasFree-append xs ys b) [
  | inl c ↦ inl (inr c)
  | inr c ↦ inr c
]

-- Slots that are all in use.
not_free : (xs : List (List ℕ)) → All (Starts false) xs → HasFree xs → ⊥
not_free [] u h = h
not_free (x ∷ xs) u (inl (k, g, t)) = (let (j, e, f) = u.0 in cc (g, t, e, f))
not_free (x ∷ xs) u (inr h) = not_free xs u.1 h

free_slot_total :
    (n o : ℕ) (b : List ℕ) → o + n * 32 ≤ length b → (r : Option ℕ) × (free_slot n o b ≡ some r)
unfolding free_slot
free_slot_total zero o b h = (none, refl)
free_slot_total (suc n) o b h =
    let (k, g) = get_elem?-some b o (omega arith) in
    let (r, f) = free_slot_total n (o + 32) b (omega arith) in
    elim (Bool-cases (k == 0 || k == 0xE5)) [
      | inl t ↦ (some o, rw (free_slot, g, t) refl)
      | inr t ↦ (r, rw (free_slot, g, t) f)
    ]

-- One sector, and what follows it.
put_sector :
    (v : Vol) (n s : ℕ) (e : List ℕ) (r : Option ℕ)
    → length (rd v s 1) ≡ 512
    → free_slot 16 0 (rd v s 1) ≡ some r
    → HasFree (slots_from 16 0 (rd v s 1)) ⊎ HasFree (slots_at v n (s + 1))
    → (HasFree (slots_at v n (s + 1)) → (w : Vol) × (put_entry n (s + 1) e v ≡ some w))
    → (w : Vol) × (put_entry (suc n) s e v ≡ some w)
unfolding put_entry
put_sector v n s e (some o) len f h later =
    (wr v s (assign_slice o (o + 32) e (rd v s 1)), rw (put_entry, f) refl)
put_sector v n s e none len f (inl h) later =
    absurd (not_free _ (free_slot-none 16 0 (rd v s 1) f) h)
put_sector v n s e none len f (inr h) later = let (w, g) = later h in (w, rw (put_entry, f) g)

-- The entry finds its place.
put_entry_total :
    (v : Vol) (n s : ℕ) (e : List ℕ)
    → v.base + (s + n) * sec ≤ length v.file
    → HasFree (slots_at v n s)
    → (w : Vol) × (put_entry n s e v ≡ some w)
unfolding put_entry slots_at
put_entry_total v zero s e fits h = absurd h
put_entry_total v (suc n) s e fits h =
    let len : length (rd v s 1) ≡ 512 = length-rd v s (omega arith) in
    let (r, f) = free_slot_total 16 0 (rd v s 1) (omega (arith, len)) in
    put_sector v n s e r len f
      (HasFree-append (slots_from 16 0 (rd v s 1)) (slots_at v n (s + 1)) h)
      (put_entry_total v n (s + 1) e (omega arith))

packed_total :
    (first size : ℕ) → first < 2 ^ 16 → size < 2 ^ 32 → (p : List ℕ) × (packed first size ≡ some p)
unfolding packed
packed_total first size a b =
    let x : ltb first (2 ^ 16) ≡ true = ground arith in
    let y : ltb size (2 ^ 32) ≡ true = ground arith in rw (x, y, ◌>>=◌) (_, refl)

dir_entry_total :
    (base ext : List ℕ) (first size : ℕ)
    → IsShort base ext
    → first < 2 ^ 16
    → size < 2 ^ 32
    → (e : List ℕ) × (dir_entry base ext first size ≡ some e)
unfolding dir_entry
dir_entry_total base ext first size s a b =
    let (p, g) = packed_total first size a b in
    rw (encode-ljust 8 base s.base_plain, encode-ljust 3 ext s.ext_plain, g) (_, refl)

first_of_total :
    (P : ℕ → Type 0) (cs : List ℕ)
    → All P cs
    → 1 ≤ length cs
    → (c : ℕ) × (first_of cs ≡ some c) × P c
first_of_total P [] a h = absurd (omega arith)
first_of_total P (c ∷ cs) a h = (c, refl, a.0)

put_data_total :
    (v : Vol) (bytes all : List ℕ) (mid : Vol)
    → 0 < v.spc
    → free_from v (pos_part v.count) 2 ≡ some all
    → link v (take (max 1 ((length bytes + v.spc * sec - 1) / (v.spc * sec))) all) 0 bytes
      ≡ some mid
    → put_data v bytes
      ≡ some (take (max 1 ((length bytes + v.spc * sec - 1) / (v.spc * sec))) all, flush mid)
unfolding put_data
put_data_total v bytes all mid some_sectors f l =
    let z : not (v.spc * sec == 0) ≡ true = ground arith in rw (put_data, z, f, l) refl

-- The loop over the clusters has left the free slots of the root directory where they were.
module _ (v : Vol) (n : ℕ) (laid : IsLaidOut v) (count : v.count ≡ pos n) (kind : v.fat12 ≡ true)
    (copies : 1 ≤ v.nfats) (size : v.base + (v.data0 + n * v.spc) * sec ≤ length v.file)
    (ok : AreBytes v.fat) (free bytes : List ℕ) (mid : Vol) (within : AreWithin 2 n free)
    (linked : link v free 0 bytes ≡ some mid) where
  All-IsHeld : All (IsHeld v) free
  All-IsHeld = All-AreWithin (IsHeld v) 2 n free (held v n laid count kind copies size) within

  like : IsLike v mid
  like = link-IsLike v free 0 bytes mid ok All-IsHeld linked

  keeps : Keeps v mid
  keeps = link-Keeps v free 0 bytes mid ok All-IsHeld linked

  flushed : Flushed mid 0 mid.nfats (flush mid)
  flushed = flush-Flushed mid (fits-tables v n laid count kind copies size mid like keeps.fat_size)

  entry_total :
      (e : List ℕ)
      → HasFree (slots_at v (root_sectors v) v.rootsec)
      → (w : Vol) × (put_entry (root_sectors v) v.rootsec e (flush mid) ≡ some w)
  entry_total e h =
      let start : (flush mid).base ≡ mid.base = ap (λ (x : Vol). x.base) flushed.only_file in
      put_entry_total (flush mid) (root_sectors v) v.rootsec e
        (omega (arith, start, like.base, flushed.size, like.size, size, laid.clusters_at))
        (subst (λ t. HasFree t)
          (sym (slots-kept v n laid count kind copies size mid (flush mid) like keeps flushed)) h)

-- On a FAT12 volume with `n` clusters that `mount` has opened, whose file holds all of them, with
-- bytes in its table and one or more copies of it, whose table has an entry for every cluster:
-- where some cluster is free and some slot of the root directory is free, `putroot` of fewer than 2
-- ^ 32 bytes under a name of at most 8 and 3 plain characters ends well.
pub putroot_total :
    (image : List ℕ) (lba : ℕ) (v : Vol) (n : ℕ) (base ext bytes : List ℕ) (c : ℕ)
    → mount image lba ≡ some v
    → v.count ≡ pos n
    → v.fat12 ≡ true
    → 1 ≤ v.nfats
    → AreBytes v.fat
    → v.base + (v.data0 + n * v.spc) * sec ≤ length v.file
    → offset12 (n + 1) + 1 < length v.fat
    → IsShort base ext
    → HasFree (slots_at v (root_sectors v) v.rootsec)
    → 2 ≤ c
    → c < 2 + n
    → get v c ≡ some 0
    → length bytes < 2 ^ 32
    → (free : List ℕ) × (v' : Vol) × (putroot v (dotted base ext) bytes ≡ some (free, v'))
unfolding putroot
putroot_total image lba v n base ext bytes c m count kind copies ok size covers short slot lo hi
      zeroed limit =
    let laid = mount-IsLaidOut image lba v m in
    let small = few v n laid count kind copies size in
    let need : ℕ = max 1 ((length bytes + v.spc * sec - 1) / (v.spc * sec)) in
    let (all, f, found) = free_from_total v n 2 (n + 1) kind covers (omega arith) in
    let within = take-AreWithin need 2 n all (free_from-AreWithin v n 2 all f) in
    let below = All-AreWithin (λ x. x ≤ n + 1) 2 n (take need all) (λ x _ h. omega arith) within in
    let (mid, l) = link_total v (take need all) 0 bytes (n + 1) kind ok covers below in
    let listed = ap (λ (k : ℕ). free_from v k 2) (ap pos_part count) ∙ f in
    let d = put_data_total v bytes all mid laid.some_sectors listed l in
    let (first, g, le) =
      first_of_total (λ x. x ≤ n + 1) (take need all) below
        (omega (arith, length-take need all, found c lo hi zeroed)) in
    let (e, b) =
      dir_entry_total base ext first (length bytes) short (omega (arith, le, small)) limit in
    let (w, p) =
      entry_total v n laid count kind copies size ok (take need all) bytes mid within l e slot in
    (take need all, w, rw (putroot, split-dotted base ext short, d, g, b, p) refl)
