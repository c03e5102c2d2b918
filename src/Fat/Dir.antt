-- ===== src/Fat/Dir.antt =====
-- `entries`, `find` and `readfile` of tools/fat12-proto/fatx.py. A directory's generator is the list
-- of what it yields, with how it ends. A text is the list of its code points.
use elf_dos.Base.{
  ℕ, zero, suc, ◌+◌, ◌*◌, ◌/◌, ◌^◌, bit_and, Bool, true, false, not, Option, none, some, List, [],
  ◌∷◌, ◌++◌, ◌==◌, if◌then◌else◌, ◌>>=◌, get_elem?, slice,
}
use elf_dos.Base.Text.{text_eq}
use elf_dos.Fat.Names.{is_empty, rstrip, lower, split, until_nul}
use elf_dos.Fat.Vol.{Vol, rd, le16, le32, done, chain, clus_sec, read_data}

-- What `entries` yields.
pub record Item : Type 0 where
  pub name : List ℕ
  pub attr : ℕ
  pub cluster : ℕ
  pub size : ℕ

-- The items in their order, and the end: a return or an exception.
pub data Listing : Type 0 where
  ended raised : Listing
  item : Item → Listing → Listing

-- A slot of 32 bytes: the end mark, a read past the slot's end, a slot that is skipped and forgets
-- the long name, a part of a long name, or an entry with its attribute.
pub data Slot : Type 0 where
  last broken skipped : Slot
  long : List ℕ → Slot
  entry : ℕ → Slot

-- `decode('utf-16le', 'replace')`, for characters of one unit.
unfoldable pub units : List ℕ → List ℕ
units (lo ∷ hi ∷ b) = (lo + hi * 2 ^ 8) ∷ units b
units (x ∷ []) = 0xFFFD ∷ []
units [] = []

unfoldable pub without : ℕ → List ℕ → List ℕ
without k [] = []
without k (c ∷ s) = let r = without k s in if c == k then r else c ∷ r

-- The part of a long name.
unfoldable pub long_part : List ℕ → List ℕ
long_part e = without 0xFFFF (until_nul (units (slice 1 11 e ++ (slice 14 26 e ++ slice 28 32 e))))

-- The tests on the bytes 0 and 11.
unfoldable pub slot_of : List ℕ → Slot
slot_of e = elim (get_elem? e 0) [
  | none ↦ broken
  | some k ↦ if k == 0 then last else if k == 0xE5 then skipped else elim (get_elem? e 11) [
    | none ↦ broken
    | some a ↦
        if a == 0x0F
        then long (long_part e)
        else if not (bit_and a 0x08 == 0)
        then skipped
        else entry a
  ]
]

abbrev pub lower_if : Bool → List ℕ → List ℕ
lower_if b s = if b then lower s else s

-- `short + ('.' + ext if ext else '')`
abbrev pub dotted : List ℕ → List ℕ → List ℕ
dotted short ext = if is_empty ext then short else short ++ b'.' ∷ ext

unfoldable pub short_name : List ℕ → ℕ → List ℕ
short_name e flags =
    dotted (lower_if (not (bit_and flags 0x08 == 0)) (rstrip (slice 0 8 e)))
      (lower_if (not (bit_and flags 0x10 == 0)) (rstrip (slice 8 11 e)))

unfoldable pub join_parts : List (List ℕ) → List ℕ
join_parts [] = []
join_parts (p ∷ ps) = p ++ join_parts ps

-- The item of an entry, after the parts of its long name.
unfoldable pub item_of : List ℕ → ℕ → List (List ℕ) → Option Item
item_of e attr lfn = do
  flags ← get_elem? e 12
  cluster ← le16 e 26
  size ← le32 e 28
  let joined = join_parts lfn
  some (record {
    name = if is_empty joined then short_name e flags else joined;
    attr = attr;
    cluster = cluster;
    size = size;
  })

unfoldable pub scan : List (List ℕ) → List (List ℕ) → Listing
scan [] lfn = ended
scan (e ∷ es) lfn = elim (slot_of e) [
  | last ↦ ended
  | broken ↦ raised
  | skipped ↦ scan es []
  | long part ↦ scan es (part ∷ lfn)
  | entry a ↦ elim (item_of e a lfn) [ none ↦ raised | some x ↦ item x (scan es []) ]
]

-- `b[o:o + 32]` for the `n` offsets from `o` on.
unfoldable pub slots_from : ℕ → ℕ → List ℕ → List (List ℕ)
slots_from zero o b = []
slots_from (suc n) o b = slice o (o + 32) b ∷ slots_from n (o + 32) b

-- The slots of `n` sectors from `s` on.
unfoldable pub slots_at : Vol → ℕ → ℕ → List (List ℕ)
slots_at v zero s = []
slots_at v (suc n) s = slots_from 16 0 (rd v s 1) ++ slots_at v n (s + 1)

unfoldable pub slots_of_clusters : Vol → List ℕ → List (List ℕ)
slots_of_clusters v [] = []
slots_of_clusters v (c ∷ cs) = slots_at v v.spc (clus_sec v c) ++ slots_of_clusters v cs

-- `(rootents * 32 + 511) // 512`
abbrev pub root_sectors : Vol → ℕ
root_sectors v = (v.rootents * 32 + 511) / 512

-- `entries(first)`
unfoldable pub entries : Vol → ℕ → Listing
entries v first =
    if first == 0
    then scan (slots_at v (root_sectors v) v.rootsec) []
    else elim (chain v first) [ done cs ↦ scan (slots_of_clusters v cs) [] | _ ↦ raised ]

-- The first item of that name, `some none` if there is none, `none` for an exception before it.
unfoldable pub pick : List ℕ → Listing → Option (Option Item)
pick part ended = some none
pick part raised = none
pick part (item x rest) = elim (text_eq (lower x.name) (lower part)) [
  | true ↦ some (some x)
  | false ↦ pick part rest
]

-- The loop of `find` over the parts of the path, from the directory `cl` and with the last item.
unfoldable pub find_from : Vol → List (List ℕ) → ℕ → Option Item → Option (Option Item)
find_from v [] cl ent = some ent
find_from v (part ∷ parts) cl ent = elim (pick part (entries v cl)) [
  | none ↦ none
  | some none ↦ some none
  | some (some x) ↦ find_from v parts x.cluster (some x)
]

-- `[p for p in ... if p]`
unfoldable pub nonempty : List (List ℕ) → List (List ℕ)
nonempty [] = []
nonempty (p ∷ ps) = let r = nonempty ps in if is_empty p then r else p ∷ r

unfoldable pub find : Vol → List ℕ → Option (Option Item)
find v path = find_from v (nonempty (split b'/' path)) 0 none

unfoldable pub readfile : Vol → List ℕ → Option (Option (List ℕ))
readfile v path = do
  ent ← find v path
  elim ent [ none ↦ some none | some x ↦ read_data v x.cluster x.size >>= (λ b. some (some b)) ]
