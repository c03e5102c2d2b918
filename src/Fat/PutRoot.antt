-- ===== src/Fat/PutRoot.antt =====
-- `putroot` of tools/fat12-proto/fatx.py: the directory entry, and the whole method. `none` is an
-- exception.
pub mod Slot
pub mod Built
pub mod Place
pub mod Sectors
pub mod Scan
pub mod Steps
pub mod Reading
pub mod Done
pub mod RoundTrip
pub mod Others
pub mod Total
use elf_dos.Base.{
  ℕ, zero, suc, ◌+◌, ◌-◌, ◌*◌, ◌/◌, ◌%◌, ◌^◌, bit_or, Bool, true, false, ◌||◌, Option, none, some,
  List, [], ◌∷◌, ◌++◌, ltb, ◌==◌, if◌then◌else◌, ◌>>=◌, ◌>>◌, require, length, get_elem?, set, take,
  drop, replicate,
}
use elf_dos.Fat.Names.{is_lower, upper, ljust, encode, split}
use elf_dos.Fat.Vol.{Vol, rd, wr, put_data}
use elf_dos.Fat.Dir.{root_sectors}

-- `xs[i:j] = ys`, for i up to j.
unfoldable pub assign_slice : ℕ → ℕ → List ℕ → List ℕ → List ℕ
assign_slice i j ys xs = take i xs ++ (ys ++ drop j xs)

-- `base, ext = (name83.split('.') + [''])[:2]`
unfoldable pub base_ext : List (List ℕ) → List ℕ × List ℕ
base_ext [] = ([], [])
base_ext (base ∷ []) = (base, [])
base_ext (base ∷ ext ∷ _) = (base, ext)

unfoldable pub case_flags : List ℕ → List ℕ → ℕ
case_flags base ext = bit_or (if is_lower base then 0x08 else 0) (if is_lower ext then 0x10 else 0)

-- `struct.pack('<HHHI', 0, 0x5A21, first, size)`
unfoldable pub packed : ℕ → ℕ → Option (List ℕ)
packed first size = do
  require (ltb first (2 ^ 16))
  require (ltb size (2 ^ 32))
  some (
      0
      ∷ 0
      ∷ 0x21
      ∷ 0x5A
      ∷ (first % 2 ^ 8)
      ∷ (first / 2 ^ 8)
      ∷ (size % 2 ^ 8)
      ∷ (size / 2 ^ 8 % 2 ^ 8)
      ∷ (size / 2 ^ 16 % 2 ^ 8)
      ∷ (size / 2 ^ 24)
      ∷ [])

-- The directory entry `e`.
unfoldable pub dir_entry : List ℕ → List ℕ → ℕ → ℕ → Option (List ℕ)
dir_entry base ext first size = do
  b ← encode (ljust 8 (upper base))
  x ← encode (ljust 3 (upper ext))
  let e1 = assign_slice 0 8 b (replicate 32 0)
  let e2 = assign_slice 8 11 x e1
  let e3 = set (set e2 11 0x20) 12 (case_flags base ext)
  p ← packed first size
  some (assign_slice 22 32 p e3)

-- The offset of the first free slot of a sector, among `n` from `o` on.
unfoldable pub free_slot : ℕ → ℕ → List ℕ → Option (Option ℕ)
free_slot zero o b = some none
free_slot (suc n) o b = elim (get_elem? b o) [
  | none ↦ none
  | some k ↦ elim (k == 0 || k == 0xE5) [ true ↦ some (some o) | false ↦ free_slot n (o + 32) b ]
]

-- The loop over `n` sectors of the root directory from `s` on; at its end the error is 'root full'.
unfoldable pub put_entry : ℕ → ℕ → List ℕ → Vol → Option Vol
put_entry zero s e v = none
put_entry (suc n) s e v = elim (free_slot 16 0 (rd v s 1)) [
  | none ↦ none
  | some none ↦ put_entry n (s + 1) e v
  | some (some o) ↦ some (wr v s (assign_slice o (o + 32) e (rd v s 1)))
]

-- `free[0]`
abbrev pub first_of : List ℕ → Option ℕ
first_of [] = none
first_of (c ∷ cs) = some c

-- `putroot`: the clusters that it returns, and the volume. (Without a free slot no entry is built;
-- the run ends in an exception in either case.)
unfoldable pub putroot : Vol → List ℕ → List ℕ → Option (List ℕ × Vol)
putroot v name83 bytes = do
  let be = base_ext (split b'.' name83)
  p ← put_data v bytes
  first ← first_of p.0
  e ← dir_entry be.0 be.1 first (length bytes)
  v' ← put_entry (root_sectors v) v.rootsec e p.1
  some (p.0, v')
