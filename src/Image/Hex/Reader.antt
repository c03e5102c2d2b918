-- ===== src/Image/Hex/Reader.antt =====
-- A reader of Intel HEX, as a ROM programmer has it: what the text of `intel_hex` is for.
use elf_dos.Base.{
  ℕ, ◌+◌, ◌-◌, ◌*◌, ◌%◌, ◌^◌, ◌&&◌, Option, none, some, List, [], ◌∷◌, ◌++◌, leb, ◌==◌,
  if◌then◌else◌, ◌>>=◌, ◌>>◌, require, length,
}
use elf_dos.Image.Hex.{sum}

pub record Record : Type 0 where
  pub address : ℕ
  pub kind : ℕ
  pub payload : List ℕ

unfoldable pub digit_value : ℕ → Option ℕ
digit_value c =
    if leb b'0' c && leb c b'9'
    then some (c - b'0')
    else if leb b'A' c && leb c b'F'
    then some (c - b'A' + 10)
    else none

unfoldable pub unhex : List ℕ → Option (List ℕ)
unhex [] = some []
unhex (h ∷ []) = none
unhex (h ∷ l ∷ rest) = do
  x ← digit_value h
  y ← digit_value l
  bs ← unhex rest
  some ((x * 16 + y) ∷ bs)

-- The last byte is split off: it is the checksum.
unfoldable pub without_last : List ℕ → List ℕ
without_last [] = []
without_last (x ∷ []) = []
without_last (x ∷ y ∷ ys) = x ∷ without_last (y ∷ ys)

-- The bytes of a record add up to 0 modulo 256, and the first one counts the payload.
unfoldable pub fields : List ℕ → Option Record
fields (n ∷ a ∷ b ∷ t ∷ rest) = do
  require (sum (n ∷ a ∷ b ∷ t ∷ rest) % 256 == 0)
  require (length rest == n + 1)
  some (record { address = a * 2 ^ 8 + b; kind = t; payload = without_last rest })
fields _ = none

unfoldable pub read_line : List ℕ → Option Record
read_line [] = none
read_line (c ∷ rest) = do require (c == b':'); bs ← unhex rest; fields bs

-- The lines of a text, each ended by a newline.
unfoldable pub split_lines : List ℕ → List ℕ → List (List ℕ)
split_lines cur [] = []
split_lines cur (c ∷ s) =
    let next = cur ∷ split_lines [] s in
    let same = split_lines (cur ++ c ∷ []) s in if c == b'\n' then next else same

unfoldable pub read_lines : List (List ℕ) → Option (List Record)
read_lines [] = some []
read_lines (l ∷ ls) = do r ← read_line l; rs ← read_lines ls; some (r ∷ rs)

unfoldable pub read_hex : List ℕ → Option (List Record)
read_hex text = read_lines (split_lines [] text)

-- The bytes that the records load from `at` on: data records without a gap, then the end record.
unfoldable pub load : ℕ → List Record → Option (List ℕ)
load at [] = none
load at (r ∷ rs) =
    let more = load (at + length r.payload) rs in
    if r.kind == 1
    then some []
    else (do require (r.address == at); bs ← more; some (r.payload ++ bs))
