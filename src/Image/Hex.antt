-- ===== src/Image/Hex.antt =====
-- `intel_hex` of tools/split_kernel.py. Text is the list of its ASCII codes.
pub mod Reader
pub mod RoundTrip
use elf_dos.Base.{
  ℕ, zero, suc, ◌+◌, ◌-◌, ◌/◌, ◌%◌, ◌^◌, bit_and, List, [], ◌∷◌, ◌++◌, ltb, if◌then◌else◌, length,
  slice,
}

unfoldable pub sum : List ℕ → ℕ
sum [] = 0
sum (x ∷ xs) = x + sum xs

-- One digit of `.hex().upper()`.
unfoldable pub hex_digit : ℕ → ℕ
hex_digit d = if ltb d 10 then b'0' + d else b'A' + (d - 10)

-- `.hex().upper()`
unfoldable pub hex : List ℕ → List ℕ
hex [] = []
hex (b ∷ bs) = hex_digit (b / 16) ∷ hex_digit (b % 16) ∷ hex bs

-- `-sum(body) & 0xFF`
unfoldable pub checksum : List ℕ → ℕ
checksum body = (256 - sum body % 256) % 256

-- `rec`: a record of fewer than 256 bytes of payload.
unfoldable pub rec : ℕ → ℕ → List ℕ → List ℕ
rec addr rtype payload =
    let body = length payload ∷ bit_and (addr / 2 ^ 8) 0xFF ∷ bit_and addr 0xFF ∷ rtype ∷ payload in
    b':' ∷ hex (body ++ checksum body ∷ [])

-- The lines for `i in range(0, len(data), per_line)`, from `i` on, with `n` bytes of data left.
unfoldable pub hex_lines : ℕ → List ℕ → ℕ → ℕ → ℕ → List (List ℕ)
hex_lines zero bytes base per_line i = []
hex_lines (suc rounds) bytes base per_line i =
    rec (base + i) 0 (slice i (i + per_line) bytes)
    ∷ hex_lines rounds bytes base per_line (i + per_line)

-- The number of values of `range(0, n, step)` for a positive step.
abbrev pub range_count : ℕ → ℕ → ℕ
range_count n step = (n + step - 1) / step

-- `"\n".join(lines) + "\n"`, for a list that is not empty.
unfoldable pub join_lines : List (List ℕ) → List ℕ
join_lines [] = []
join_lines (l ∷ ls) = l ++ b'\n' ∷ join_lines ls

unfoldable pub intel_hex : List ℕ → ℕ → ℕ → List ℕ
intel_hex bytes base per_line =
    join_lines
      (hex_lines (range_count (length bytes) per_line) bytes base per_line 0 ++ rec 0 1 [] ∷ [])
