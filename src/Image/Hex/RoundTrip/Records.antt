-- ===== src/Image/Hex/RoundTrip/Records.antt =====
-- One record of `intel_hex` of tools/split_kernel.py, and the reader of the format.
use elf_dos.Base.{
  ℕ, ◌+◌, ◌*◌, ◌/◌, ◌%◌, ◌^◌, ◌<◌, bit_and, ◌≡◌, refl, ap, ◌∙◌, some, List, [], ◌∷◌, ◌++◌, arith,
  length, length-append, All, All-append, append_assoc, append-nil,
}
use elf_dos.Base.Bits.{bit_and_mask}
use elf_dos.Image.Hex.{sum, hex_digit, hex, checksum, rec, join_lines}
use elf_dos.Image.Hex.Reader.{
  Record, digit_value, unhex, without_last, fields, read_line, split_lines, read_lines, load,
}

abbrev pub AreBytes : List ℕ → Type 0
AreBytes = All (λ b. b < 256)

pub value-digit : (d : ℕ) → d < 16 → digit_value (hex_digit d) ≡ some d
unfolding digit_value hex_digit
value-digit d h = ground arith

pub unhex-hex : (bs : List ℕ) → AreBytes bs → unhex (hex bs) ≡ some bs
unfolding unhex hex
unhex-hex [] h = refl
unhex-hex (b ∷ bs) h =
    rw (value-digit (b / 16) (omega arith), value-digit (b % 16) (omega arith), unhex-hex bs h.1)
      (ap (λ (x : ℕ). some (x ∷ bs)) (omega arith))

pub sum-append : (xs ys : List ℕ) → sum (xs ++ ys) ≡ sum xs + sum ys
unfolding sum
sum-append [] ys = omega arith
sum-append (x ∷ xs) ys = omega (arith, sum-append xs ys)

-- A record's bytes with its checksum add up to 0.
pub sum-checksum : (body : List ℕ) → sum (body ++ checksum body ∷ []) % 256 ≡ 0
unfolding checksum
sum-checksum body = rw sum-append (unfold sum in omega arith)

pub without_last-append : (xs : List ℕ) (c : ℕ) → without_last (xs ++ c ∷ []) ≡ xs
unfolding without_last
without_last-append [] c = refl
without_last-append (x ∷ []) c = refl
without_last-append (x ∷ y ∷ ys) c = ap (λ t. x ∷ t) (without_last-append (y ∷ ys) c)

pub read_line-hex : (bs : List ℕ) → AreBytes bs → read_line (b':' ∷ hex bs) ≡ fields bs
unfolding read_line
read_line-hex bs h = rw (unhex-hex bs h) refl

pub checksum-lt : (body : List ℕ) → checksum body < 256
unfolding checksum
checksum-lt body = omega arith

pub fields-checksum :
    (n a b t : ℕ) (payload : List ℕ)
    → length payload ≡ n
    → fields ((n ∷ a ∷ b ∷ t ∷ payload) ++ checksum (n ∷ a ∷ b ∷ t ∷ payload) ∷ [])
      ≡ some (record { address = a * 2 ^ 8 + b; kind = t; payload = payload })
unfolding fields
fields-checksum n a b t payload h =
    let body : List ℕ = n ∷ a ∷ b ∷ t ∷ payload in
    let len : length (payload ++ checksum body ∷ []) ≡ n + 1 =
      omega (arith, length-append payload (checksum body ∷ [])) in
    rw (sum-checksum body, without_last-append payload (checksum body), len) (ground arith)

-- One record is read back as it was written.
pub read_line-rec :
    (addr rtype : ℕ) (payload : List ℕ)
    → addr < 2 ^ 16
    → rtype < 256
    → length payload < 256
    → AreBytes payload
    → read_line (rec addr rtype payload)
      ≡ some (record { address = addr; kind = rtype; payload = payload })
unfolding rec
read_line-rec addr rtype payload ha ht hl hb =
    let hi : bit_and (addr / 2 ^ 8) 0xFF ≡ addr / 2 ^ 8 =
      bit_and_mask 8 (addr / 2 ^ 8) ∙ omega arith in
    let lo : bit_and addr 0xFF ≡ addr % 2 ^ 8 = bit_and_mask 8 addr in
    let body : List ℕ = length payload ∷ addr / 2 ^ 8 ∷ addr % 2 ^ 8 ∷ rtype ∷ payload in
    let ok : AreBytes (body ++ checksum body ∷ []) =
      All-append (λ b. b < 256) body (checksum body ∷ [])
        (hl, (omega arith, (omega arith, (ht, hb)))) (checksum-lt body, tt) in
    rw (hi, lo)
      (read_line-hex _ ok
        ∙ fields-checksum (length payload) (addr / 2 ^ 8) (addr % 2 ^ 8) rtype payload refl
        ∙ ap (λ (x : ℕ). some (record { address = x; kind = rtype; payload = payload }))
            (omega arith))

-- No character is a newline or comes before it.
abbrev pub IsPlain : List ℕ → Type 0
IsPlain = All (λ c. 10 < c)

pub hex-IsPlain : (bs : List ℕ) → AreBytes bs → IsPlain (hex bs)
unfolding hex hex_digit
hex-IsPlain [] h = tt
hex-IsPlain (b ∷ bs) h = (ground arith, (ground arith, hex-IsPlain bs h.1))

pub split_lines-line :
    (l cur rest : List ℕ)
    → IsPlain l
    → split_lines cur (l ++ b'\n' ∷ rest) ≡ (cur ++ l) ∷ split_lines [] rest
unfolding split_lines
split_lines-line [] cur rest h = rw append-nil
split_lines-line (c ∷ l) cur rest h =
    ground (arith, split_lines-line l (cur ++ c ∷ []) rest h.1, append_assoc cur (c ∷ []) l)

pub split-join_lines : (ls : List (List ℕ)) → All IsPlain ls → split_lines [] (join_lines ls) ≡ ls
unfolding join_lines
split-join_lines [] h = unfold split_lines in refl
split-join_lines (l ∷ ls) h =
    split_lines-line l [] (join_lines ls) h.0 ∙ ap (λ t. l ∷ t) (split-join_lines ls h.1)

pub rec-IsPlain :
    (addr rtype : ℕ) (payload : List ℕ)
    → rtype < 256
    → length payload < 256
    → AreBytes payload
    → IsPlain (rec addr rtype payload)
unfolding rec
rec-IsPlain addr rtype payload ht hl hb =
    let hi : bit_and (addr / 2 ^ 8) 0xFF < 256 = rw (bit_and_mask 8 (addr / 2 ^ 8)) (omega arith) in
    let lo : bit_and addr 0xFF < 256 = rw (bit_and_mask 8 addr) (omega arith) in
    (
      omega arith,
      hex-IsPlain _ (
          All-append (λ b. b < 256)
            (length payload ∷ bit_and (addr / 2 ^ 8) 0xFF ∷ bit_and addr 0xFF ∷ rtype ∷ payload)
            (checksum
                (length payload ∷ bit_and (addr / 2 ^ 8) 0xFF ∷ bit_and addr 0xFF ∷ rtype ∷ payload)
              ∷ [])
            (hl, (hi, (lo, (ht, hb)))) (checksum-lt _, tt)),
    )

pub end_line :
    read_lines (rec 0 1 [] ∷ []) ≡ some (record { address = 0; kind = 1; payload = [] } ∷ [])
unfolding read_lines
end_line = rw (read_line-rec 0 1 [] (omega arith) (omega arith) (omega arith) tt) refl

pub load_end :
    (at : ℕ) (rs : List Record)
    → load at (record { address = 0; kind = 1; payload = [] } ∷ rs) ≡ some []
unfolding load
load_end at rs = refl
