-- ===== src/Image/Hex/RoundTrip.antt =====
-- The reader gets the bytes of the image back from the text, at their addresses.
mod Records
use elf_dos.Base.{
  ℕ, zero, suc, ◌+◌, ◌-◌, ◌*◌, ◌/◌, ◌%◌, ◌^◌, ◌≤◌, ◌<◌, bit_and, ◌≡◌, refl, ap, ◌∙◌, sym, some,
  List, [], ◌∷◌, ◌++◌, arith, Option-cases, inl, inr, length, length-append, All, All-append, slice,
  drop, length-take, length-drop, ◌>>=◌, append_assoc, append-nil, min, All-take, All-drop,
  drop_all, slice-append-drop,
}
use native.Mathlib.Nat.{add-div_right, div-eq_of_lt}
use native.Mathlib.Decide.{dec_lt}
use elf_dos.Base.Bits.{bit_and_mask}
use elf_dos.Image.Hex.{
  sum, hex_digit, hex, checksum, rec, hex_lines, range_count, join_lines, intel_hex,
}
use elf_dos.Image.Hex.Reader.{
  Record, digit_value, unhex, without_last, fields, read_line, split_lines, read_lines, read_hex,
  load,
}
use elf_dos.Image.Hex.RoundTrip.Records.{
  AreBytes, value-digit, unhex-hex, sum-append, sum-checksum, without_last-append, read_line-hex,
  checksum-lt, fields-checksum, read_line-rec, IsPlain, hex-IsPlain, split_lines-line,
  split-join_lines, rec-IsPlain, end_line, load_end,
}

-- One more line for each `p` bytes.
range_count_step : (n p : ℕ) → 0 < p → range_count (suc n) p ≡ suc (n / p)
range_count_step n p h =
    ap (λ (k : ℕ). k / p) {x = suc n + p - 1} {y = n + p} (omega arith)
    ∙ add-div_right n h
    ∙ omega arith

range_count_none : (p : ℕ) → 0 < p → range_count 0 p ≡ 0
range_count_none p h = div-eq_of_lt (omega arith)

range_count-zero : (n p : ℕ) → 0 < p → range_count n p ≡ 0 → n ≡ 0
range_count-zero zero p h e = refl
range_count-zero (suc n) p h e = absurd (omega (arith, range_count_step n p h))

range_count-suc :
    (n p k : ℕ) → 0 < p → range_count n p ≡ suc k → (0 < n) × (k ≡ range_count (n - p) p)
range_count-suc zero p k h e = absurd (omega (arith, range_count_none p h))
range_count-suc (suc n) p k h e =
    let k-eq : k ≡ n / p = omega (arith, range_count_step n p h) in
    (
      omega arith,
      k-eq ∙ elim (dec_lt n p) [
        | yes lt ↦
            let gone : suc n - p ≡ 0 = omega arith in
            div-eq_of_lt lt ∙ sym (ap (λ (t : ℕ). range_count t p) gone ∙ range_count_none p h)
        | no le ↦ ap (λ (t : ℕ). t / p) {x = n} {y = suc n - p + p - 1} (omega arith)
      ],
    )

range_count-pos : (n p k : ℕ) → 0 < p → 0 < k → k ≡ range_count n p → 0 < n
range_count-pos zero p k h pos e = absurd (omega (arith, range_count_none p h))
range_count-pos (suc n) p k h pos e = omega arith

load_data :
    (at : ℕ) (payload : List ℕ) (rs : List Record)
    → load at (record { address = at; kind = 0; payload = payload } ∷ rs)
      ≡ (load (at + length payload) rs >>= λ bs. some (payload ++ bs))
unfolding load
load_data at payload rs = ground arith

-- A data record before records that load the rest.
load-cons :
    (l : List ℕ) (ls : List (List ℕ)) (at : ℕ) (payload tail : List ℕ)
    → read_line l ≡ some (record { address = at; kind = 0; payload = payload })
    → (read_lines ls >>= load (at + length payload)) ≡ some tail
    → (read_lines (l ∷ ls) >>= load at) ≡ some (payload ++ tail)
unfolding read_lines
load-cons l ls at payload tail e h = elim (Option-cases (read_lines ls)) [
  | inl n ↦ absurd (let h' = rw n at h in cc h')
  | inr (rs, g) ↦
      let h' : load (at + length payload) rs ≡ some tail = rw g at h in
      rw (e, g, load_data at payload rs, h') refl
]

module _ (bytes : List ℕ) (base per_line : ℕ) (hb : AreBytes bytes) (h0 : 0 < per_line)
    (h1 : per_line < 256) where
  payload-AreBytes : (i : ℕ) → AreBytes (slice i (i + per_line) bytes)
  payload-AreBytes i =
      All-take (λ b. b < 256) (i + per_line - i) _ (All-drop (λ b. b < 256) i bytes hb)

  payload-lt : (i : ℕ) → length (slice i (i + per_line) bytes) < 256
  payload-lt i = omega (arith, length-take (i + per_line - i) (drop i bytes))

  lines-IsPlain :
      (rounds i : ℕ) → All IsPlain (hex_lines rounds bytes base per_line i ++ rec 0 1 [] ∷ [])
  unfolding hex_lines
  lines-IsPlain zero i = (rec-IsPlain 0 1 [] (omega arith) (omega arith) tt, tt)
  lines-IsPlain (suc rounds) i = (
    rec-IsPlain (base + i) 0 _ (omega arith) (payload-lt i) (payload-AreBytes i),
    lines-IsPlain rounds (i + per_line),
  )

  -- The records from `i` on load the bytes from `i` on.
  load-lines :
      (rounds i at : ℕ)
      → rounds ≡ range_count (length bytes - i) per_line
      → base + length bytes ≤ 2 ^ 16
      → (0 < rounds → at ≡ base + i)
      → (read_lines (hex_lines rounds bytes base per_line i ++ rec 0 1 [] ∷ []) >>= load at)
        ≡ some (drop i bytes)
  unfolding hex_lines
  load-lines zero i at hr room ha =
      let gone : length bytes - i ≡ 0 = range_count-zero (length bytes - i) per_line h0 (sym hr) in
      rw (end_line, drop_all i bytes (omega arith)) (load_end at [])
  load-lines (suc rounds) i at hr room ha =
      let n : ℕ = length bytes - i in
      let payload : List ℕ = slice i (i + per_line) bytes in
      let (more, next) = range_count-suc n per_line rounds h0 (sym hr) in
      let here : at ≡ base + i = ha (omega arith) in
      let len : length payload ≡ min (i + per_line - i) (length (drop i bytes)) =
        length-take (i + per_line - i) (drop i bytes) in
      let len' : length (drop i bytes) ≡ n = length-drop i bytes in
      let line : read_line (rec (base + i) 0 payload)
          ≡ some (record { address = base + i; kind = 0; payload = payload }) =
        read_line-rec (base + i) 0 payload (omega arith) (omega arith) (payload-lt i)
          (payload-AreBytes i) in
      let ih =
        load-lines rounds (i + per_line) (at + length payload)
          (next ∙ ap (λ (k : ℕ). range_count k per_line) (omega arith)) room
          (λ pos.
            omega (
              arith,
              len,
              len',
              here,
              range_count-pos (n - per_line) per_line rounds h0 pos next,
            )) in
      load-cons _ _ at payload (drop (i + per_line) bytes)
        (line
          ∙ ap (λ (x : ℕ). some (record { address = x; kind = 0; payload = payload })) (sym here))
        ih
      ∙ ap some (slice-append-drop i per_line bytes)

  -- For bytes below 64K, in lines of 1 to 255 bytes: a reader of the text of `intel_hex` checks
  -- every record, and loads from the base address on exactly the bytes that were written.
  pub load-intel_hex :
      base + length bytes ≤ 2 ^ 16
      → (read_hex (intel_hex bytes base per_line) >>= load base) ≡ some bytes
  unfolding read_hex intel_hex
  load-intel_hex room =
      let n : ℕ = range_count (length bytes) per_line in
      rw
        (split-join_lines (hex_lines n bytes base per_line 0 ++ rec 0 1 [] ∷ [])
          (lines-IsPlain n 0))
        (load-lines n 0 base
          (ap (λ (k : ℕ). range_count k per_line) {x = length bytes} {y = length bytes - 0}
            (omega arith))
          room (λ pos. omega arith))
