-- ===== src/Fat/Entry/Nibbles.antt =====
-- The two bytes of a FAT12 entry hold its twelve bits and four bits of a neighbour.
use elf_dos.Base.{
  ℕ, ◌+◌, ◌*◌, ◌/◌, ◌%◌, ◌<◌, ◌^◌, bit_and, bit_or, ◌≡◌, refl, ◌∙◌, Bool, true, false, arith, ◌==◌,
  ==_iff,
}
use elf_dos.Base.Bits.{passes_below, table, bit_and_mask, bit_or_shifted}
use elf_dos.Fat.Entry.{is_odd, unpack12, pack_lo, pack_hi}

high_nibble : (b : ℕ) → b < 256 → bit_and b 0xF0 ≡ b / 16 * 16
unfolding passes_below
high_nibble b h = (==_iff _ _).0 (table (λ x. bit_and x 0xF0 == x / 16 * 16) 256 b h refl)

shifted_nibble : (v : ℕ) → v < 4096 → bit_and (v * 2 ^ 4) 0xF0 ≡ v % 16 * 16
unfolding passes_below
shifted_nibble v h =
    (==_iff _ _).0 (table (λ x. bit_and (x * 2 ^ 4) 0xF0 == x % 16 * 16) 4096 v h refl)

byte_of_nibbles : (n : ℕ) → n < 256 → bit_or (n / 16 * 16) (n % 16) ≡ n
unfolding passes_below
byte_of_nibbles n h = (==_iff _ _).0 (table (λ x. bit_or (x / 16 * 16) (x % 16) == x) 256 n h refl)

joined_nibbles : (b x : ℕ) → b < 256 → x < 16 → bit_or (b / 16 * 16) x ≡ b / 16 * 16 + x
joined_nibbles b x hb hx =
    let q : (b / 16 * 16 + x) / 16 ≡ b / 16 = omega arith in
    let r : (b / 16 * 16 + x) % 16 ≡ x = omega arith in
    rw (q, r) at (byte_of_nibbles (b / 16 * 16 + x) (omega arith))

pub is_odd_mod : (c : ℕ) → is_odd c ≡ (c % 2 == 1)
unfolding is_odd
is_odd_mod c = rw (bit_and_mask 1 c)

module _ (lo hi : ℕ) (bl : lo < 256) where
  pub unpack_even : unpack12 false lo hi ≡ lo + hi % 16 * 256
  unfolding unpack12
  unpack_even = rw (bit_or_shifted 8 lo hi bl, bit_and_mask 12 (lo + hi * 2 ^ 8)) (omega arith)

  pub unpack_odd : unpack12 true lo hi ≡ lo / 16 + hi * 16
  unfolding unpack12
  unpack_odd = rw (bit_or_shifted 8 lo hi bl) (omega arith)

module _ (v b : ℕ) (bv : v < 4096) (bb : b < 256) where
  pub pack_lo_even : pack_lo false v b ≡ v % 256
  unfolding pack_lo
  pack_lo_even = bit_and_mask 8 v

  pub pack_lo_odd : pack_lo true v b ≡ b % 16 + v % 16 * 16
  unfolding pack_lo
  pack_lo_odd =
      rw (bit_and_mask 4 b, shifted_nibble v bv) (bit_or_shifted 4 (b % 16) (v % 16) (omega arith))

  pub pack_hi_odd : pack_hi true v b ≡ v / 16
  unfolding pack_hi
  pack_hi_odd = refl

  pub pack_hi_even : pack_hi false v b ≡ b / 16 * 16 + v / 256
  unfolding pack_hi
  pack_hi_even = rw (high_nibble b bb) (joined_nibbles b (v / 256) bb (omega arith))

module _ (w lo hi : ℕ) (bw : w < 4096) (bl : lo < 256) (bh : hi < 256) where
  -- The entry that was written, in either half of the three bytes.
  pub unpack-pack_self : (odd : Bool) → unpack12 odd (pack_lo odd w lo) (pack_hi odd w hi) ≡ w
  unpack-pack_self true =
      rw (pack_lo_odd w lo bw bl, pack_hi_odd w hi bw bh)
        (unpack_odd (lo % 16 + w % 16 * 16) (w / 16) (omega arith) ∙ omega arith)
  unpack-pack_self false =
      rw (pack_lo_even w lo bw bl, pack_hi_even w hi bw bh)
        (unpack_even (w % 256) (hi / 16 * 16 + w / 256) (omega arith) ∙ omega arith)

  -- An odd entry that begins in the last byte of the even entry that was written.
  pub unpack-pack_next : unpack12 true (pack_hi false w lo) hi ≡ unpack12 true lo hi
  unpack-pack_next =
      rw (pack_hi_even w lo bw bl, unpack_odd lo hi bl)
        (unpack_odd (lo / 16 * 16 + w / 256) hi (omega arith) ∙ omega arith)

  -- An even entry that ends in the first byte of the odd entry that was written.
  pub unpack-pack_prev : unpack12 false lo (pack_lo true w hi) ≡ unpack12 false lo hi
  unpack-pack_prev =
      rw (pack_lo_odd w hi bw bh, unpack_even lo hi bl)
        (unpack_even lo (hi % 16 + w % 16 * 16) bl ∙ omega arith)

module _ (w b : ℕ) (bw : w < 4096) (bb : b < 256) where
  pub pack_lo-lt : (odd : Bool) → pack_lo odd w b < 256
  pack_lo-lt true = rw (pack_lo_odd w b bw bb) (omega arith)
  pack_lo-lt false = rw (pack_lo_even w b bw bb) (omega arith)

  pub pack_hi-lt : (odd : Bool) → pack_hi odd w b < 256
  pack_hi-lt true = rw (pack_hi_odd w b bw bb) (omega arith)
  pack_hi-lt false = rw (pack_hi_even w b bw bb) (omega arith)
