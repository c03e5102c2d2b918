-- ===== src/Margin/Check/Buffers.antt =====
-- The checks of tools/check_kernel_margin.py on buffers and control blocks.
use elf_dos.Base.{
  ℕ, ◌+◌, ◌%◌, ◌^◌, ◌≡◌, refl, Bool, true, false, ◌&&◌, ◌||◌, Option, none, some, some-injective,
  List, [], ◌∷◌, arith, ◌>>=◌, All,
}
use elf_dos.Base.Bits.{bit_and_mask}
use elf_dos.Base.Int.{ℤ, pos, pos_part, neg_part, add_ℤ, sub_ℤ, ltb_ℤ, ltb_ℤ-false, sub_parts}
use elf_dos.Base.Text.{lookup_text}
use elf_dos.Margin.Expr.{Token, value, eval_expr}
use elf_dos.Margin.Expr.Floor.{AtMost}
use elf_dos.Margin.Check.{
  Linked, overruns, buffer_fails, buffers_fail, in_storage, straddles, any_straddle,
}

-- The last byte of a buffer.
abbrev pub end_of : ℕ → ℤ → ℤ
end_of start size = sub_ℤ (add_ℤ (pos start) size) (pos 1)

-- A buffer below NVK_BASE ends at or before the marker; one above it leaves the threshold free. Only
-- buffers with a symbol and a size that can be evaluated are meant.
abbrev pub BufferOk : Linked → ℤ → ℕ → List ℕ × List Token → Type 0
BufferOk k nvk_base vol_top (name, size_text) =
    (start : ℕ) (size : ℤ)
    → lookup_text name k.symbols ≡ some start
    → eval_expr size_text k.equs ≡ value size
    → (ltb_ℤ (pos start) nvk_base ≡ true → AtMost (end_of start size) (pos vol_top))
      × (ltb_ℤ (pos start) nvk_base ≡ false
          → AtMost k.threshold (sub_ℤ (pos k.highest) (end_of start size)))

-- A control block lies within one page.
abbrev pub FcbOk : Linked → ℤ → List ℕ × ℕ → Type 0
FcbOk k len (name, addr) =
    in_storage k.equs len k.buffers name ≡ true → AtMost (add_ℤ (pos (addr % 256)) len) (pos 256)

not_overruns :
    (k : Linked) (nvk_base : ℤ) (vol_top start : ℕ) (size : ℤ)
    → overruns k nvk_base vol_top start size ≡ false
    → (ltb_ℤ (pos start) nvk_base ≡ true → AtMost (end_of start size) (pos vol_top))
      × (ltb_ℤ (pos start) nvk_base ≡ false
          → AtMost k.threshold (sub_ℤ (pos k.highest) (end_of start size)))
unfolding overruns
not_overruns k nvk_base vol_top start size h = (
  λ t. let h' = rw t at h in ltb_ℤ-false (pos vol_top) (end_of start size) h',
  λ t. let h' = rw t at h in ltb_ℤ-false (sub_ℤ (pos k.highest) (end_of start size)) k.threshold h',
)

buffer_fails-BufferOk :
    (k : Linked) (nvk_base : ℤ) (vol_top : ℕ) (b : List ℕ × List Token)
    → buffer_fails k nvk_base vol_top b ≡ some false
    → BufferOk k nvk_base vol_top b
unfolding buffer_fails
buffer_fails-BufferOk k nvk_base vol_top (name, text) h start size l v =
    let q : some (overruns k nvk_base vol_top start size) ≡ some false =
      rw (l, buffer_fails, v) at h in
    not_overruns k nvk_base vol_top start size (some-injective _ _ q)

-- A chain of two checks that both clear.
both_clear :
    (x y : Option Bool)
    → (x >>= λ a. y >>= λ b. some (a || b)) ≡ some false
    → (x ≡ some false) × (y ≡ some false)
both_clear none y h = absurd (cc h)
both_clear (some true) none h = absurd (cc h)
both_clear (some true) (some b) h = absurd (cc h)
both_clear (some false) none h = absurd (cc h)
both_clear (some false) (some b) h = (refl, h)

pub buffers_fail-BufferOk :
    (k : Linked) (nvk_base : ℤ) (vol_top : ℕ) (bs : List (List ℕ × List Token))
    → buffers_fail k nvk_base vol_top bs ≡ some false
    → All (BufferOk k nvk_base vol_top) bs
unfolding buffers_fail
buffers_fail-BufferOk k nvk_base vol_top [] h = tt
buffers_fail-BufferOk k nvk_base vol_top (b ∷ bs) h =
    let c = both_clear (buffer_fails k nvk_base vol_top b) (buffers_fail k nvk_base vol_top bs) h in
    (
      buffer_fails-BufferOk k nvk_base vol_top b c.0,
      buffers_fail-BufferOk k nvk_base vol_top bs c.1,
    )

not_straddles :
    (len : ℤ) (addr : ℕ)
    → straddles len addr ≡ false
    → AtMost (add_ℤ (pos (addr % 256)) len) (pos 256)
unfolding straddles
not_straddles len addr h =
    let h' : ltb_ℤ (sub_ℤ (pos 256) len) (pos (addr % 2 ^ 8)) ≡ false =
      rw (bit_and_mask 8 addr) at h in
    let g = ltb_ℤ-false (sub_ℤ (pos 256) len) (pos (addr % 2 ^ 8)) h' in
    omega (
      arith,
      g,
      sub_parts (256 + neg_part len) (0 + pos_part len),
      sub_parts (addr % 256 + pos_part len) (0 + neg_part len),
    )

-- Of two alternatives that both fail.
pub both_false : (x y : Bool) → (x || y) ≡ false → (x ≡ false) × (y ≡ false)
both_false true y h = absurd (cc h)
both_false false y h = (refl, h)

pub any_straddle-FcbOk :
    (k : Linked) (len : ℤ) (symbols : List (List ℕ × ℕ))
    → any_straddle k len symbols ≡ false
    → All (FcbOk k len) symbols
unfolding any_straddle
any_straddle-FcbOk k len [] h = tt
any_straddle-FcbOk k len ((name, addr) ∷ rest) h =
    let c =
      both_false (in_storage k.equs len k.buffers name && straddles len addr)
        (any_straddle k len rest) h in
    (λ s. not_straddles len addr (rw s at c.0), any_straddle-FcbOk k len rest c.1)
