-- ===== src/Margin/Check/Passes.antt =====
-- What the linked kernel is like when tools/check_kernel_margin.py exits with 0.
use elf_dos.Base.{
  ℕ, ◌≡◌, ◌≢◌, refl, ap, ◌∙◌, Bool, true, false, ◌||◌, Option, none, some, some-injective, List,
  arith, Option-cases, inl, inr, All,
}
use elf_dos.Base.Int.{ℤ, pos, sub_ℤ, ltb_ℤ, ltb_ℤ-false}
use elf_dos.Base.Text.{lookup_text, codes}
use elf_dos.Margin.Expr.{Equ, Equs, eval_expr, floor}
use elf_dos.Margin.Expr.Floor.{AtMost}
use elf_dos.Margin.Check.{
  Linked, exit, buffers_fail, floor_fails, any_straddle, fcb_len, value?, checks_fail, exit_of,
  main,
}
use elf_dos.Margin.Check.Buffers.{
  BufferOk, FcbOk, buffers_fail-BufferOk, any_straddle-FcbOk, both_false,
}

-- The equate has that value.
abbrev pub IsConstant : Equs → List ℕ → ℤ → Type 0
IsConstant equs name v =
    (e : Equ) × (lookup_text name equs ≡ some e) × (value? (eval_expr e.tokens equs) ≡ some v)

pub record Passes (k : Linked) : Type 0 where
  pub nvk_base : ℤ
  pub nvk_top : ℤ
  pub vol_top : ℕ
  pub relay : ℤ
  pub len : ℤ
  pub base_is : IsConstant k.equs (codes "NVK_BASE") nvk_base
  pub top_is : IsConstant k.equs (codes "NVK_TOP") nvk_top
  pub fcb_size : value? (fcb_len k.equs) ≡ some len
  pub marker : lookup_text (codes "kvol_end") k.symbols ≡ some vol_top
  pub buffers_ok : All (BufferOk k nvk_base vol_top) k.buffers
  pub is_relay : floor k.equs ≡ some (some relay)
  pub relay_ok : AtMost k.threshold (sub_ℤ relay (pos vol_top))
  pub fcbs_ok : All (FcbOk k len) k.symbols
  pub top_ok : AtMost (pos k.highest) nvk_top

floor_ok :
    (k : Linked) (vol_top : ℕ) (f : Option ℤ)
    → floor_fails k vol_top f ≡ false
    → (relay : ℤ) × (f ≡ some relay) × AtMost k.threshold (sub_ℤ relay (pos vol_top))
unfolding floor_fails
floor_ok k vol_top none h = absurd (cc h)
floor_ok k vol_top (some relay) h =
    (relay, refl, ltb_ℤ-false (sub_ℤ relay (pos vol_top)) k.threshold h)

-- The results of the three steps that may raise, where nothing failed.
module _ (k : Linked) (nvk_base nvk_top : ℤ) (vol_top : ℕ)
    (base : IsConstant k.equs (codes "NVK_BASE") nvk_base)
    (top : IsConstant k.equs (codes "NVK_TOP") nvk_top)
    (m : lookup_text (codes "kvol_end") k.symbols ≡ some vol_top) where
  all_clear :
      (a : Bool) (f : Option ℤ) (len : ℤ)
      → buffers_fail k nvk_base vol_top k.buffers ≡ some a
      → floor k.equs ≡ some f
      → value? (fcb_len k.equs) ≡ some len
      → (a
          || floor_fails k vol_top f
          || any_straddle k len k.symbols
          || ltb_ℤ nvk_top (pos k.highest))
        ≡ false
      → Passes k
  all_clear a f len ea ef el h =
      let fails = floor_fails k vol_top f in
      let straddle = any_straddle k len k.symbols in
      let one = both_false (a || fails || straddle) (ltb_ℤ nvk_top (pos k.highest)) h in
      let two = both_false (a || fails) straddle one.0 in
      let three = both_false a fails two.0 in
      let (relay, er, low) = floor_ok k vol_top f three.1 in
      record {
        nvk_base = nvk_base;
        nvk_top = nvk_top;
        vol_top = vol_top;
        relay = relay;
        len = len;
        base_is = base;
        top_is = top;
        fcb_size = el;
        marker = m;
        buffers_ok = buffers_fail-BufferOk k nvk_base vol_top k.buffers (ea ∙ ap some three.0);
        is_relay = ef ∙ ap some er;
        relay_ok = low;
        fcbs_ok = any_straddle-FcbOk k len k.symbols two.1;
        top_ok = ltb_ℤ-false nvk_top (pos k.highest) one.1;
      }

  checks_clear : checks_fail k nvk_base nvk_top vol_top ≡ some false → Passes k
  unfolding checks_fail
  checks_clear h = elim (Option-cases (buffers_fail k nvk_base vol_top k.buffers)) [
    | inl n ↦ absurd (let h1 = rw n at h in cc h1)
    | inr (a, ea) ↦
        let h1 = rw ea at h in
        elim (Option-cases (floor k.equs)) [
          | inl n ↦ absurd (let h2 = rw n at h1 in cc h2)
          | inr (f, ef) ↦
              let h2 = rw ef at h1 in
              elim (Option-cases (value? (fcb_len k.equs))) [
                | inl n ↦ absurd (let h3 = rw n at h2 in cc h3)
                | inr (len, el) ↦
                    let h3 = rw el at h2 in all_clear a f len ea ef el (some-injective _ _ h3)
              ]
        ]
  ]

exit-injective : (a b : ℕ) → exit a ≡ exit b → a ≡ b
exit-injective a b h = cc h

exit_two : exit 2 ≢ exit 0
exit_two h = let q = exit-injective 2 0 h in omega arith

exit_of_zero : (o : Option Bool) → exit_of o ≡ exit 0 → o ≡ some false
unfolding exit_of
exit_of_zero none h = absurd (cc h)
exit_of_zero (some true) h = absurd (let q = exit-injective 1 0 h in omega arith)
exit_of_zero (some false) h = refl

-- Where the script exits with 0, the constants NVK_BASE and NVK_TOP and the marker exist; every
-- buffer with a symbol and a size that has a value ends at or before the marker, or, above NVK_BASE,
-- the threshold before the highest address; the relay floor lies the threshold above the marker; no
-- control block straddles a page; and the highest address is at most NVK_TOP.
pub main-Passes : (k : Linked) → main k ≡ exit 0 → Passes k
unfolding main
main-Passes k h = elim (Option-cases (lookup_text (codes "NVK_BASE") k.equs)) [
  | inl n ↦ absurd (exit_two (rw (main, n) at h))
  | inr (b, eb) ↦
      let h1 = rw (main, eb) at h in
      elim (Option-cases (lookup_text (codes "NVK_TOP") k.equs)) [
        | inl n ↦ absurd (exit_two (rw n at h1))
        | inr (t, et) ↦
            let h2 = rw et at h1 in
            elim (Option-cases (value? (eval_expr b.tokens k.equs))) [
              | inl n ↦ absurd (let h3 = rw n at h2 in cc h3)
              | inr (nvk_base, vb) ↦
                  let h3 = rw vb at h2 in
                  elim (Option-cases (value? (eval_expr t.tokens k.equs))) [
                    | inl n ↦ absurd (let h4 = rw n at h3 in cc h4)
                    | inr (nvk_top, vt) ↦
                        let h4 = rw vt at h3 in
                        elim (Option-cases (lookup_text (codes "kvol_end") k.symbols)) [
                          | inl n ↦ absurd (exit_two (rw n at h4))
                          | inr (vol_top, ev) ↦
                              checks_clear k nvk_base nvk_top vol_top (b, eb, vb) (t, et, vt) ev
                                (exit_of_zero (checks_fail k nvk_base nvk_top vol_top)
                                  (rw ev at h4))
                        ]
                  ]
            ]
      ]
]
