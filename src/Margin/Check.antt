-- ===== src/Margin/Check.antt =====
-- `main` of tools/check_kernel_margin.py once the files are read and the kernel is linked. What it
-- prints is not modelled.
pub mod Buffers
pub mod Passes
use elf_dos.Base.{
  ℕ, ◌+◌, ◌-◌, ◌/◌, ◌%◌, ◌^◌, bit_and, Bool, true, false, ◌&&◌, ◌||◌, not, Option, none, some, List,
  [], ◌∷◌, if◌then◌else◌, ◌>>=◌,
}
use elf_dos.Base.Int.{ℤ, pos, add_ℤ, sub_ℤ, ltb_ℤ}
use elf_dos.Base.Text.{codes, text_eq, lookup_text}
use elf_dos.Margin.Expr.{
  Token, Equs, Ev, value, value_error, index_error, out_of_fuel, eval_expr, floor,
}

-- What the files and the linker say.
pub record Linked : Type 0 where
  pub threshold : ℤ
  pub equs : Equs
  pub buffers : List (List ℕ × List Token)
  pub highest : ℕ
  pub symbols : List (List ℕ × ℕ)

-- The exit code, or an exception that is not caught.
pub data Exit : Type 0 where
  exit : ℕ → Exit
  raised : Exit

-- The first check, for one buffer: `end > top` below NVK_BASE, and the threshold above it.
unfoldable pub overruns : Linked → ℤ → ℕ → ℕ → ℤ → Bool
overruns k nvk_base vol_top start size =
    let end_at : ℤ = sub_ℤ (add_ℤ (pos start) size) (pos 1) in
    if ltb_ℤ (pos start) nvk_base
    then ltb_ℤ (pos vol_top) end_at
    else ltb_ℤ (sub_ℤ (pos k.highest) end_at) k.threshold

unfoldable pub buffer_fails : Linked → ℤ → ℕ → List ℕ × List Token → Option Bool
buffer_fails k nvk_base vol_top (name, size_text) = elim (lookup_text name k.symbols) [
  | none ↦ some false
  | some start ↦ elim (eval_expr size_text k.equs) [
    | value size ↦ some (overruns k nvk_base vol_top start size)
    | value_error ↦ some false
    | index_error ↦ none
    | out_of_fuel ↦ none
  ]
]

unfoldable pub buffers_fail : Linked → ℤ → ℕ → List (List ℕ × List Token) → Option Bool
buffers_fail k nvk_base vol_top [] = some false
buffers_fail k nvk_base vol_top (b ∷ bs) = buffer_fails k nvk_base vol_top b >>= λ x.
    buffers_fail k nvk_base vol_top bs >>= λ y. some (x || y)

-- The second check.
unfoldable pub floor_fails : Linked → ℕ → Option ℤ → Bool
floor_fails k vol_top none = true
floor_fails k vol_top (some addr) = ltb_ℤ (sub_ℤ addr (pos vol_top)) k.threshold

abbrev pub same_ℤ : ℤ → ℤ → Bool
same_ℤ a b = not (ltb_ℤ a b) && not (ltb_ℤ b a)

-- `eval_expr(size_text, equs) == fcb_len`, where no exception gets through.
unfoldable pub has_size : Equs → ℤ → List Token → Bool
has_size equs len size_text = elim (eval_expr size_text equs) [ value n ↦ same_ℤ n len | _ ↦ false ]

-- `name in fcb_storage`
unfoldable pub in_storage : Equs → ℤ → List (List ℕ × List Token) → List ℕ → Bool
in_storage equs len [] name = false
in_storage equs len ((b, size_text) ∷ bs) name =
    (text_eq b name && has_size equs len size_text) || in_storage equs len bs name

-- `(addr & 0xFF) > 256 - fcb_len`
unfoldable pub straddles : ℤ → ℕ → Bool
straddles len addr = ltb_ℤ (sub_ℤ (pos 256) len) (pos (bit_and addr 0xFF))

-- `bool(straddlers)`
unfoldable pub any_straddle : Linked → ℤ → List (List ℕ × ℕ) → Bool
any_straddle k len [] = false
any_straddle k len ((name, addr) ∷ rest) =
    (in_storage k.equs len k.buffers name && straddles len addr) || any_straddle k len rest

-- `fcb_len`
unfoldable pub fcb_len : Equs → Ev
fcb_len equs = elim (lookup_text (codes "FCB_LEN") equs) [
  | none ↦ value (pos 32)
  | some e ↦ eval_expr e.tokens equs
]

-- The value of an expression, for code that does not catch its exceptions.
unfoldable pub value? : Ev → Option ℤ
value? (value n) = some n
value? _ = none

-- `failed` after the four checks.
unfoldable pub checks_fail : Linked → ℤ → ℤ → ℕ → Option Bool
checks_fail k nvk_base nvk_top vol_top = buffers_fail k nvk_base vol_top k.buffers >>= λ a.
    floor k.equs >>= λ f. value? (fcb_len k.equs) >>= λ len.
    some (
      a || floor_fails k vol_top f || any_straddle k len k.symbols || ltb_ℤ nvk_top (pos k.highest))

unfoldable pub exit_of : Option Bool → Exit
exit_of none = raised
exit_of (some failed) = exit (if failed then 1 else 0)

-- From the test for NVK_BASE and NVK_TOP on.
unfoldable pub main : Linked → Exit
main k = elim (lookup_text (codes "NVK_BASE") k.equs) [
  | none ↦ exit 2
  | some b ↦ elim (lookup_text (codes "NVK_TOP") k.equs) [
    | none ↦ exit 2
    | some t ↦ elim (value? (eval_expr b.tokens k.equs)) [
      | none ↦ raised
      | some nvk_base ↦ elim (value? (eval_expr t.tokens k.equs)) [
        | none ↦ raised
        | some nvk_top ↦ elim (lookup_text (codes "kvol_end") k.symbols) [
          | none ↦ exit 2
          | some vol_top ↦ exit_of (checks_fail k nvk_base nvk_top vol_top)
        ]
      ]
    ]
  ]
]
