-- ===== src/Margin/Tests.antt =====
-- A small memory map through the checks of tools/check_kernel_margin.py.
use elf_dos.Base.Scan.{is_letter, is_name_char}
use elf_dos.Margin.Expr.Lexer.{is_dec, is_hex, is_operator, digit_of, int_of, find_all}
use elf_dos.Margin.Expr.Lexer.RoundTrip.{
  Lexeme, hex, dec, char, name, operator, expression, IsExpression, find_all-expression,
}
use elf_dos.Base.{ℕ, arith, ◌≡◌, ◌≢◌, refl, true, false, some, List, [], ◌∷◌}
use elf_dos.Base.Int.{pos}
use elf_dos.Base.Text.{codes, text_eq, lookup_text, has_text}
use elf_dos.Margin.Expr.{
  Token, number, word, Equ, Equs, value, index_error, out_of_fuel, and_then, operate, operations,
  sequence, value_of, eval_in, eval_expr, lower, floor_from, floor,
}
use elf_dos.Margin.Expr.Total.{eval_expr_total}
use elf_dos.Margin.Expr.Floor.{IsAmong, IsBelow, floor-least}
use elf_dos.Margin.Check.{
  Linked, exit, overruns, buffer_fails, buffers_fail, floor_fails, has_size, in_storage, straddles,
  any_straddle, fcb_len, value?, checks_fail, exit_of, main,
}
use elf_dos.Margin.Check.Passes.{Passes, main-Passes}

abbrev equ : List Token → Equ
equ t = record { tokens = t; on_prog_base = false }

abbrev relay : List Token → Equ
relay t = record { tokens = t; on_prog_base = true }

abbrev equs : Equs
equs =
    (codes "PROG_BASE", equ (number 0x6000 ∷ []))
    ∷ (codes "RUN", relay (word (codes "PROG_BASE") ∷ word (codes "-") ∷ number 64 ∷ []))
    ∷ (codes "ARG", relay (word (codes "RUN") ∷ word (codes "-") ∷ number 8 ∷ []))
    ∷ (codes "NVK_BASE", equ (number 0xA000 ∷ []))
    ∷ (codes "NVK_TOP", equ (number 0xBFFF ∷ []))
    ∷ []

-- From the left to the right.
left_to_right :
    eval_expr (number 2 ∷ word (codes "+") ∷ number 3 ∷ word (codes "*") ∷ number 4 ∷ []) equs
    ≡ value (pos 20)
unfolding eval_expr eval_in sequence operations value_of and_then operate text_eq
left_to_right = refl

trailing_operator : eval_expr (number 2 ∷ word (codes "+") ∷ []) equs ≡ index_error
unfolding eval_expr eval_in sequence operations value_of and_then
trailing_operator = refl

eval_expr_total_example : eval_expr (word (codes "ARG") ∷ []) equs ≢ out_of_fuel
eval_expr_total_example = eval_expr_total (word (codes "ARG") ∷ []) equs

floor_of : floor equs ≡ some (some (pos 0x5FB8))
unfolding floor floor_from lower eval_expr eval_in sequence operations value_of and_then operate
    text_eq has_text lookup_text
floor_of = refl

floor-least_example : IsAmong equs (pos 0x5FB8) equs × IsBelow equs (pos 0x5FB8) equs
floor-least_example = floor-least equs (pos 0x5FB8) floor_of

abbrev linked : Linked
linked = record {
  threshold = pos 16;
  equs = equs;
  buffers = (codes "buf", number 128 ∷ []) ∷ (codes "fcb", number 32 ∷ []) ∷ [];
  highest = 0xB123;
  symbols = (codes "buf", 0x0300) ∷ (codes "fcb", 0x03E0) ∷ (codes "kvol_end", 0x0400) ∷ [];
}

main_of : main linked ≡ exit 0
unfolding main exit_of checks_fail buffers_fail buffer_fails overruns floor_fails has_size
    in_storage straddles any_straddle fcb_len value? floor floor_from lower eval_expr eval_in
    sequence operations value_of and_then operate text_eq has_text lookup_text
main_of = refl

main-Passes_example : Passes linked
main-Passes_example = main-Passes linked main_of

-- `BUF*2 -$1F+'A'`
abbrev written_out : List (Lexeme × List ℕ)
written_out =
    (name b'B' (codes "UF"), [])
    ∷ (operator b'*', [])
    ∷ (dec b'2' [], b' ' ∷ [])
    ∷ (operator b'-', [])
    ∷ (hex b'1' (codes "F"), [])
    ∷ (operator b'+', [])
    ∷ (char b'A', [])
    ∷ []

written_text : expression written_out ≡ codes "BUF*2 -$1F+'A'"
written_text = refl

written-IsExpression : IsExpression written_out
unfolding is_hex is_dec is_letter is_name_char is_operator
written-IsExpression = (
  (refl, (refl, (refl, tt))),
  tt,
  refl,
  (
    refl,
    tt,
    tt,
    (
      (refl, tt),
      (omega arith, tt),
      refl,
      (refl, tt, tt, ((refl, (refl, tt)), tt, refl, (refl, tt, tt, (omega arith, tt, tt, tt)))),
    ),
  ),
)

find_all-expression_example :
    find_all (expression written_out)
    ≡ word (codes "BUF")
      ∷ word (codes "*")
      ∷ number 2
      ∷ word (codes "-")
      ∷ number 31
      ∷ word (codes "+")
      ∷ number 65
      ∷ []
unfolding int_of digit_of
find_all-expression_example = find_all-expression written_out written-IsExpression
