-- ===== src/Margin/Expr.antt =====
-- `eval_expr` and `collect_prog_base_relative_floor` of tools/check_kernel_margin.py. A text is the
-- list of the tokens that `find_all` of the child Lexer finds in it; a name of an equate comes with what
-- the search for PROG_BASE in its text said.
pub mod Total
pub mod Lexer
pub mod Floor
use elf_dos.Base.{
  ℕ, zero, suc, Bool, true, false, ◌||◌, not, Option, none, some, List, [], ◌∷◌, if◌then◌else◌,
  ◌>>=◌, length,
}
use elf_dos.Base.Int.{ℤ, pos, add_ℤ, sub_ℤ, mul_ℤ, ltb_ℤ}
use elf_dos.Base.Text.{codes, text_eq, lookup_text, has_text}

-- A number with its value (`$hex`, `'c'` or decimal), or a name or an operator.
pub data Token : Type 0 where
  number : ℕ → Token
  word : List ℕ → Token

pub record Equ : Type 0 where
  pub tokens : List Token
  pub on_prog_base : Bool

abbrev pub Equs : Type 0
Equs = List (List ℕ × Equ)

-- A value, the two exceptions, and fuel that ran out.
pub data Ev : Type 0 where
  value : ℤ → Ev
  value_error index_error out_of_fuel : Ev

unfoldable pub and_then : Ev → (ℤ → Ev) → Ev
and_then (value n) f = f n
and_then value_error f = value_error
and_then index_error f = index_error
and_then out_of_fuel f = out_of_fuel

-- The operator, after its right side was evaluated.
unfoldable pub operate : Token → ℤ → ℤ → Ev
operate (number n) a b = value_error
operate (word t) a b =
    if text_eq t (codes "*")
    then value (mul_ℤ a b)
    else if text_eq t (codes "+")
    then value (add_ℤ a b)
    else if text_eq t (codes "-")
    then value (sub_ℤ a b)
    else value_error

-- The loop from the left to the right.
unfoldable pub operations : (Token → Ev) → ℤ → List Token → Ev
operations val a [] = value a
operations val a (op ∷ []) = index_error
operations val a (op ∷ t ∷ rest) =
    and_then (val t) (λ b. and_then (operate op a b) (λ c. operations val c rest))

unfoldable pub sequence : (Token → Ev) → List Token → Ev
sequence val [] = value_error
sequence val (t ∷ rest) = and_then (val t) (λ a. operations val a rest)

-- `value_of`, with the evaluation of a named constant's text as an argument.
unfoldable pub value_of : (List (List ℕ) → List Token → Ev) → Equs → List (List ℕ) → Token → Ev
value_of eval equs seen (number n) = value (pos n)
value_of eval equs seen (word name) = elim (has_text name seen) [
  | true ↦ value_error
  | false ↦ elim (lookup_text name equs) [
    | none ↦ value_error
    | some e ↦ eval (name ∷ seen) e.tokens
  ]
]

-- `eval_expr(text, equs, _seen)`
unfoldable pub eval_in : ℕ → Equs → List (List ℕ) → List Token → Ev
eval_in zero equs seen tokens = out_of_fuel
eval_in (suc f) equs seen tokens = sequence (value_of (eval_in f equs) equs seen) tokens

-- `eval_expr(text, equs)`
unfoldable pub eval_expr : List Token → Equs → Ev
eval_expr tokens equs = eval_in (suc (length equs)) equs [] tokens

-- `floor_addr is None or addr < floor_addr`
unfoldable pub lower : Option ℤ → ℤ → ℤ
lower none addr = addr
lower (some a) addr = if ltb_ℤ addr a then addr else a

unfoldable pub floor_from : Equs → Equs → Option ℤ → Option (Option ℤ)
floor_from equs [] acc = some acc
floor_from equs ((name, e) ∷ items) acc =
    if text_eq name (codes "PROG_BASE") || not e.on_prog_base
    then floor_from equs items acc
    else elim (eval_expr e.tokens equs) [
      | value addr ↦ floor_from equs items (some (lower acc addr))
      | value_error ↦ floor_from equs items acc
      | index_error ↦ none
      | out_of_fuel ↦ none
    ]

-- `collect_prog_base_relative_floor(equs)`, the address; an outer `none` is an exception.
unfoldable pub floor : Equs → Option (Option ℤ)
floor equs = floor_from equs equs none
