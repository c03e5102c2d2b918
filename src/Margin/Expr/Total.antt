-- ===== src/Margin/Expr/Total.antt =====
-- The evaluation of an expression ends.
use elf_dos.Base.{
  ℕ, zero, suc, ◌≤◌, ◌<◌, ◌≢◌, Bool, true, false, List, [], ◌∷◌, arith, Option-cases, Bool-cases,
  inl, inr, if◌then◌else◌, length,
}
use elf_dos.Base.Int.{ℤ}
use elf_dos.Base.Text.{lookup_text, has_text, unseen, unseen_lt, unseen-le-length, text_eq, codes}
use elf_dos.Margin.Expr.{
  Token, number, word, Equs, Ev, value, value_error, index_error, out_of_fuel, and_then, operate,
  operations, sequence, value_of, eval_in, eval_expr,
}

abbrev Ends : Ev → Type 0
Ends e = e ≢ out_of_fuel

Ends-and_then : (e : Ev) (f : ℤ → Ev) → Ends e → ((n : ℤ) → Ends (f n)) → Ends (and_then e f)
unfolding and_then
Ends-and_then (value n) f h k = k n
Ends-and_then value_error f h k = h
Ends-and_then index_error f h k = h
Ends-and_then out_of_fuel f h k = h

either-Ends : (b : Bool) (x y : Ev) → Ends x → Ends y → Ends (if b then x else y)
either-Ends true x y h k = h
either-Ends false x y h k = k

Ends-operate : (t : Token) (a b : ℤ) → Ends (operate t a b)
unfolding operate
Ends-operate (number n) a b = cc
Ends-operate (word t) a b = either-Ends (text_eq t (codes "*")) _ _ (cc) (
    either-Ends (text_eq t (codes "+")) _ _ (cc)
      (either-Ends (text_eq t (codes "-")) _ _ (cc) (cc)))

module _ (val : Token → Ev) (h : (t : Token) → Ends (val t)) where
  Ends-operations : (a : ℤ) (tokens : List Token) → Ends (operations val a tokens)
  unfolding operations
  Ends-operations a [] = cc
  Ends-operations a (op ∷ []) = cc
  Ends-operations a (op ∷ t ∷ rest) =
      Ends-and_then (val t) _ (h t)
        (λ b. Ends-and_then (operate op a b) _ (Ends-operate op a b) (λ c. Ends-operations c rest))

  Ends-sequence : (tokens : List Token) → Ends (sequence val tokens)
  unfolding sequence
  Ends-sequence [] = cc
  Ends-sequence (t ∷ rest) = Ends-and_then (val t) _ (h t) (λ a. Ends-operations a rest)

-- A constant that is looked up for the first time has fewer left to look up.
Ends-value_of :
    (eval : List (List ℕ) → List Token → Ev) (f : ℕ) (equs : Equs) (seen : List (List ℕ))
    (t : Token)
    → ((seen' : List (List ℕ)) (tokens : List Token)
        → unseen equs seen' < f
        → Ends (eval seen' tokens))
    → unseen equs seen ≤ f
    → Ends (value_of eval equs seen t)
unfolding value_of
Ends-value_of eval f equs seen (number n) ih h = cc
Ends-value_of eval f equs seen (word name) ih h = elim (Bool-cases (has_text name seen)) [
  | inl s ↦ rw (s, value_of) (cc)
  | inr s ↦ elim (Option-cases (lookup_text name equs)) [
    | inl n ↦ rw (s, value_of, n) (cc)
    | inr (e, l) ↦
        rw (s, value_of, l)
          (ih (name ∷ seen) e.tokens (omega (arith, unseen_lt equs name seen l s)))
  ]
]

Ends-eval_in :
    (f : ℕ) (equs : Equs) (seen : List (List ℕ)) (tokens : List Token)
    → unseen equs seen < f
    → Ends (eval_in f equs seen tokens)
unfolding eval_in
Ends-eval_in zero equs seen tokens h = absurd (omega arith)
Ends-eval_in (suc f) equs seen tokens h =
    Ends-sequence (value_of (eval_in f equs) equs seen)
      (λ t. Ends-value_of (eval_in f equs) f equs seen t (Ends-eval_in f equs) (omega arith)) tokens

-- The evaluation of an expression always ends, with a value or an exception, whatever names the
-- equates refer to each other by.
pub eval_expr_total : (tokens : List Token) (equs : Equs) → eval_expr tokens equs ≢ out_of_fuel
unfolding eval_expr
eval_expr_total tokens equs =
    Ends-eval_in (suc (length equs)) equs [] tokens (omega (arith, unseen-le-length equs))
