-- ===== src/Margin/Expr/Floor.antt =====
-- The floor is the least address that is given relative to PROG_BASE.
use elf_dos.Base.{
  ℕ, ◌+◌, ◌≤◌, ◌≡◌, refl, sym, ap, ◌∙◌, Bool, true, false, ◌||◌, not, Option, none, some,
  some-injective, subst, List, [], ◌∷◌, arith, Bool-cases, ◌⊎◌, inl, inr,
}
use elf_dos.Base.Int.{ℤ, pos_part, neg_part, ltb_ℤ}
use elf_dos.Base.Text.{text_eq, codes}
use elf_dos.Margin.Expr.{
  Equ, Equs, Ev, value, value_error, index_error, out_of_fuel, eval_expr, lower, floor_from, floor,
}

-- `a <= b`
abbrev pub AtMost : ℤ → ℤ → Type 0
AtMost a b = pos_part a + neg_part b ≤ pos_part b + neg_part a

-- The item is an address relative to PROG_BASE, not PROG_BASE itself.
abbrev pub is_relay : List ℕ × Equ → Bool
is_relay (name, e) = not (text_eq name (codes "PROG_BASE") || not e.on_prog_base)

-- Every relay address among the items is `m` or higher.
abbrev pub IsBelow : Equs → ℤ → Equs → Type 0
IsBelow equs m [] = Unit
IsBelow equs m (item ∷ items) =
    ((is_relay item ≡ true)
      → (addr : ℤ) → eval_expr item.1.tokens equs ≡ value addr
      → AtMost m addr)
    × IsBelow equs m items

-- One of the items is the relay address `m`.
abbrev pub IsAmong : Equs → ℤ → Equs → Type 0
IsAmong equs m [] = ⊥
IsAmong equs m (item ∷ items) =
    ((is_relay item ≡ true) × (eval_expr item.1.tokens equs ≡ value m)) ⊎ IsAmong equs m items

Ev-cases :
    (e : Ev)
    → ((n : ℤ) × (e ≡ value n)) ⊎ ((e ≡ value_error) ⊎ ((e ≡ index_error) ⊎ (e ≡ out_of_fuel)))
Ev-cases (value n) = inl (n, refl)
Ev-cases value_error = inr (inl refl)
Ev-cases index_error = inr (inr (inl refl))
Ev-cases out_of_fuel = inr (inr (inr refl))

value-injective : (a b : ℤ) → value a ≡ value b → a ≡ b
value-injective a b h = cc h

-- What is below the lower one is below both.
below_lower :
    (acc : Option ℤ) (addr m : ℤ)
    → AtMost m (lower acc addr)
    → AtMost m addr × ((a : ℤ) → acc ≡ some a → AtMost m a)
unfolding lower
below_lower none addr m h = (h, λ a e. absurd (cc e))
below_lower (some b) addr m h = elim (Bool-cases (ltb_ℤ addr b)) [
  | inl t ↦
      let h' : AtMost m addr = rw t at h in
      (h', λ a e. let q = some-injective _ _ e in subst (λ c. AtMost m c) q (ground arith))
  | inr t ↦
      let h' : AtMost m b = rw t at h in
      (ground arith, λ a e. let q = some-injective _ _ e in subst (λ c. AtMost m c) q h')
]

lower-cases : (acc : Option ℤ) (addr : ℤ) → (lower acc addr ≡ addr) ⊎ (acc ≡ some (lower acc addr))
unfolding lower
lower-cases none addr = inl refl
lower-cases (some b) addr = elim (Bool-cases (ltb_ℤ addr b)) [
  | inl t ↦ inl (rw t refl)
  | inr t ↦ inr (rw t refl)
]

-- What is known of the floor `m`, from the items that are left and the least address so far.
record FloorOf (equs items : Equs) (acc : Option ℤ) (m : ℤ) : Type 0 where
  below : IsBelow equs m items
  below_acc : (a : ℤ) → acc ≡ some a → AtMost m a
  among : IsAmong equs m items ⊎ (acc ≡ some m)

-- An item with the address `addr` has been taken in.
with_address :
    (equs : Equs) (name : List ℕ) (e : Equ) (items : Equs) (acc : Option ℤ) (m addr : ℤ)
    → (text_eq name (codes "PROG_BASE") || not e.on_prog_base) ≡ false
    → eval_expr e.tokens equs ≡ value addr
    → FloorOf equs items (some (lower acc addr)) m
    → FloorOf equs ((name, e) ∷ items) acc m
with_address equs name e items acc m addr b v r =
    let low = below_lower acc addr m (r.below_acc (lower acc addr) refl) in
    record {
      below = (
        (λ t a w.
            let q : addr ≡ a = value-injective addr a (sym v ∙ w) in
            subst (λ c. AtMost m c) q low.0),
        r.below,
      );
      below_acc = low.1;
      among = elim r.among [
        | inl i ↦ inl (inr i)
        | inr q ↦
            let same : lower acc addr ≡ m = some-injective _ _ q in
            elim (lower-cases acc addr) [
              | inl l ↦ inl (inl (rw b refl, v ∙ ap value (sym l ∙ same)))
              | inr l ↦ inr (l ∙ q)
            ]
      ];
    }

floor_from-FloorOf :
    (equs items : Equs) (acc : Option ℤ) (m : ℤ)
    → floor_from equs items acc ≡ some (some m)
    → FloorOf equs items acc m
unfolding floor_from
floor_from-FloorOf equs [] acc m h =
    let q : acc ≡ some m = some-injective _ _ h in
    record {
      below = tt;
      below_acc = λ a e. let same : m ≡ a = some-injective _ _ (sym q ∙ e) in rw same (omega arith);
      among = inr q;
    }
floor_from-FloorOf equs ((name, e) ∷ items) acc m h =
    elim (Bool-cases (text_eq name (codes "PROG_BASE") || not e.on_prog_base)) [
      | inl b ↦
          let r = floor_from-FloorOf equs items acc m (rw b at h) in
          record {
            below = ((λ t. absurd (let t' = rw b at t in cc t')), r.below);
            below_acc = r.below_acc;
            among = elim r.among [ inl i ↦ inl (inr i) | inr q ↦ inr q ];
          }
      | inr b ↦
          let h1 = rw b at h in
          elim (Ev-cases (eval_expr e.tokens equs)) [
            | inl (addr, v) ↦
                let r = floor_from-FloorOf equs items (some (lower acc addr)) m (rw v at h1) in
                with_address equs name e items acc m addr b v r
            | inr (inl v) ↦
                let r = floor_from-FloorOf equs items acc m (rw v at h1) in
                record {
                  below = ((λ t addr w. absurd (cc (v, w))), r.below);
                  below_acc = r.below_acc;
                  among = elim r.among [ inl i ↦ inl (inr i) | inr q ↦ inr q ];
                }
            | inr (inr (inl v)) ↦ absurd (let h2 = rw v at h1 in cc h2)
            | inr (inr (inr v)) ↦ absurd (let h2 = rw v at h1 in cc h2)
          ]
    ]

-- The floor is the address of one of the equates that are given relative to PROG_BASE, other than
-- PROG_BASE itself, and none of these that has a value lies lower.
pub floor-least :
    (equs : Equs) (m : ℤ) → floor equs ≡ some (some m) → IsAmong equs m equs × IsBelow equs m equs
unfolding floor
floor-least equs m h =
    let r = floor_from-FloorOf equs equs none m h in
    (elim r.among [ inl i ↦ i | inr q ↦ absurd (cc q) ], r.below)
