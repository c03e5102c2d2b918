-- ===== src/Base/Text.antt =====
-- Byte strings.
use Prim.Native.Char.{code}
use Prim.Native.String.{String}
use Prim.Native.Nat.{ℕ, ◌+◌, ◌≤◌, ◌<◌}
use mathlib.Core.Path.{◌≡◌}
use mathlib.Core.Logic.{◌↔◌, inl, inr}
use mathlib.Core.Bool.{Bool, true, false, ◌&&◌, ◌||◌}
use mathlib.Core.Option.{Option, none, some}
use mathlib.Core.List.{List, [], ◌∷◌}
use native.Mathlib.Omega.{arith}
use elf_dos.Base.Tests.{◌==◌, if◌then◌else◌, Bool-cases}
use elf_dos.Base.Lists.{length}

-- The bytes of an ASCII literal, `b"..."`.
abbrev pub codes : String → List ℕ
codes String.[] = []
codes (String.◌∷◌ c s) = code c ∷ codes s

-- `==` of two byte strings.
unfoldable pub text_eq : List ℕ → List ℕ → Bool
text_eq [] [] = true
text_eq [] (y ∷ t) = false
text_eq (x ∷ s) [] = false
text_eq (x ∷ s) (y ∷ t) = x == y && text_eq s t

pub text_eq_iff : (s t : List ℕ) → (text_eq s t ≡ true) ↔ (s ≡ t)
unfolding text_eq
text_eq_iff [] [] = ground arith
text_eq_iff [] (y ∷ t) = ground arith
text_eq_iff (x ∷ s) [] = ground arith
text_eq_iff (x ∷ s) (y ∷ t) = ground (arith, text_eq_iff s t)

-- A dictionary as its list of items, looked up by key.
unfoldable pub lookup_text : {V : Type 0} → List ℕ → List (List ℕ × V) → Option V
lookup_text k [] = none
lookup_text k ((j, v) ∷ items) = if text_eq j k then some v else lookup_text k items

-- `k in seen`
unfoldable pub has_text : List ℕ → List (List ℕ) → Bool
has_text k [] = false
has_text k (j ∷ seen) = text_eq j k || has_text k seen

-- The items whose keys have not been seen.
unfoldable pub unseen : {V : Type 0} → List (List ℕ × V) → List (List ℕ) → ℕ
unseen [] seen = 0
unseen ((j, v) ∷ items) seen = (if has_text j seen then 0 else 1) + unseen items seen

unseen_le :
    {V : Type 0} (items : List (List ℕ × V)) (k : List ℕ) (seen : List (List ℕ))
    → unseen items (k ∷ seen) ≤ unseen items seen
unfolding unseen has_text
unseen_le [] k seen = omega arith
unseen_le ((j, v) ∷ items) k seen = ground (arith, unseen_le items k seen)

-- A key that is looked up for the first time leaves fewer items unseen.
pub unseen_lt :
    {V : Type 0} (items : List (List ℕ × V)) (k : List ℕ) (seen : List (List ℕ)) {v : V}
    → lookup_text k items ≡ some v
    → has_text k seen ≡ false
    → unseen items (k ∷ seen) < unseen items seen
unfolding unseen has_text lookup_text
unseen_lt [] k seen e fresh = absurd (cc)
unseen_lt ((j, u) ∷ items) k seen e fresh = elim (Bool-cases (text_eq j k)) [
  | inl same ↦
      let q : j ≡ k = (text_eq_iff j k).0 same in
      ground (arith, unseen_le items k seen, text_eq_iff j k, text_eq_iff k j, text_eq_iff k k)
  | inr other ↦
      ground (arith, unseen_lt items k seen (rw other at e) fresh, text_eq_iff j k, text_eq_iff k j)
]

pub unseen-le-length : {V : Type 0} (items : List (List ℕ × V)) → unseen items [] ≤ length items
unfolding unseen has_text
unseen-le-length [] = omega arith
unseen-le-length ((j, v) ∷ items) = omega (arith, unseen-le-length items)
