-- ===== src/Base/Scan.antt =====
-- Scanning a text: the longest start of characters of a kind, as a regular expression takes it.
use elf_dos.Base.Tests.{leb, ◌==◌, if◌then◌else◌}
use elf_dos.Base.Lists.{All}
use Prim.Native.Nat.{ℕ}
use mathlib.Core.Path.{◌≡◌, refl}
use mathlib.Core.Bool.{Bool, true, false, ◌||◌, ◌&&◌}
use mathlib.Core.List.{List, [], ◌∷◌, ◌++◌}

unfoldable pub is_letter : ℕ → Bool
is_letter c = (leb b'A' c && leb c b'Z') || (leb b'a' c && leb c b'z') || c == b'_'

unfoldable pub is_name_char : ℕ → Bool
unfolding is_letter
is_name_char c = is_letter c || (leb b'0' c && leb c b'9')

-- The longest start of characters of a kind, and what follows.
unfoldable pub span : (ℕ → Bool) → List ℕ → List ℕ × List ℕ
span p [] = ([], [])
span p (c ∷ s) = let r = span p s in if p c then (c ∷ r.0, r.1) else ([], c ∷ s)

-- The next character is of another kind, or there is none.
abbrev pub Stops : (ℕ → Bool) → List ℕ → Type 0
Stops p [] = Unit
Stops p (c ∷ s) = p c ≡ false

pub span-Stops :
    (p : ℕ → Bool) (xs s : List ℕ)
    → All (λ c. p c ≡ true) xs
    → Stops p s
    → span p (xs ++ s) ≡ (xs, s)
unfolding span
span-Stops p [] [] h k = refl
span-Stops p [] (c ∷ s) h k = rw (span, k) refl
span-Stops p (x ∷ xs) s h k = rw (span, h.0, span-Stops p xs s h.1 k) refl
