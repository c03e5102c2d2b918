-- ===== src/Fat/Free.antt =====
-- The free clusters that `putroot` of tools/fat12-proto/fatx.py takes.
use elf_dos.Base.{
  bind-some, ==_iff, ap, ◌∙◌, ℕ, zero, suc, ◌+◌, ◌-◌, ◌≤◌, ◌<◌, ◌≡◌, some, some-injective, List, [],
  ◌∷◌, arith, length, take, All, ◌==◌, if◌then◌else◌, Option-cases, Bool-cases, inl, inr,
}
use elf_dos.Fat.Vol.{Vol, get, free_from}
use elf_dos.Fat.Link.{Avoids, AreDistinct}

-- The clusters lie from `c` on, below `c + n`, and rise.
abbrev pub AreWithin : ℕ → ℕ → List ℕ → Type 0
AreWithin c n [] = Unit
AreWithin c n (x ∷ xs) = (c ≤ x) × (x < c + n) × AreWithin (x + 1) (c + n - (x + 1)) xs

AreWithin-mono :
    (c d n m : ℕ) (xs : List ℕ) → c ≤ d → d + m ≤ c + n → AreWithin d m xs → AreWithin c n xs
AreWithin-mono c d n m [] le h w = tt
AreWithin-mono c d n m (x ∷ xs) le h w = (
  omega (arith, w.0),
  omega (arith, w.1),
  AreWithin-mono (x + 1) (x + 1) (c + n - (x + 1)) (d + m - (x + 1)) xs (omega arith)
      (omega (arith, w.1)) w.2,
)

pub free_from-AreWithin :
    (v : Vol) (n c : ℕ) (cs : List ℕ) → free_from v n c ≡ some cs → AreWithin c n cs
unfolding free_from
free_from-AreWithin v zero c cs h = let same : [] ≡ cs = some-injective _ _ h in rw (← same) tt
free_from-AreWithin v (suc n) c cs h = elim (Option-cases (get v c)) [
  | inl z ↦ absurd (let h1 = rw z at h in cc h1)
  | inr (e, g) ↦
      let h1 = rw g at h in
      elim (Option-cases (free_from v n (c + 1))) [
        | inl z ↦ absurd (let h2 = rw z at h1 in cc h2)
        | inr (rest, f) ↦
            let h2 : some (if e == 0 then c ∷ rest else rest) ≡ some cs = rw f at h1 in
            let ih = free_from-AreWithin v n (c + 1) rest f in
            elim (Bool-cases (e == 0)) [
              | inl b ↦
                  let same : c ∷ rest ≡ cs = some-injective _ _ (rw b at h2) in
                  rw (← same) (
                    omega arith,
                    omega arith,
                    AreWithin-mono (c + 1) (c + 1) (c + suc n - (c + 1)) n rest (omega arith)
                        (omega arith) ih,
                  )
              | inr b ↦
                  let same : rest ≡ cs = some-injective _ _ (rw b at h2) in
                  rw (← same)
                    (AreWithin-mono c (c + 1) (suc n) n rest (omega arith) (omega arith) ih)
            ]
      ]
]

pub take-AreWithin : (k c n : ℕ) (cs : List ℕ) → AreWithin c n cs → AreWithin c n (take k cs)
take-AreWithin zero c n cs w = tt
take-AreWithin (suc k) c n [] w = tt
take-AreWithin (suc k) c n (x ∷ cs) w =
    (w.0, w.1, take-AreWithin k (x + 1) (c + n - (x + 1)) cs w.2)

Avoids-lower : (d c n : ℕ) (cs : List ℕ) → d < c → AreWithin c n cs → Avoids d cs
Avoids-lower d c n [] lt w = tt
Avoids-lower d c n (x ∷ cs) lt w =
    (omega (arith, w.0), Avoids-lower d (x + 1) (c + n - (x + 1)) cs (omega (arith, w.0)) w.2)

pub AreWithin-AreDistinct : (c n : ℕ) (cs : List ℕ) → AreWithin c n cs → AreDistinct cs
AreWithin-AreDistinct c n [] w = tt
AreWithin-AreDistinct c n (x ∷ cs) w = (
  Avoids-lower x (x + 1) (c + n - (x + 1)) cs (omega arith) w.2,
  AreWithin-AreDistinct (x + 1) (c + n - (x + 1)) cs w.2,
)

pub length-AreWithin : (c n : ℕ) (cs : List ℕ) → AreWithin c n cs → length cs ≤ n
length-AreWithin c n [] w = omega arith
length-AreWithin c n (x ∷ cs) w =
    omega (arith, w.0, w.1, length-AreWithin (x + 1) (c + n - (x + 1)) cs w.2)

-- What holds of every number in the range holds of all the clusters.
pub All-AreWithin :
    (P : ℕ → Type 0) (c n : ℕ) (cs : List ℕ)
    → ((x : ℕ) → c ≤ x → x < c + n → P x)
    → AreWithin c n cs
    → All P cs
All-AreWithin P c n [] h w = tt
All-AreWithin P c n (x ∷ cs) h w = (
  h x w.0 w.1,
  All-AreWithin P (x + 1) (c + n - (x + 1)) cs
      (λ y lo hi. h y (omega (arith, w.0)) (omega (arith, w.1))) w.2,
)

-- Their entries are 0.
pub free_from-IsFree :
    (v : Vol) (n c : ℕ) (cs : List ℕ) → free_from v n c ≡ some cs → All (λ x. get v x ≡ some 0) cs
unfolding free_from
free_from-IsFree v zero c cs h = let same : [] ≡ cs = some-injective _ _ h in rw (← same) tt
free_from-IsFree v (suc n) c cs h =
    let (e, g, h1) = bind-some (get v c) _ h in
    let (rest, f, h2) = bind-some (free_from v n (c + 1)) _ h1 in
    let ih = free_from-IsFree v n (c + 1) rest f in
    elim (Bool-cases (e == 0)) [
      | inl b ↦
          let same : c ∷ rest ≡ cs = some-injective _ _ (rw b at h2) in
          rw (← same) (g ∙ ap some ((==_iff e 0).0 b), ih)
      | inr b ↦ let same : rest ≡ cs = some-injective _ _ (rw b at h2) in rw (← same) ih
    ]
