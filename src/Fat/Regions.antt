-- ===== src/Fat/Regions.antt =====
-- A write inside of a file, read back and read beside.
use elf_dos.Base.{
  ℕ, zero, suc, ◌+◌, ◌-◌, ◌≤◌, ◌≡◌, refl, sym, ap, ◌∙◌, List, [], ◌∷◌, ◌++◌, arith, length, take,
  drop, length-append, length-take, length-drop, take-append, drop-append, drop-drop, append_assoc,
  take-append-drop,
}
use elf_dos.Fat.Vol.{overwrite}

module _ {A : Type 0} where
  take-append_le : (n : ℕ) (xs ys : List A) → n ≤ length xs → take n (xs ++ ys) ≡ take n xs
  take-append_le zero xs ys h = refl
  take-append_le (suc n) [] ys h = absurd (omega arith)
  take-append_le (suc n) (x ∷ xs) ys h = ap (λ t. x ∷ t) (take-append_le n xs ys (omega arith))

  drop-append_le : (n : ℕ) (xs ys : List A) → n ≤ length xs → drop n (xs ++ ys) ≡ drop n xs ++ ys
  drop-append_le zero xs ys h = refl
  drop-append_le (suc n) [] ys h = absurd (omega arith)
  drop-append_le (suc n) (x ∷ xs) ys h = drop-append_le n xs ys (omega arith)

  take-drop-take :
      (n p o : ℕ) (xs : List A) → p + n ≤ o → take n (drop p (take o xs)) ≡ take n (drop p xs)
  take-drop-take n zero o [] h = ap (λ t. take n t) (take_nil o)
    where
      take_nil : (k : ℕ) → take {A = A} k [] ≡ []
      take_nil zero = refl
      take_nil (suc k) = refl
  take-drop-take zero zero o (x ∷ xs) h = refl
  take-drop-take (suc n) zero zero (x ∷ xs) h = absurd (omega arith)
  take-drop-take (suc n) zero (suc o) (x ∷ xs) h =
      ap (λ t. x ∷ t) (take-drop-take n zero o xs (omega arith))
  take-drop-take n (suc p) zero xs h = absurd (omega arith)
  take-drop-take n (suc p) (suc o) [] h = refl
  take-drop-take n (suc p) (suc o) (x ∷ xs) h = take-drop-take n p o xs (omega arith)

pub overwrite_inside :
    (file : List ℕ) (o : ℕ) (bytes : List ℕ)
    → o + length bytes ≤ length file
    → overwrite file o bytes ≡ take o file ++ (bytes ++ drop (o + length bytes) file)
unfolding overwrite
overwrite_inside file o [] fits =
    sym (take-append-drop o file) ∙ ap (λ (k : ℕ). take o file ++ drop k file) (omega arith)
overwrite_inside file o (b ∷ bytes) fits = let z : o - length file ≡ 0 = omega arith in rw z refl

module _ (file : List ℕ) (o : ℕ) (bytes : List ℕ) (fits : o + length bytes ≤ length file) where
  abbrev inside : overwrite file o bytes ≡ take o file ++ (bytes ++ drop (o + length bytes) file)
  inside = overwrite_inside file o bytes fits

  length-left : length (take o file) ≡ o
  length-left = omega (arith, length-take o file)

  pub length-overwrite : length (overwrite file o bytes) ≡ length file
  length-overwrite =
      ap length inside
      ∙ length-append (take o file) _
      ∙ omega (
        arith,
        length-left,
        length-append bytes (drop (o + length bytes) file),
        length-drop (o + length bytes) file,
      )

  -- What was written.
  pub read-overwrite_self : take (length bytes) (drop o (overwrite file o bytes)) ≡ bytes
  read-overwrite_self =
      ap (λ t. take (length bytes) (drop o t)) inside
      ∙ ap
          (λ (k : ℕ).
            take (length bytes) (drop k (take o file ++ (bytes ++ drop (o + length bytes) file))))
          (sym length-left)
      ∙ ap (λ t. take (length bytes) t) (drop-append (take o file) _)
      ∙ take-append bytes _

  -- What lies before or behind it.
  pub read-overwrite_before :
      (p n : ℕ) → p + n ≤ o → take n (drop p (overwrite file o bytes)) ≡ take n (drop p file)
  read-overwrite_before p n h =
      ap (λ t. take n (drop p t)) inside
      ∙ ap (λ t. take n t) (drop-append_le p (take o file) _ (omega (arith, length-left)))
      ∙ take-append_le n (drop p (take o file)) _
          (omega (arith, length-left, length-drop p (take o file)))
      ∙ take-drop-take n p o file h

  pub read-overwrite_behind :
      (p n : ℕ)
      → o + length bytes ≤ p
      → take n (drop p (overwrite file o bytes)) ≡ take n (drop p file)
  read-overwrite_behind p n h =
      let q : ℕ = p - (o + length bytes) in
      let split : p ≡ (o + length bytes) + q = omega arith in
      let left : List ℕ = take o file ++ bytes in
      let len : length left ≡ o + length bytes =
        length-append (take o file) bytes ∙ omega (arith, length-left) in
      ap (λ t. take n (drop p t)) (inside ∙ sym (append_assoc (take o file) bytes _))
      ∙ ap (λ (k : ℕ). take n (drop k (left ++ drop (o + length bytes) file))) {x = p}
          {y = length left + q} (omega (arith, len))
      ∙ ap (λ t. take n t) (drop-drop (length left) q _)
      ∙ ap (λ t. take n (drop q t)) (drop-append left _)
      ∙ ap (λ t. take n t) (sym (drop-drop (o + length bytes) q file))
      ∙ ap (λ (k : ℕ). take n (drop k file)) (sym split)
