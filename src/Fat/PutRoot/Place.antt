-- ===== src/Fat/PutRoot/Place.antt =====
-- Where the loop of `putroot` of tools/fat12-proto/fatx.py puts the new entry in the root directory.
use elf_dos.Base.{
  subst, ℕ, zero, suc, ◌+◌, ◌-◌, ◌*◌, ◌≤◌, ◌≡◌, refl, sym, ap, ◌∙◌, Bool, true, false, ◌||◌, inl,
  inr, some, none, some-injective, List, [], ◌∷◌, ◌++◌, arith, length, take, drop, slice, get_elem?,
  All, ◌==◌, Option-cases, Bool-cases, append_assoc,
}
use elf_dos.Fat.Vol.{overwrite}
use elf_dos.Fat.Regions.{
  read-overwrite_self, read-overwrite_before, read-overwrite_behind, overwrite_inside,
}
use elf_dos.Fat.Dir.{slots_from}
use elf_dos.Fat.PutRoot.{assign_slice, free_slot}

-- The first byte of the slot is there, and whether it says that the slot is free.
abbrev pub Starts : Bool → List ℕ → Type 0
Starts b s = (k : ℕ) × (get_elem? s 0 ≡ some k) × ((k == 0 || k == 0xE5) ≡ b)

-- The second list of slots is the first one with the entry in the place of the first free slot.
pub record Placed (e : List ℕ) (slots slots' : List (List ℕ)) : Type 0 where
  pub before : List (List ℕ)
  pub old : List ℕ
  pub behind : List (List ℕ)
  pub was : slots ≡ before ++ old ∷ behind
  pub now : slots' ≡ before ++ e ∷ behind
  pub used : All (Starts false) before
  pub free : Starts true old

pub Placed-cons :
    (e s : List ℕ) (xs ys : List (List ℕ))
    → Starts false s
    → Placed e xs ys
    → Placed e (s ∷ xs) (s ∷ ys)
Placed-cons e s xs ys u p = record {
  before = s ∷ p.before;
  old = p.old;
  behind = p.behind;
  was = ap (λ t. s ∷ t) p.was;
  now = ap (λ t. s ∷ t) p.now;
  used = (u, p.used);
  free = p.free;
}

pub Placed-append :
    (e : List ℕ) (xs ys zs : List (List ℕ)) → Placed e xs ys → Placed e (xs ++ zs) (ys ++ zs)
Placed-append e xs ys zs p = record {
  before = p.before;
  old = p.old;
  behind = p.behind ++ zs;
  was = ap (λ t. t ++ zs) p.was ∙ append_assoc p.before (p.old ∷ p.behind) zs;
  now = ap (λ t. t ++ zs) p.now ∙ append_assoc p.before (e ∷ p.behind) zs;
  used = p.used;
  free = p.free;
}

pub append-Placed :
    (e : List ℕ) (zs xs ys : List (List ℕ))
    → All (Starts false) zs
    → Placed e xs ys
    → Placed e (zs ++ xs) (zs ++ ys)
append-Placed e [] xs ys u p = p
append-Placed e (z ∷ zs) xs ys u p =
    Placed-cons e z (zs ++ xs) (zs ++ ys) u.0 (append-Placed e zs xs ys u.1 p)

head-slice : (n o : ℕ) (b : List ℕ) → get_elem? (take (suc n) (drop o b)) 0 ≡ get_elem? b o
head-slice n zero [] = refl
head-slice n zero (x ∷ b) = refl
head-slice n (suc o) [] = refl
head-slice n (suc o) (x ∷ b) = head-slice n o b

pub head-slot : (o : ℕ) (b : List ℕ) → get_elem? (slice o (o + 32) b) 0 ≡ get_elem? b o
head-slot o b =
    ap (λ (n : ℕ). get_elem? (take n (drop o b)) 0) {x = o + 32 - o} {y = suc 31} (omega arith)
    ∙ head-slice 31 o b

-- Slots that are read alike.
pub slots_from-same :
    (n o : ℕ) (b b' : List ℕ)
    → ((p k : ℕ) → o ≤ p → take k (drop p b') ≡ take k (drop p b))
    → slots_from n o b' ≡ slots_from n o b
unfolding slots_from
slots_from-same zero o b b' h = refl
slots_from-same (suc n) o b b' h =
    ap (λ s. s ∷ slots_from n (o + 32) b') (h o (o + 32 - o) (omega arith))
    ∙ ap (λ t. slice o (o + 32) b ∷ t)
        (slots_from-same n (o + 32) b b' (λ p k le. h p k (omega arith)))

-- `b[o:o + 32] = e` inside of a sector is a write.
pub assign_slice-overwrite :
    (o : ℕ) (e b : List ℕ)
    → length e ≡ 32
    → o + 32 ≤ length b
    → assign_slice o (o + 32) e b ≡ overwrite b o e
unfolding assign_slice
assign_slice-overwrite o e b len fits =
    ap (λ (k : ℕ). take o b ++ (e ++ drop (o + k) b)) (sym len)
    ∙ sym (overwrite_inside b o e (omega arith))

-- No free slot: all are in use.
pub free_slot-none :
    (n o : ℕ) (b : List ℕ) → free_slot n o b ≡ some none → All (Starts false) (slots_from n o b)
unfolding free_slot slots_from
free_slot-none zero o b h = tt
free_slot-none (suc n) o b h = elim (Option-cases (get_elem? b o)) [
  | inl z ↦ absurd (let h1 = rw (free_slot, z) at h in cc h1)
  | inr (k, g) ↦
      let h1 = rw (free_slot, g) at h in
      elim (Bool-cases (k == 0 || k == 0xE5)) [
        | inl t ↦ absurd (let h2 = rw t at h1 in cc h2)
        | inr t ↦ ((k, head-slot o b ∙ g, t), free_slot-none n (o + 32) b (rw t at h1))
      ]
]

-- The slot that is found, and the sector with the entry in it.
pub free_slot-Placed :
    (n o q : ℕ) (e b : List ℕ)
    → length e ≡ 32
    → o + n * 32 ≤ length b
    → free_slot n o b ≡ some (some q)
    → (o ≤ q) × (q + 32 ≤ length b) × Placed e (slots_from n o b) (slots_from n o (overwrite b q e))
unfolding free_slot slots_from
free_slot-Placed zero o q e b len fits h = absurd (cc)
free_slot-Placed (suc n) o q e b len fits h = elim (Option-cases (get_elem? b o)) [
  | inl z ↦ absurd (let h1 = rw (free_slot, z) at h in cc h1)
  | inr (k, g) ↦
      let h1 = rw (free_slot, g) at h in
      elim (Bool-cases (k == 0 || k == 0xE5)) [
        | inl t ↦
            let same : o ≡ q = some-injective _ _ (some-injective _ _ (rw t at h1)) in
            (
              omega (arith, same),
              omega (arith, same),
              subst
                  (λ (j : ℕ).
                    Placed e (slice o (o + 32) b ∷ slots_from n (o + 32) b) (
                      slice o (o + 32) (overwrite b j e) ∷ slots_from n (o + 32) (overwrite b j e)))
                  same (here n o e b len (omega arith) (k, head-slot o b ∙ g, t)),
            )
        | inr t ↦
            let (le, inside, p) =
              free_slot-Placed n (o + 32) q e b len (omega arith) (rw t at h1) in
            (
              omega arith,
              inside,
              subst
                  (λ s.
                    Placed e (slice o (o + 32) b ∷ slots_from n (o + 32) b)
                      (s ∷ slots_from n (o + 32) (overwrite b q e)))
                  (sym (read-overwrite_before b q e (omega arith) o (o + 32 - o) (omega arith)))
                  (Placed-cons e (slice o (o + 32) b) _ _ (k, head-slot o b ∙ g, t) p),
            )
      ]
]
  where
    here :
        (n o : ℕ) (e b : List ℕ)
        → length e ≡ 32
        → o + 32 ≤ length b
        → Starts true (slice o (o + 32) b)
        → Placed e
            (slice o (o + 32) b ∷ slots_from n (o + 32) b)
            (slice o (o + 32) (overwrite b o e) ∷ slots_from n (o + 32) (overwrite b o e))
    here n o e b len fits f = record {
      before = [];
      old = slice o (o + 32) b;
      behind = slots_from n (o + 32) b;
      was = refl;
      now =
          ap (λ s. s ∷ slots_from n (o + 32) (overwrite b o e))
            (ap (λ (k : ℕ). take k (drop o (overwrite b o e))) {x = o + 32 - o} {y = length e}
                (omega (arith, len))
              ∙ read-overwrite_self b o e (omega (arith, len)))
          ∙ ap (λ t. e ∷ t)
              (slots_from-same n (o + 32) b (overwrite b o e) (λ p k le.
                read-overwrite_behind b o e (omega (arith, len)) p k (omega (arith, len))));
      used = tt;
      free = f;
    }
