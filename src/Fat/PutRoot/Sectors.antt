-- ===== src/Fat/PutRoot/Sectors.antt =====
-- The loop of `putroot` of tools/fat12-proto/fatx.py over the sectors of the root directory.
use elf_dos.Base.{
  subst, ℕ, ◌<◌, zero, suc, ◌+◌, ◌*◌, ◌≤◌, ◌≡◌, refl, sym, ap, ◌∙◌, inl, inr, ◌⊎◌, some, none,
  some-injective, List, ◌++◌, arith, length, take, drop, length-take, length-drop, Option-cases,
}
use elf_dos.Fat.Vol.{Vol, sec, rd, wr, read_at, overwrite}
use elf_dos.Fat.Regions.{
  length-overwrite, read-overwrite_self, read-overwrite_before, read-overwrite_behind,
}
use elf_dos.Fat.Dir.{slots_from, slots_at}
use elf_dos.Fat.PutRoot.{assign_slice, free_slot, put_entry}
use elf_dos.Fat.PutRoot.Place.{
  Placed, Placed-append, append-Placed, assign_slice-overwrite, free_slot-none, free_slot-Placed,
}

-- What `put_entry` has done to the `n` sectors from `s` on.
pub record Entered (v : Vol) (n s : ℕ) (e : List ℕ) (w : Vol) : Type 0 where
  pub only_file : w ≡ record v { file = w.file }
  pub size : length w.file ≡ length v.file
  pub elsewhere :
      (p k : ℕ)
      → (p + k ≤ v.base + s * sec) ⊎ (v.base + (s + n) * sec ≤ p)
      → take k (drop p w.file) ≡ take k (drop p v.file)
  pub placed : Placed e (slots_at v n s) (slots_at w n s)

pub length-rd : (v : Vol) (s : ℕ) → v.base + (s + 1) * sec ≤ length v.file → length (rd v s 1) ≡ 512
unfolding rd read_at
length-rd v s h = omega (
  arith,
  length-take (1 * sec) (drop (v.base + s * sec) v.file),
  length-drop (v.base + s * sec) v.file,
)

-- A sector that is read alike.
pub rd-same :
    (v w : Vol) (t n : ℕ)
    → w.base ≡ v.base
    → take (n * sec) (drop (v.base + t * sec) w.file)
      ≡ take (n * sec) (drop (v.base + t * sec) v.file)
    → rd w t n ≡ rd v t n
unfolding rd read_at
rd-same v w t n e h = ap (λ (b : ℕ). take (n * sec) (drop (b + t * sec) w.file)) e ∙ h

pub slots_at-same :
    (n s : ℕ) (v w : Vol)
    → ((t : ℕ) → s ≤ t → t < s + n → rd w t 1 ≡ rd v t 1)
    → slots_at w n s ≡ slots_at v n s
unfolding slots_at
slots_at-same zero s v w h = refl
slots_at-same (suc n) s v w h =
    ap (λ b. slots_from 16 0 b ++ slots_at w n (s + 1)) (h s (omega arith) (omega arith))
    ∙ ap (λ t. slots_from 16 0 (rd v s 1) ++ t)
        (slots_at-same n (s + 1) v w (λ t lo hi. h t (omega arith) (omega arith)))

-- The sector with the free slot is written.
module _ (v : Vol) (n s q : ℕ) (e : List ℕ) (len : length e ≡ 32)
    (fits : v.base + (s + suc n) * sec ≤ length v.file)
    (f : free_slot 16 0 (rd v s 1) ≡ some (some q)) where
  b512 : length (rd v s 1) ≡ 512
  b512 = length-rd v s (omega arith)

  in_sector :
      (0 ≤ q)
      × (q + 32 ≤ length (rd v s 1))
      × Placed e (slots_from 16 0 (rd v s 1)) (slots_from 16 0 (overwrite (rd v s 1) q e))
  in_sector = free_slot-Placed 16 0 q e (rd v s 1) len (omega (arith, b512)) f

  sector-overwrite : assign_slice q (q + 32) e (rd v s 1) ≡ overwrite (rd v s 1) q e
  sector-overwrite = assign_slice-overwrite q e (rd v s 1) len in_sector.1

  whole : length (assign_slice q (q + 32) e (rd v s 1)) ≡ 512
  whole =
      ap length sector-overwrite
      ∙ length-overwrite (rd v s 1) q e (omega (arith, len, in_sector.1))
      ∙ b512

  abbrev next_file : List ℕ
  next_file = overwrite v.file (v.base + s * sec) (assign_slice q (q + 32) e (rd v s 1))

  inside : v.base + s * sec + length (assign_slice q (q + 32) e (rd v s 1)) ≤ length v.file
  inside = omega (arith, whole)

  file_behind :
      (p k : ℕ) → v.base + (s + 1) * sec ≤ p → take k (drop p next_file) ≡ take k (drop p v.file)
  file_behind p k h = read-overwrite_behind v.file _ _ inside p k (omega (arith, whole))

  rd_self : rd (record v { file = next_file }) s 1 ≡ overwrite (rd v s 1) q e
  unfolding rd read_at
  rd_self =
      ap (λ (k : ℕ). take k (drop (v.base + s * sec) next_file)) {x = 1 * sec}
        {y = length (assign_slice q (q + 32) e (rd v s 1))} (omega (arith, whole))
      ∙ read-overwrite_self v.file _ _ inside
      ∙ sector-overwrite

  rd_later : (t : ℕ) → s + 1 ≤ t → rd (record v { file = next_file }) t 1 ≡ rd v t 1
  unfolding rd read_at
  rd_later t h = file_behind (v.base + t * sec) (1 * sec) (omega arith)

  here-Placed : Placed e (slots_at v (suc n) s) (slots_at (record v { file = next_file }) (suc n) s)
  unfolding slots_at
  here-Placed =
      subst (λ t. Placed e (slots_from 16 0 (rd v s 1) ++ slots_at v n (s + 1)) t)
        (sym (
          ap (λ b. slots_from 16 0 b ++ slots_at (record v { file = next_file }) n (s + 1)) rd_self
          ∙ ap (λ t. slots_from 16 0 (overwrite (rd v s 1) q e) ++ t)
              (slots_at-same n (s + 1) v (record v { file = next_file })
                (λ t lo hi. rd_later t lo))))
        (Placed-append e _ _ (slots_at v n (s + 1)) in_sector.2)

  here-Entered : Entered v (suc n) s e (wr v s (assign_slice q (q + 32) e (rd v s 1)))
  unfolding wr
  here-Entered = record {
    only_file = refl;
    size = length-overwrite v.file _ _ inside;
    elsewhere = λ p k o. elim o [
      | inl a ↦ read-overwrite_before v.file _ _ inside p k a
      | inr a ↦ file_behind p k (omega arith)
    ];
    placed = here-Placed;
  }

-- The sector is full, and the entry is in a later one.
later-Entered :
    (v : Vol) (n s : ℕ) (e : List ℕ) (w : Vol)
    → free_slot 16 0 (rd v s 1) ≡ some none
    → Entered v n (s + 1) e w
    → Entered v (suc n) s e w
unfolding slots_at
later-Entered v n s e w g i =
    let same : rd w s 1 ≡ rd v s 1 =
      rd-same v w s 1 (ap (λ (x : Vol). x.base) i.only_file)
        (i.elsewhere (v.base + s * sec) (1 * sec) (inl (omega arith))) in
    record {
      only_file = i.only_file;
      size = i.size;
      elsewhere = λ p k o.
          i.elsewhere p k (elim o [ inl a ↦ inl (omega arith) | inr a ↦ inr (omega arith) ]);
      placed =
          subst (λ b. Placed e (slots_at v (suc n) s) (slots_from 16 0 b ++ slots_at w n (s + 1)))
            (sym same)
            (append-Placed e (slots_from 16 0 (rd v s 1)) (slots_at v n (s + 1))
              (slots_at w n (s + 1)) (free_slot-none 16 0 (rd v s 1) g) i.placed);
    }

-- `putroot` puts the entry over the first free slot of the root directory, and writes nothing but
-- sectors of the root directory.
pub put_entry-Entered :
    (v : Vol) (n s : ℕ) (e : List ℕ) (w : Vol)
    → length e ≡ 32
    → v.base + (s + n) * sec ≤ length v.file
    → put_entry n s e v ≡ some w
    → Entered v n s e w
unfolding put_entry
put_entry-Entered v zero s e w len fits h = absurd (cc)
put_entry-Entered v (suc n) s e w len fits h = elim (Option-cases (free_slot 16 0 (rd v s 1))) [
  | inl z ↦ absurd (let h1 = rw (put_entry, z) at h in cc h1)
  | inr (none, g) ↦
      later-Entered v n s e w g
        (put_entry-Entered v n (s + 1) e w len (omega arith) (rw (put_entry, g) at h))
  | inr (some q, g) ↦
      subst (λ x. Entered v (suc n) s e x) (some-injective _ _ (rw (put_entry, g) at h))
        (here-Entered v n s q e len fits g)
]
