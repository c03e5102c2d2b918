-- ===== src/Fat/Table.antt =====
-- `get` and `set` of a volume of tools/fat12-proto/fatx.py, in both formats.
use elf_dos.Base.{
  ℕ, ◌%◌, ◌≡◌, ◌≢◌, refl, true, false, some, inl, inr, arith, Bool-cases, Option-cases,
  if◌then◌else◌, length,
}
use elf_dos.Fat.Entry.{set12, set16}
use elf_dos.Fat.Entry.Laws.{
  AreBytes, get12-set12_self, get12-set12_ne, set12-AreBytes, get16-set16_self, get16-set16_ne,
  set16-AreBytes, length-set12, length-set16,
}
use elf_dos.Fat.Vol.{Vol, get, put}

-- What a successful `put` has done to the volume.
pub record Stored (v : Vol) (c n : ℕ) (v' : Vol) : Type 0 where
  pub rest : v' ≡ record v { fat = v'.fat }
  pub bytes : AreBytes v'.fat
  pub size : length v'.fat ≡ length v.fat
  pub entry : get v' c ≡ some (if v.fat12 then n % 4096 else n)
  pub others : (d : ℕ) → c ≢ d → get v' d ≡ get v d

put12-Stored :
    (v : Vol) (c n : ℕ) {v' : Vol}
    → v.fat12 ≡ true
    → AreBytes v.fat
    → put v c n ≡ some v'
    → Stored v c n v'
unfolding put get
put12-Stored v c n {v'} k bytes h = elim (Option-cases (set12 v.fat c n)) [
  | inl e ↦ absurd (ground arith)
  | inr (t, e) ↦
      let same : record v { fat = t } ≡ v' = ground arith in
      rw (← same) (record {
        rest = refl;
        bytes = set12-AreBytes v.fat c n bytes e;
        size = length-set12 v.fat c n bytes e;
        entry = rw k (get12-set12_self v.fat c n bytes e);
        others = λ d ne. rw k (get12-set12_ne v.fat c n bytes e d ne);
      })
]

put16-Stored :
    (v : Vol) (c n : ℕ) {v' : Vol}
    → v.fat12 ≡ false
    → AreBytes v.fat
    → put v c n ≡ some v'
    → Stored v c n v'
unfolding put get
put16-Stored v c n {v'} k bytes h = elim (Option-cases (set16 v.fat c n)) [
  | inl e ↦ absurd (ground arith)
  | inr (t, e) ↦
      let same : record v { fat = t } ≡ v' = ground arith in
      rw (← same) (record {
        rest = refl;
        bytes = set16-AreBytes v.fat c n bytes e;
        size = length-set16 v.fat c n e;
        entry = rw k (get16-set16_self v.fat c n e);
        others = λ d ne. rw k (get16-set16_ne v.fat c n e d ne);
      })
]

-- After a successful write of an entry, on a volume of either format, the entry holds the value
-- (its low twelve bits on FAT12), every other entry reads as before, and only the table changed.
pub put-Stored :
    (v : Vol) (c n : ℕ) (v' : Vol) → AreBytes v.fat → put v c n ≡ some v' → Stored v c n v'
put-Stored v c n v' bytes h = elim (Bool-cases v.fat12) [
  | inl k ↦ put12-Stored v c n k bytes h
  | inr k ↦ put16-Stored v c n k bytes h
]
