-- ===== src/Fat/Flush.antt =====
-- `flush` of tools/fat12-proto/fatx.py: the copies of the table on the disk.
use elf_dos.Base.{
  ℕ, zero, suc, ◌+◌, ◌*◌, ◌≤◌, ◌<◌, ◌≡◌, refl, sym, ap, ◌∙◌, List, arith, length, take, drop, inl,
  inr, Bool-cases, ◌==◌, ==_iff,
}
use native.Mathlib.Nat.{add-mul, mul-le-mul_right}
use elf_dos.Fat.Vol.{Vol, sec, wr, overwrite, flush_from, flush}
use elf_dos.Fat.Regions.{
  length-overwrite, read-overwrite_self, read-overwrite_before, read-overwrite_behind,
}

-- Where copy `i` of the table begins in the file.
abbrev pub copy_at : Vol → ℕ → ℕ
copy_at v i = v.base + (v.rsvd + i * v.spf) * sec

-- The table has its full size, and the file holds the copies up to number `n`.
pub record FitsTables (v : Vol) (n : ℕ) : Type 0 where
  pub full : length v.fat ≡ v.spf * sec
  pub held : copy_at v n ≤ length v.file

pub copy_le : (v : Vol) (i j : ℕ) → i < j → copy_at v i + v.spf * sec ≤ copy_at v j
copy_le v i j h =
    let m : (i + 1) * v.spf ≤ j * v.spf = mul-le-mul_right v.spf (omega arith) in
    omega (arith, m, add-mul i 1 v.spf)

-- What `flush` has done to `v` when copies `i` to `i + n - 1` are written.
pub record Flushed (v : Vol) (i n : ℕ) (w : Vol) : Type 0 where
  pub only_file : w ≡ record v { file = w.file }
  pub size : length w.file ≡ length v.file
  pub copies : (j : ℕ) → i ≤ j → j < i + n → take (v.spf * sec) (drop (copy_at v j) w.file) ≡ v.fat
  pub before : (p k : ℕ) → p + k ≤ copy_at v i → take k (drop p w.file) ≡ take k (drop p v.file)
  pub behind : (p k : ℕ) → copy_at v (i + n) ≤ p → take k (drop p w.file) ≡ take k (drop p v.file)

same_copy : (v : Vol) (i j : ℕ) → i ≡ j → copy_at v i ≡ copy_at v j
same_copy v i j e = ap (λ k. copy_at v k) e

-- One copy, and then the others.
next_copy :
    (v : Vol) (i n : ℕ) (file : List ℕ) (w : Vol)
    → length v.fat ≡ v.spf * sec
    → copy_at v i + length v.fat ≤ length v.file
    → file ≡ overwrite v.file (copy_at v i) v.fat
    → Flushed (record v { file = file }) (i + 1) n w
    → Flushed v i (suc n) w
next_copy v i n file w full fits e h =
    let le = copy_le v i (i + 1) (omega arith) in
    let end_at = same_copy v (i + 1 + n) (i + suc n) (omega arith) in
    let start_le : copy_at v i + v.spf * sec ≤ copy_at v (i + suc n) =
      copy_le v i (i + suc n) (omega arith) in
    record {
      only_file = h.only_file;
      size = h.size ∙ ap length e ∙ length-overwrite v.file (copy_at v i) v.fat fits;
      copies = λ j lo hi. elim (Bool-cases (j == i)) [
        | inl same ↦ rw ((==_iff j i).0 same) (
            h.before (copy_at v i) (v.spf * sec) le
            ∙ ap (λ t. take (v.spf * sec) (drop (copy_at v i) t)) e
            ∙ ap (λ (k : ℕ). take k (drop (copy_at v i) (overwrite v.file (copy_at v i) v.fat)))
                (sym full)
            ∙ read-overwrite_self v.file (copy_at v i) v.fat fits)
        | inr other ↦ h.copies j (ground arith) (omega arith)
      ];
      before = λ p k b.
          h.before p k (omega (arith, le))
          ∙ ap (λ t. take k (drop p t)) e
          ∙ read-overwrite_before v.file (copy_at v i) v.fat fits p k b;
      behind = λ p k b.
          h.behind p k (omega (arith, end_at))
          ∙ ap (λ t. take k (drop p t)) e
          ∙ read-overwrite_behind v.file (copy_at v i) v.fat fits p k
              (omega (arith, full, start_le));
    }

flush_from-Flushed : (n i : ℕ) (v : Vol) → FitsTables v (i + n) → Flushed v i n (flush_from n i v)
unfolding flush_from wr
flush_from-Flushed zero i v f = record {
  only_file = refl;
  size = refl;
  copies = λ j lo hi. absurd (omega arith);
  before = λ p k h. refl;
  behind = λ p k h. refl;
}
flush_from-Flushed (suc n) i v f =
    let file : List ℕ = overwrite v.file (copy_at v i) v.fat in
    let v1 : Vol = record v { file = file } in
    let le = copy_le v i (i + suc n) (omega arith) in
    let fits : copy_at v i + length v.fat ≤ length v.file = omega (arith, f.full, f.held, le) in
    let len : length file ≡ length v.file = length-overwrite v.file (copy_at v i) v.fat fits in
    let g : FitsTables v1 (i + 1 + n) = record {
      full = f.full;
      held = omega (arith, f.held, len, same_copy v (i + 1 + n) (i + suc n) (omega arith));
    } in
    next_copy v i n file (flush_from n (i + 1) v1) f.full fits refl
      (flush_from-Flushed n (i + 1) v1 g)

-- After `flush` every copy of the table on the disk is the table in memory; nothing before the first
-- copy or behind the last one has changed, and nothing else of the volume has.
pub flush-Flushed : (v : Vol) → FitsTables v v.nfats → Flushed v 0 v.nfats (flush v)
unfolding flush
flush-Flushed v f = flush_from-Flushed v.nfats 0 v (record {
  full = f.full;
  held = omega (arith, f.held, same_copy v (0 + v.nfats) v.nfats (omega arith));
})
