-- ===== src/Fat/Synced.antt =====
-- `__init__` of tools/fat12-proto/fatx.py, and then `flush`.
use elf_dos.Base.{
  refl, sym, ap, ◌∙◌, ℕ, zero, suc, ◌+◌, ◌*◌, ◌≤◌, ◌<◌, ◌≡◌, some, List, [], ◌∷◌, ◌++◌, arith,
  length, take, drop, length-take, length-drop, take-append-drop, drop-drop,
}
use elf_dos.Fat.Vol.{Vol, sec, wr, read_at, overwrite, read_fat, flush_from, flush, mount}
use elf_dos.Fat.Regions.{overwrite_inside}
use elf_dos.Fat.Mount.{mount-IsLaidOut}
use elf_dos.Fat.Flush.{copy_at, copy_le}

take_nil : (n : ℕ) → take {A = ℕ} n [] ≡ []
take_nil zero = refl
take_nil (suc n) = refl

take-add : (a b : ℕ) (xs : List ℕ) → take a xs ++ take b (drop a xs) ≡ take (a + b) xs
take-add zero b xs = ap (λ (k : ℕ). take k xs) {x = b} {y = 0 + b} (omega arith)
take-add (suc a) b [] = take_nil b ∙ sym (take_nil (suc a + b))
take-add (suc a) b (x ∷ xs) =
    ap (λ t. x ∷ t) (take-add a b xs)
    ∙ ap (λ (k : ℕ). take k (x ∷ xs)) {x = suc (a + b)} {y = suc a + b} (omega arith)

-- The sectors of the table, joined, are one read.
read_fat-joined :
    (n : ℕ) (file : List ℕ) (base s : ℕ)
    → read_fat n file base s ≡ take (n * sec) (drop (base + s * sec) file)
unfolding read_fat read_at
read_fat-joined zero file base s = refl
read_fat-joined (suc n) file base s =
    let o : ℕ = base + s * sec in
    ap (λ t. take (1 * sec) (drop o file) ++ t)
      (read_fat-joined n file base (s + 1)
        ∙ ap (λ (k : ℕ). take (n * sec) (drop k file)) {x = base + (s + 1) * sec} {y = o + 1 * sec}
            (omega arith)
        ∙ ap (λ t. take (n * sec) t) (drop-drop o (1 * sec) file))
    ∙ take-add (1 * sec) (n * sec) (drop o file)
    ∙ ap (λ (k : ℕ). take k (drop o file)) {x = 1 * sec + n * sec} {y = suc n * sec} (omega arith)

-- A write of what is there already.
overwrite-same :
    (file : List ℕ) (o n : ℕ) → o + n ≤ length file → overwrite file o (take n (drop o file)) ≡ file
overwrite-same file o n h =
    let len : length (take n (drop o file)) ≡ n =
      omega (arith, length-take n (drop o file), length-drop o file) in
    overwrite_inside file o (take n (drop o file)) (omega (arith, len))
    ∙ ap (λ (k : ℕ). take o file ++ (take n (drop o file) ++ drop (o + k) file)) len
    ∙ ap (λ t. take o file ++ (take n (drop o file) ++ t)) (drop-drop o n file)
    ∙ ap (λ t. take o file ++ t) (take-append-drop n (drop o file))
    ∙ take-append-drop o file

flush_from-same :
    (n i : ℕ) (v : Vol)
    → copy_at v (i + n) ≤ length v.file
    → ((j : ℕ) → i ≤ j → j < i + n → take (v.spf * sec) (drop (copy_at v j) v.file) ≡ v.fat)
    → flush_from n i v ≡ v
unfolding flush_from wr
flush_from-same zero i v h same = refl
flush_from-same (suc n) i v h same =
    let inside : copy_at v i + v.spf * sec ≤ length v.file =
      omega (arith, h, copy_le v i (i + suc n) (omega arith)) in
    let kept : overwrite v.file (copy_at v i) v.fat ≡ v.file =
      ap (λ t. overwrite v.file (copy_at v i) t) (sym (same i (omega arith) (omega arith)))
      ∙ overwrite-same v.file (copy_at v i) (v.spf * sec) inside in
    ap (λ file. flush_from n (i + 1) (record v { file = file })) kept
    ∙ flush_from-same n (i + 1) v
        (omega
          (arith, h, ap (λ (k : ℕ). copy_at v k) {x = i + 1 + n} {y = i + suc n} (omega arith)))
        (λ j lo hi. same j (omega arith) (omega arith))

-- A volume that `mount` has opened, whose file reaches to the clusters and holds the same table in
-- every copy as in the first: `flush` right afterwards changes nothing.
pub flush-mount :
    (image : List ℕ) (lba : ℕ) (v : Vol)
    → mount image lba ≡ some v
    → v.base + v.data0 * sec ≤ length v.file
    → ((j : ℕ)
        → j < v.nfats
        → take (v.spf * sec) (drop (copy_at v j) v.file)
          ≡ take (v.spf * sec) (drop (copy_at v 0) v.file))
    → flush v ≡ v
unfolding flush
flush-mount image lba v m h same =
    let laid = mount-IsLaidOut image lba v m in
    let table : v.fat ≡ take (v.spf * sec) (drop (copy_at v 0) v.file) =
      laid.table
      ∙ read_fat-joined v.spf v.file v.base v.rsvd
      ∙ ap (λ (k : ℕ). take (v.spf * sec) (drop k v.file)) {x = v.base + v.rsvd * sec}
          {y = copy_at v 0} (omega arith) in
    flush_from-same v.nfats 0 v
      (omega (
        arith,
        h,
        laid.root_at,
        laid.clusters_at,
        ap (λ (k : ℕ). copy_at v k) {x = 0 + v.nfats} {y = v.nfats} (omega arith),
      ))
      (λ j lo hi. same j (omega arith) ∙ sym table)
