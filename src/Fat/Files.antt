-- ===== src/Fat/Files.antt =====
-- A file that `putroot` of tools/fat12-proto/fatx.py has written, read as `readfile` reads it.
use elf_dos.Base.{
  ℕ, suc, ◌+◌, ◌-◌, ◌*◌, ◌≤◌, ◌≡◌, sym, ap, ◌∙◌, true, some, List, [], ◌∷◌, ◌++◌, arith, length,
  take, drop, replicate, All, inl, inr, Bool-cases, leb, length-take, length-drop, take-append,
  take-append-drop, drop-drop, drop_all, take_all, append_assoc, append-nil,
}
use elf_dos.Base.Int.{pos}
use native.Mathlib.Nat.{add-mul}
use elf_dos.Fat.Entry.Laws.{AreBytes}
use elf_dos.Fat.Vol.{Vol, sec, link, read_data, chain, done}
use elf_dos.Fat.Chain.{chain_iff}
use elf_dos.Fat.Link.{AreDistinct, AreData, link-IsChain}
use elf_dos.Fat.Contents.{IsHeld, pieces, link-pieces, link-IsLike}

take-append_add : (xs ys : List ℕ) (n : ℕ) → take (length xs + n) (xs ++ ys) ≡ xs ++ take n ys
take-append_add [] ys n = ap (λ (k : ℕ). take k ys) {x = 0 + n} {y = n} (omega arith)
take-append_add (x ∷ xs) ys n =
    ap (λ (k : ℕ). take k (x ∷ (xs ++ ys))) {x = suc (length xs) + n} {y = suc (length xs + n)}
      (omega arith)
    ∙ ap (λ t. x ∷ t) (take-append_add xs ys n)

-- The piece that is filled up with zeros is the last one of the data.
short_piece :
    (csz : ℕ) (rest zeros part : List ℕ) (n : ℕ)
    → length part ≡ n
    → n ≤ csz
    → take n ((take csz part ++ zeros) ++ rest) ≡ part
short_piece csz rest zeros part n e h =
    ap (λ t. take n ((t ++ zeros) ++ rest)) (take_all csz part (omega arith))
    ∙ ap (λ t. take n t) (append_assoc part zeros rest)
    ∙ ap (λ (k : ℕ). take k (part ++ (zeros ++ rest))) (sym e)
    ∙ take-append part (zeros ++ rest)

full_piece :
    (csz : ℕ) (rest part : List ℕ) (n k : ℕ)
    → csz ≤ length part
    → n ≡ csz + k
    → take n ((take csz part ++ replicate (csz - length (take csz part)) 0) ++ rest)
      ≡ take csz part ++ take k rest
full_piece csz rest part n k h e =
    let len : length (take csz part) ≡ csz = omega (arith, length-take csz part) in
    let none_left : csz - length (take csz part) ≡ 0 = omega (arith, len) in
    ap (λ (z : ℕ). take n ((take csz part ++ replicate z 0) ++ rest)) none_left
    ∙ ap (λ t. take n (t ++ rest)) (append-nil (take csz part))
    ∙ ap (λ (j : ℕ). take j (take csz part ++ rest)) {x = n} {y = length (take csz part) + k}
        (omega (arith, len))
    ∙ take-append_add (take csz part) rest k

-- The pieces, cut to the size of the data, are the data.
take-pieces :
    (spc : ℕ) (bytes cs : List ℕ) (i : ℕ)
    → length bytes ≤ (i + length cs) * (spc * sec)
    → take (length bytes - i * (spc * sec)) (pieces spc bytes cs i) ≡ drop (i * (spc * sec)) bytes
take-pieces spc bytes [] i h =
    let z : length bytes - i * (spc * sec) ≡ 0 =
      omega (arith, h, ap (λ (k : ℕ). k * (spc * sec)) {x = i + 0} {y = i} (omega arith)) in
    ap (λ (k : ℕ). take k (pieces spc bytes [] i)) z
    ∙ sym (drop_all (i * (spc * sec)) bytes (omega (arith, z)))
take-pieces spc bytes (c ∷ cs) i h =
    let csz : ℕ = spc * sec in
    let o : ℕ = i * csz in
    let part : List ℕ = drop o bytes in
    let next : (i + 1) * csz ≡ o + csz = omega (arith, add-mul i 1 csz) in
    let cut : (i + 1) * csz - o ≡ csz = omega (arith, next) in
    let rest : List ℕ = pieces spc bytes cs (i + 1) in
    let n : ℕ = length bytes - o in
    ap (λ (k : ℕ). take n ((take k part ++ replicate (csz - length (take k part)) 0) ++ rest)) cut
    ∙ elim (Bool-cases (leb csz n)) [
      | inr short ↦
          short_piece csz rest (replicate (csz - length (take csz part)) 0) part n
            (length-drop o bytes) (ground arith)
      | inl full ↦
          let ih = take-pieces spc bytes cs (i + 1) (
            omega (
              arith,
              h,
              ap (λ (k : ℕ). k * csz) {x = i + suc (length cs)} {y = i + 1 + length cs}
                  (omega arith),
            )) in
          let le : csz ≤ length bytes - o = ground arith in
          full_piece csz rest part n (length bytes - (i + 1) * csz)
            (omega (arith, length-drop o bytes, le)) (omega (arith, next, le))
          ∙ ap (λ t. take csz part ++ t)
              (ih ∙ ap (λ (k : ℕ). drop k bytes) next ∙ drop-drop o csz bytes)
          ∙ take-append-drop csz part
    ]

-- After the loop of `putroot` over distinct data clusters of a FAT12 volume, all of them inside of
-- the file, no more than the chain's limit and enough for the data, `readfile` from the first of
-- them, with the size of the data, returns exactly the data.
pub read_data-link :
    (v : Vol) (n c : ℕ) (rest bytes : List ℕ) (v' : Vol)
    → v.count ≡ pos n
    → v.fat12 ≡ true
    → AreBytes v.fat
    → AreDistinct (c ∷ rest)
    → AreData (c ∷ rest)
    → All (IsHeld v) (c ∷ rest)
    → length (c ∷ rest) ≤ n + 2
    → length bytes ≤ length (c ∷ rest) * (v.spc * sec)
    → link v (c ∷ rest) 0 bytes ≡ some v'
    → read_data v' c (length bytes) ≡ some bytes
unfolding read_data
read_data-link v n c rest bytes v' count k ok dis dat held short enough h =
    let l = link-IsLike v (c ∷ rest) 0 bytes v' ok held h in
    let walk : chain v' c ≡ done (c ∷ rest) =
      (chain_iff v' n c (c ∷ rest) (l.count ∙ count)).1
        (link-IsChain v c rest 0 bytes v' k ok dis dat h, short) in
    let whole : length bytes ≤ (0 + length (c ∷ rest)) * (v.spc * sec) = omega (
      arith,
      enough,
      ap (λ (k : ℕ). k * (v.spc * sec)) {x = length (c ∷ rest)} {y = 0 + length (c ∷ rest)}
          (omega arith),
    ) in
    let zero_at : 0 * (v.spc * sec) ≡ 0 = omega arith in
    let cut =
      ap (λ t. take (length bytes) t) (link-pieces v (c ∷ rest) 0 bytes v' ok held dis h)
      ∙ ap (λ (k : ℕ). take k (pieces v.spc bytes (c ∷ rest) 0)) {x = length bytes}
          {y = length bytes - 0 * (v.spc * sec)} (omega (arith, zero_at))
      ∙ take-pieces v.spc bytes (c ∷ rest) 0 whole
      ∙ ap (λ (k : ℕ). drop k bytes) zero_at in
    rw (read_data, walk) (ap some cut)
