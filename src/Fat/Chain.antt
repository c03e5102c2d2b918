-- ===== src/Fat/Chain.antt =====
-- `chain` of tools/fat12-proto/fatx.py: the walk ends, and finds exactly the linked clusters.
use elf_dos.Base.{
  ℕ, zero, suc, ◌+◌, ◌≤◌, ◌<◌, ◌≡◌, ◌≢◌, ◌↔◌, refl, ap, ◌∙◌, true, false, some, inl, inr, ◌⊎◌, List,
  [], ◌∷◌, ◌++◌, arith, Bool-cases, Option-cases, length, length-append, append_assoc, append-nil,
}
use elf_dos.Base.Int.{pos, pos_part, neg_part}
use elf_dos.Fat.Vol.{Vol, get, is_data, too_long, done, out_of_fuel, chain_loop, chain}

-- The clusters from `c` on, each with the next one in its entry, up to an entry that is no cluster.
abbrev pub IsChain : Vol → ℕ → List ℕ → Type 0
IsChain v c [] = is_data v c ≡ false
IsChain v c (x ∷ xs) =
    (c ≡ x) × (is_data v c ≡ true) × (n : ℕ) × (get v c ≡ some n) × IsChain v n xs

not_too_long : (v : Vol) (n : ℕ) → too_long v n ≡ false → n ≤ pos_part v.count + 2
unfolding too_long
not_too_long v n h = ground arith

within_limit :
    (v : Vol) (n : ℕ) → n ≤ pos_part v.count + 2 → neg_part v.count ≡ 0 → too_long v n ≡ false
unfolding too_long
within_limit v n h p = ground arith

chain_loop_total :
    (v : Vol) (f : ℕ) (out : List ℕ) (c : ℕ)
    → length out ≤ pos_part v.count + 2
    → pos_part v.count + 4 ≤ f + length out
    → chain_loop v f out c ≢ out_of_fuel
unfolding chain_loop
chain_loop_total v zero out c h k = absurd (omega arith)
chain_loop_total v (suc f) out c h k = elim (Bool-cases (is_data v c)) [
  | inr e ↦ rw (e, chain_loop) (cc)
  | inl e ↦
      rw (e, chain_loop)
        (elim (Option-cases (get v c)) [
          | inl g ↦ rw g (cc)
          | inr (n, g) ↦ rw g (elim (Bool-cases (too_long v (length (out ++ c ∷ [])))) [
            | inl t ↦ rw t (cc)
            | inr t ↦
                let len : length (out ++ c ∷ []) ≡ length out + 1 = length-append out (c ∷ []) in
                let short : length (out ++ c ∷ []) ≤ pos_part v.count + 2 = not_too_long v _ t in
                rw t (chain_loop_total v f (out ++ c ∷ []) n short (omega (arith, len)))
          ])
        ])
]

-- The walk always ends: with a list or with an exception, never by running out of rounds.
pub chain_total : (v : Vol) (c : ℕ) → chain v c ≢ out_of_fuel
unfolding chain
chain_total v c = chain_loop_total v (pos_part v.count + 4) [] c (omega arith) (omega arith)

chain_loop_sound :
    (v : Vol) (f : ℕ) (out : List ℕ) (c : ℕ) (ys : List ℕ)
    → chain_loop v f out c ≡ done ys
    → (xs : List ℕ) × (ys ≡ out ++ xs)
      × IsChain v c xs
      × ((xs ≡ []) ⊎ (too_long v (length ys) ≡ false))
unfolding chain_loop
chain_loop_sound v zero out c ys h = absurd (cc)
chain_loop_sound v (suc f) out c ys h = elim (Bool-cases (is_data v c)) [
  | inr e ↦
      let d : done out ≡ done ys = rw (e, chain_loop) at h in
      ([], cc (d, append-nil out), e, inl refl)
  | inl e ↦
      let h1 = rw (e, chain_loop) at h in
      elim (Option-cases (get v c)) [
        | inl g ↦ absurd (let h2 = rw g at h1 in cc h2)
        | inr (n, g) ↦
            let h2 = rw g at h1 in
            elim (Bool-cases (too_long v (length (out ++ c ∷ [])))) [
              | inl t ↦ absurd (let h3 = rw t at h2 in cc h3)
              | inr t ↦
                  let h3 : chain_loop v f (out ++ c ∷ []) n ≡ done ys = rw t at h2 in
                  let (xs, e2, i, b) = chain_loop_sound v f (out ++ c ∷ []) n ys h3 in
                  (
                    c ∷ xs,
                    e2 ∙ append_assoc out (c ∷ []) xs,
                    (refl, e, n, g, i),
                    inr (elim b [
                      | inl nil ↦ rw (e2, nil, append-nil (out ++ c ∷ [])) t
                      | inr short ↦ short
                    ]),
                  )
            ]
      ]
]

chain_loop_complete :
    (v : Vol) (f : ℕ) (out : List ℕ) (c : ℕ) (xs : List ℕ)
    → IsChain v c xs
    → length out + length xs ≤ pos_part v.count + 2
    → neg_part v.count ≡ 0
    → length xs < f
    → chain_loop v f out c ≡ done (out ++ xs)
unfolding chain_loop
chain_loop_complete v zero out c xs i h p k = absurd (omega arith)
chain_loop_complete v (suc f) out c [] i h p k = rw (i, chain_loop, append-nil out)
chain_loop_complete v (suc f) out c (x ∷ xs) (same, e, n, g, i) h p k =
    let len : length (out ++ c ∷ []) ≡ length out + 1 = length-append out (c ∷ []) in
    let t : too_long v (length (out ++ c ∷ [])) ≡ false =
      within_limit v (length (out ++ c ∷ [])) (omega (arith, len)) p in
    rw (e, chain_loop, g, t)
      (chain_loop_complete v f (out ++ c ∷ []) n xs i (omega (arith, len)) p (omega arith)
        ∙ ap done (append_assoc out (c ∷ []) xs ∙ ap (λ z. out ++ z ∷ xs) same))

-- On a volume with `n` clusters the walk from `c` returns a list exactly when it is the chain
-- of `c` and has at most `n + 2` clusters.
pub chain_iff :
    (v : Vol) (n c : ℕ) (xs : List ℕ)
    → v.count ≡ pos n
    → (chain v c ≡ done xs) ↔ (IsChain v c xs × (length xs ≤ n + 2))
unfolding chain
chain_iff v n c xs e = (there, back)
  where
    there :
        chain_loop v (pos_part v.count + 4) [] c ≡ done xs → IsChain v c xs × (length xs ≤ n + 2)
    there h =
        let (ys, same, i, b) = chain_loop_sound v (pos_part v.count + 4) [] c xs h in
        (
          rw same i,
          elim b [
            | inl nil ↦ rw (same, nil) (omega arith)
            | inr short ↦ omega (arith, not_too_long v (length xs) short, ap pos_part e)
          ],
        )

    back : IsChain v c xs × (length xs ≤ n + 2) → chain_loop v (pos_part v.count + 4) [] c ≡ done xs
    back (i, h) =
        chain_loop_complete v (pos_part v.count + 4) [] c xs i (omega (arith, ap pos_part e))
          (ap neg_part e) (omega (arith, ap pos_part e))
