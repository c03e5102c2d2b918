-- ===== src/Fat/EndMark.antt =====
-- What `chain` of tools/fat12-proto/fatx.py makes of a file that the loop of `putroot` has written on
-- a FAT16 volume: the loop ends every file with the mark of FAT12.
use elf_dos.Base.{
  ℕ, ◌+◌, ◌≤◌, ◌<◌, ◌≡◌, ◌↔◌, refl, sym, ap, ◌∙◌, subst, true, false, some, some-injective, List,
  [], ◌∷◌, ◌++◌, arith, All, length,
}
use elf_dos.Base.Int.{pos}
use elf_dos.Fat.Entry.Laws.{AreBytes}
use elf_dos.Fat.Vol.{Vol, get, done, chain, is_data, wr, link}
use elf_dos.Fat.Chain.{IsChain, chain_iff}
use elf_dos.Fat.Link.{AreDistinct, link-Round, link-others}

-- From `c` the entries lead over the clusters to `e`.
abbrev Leads : Vol → ℕ → List ℕ → ℕ → Type 0
Leads v c [] e = c ≡ e
Leads v c (x ∷ xs) e =
    (c ≡ x) × (is_data v c ≡ true) × (n : ℕ) × (get v c ≡ some n) × Leads v n xs e

-- A walk along them goes on where they lead.
Leads-IsChain :
    (v : Vol) (c : ℕ) (cs : List ℕ) (e : ℕ) (xs : List ℕ)
    → Leads v c cs e
    → IsChain v c xs
    → (ys : List ℕ) × (xs ≡ cs ++ ys) × IsChain v e ys
Leads-IsChain v c [] e xs l h = (xs, refl, subst (λ d. IsChain v d xs) l h)
Leads-IsChain v c (x ∷ cs) e [] (same, data_c, n, g, l) h = absurd (cc (data_c, h))
Leads-IsChain v c (x ∷ cs) e (y ∷ xs) (same, data_c, n, g, l) (here, _, m, k, h) =
    let onward : m ≡ n = some-injective _ _ (sym k ∙ g) in
    let (ys, split, rest) = Leads-IsChain v n cs e xs l (subst (λ d. IsChain v d xs) onward h) in
    (ys, ap (λ d. d ∷ xs) (sym here ∙ same) ∙ ap (λ t. x ∷ t) split, rest)

IsChain-Leads :
    (v : Vol) (c : ℕ) (cs : List ℕ) (e : ℕ) (ys : List ℕ)
    → Leads v c cs e
    → IsChain v e ys
    → IsChain v c (cs ++ ys)
IsChain-Leads v c [] e ys l h = subst (λ d. IsChain v d ys) (sym l) h
IsChain-Leads v c (x ∷ cs) e ys (same, data_c, n, g, l) h =
    (same, data_c, n, g, IsChain-Leads v n cs e ys l h)

-- Every cluster is one that a FAT16 table can name as data.
abbrev AreData16 : List ℕ → Type 0
AreData16 = All (λ c. (2 ≤ c) × (c < 0xFFF7))

is_data16 : (v : Vol) (c : ℕ) → v.fat12 ≡ false → 2 ≤ c → c < 0xFFF7 → is_data v c ≡ true
unfolding is_data
is_data16 v c k lo hi = ground arith

link-Leads :
    (v : Vol) (c : ℕ) (rest : List ℕ) (i : ℕ) (bytes : List ℕ) (v' : Vol)
    → v.fat12 ≡ false
    → AreBytes v.fat
    → AreDistinct (c ∷ rest)
    → AreData16 (c ∷ rest)
    → link v (c ∷ rest) i bytes ≡ some v'
    → (Leads v' c (c ∷ rest) 0xFFF) × (v'.fat12 ≡ false)
link-Leads v c [] i bytes v' k ok dis dat h =
    let r = link-Round v c [] i bytes ok h in
    let (g, k') = link-others r.mid [] (i + 1) bytes v' c r.keeps tt r.onward in
    let f : v'.fat12 ≡ false = k' ∙ r.kind ∙ k in
    ((refl, is_data16 v' c f dat.0.0 dat.0.1, 0xFFF, g ∙ r.entry ∙ rw k refl, refl), f)
link-Leads v c (d ∷ rest) i bytes v' k ok dis dat h =
    let r = link-Round v c (d ∷ rest) i bytes ok h in
    let (g, k') = link-others r.mid (d ∷ rest) (i + 1) bytes v' c r.keeps dis.0 r.onward in
    let f : v'.fat12 ≡ false = k' ∙ r.kind ∙ k in
    let (l, _) =
      link-Leads r.mid d rest (i + 1) bytes v' (r.kind ∙ k) r.keeps dis.1 dat.1 r.onward in
    ((refl, is_data16 v' c f dat.0.0 dat.0.1, d, g ∙ r.entry ∙ rw k refl, l), f)

count-link :
    (v : Vol) (cs : List ℕ) (i : ℕ) (bytes : List ℕ) (v' : Vol)
    → AreBytes v.fat
    → link v cs i bytes ≡ some v'
    → v'.count ≡ v.count
unfolding wr
count-link v [] i bytes v' ok h =
    let same : v ≡ v' = unfold link in some-injective _ _ h in ap (λ (x : Vol). x.count) (sym same)
count-link v (c ∷ rest) i bytes v' ok h =
    let r = link-Round v c rest i bytes ok h in
    count-link r.mid rest (i + 1) bytes v' r.keeps r.onward ∙ ap (λ (x : Vol). x.count) r.wrote

-- A chain from a cluster that is data begins with it.
starts_with :
    (v : Vol) (c : ℕ) (xs : List ℕ)
    → is_data v c ≡ true
    → IsChain v c xs
    → (ys : List ℕ) × (xs ≡ c ∷ ys)
starts_with v c [] e h = absurd (cc (e, h))
starts_with v c (x ∷ xs) e h = (xs, ap (λ d. d ∷ xs) (sym h.0))

-- After the loop of `putroot` on a FAT16 volume with n clusters, over distinct clusters that the
-- table can name, `chain` never ends with these clusters: what it returns, if anything, is these
-- clusters followed by a chain that begins with cluster 4095, with at most n + 2 clusters in all.
pub link-end_mark16 :
    (v : Vol) (n c : ℕ) (rest : List ℕ) (i : ℕ) (bytes : List ℕ) (v' : Vol) (xs : List ℕ)
    → v.fat12 ≡ false
    → v.count ≡ pos n
    → AreBytes v.fat
    → AreDistinct (c ∷ rest)
    → AreData16 (c ∷ rest)
    → link v (c ∷ rest) i bytes ≡ some v'
    → (chain v' c ≡ done xs) ↔ (
        (ys : List ℕ) × (xs ≡ (c ∷ rest) ++ 4095 ∷ ys)
        × IsChain v' 4095 (4095 ∷ ys)
        × (length xs ≤ n + 2))
link-end_mark16 v n c rest i bytes v' xs k count ok dis dat h =
    let (l, f) = link-Leads v c rest i bytes v' k ok dis dat h in
    let iff = chain_iff v' n c xs (count-link v (c ∷ rest) i bytes v' ok h ∙ count) in
    (
      λ e.
          let (whole, short) = iff.0 e in
          let (zs, split, tail) = Leads-IsChain v' c (c ∷ rest) 4095 xs l whole in
          let (ys, begins) =
            starts_with v' 4095 zs (is_data16 v' 4095 f (omega arith) (omega arith)) tail in
          (
            ys,
            split ∙ ap (λ t. (c ∷ rest) ++ t) begins,
            subst (λ t. IsChain v' 4095 t) begins tail,
            short,
          ),
      λ (ys, split, tail, short). iff.1 (
        subst (λ t. IsChain v' c t) (sym split)
            (IsChain-Leads v' c (c ∷ rest) 4095 (4095 ∷ ys) l tail),
        short,
      ),
    )
