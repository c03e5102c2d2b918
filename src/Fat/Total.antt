-- ===== src/Fat/Total.antt =====
-- The parts of `putroot` of tools/fat12-proto/fatx.py that deal with the clusters, where the table
-- holds all entries: they raise no exception.
use elf_dos.Base.{
  ap, ◌∙◌, ℕ, zero, suc, ◌+◌, ◌-◌, ◌*◌, ◌≤◌, ◌<◌, ◌≡◌, refl, sym, true, some, some-injective, List,
  [], ◌∷◌, ◌++◌, slice, replicate, arith, length, All, get_elem?-some, ◌==◌, Bool-cases, inl, inr,
  ◌>>=◌, if◌then◌else◌,
}
use elf_dos.Fat.Entry.{offset12, get12, set12, set16}
use elf_dos.Fat.Entry.Laws.{AreBytes, set12_iff}
use elf_dos.Fat.Table.{put-Stored}
use elf_dos.Fat.Vol.{Vol, sec, get, put, wr, clus_sec, successor, free_from, link}

get_total :
    (v : Vol) (c : ℕ)
    → v.fat12 ≡ true
    → offset12 c + 1 < length v.fat
    → (e : ℕ) × (get v c ≡ some e)
unfolding get get12
get_total v c k h =
    let (lo, a) = get_elem?-some v.fat (offset12 c) (omega arith) in
    let (hi, b) = get_elem?-some v.fat (offset12 c + 1) h in rw (k, a, b) (_, refl)

-- The scan for free clusters ends well, and a free cluster is found.
pub free_from_total :
    (v : Vol) (n c top : ℕ)
    → v.fat12 ≡ true
    → offset12 top + 1 < length v.fat
    → c + n ≤ top + 1
    → (cs : List ℕ) × (free_from v n c ≡ some cs)
      × ((x : ℕ) → c ≤ x → x < c + n → get v x ≡ some 0 → 1 ≤ length cs)
unfolding free_from
free_from_total v zero c top k h le = ([], refl, λ x lo hi e. absurd (omega arith))
free_from_total v (suc n) c top k h le =
    let (e, g) = get_total v c k (omega arith) in
    let (cs, f, found) = free_from_total v n (c + 1) top k h (omega arith) in
    (
      (if e == 0 then c ∷ cs else cs),
      rw (g, f) refl,
      λ x lo hi z. elim (Bool-cases (e == 0)) [
        | inl b ↦ rw b (omega arith)
        | inr b ↦
            let later : c + 1 ≤ x =
              ground (
                arith,
                lo,
                b,
                λ (q : c ≡ x). some-injective _ _ (sym g ∙ ap (λ y. get v y) q ∙ z),
              ) in
            rw b (found x later (omega arith) z)
      ],
    )

put_total :
    (v : Vol) (c x : ℕ)
    → v.fat12 ≡ true
    → offset12 c + 1 < length v.fat
    → (v1 : Vol) × (put v c x ≡ some v1)
unfolding put
put_total v c x k h =
    let (fat, e) = (set12_iff v.fat c x).1 h in
    let q =
      ap
        (λ b. (if b then set12 v.fat c x else set16 v.fat c x) >>= λ t. some (record v { fat = t }))
        k in
    ((record v { fat = fat }), q ∙ ap (λ o. o >>= λ t. some (record v { fat = t })) e)

-- The loop over the clusters ends well.
pub link_total :
    (v : Vol) (cs : List ℕ) (i : ℕ) (bytes : List ℕ) (top : ℕ)
    → v.fat12 ≡ true
    → AreBytes v.fat
    → offset12 top + 1 < length v.fat
    → All (λ c. c ≤ top) cs
    → (v' : Vol) × (link v cs i bytes ≡ some v')
unfolding link wr
link_total v [] i bytes top k ok h a = (v, refl)
link_total v (c ∷ rest) i bytes top k ok h a =
    let (v1, e) = put_total v c (successor rest) k (omega (arith, a.0)) in
    let st = put-Stored v c (successor rest) v1 ok e in
    let csz : ℕ = v.spc * sec in
    let chunk : List ℕ = slice (i * csz) ((i + 1) * csz) bytes in
    let (v', f) =
      link_total (wr v1 (clus_sec v c) (chunk ++ replicate (csz - length chunk) 0)) rest (i + 1)
        bytes top (ap (λ (x : Vol). x.fat12) st.rest ∙ k) st.bytes (omega (arith, st.size, h))
        a.1 in
    (v', rw e f)
