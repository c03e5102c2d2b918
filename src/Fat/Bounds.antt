-- ===== src/Fat/Bounds.antt =====
-- Which clusters have an entry in a table of tools/fat12-proto/fatx.py: those whose 12 or 16 bits lie
-- inside of it.
use elf_dos.Base.{
  ℕ, ◌+◌, ◌*◌, ◌^◌, ◌≤◌, ◌<◌, ◌≡◌, ◌↔◌, ◌⊎◌, inl, inr, refl, true, some, List, arith, ltb,
  Bool-cases, Option-cases, if◌then◌else◌, ◌>>=◌, length, get_elem?, lt_of_get_elem?,
  get_elem?-some,
}
use elf_dos.Fat.Entry.{offset12, get12, set12, get16, set16}
use elf_dos.Fat.Entry.Laws.{set12_iff, set16_result}
use elf_dos.Fat.Vol.{Vol, get, put}

-- The bits of the entries up to that of `c` are bits of the table.
abbrev pub HasEntry : Vol → ℕ → Type 0
HasEntry v c = (if v.fat12 then 12 else 16) * (c + 1) ≤ 8 * length v.fat

-- An entry is as wide as its format says, and a FAT12 write keeps the lower bits.
abbrev pub IsWord : Vol → ℕ → Type 0
IsWord v n = (v.fat12 ≡ true) ⊎ (n < 2 ^ 16)

offset12_bound :
    (c n : ℕ)
    → ((offset12 c + 1 < n) → 12 * (c + 1) ≤ 8 * n) × ((12 * (c + 1) ≤ 8 * n) → offset12 c + 1 < n)
offset12_bound c n = (λ h. omega arith, λ h. omega arith)

get12_iff :
    (fat : List ℕ) (c : ℕ) → ((n : ℕ) × (get12 fat c ≡ some n)) ↔ (offset12 c + 1 < length fat)
unfolding get12
get12_iff fat c = (there, back)
  where
    there : (n : ℕ) × (get12 fat c ≡ some n) → offset12 c + 1 < length fat
    there (n, e) = elim (Option-cases (get_elem? fat (offset12 c + 1))) [
      | inr (y, g) ↦ lt_of_get_elem? fat _ g
      | inl g ↦ elim (Option-cases (get_elem? fat (offset12 c))) [
        | inl f ↦ absurd (let q = rw f at e in cc q)
        | inr (x, f) ↦ absurd (let q = rw (f, g) at e in cc q)
      ]
    ]

    back : offset12 c + 1 < length fat → (n : ℕ) × (get12 fat c ≡ some n)
    back h =
        let (x, e) = get_elem?-some fat (offset12 c) (omega arith) in
        let (y, g) = get_elem?-some fat (offset12 c + 1) h in rw (e, g) (_, refl)

get16_iff : (fat : List ℕ) (c : ℕ) → ((n : ℕ) × (get16 fat c ≡ some n)) ↔ (2 * c + 1 < length fat)
unfolding get16
get16_iff fat c = (there, back)
  where
    there : (n : ℕ) × (get16 fat c ≡ some n) → 2 * c + 1 < length fat
    there (n, e) = elim (Option-cases (get_elem? fat (2 * c + 1))) [
      | inr (y, g) ↦ lt_of_get_elem? fat _ g
      | inl g ↦ elim (Option-cases (get_elem? fat (2 * c))) [
        | inl f ↦ absurd (let q = rw f at e in cc q)
        | inr (x, f) ↦ absurd (let q = rw (f, g) at e in cc q)
      ]
    ]

    back : 2 * c + 1 < length fat → (n : ℕ) × (get16 fat c ≡ some n)
    back h =
        let (x, e) = get_elem?-some fat (2 * c) (omega arith) in
        let (y, g) = get_elem?-some fat (2 * c + 1) h in rw (e, g) (_, refl)

set16_total :
    (fat : List ℕ) (c n : ℕ)
    → n < 2 ^ 16
    → 2 * c + 1 < length fat
    → (fat' : List ℕ) × (set16 fat c n ≡ some fat')
unfolding set16
set16_total fat c n small h =
    let t : ltb n (2 ^ 16) ≡ true = ground arith in
    let (y, g) = get_elem?-some fat (2 * c + 1) h in rw (t, g) (_, refl)

put-set :
    (v : Vol) (c n : ℕ) (v' : Vol)
    → put v c n ≡ some v'
    → (fat : List ℕ) × ((if v.fat12 then set12 v.fat c n else set16 v.fat c n) ≡ some fat)
unfolding put
put-set v c n v' h = elim (Option-cases (if v.fat12 then set12 v.fat c n else set16 v.fat c n)) [
  | inl e ↦ absurd (let q = rw e at h in cc q)
  | inr s ↦ s
]

put-HasEntry : (v : Vol) (c n : ℕ) (v' : Vol) → put v c n ≡ some v' → HasEntry v c × IsWord v n
put-HasEntry v c n v' h =
    let (fat, e) = put-set v c n v' h in
    elim (Bool-cases v.fat12) [
      | inl t ↦
          let e12 = rw t at e in
          let fits = (set12_iff v.fat c n).0 (fat, e12) in
          (rw t ((offset12_bound c (length v.fat)).0 fits), inl t)
      | inr t ↦
          let e16 = rw t at e in
          let (small, fits, _) = set16_result v.fat c n e16 in (rw t (omega arith), inr small)
    ]

HasEntry-put : (v : Vol) (c n : ℕ) → HasEntry v c → IsWord v n → (v' : Vol) × (put v c n ≡ some v')
unfolding put
HasEntry-put v c n h w = elim (Bool-cases v.fat12) [
  | inl t ↦
      let fits = (offset12_bound c (length v.fat)).1 (rw t at h) in
      let (fat, e) = (set12_iff v.fat c n).1 fits in rw (put, t, e, ◌>>=◌) (_, refl)
  | inr t ↦
      let fits : 16 * (c + 1) ≤ 8 * length v.fat = rw t at h in
      let small : n < 2 ^ 16 = elim w [ inl k ↦ absurd (cc (k, t)) | inr s ↦ s ] in
      let (fat, e) = set16_total v.fat c n small (omega arith) in rw (put, t, e, ◌>>=◌) (_, refl)
]

get-HasEntry : (v : Vol) (c : ℕ) → ((n : ℕ) × (get v c ≡ some n)) ↔ HasEntry v c
unfolding get
get-HasEntry v c = elim (Bool-cases v.fat12) [
  | inl t ↦
      let i = get12_iff v.fat c in
      let b = offset12_bound c (length v.fat) in rw t (λ s. b.0 (i.0 s), λ h. i.1 (b.1 h))
  | inr t ↦
      let i = get16_iff v.fat c in
      rw t (λ s. let fits = i.0 s in omega arith, λ h. i.1 (omega arith))
]

-- For every volume, cluster and value: `get` returns an entry exactly when all bits of the entries
-- up to this one, 12 or 16 each, are bits of the table, and `put` succeeds exactly then, on FAT16
-- only for a value of 16 bits.
pub entry_iff :
    (v : Vol) (c x : ℕ)
    → (((n : ℕ) × (get v c ≡ some n)) ↔ HasEntry v c)
      × (((v' : Vol) × (put v c x ≡ some v')) ↔ (HasEntry v c × IsWord v x))
entry_iff v c x =
    (get-HasEntry v c, (λ (v', e). put-HasEntry v c x v' e, λ (h, w). HasEntry-put v c x h w))
