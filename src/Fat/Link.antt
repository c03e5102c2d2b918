-- ===== src/Fat/Link.antt =====
-- `putroot` of tools/fat12-proto/fatx.py: the clusters of a new file form its chain.
use elf_dos.Base.{
  ℕ, ◌+◌, ◌*◌, ◌%◌, ◌≤◌, ◌<◌, ◌≡◌, ◌≢◌, refl, ap, ◌∙◌, true, false, some, some-injective, inl, inr,
  List, [], ◌∷◌, ◌++◌, arith, Option-cases, length, slice, replicate, ◌-◌, All, if◌then◌else◌,
}
use elf_dos.Fat.Entry.Laws.{AreBytes}
use elf_dos.Fat.Vol.{Vol, sec, get, put, wr, clus_sec, is_data, successor, link}
use elf_dos.Fat.Table.{put-Stored}
use elf_dos.Fat.Chain.{IsChain}

-- `c` is none of the clusters.
abbrev pub Avoids : ℕ → List ℕ → Type 0
Avoids c = All (λ x. x ≢ c)

abbrev pub AreDistinct : List ℕ → Type 0
AreDistinct [] = Unit
AreDistinct (x ∷ xs) = Avoids x xs × AreDistinct xs

-- `chunk + bytes(csz - len(chunk))`
abbrev pub padded : Vol → ℕ → List ℕ → List ℕ
padded v i bytes =
    let csz = v.spc * sec in
    let chunk = slice (i * csz) ((i + 1) * csz) bytes in chunk ++ replicate (csz - length chunk) 0

-- One round of the loop: the entry is written, then the cluster's data.
pub record Round (v : Vol) (c : ℕ) (rest : List ℕ) (i : ℕ) (bytes : List ℕ) (v' : Vol)
    : Type 0 where
  pub mid : Vol
  pub kind : mid.fat12 ≡ v.fat12
  pub keeps : AreBytes mid.fat
  pub entry : get mid c ≡ some (if v.fat12 then successor rest % 4096 else successor rest)
  others : (d : ℕ) → c ≢ d → get mid d ≡ get v d
  pub fat_size : length mid.fat ≡ length v.fat
  pub wrote : mid ≡ wr (record v { fat = mid.fat }) (clus_sec v c) (padded v i bytes)
  pub onward : link mid rest (i + 1) bytes ≡ some v'

-- Writing data leaves the table alone.
get-wr : (v : Vol) (s : ℕ) (bytes : List ℕ) (d : ℕ) → get (wr v s bytes) d ≡ get v d
unfolding get wr
get-wr v s bytes d = refl

fat12-wr : (v : Vol) (s : ℕ) (bytes : List ℕ) → (wr v s bytes).fat12 ≡ v.fat12
unfolding wr
fat12-wr v s bytes = refl

fat-wr : (v : Vol) (s : ℕ) (bytes : List ℕ) → (wr v s bytes).fat ≡ v.fat
unfolding wr
fat-wr v s bytes = refl

pub link-Round :
    (v : Vol) (c : ℕ) (rest : List ℕ) (i : ℕ) (bytes : List ℕ) {v' : Vol}
    → AreBytes v.fat
    → link v (c ∷ rest) i bytes ≡ some v'
    → Round v c rest i bytes v'
unfolding link wr
link-Round v c rest i bytes {v'} ok h = elim (Option-cases (put v c (successor rest))) [
  | inl n ↦ absurd (ground arith)
  | inr (v1, e) ↦
      let st = put-Stored v c (successor rest) v1 ok e in
      let csz : ℕ = v.spc * sec in
      let chunk : List ℕ = slice (i * csz) ((i + 1) * csz) bytes in
      let m : Vol = wr v1 (clus_sec v c) (chunk ++ replicate (csz - length chunk) 0) in
      record {
        mid = m;
        kind = fat12-wr v1 (clus_sec v c) (padded v i bytes) ∙ ap (λ (x : Vol). x.fat12) st.rest;
        keeps = rw fat-wr st.bytes;
        entry = get-wr v1 (clus_sec v c) (padded v i bytes) c ∙ st.entry;
        others = λ d ne. get-wr v1 (clus_sec v c) (padded v i bytes) d ∙ st.others d ne;
        fat_size = st.size;
        wrote = ap (λ (x : Vol). wr x (clus_sec v c) (padded v i bytes)) st.rest;
        onward = rw e at h;
      }
]

pub link-others :
    (v : Vol) (cs : List ℕ) (i : ℕ) (bytes : List ℕ) (v' : Vol) (d : ℕ)
    → AreBytes v.fat
    → Avoids d cs
    → link v cs i bytes ≡ some v'
    → (get v' d ≡ get v d) × (v'.fat12 ≡ v.fat12)
link-others v [] i bytes v' d ok a h =
    let same : v ≡ v' = unfold link in some-injective _ _ h in (rw same refl, rw same refl)
link-others v (c ∷ rest) i bytes v' d ok a h =
    let r = link-Round v c rest i bytes ok h in
    let (g, k) = link-others r.mid rest (i + 1) bytes v' d r.keeps a.1 r.onward in
    (g ∙ r.others d a.0, k ∙ r.kind)

-- Every cluster is one that a FAT12 table can name as data.
abbrev pub AreData : List ℕ → Type 0
AreData = All (λ c. (2 ≤ c) × (c < 0xFF7))

is_data12 : (v : Vol) (c : ℕ) → v.fat12 ≡ true → 2 ≤ c → c < 0xFF7 → is_data v c ≡ true
unfolding is_data
is_data12 v c k lo hi = ground arith

end_mark12 : (v : Vol) → v.fat12 ≡ true → is_data v 0xFFF ≡ false
unfolding is_data
end_mark12 v k = ground arith

-- After the loop of `putroot` on a FAT12 volume, over distinct clusters that the table can name,
-- the clusters are linked in order and the last one ends the chain.
pub link-IsChain :
    (v : Vol) (c : ℕ) (rest : List ℕ) (i : ℕ) (bytes : List ℕ) (v' : Vol)
    → v.fat12 ≡ true
    → AreBytes v.fat
    → AreDistinct (c ∷ rest)
    → AreData (c ∷ rest)
    → link v (c ∷ rest) i bytes ≡ some v'
    → IsChain v' c (c ∷ rest)
link-IsChain v c [] i bytes v' k ok dis dat h =
    let r = link-Round v c [] i bytes ok h in
    let (g, k') = link-others r.mid [] (i + 1) bytes v' c r.keeps tt r.onward in
    let f : v'.fat12 ≡ true = k' ∙ r.kind ∙ k in
    (refl, is_data12 v' c f dat.0.0 dat.0.1, 0xFFF, g ∙ r.entry ∙ rw k refl, end_mark12 v' f)
link-IsChain v c (d ∷ rest) i bytes v' k ok dis dat h =
    let r = link-Round v c (d ∷ rest) i bytes ok h in
    let (g, k') = link-others r.mid (d ∷ rest) (i + 1) bytes v' c r.keeps dis.0 r.onward in
    let f : v'.fat12 ≡ true = k' ∙ r.kind ∙ k in
    let e : get v' c ≡ some d = g ∙ r.entry ∙ rw k (ap some (omega arith)) in
    (
      refl,
      is_data12 v' c f dat.0.0 dat.0.1,
      d,
      e,
      link-IsChain r.mid d rest (i + 1) bytes v' (r.kind ∙ k) r.keeps dis.1 dat.1 r.onward,
    )
