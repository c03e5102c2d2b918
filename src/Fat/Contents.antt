-- ===== src/Fat/Contents.antt =====
-- What the loop of `putroot` of tools/fat12-proto/fatx.py leaves in the clusters of the file.
use elf_dos.Base.{
  ℕ, ◌+◌, ◌-◌, ◌*◌, ◌≤◌, ◌<◌, ◌≡◌, ◌≢◌, refl, sym, ap, ◌∙◌, some, some-injective, subst, List, [],
  ◌∷◌, ◌++◌, arith, length, take, drop, slice, replicate, All, inl, inr, ◌⊎◌, length-append,
  length-take, length-replicate,
}
use native.Mathlib.Nat.{mul-le-mul_right, add-mul}
use elf_dos.Fat.Entry.Laws.{AreBytes}
use elf_dos.Fat.Vol.{Vol, sec, rd, wr, read_at, overwrite, clus_sec, link, read_clusters}
use elf_dos.Fat.Link.{Avoids, AreDistinct, padded, Round, link-Round}
use elf_dos.Fat.Regions.{
  length-overwrite, read-overwrite_self, read-overwrite_before, read-overwrite_behind,
}

-- Where cluster `c` begins in the file that holds the volume.
abbrev pub place : Vol → ℕ → ℕ
place v c = v.base + clus_sec v c * sec

-- The bytes of a cluster, `rd(clus_sec(c), spc)`.
abbrev pub cluster : Vol → ℕ → List ℕ
cluster v c = rd v (clus_sec v c) v.spc

-- The two volumes are laid out alike, in files of the same length.
pub record IsLike (v w : Vol) : Type 0 where
  pub base : w.base ≡ v.base
  pub spc : w.spc ≡ v.spc
  pub rsvd : w.rsvd ≡ v.rsvd
  pub nfats : w.nfats ≡ v.nfats
  pub rootents : w.rootents ≡ v.rootents
  pub spf : w.spf ≡ v.spf
  pub rootsec : w.rootsec ≡ v.rootsec
  pub data0 : w.data0 ≡ v.data0
  pub count : w.count ≡ v.count
  pub fat12 : w.fat12 ≡ v.fat12
  pub size : length w.file ≡ length v.file

-- The cluster is a data cluster, and the file holds all of it.
pub record IsHeld (v : Vol) (c : ℕ) : Type 0 where
  pub from_two : 2 ≤ c
  pub held : place v c + v.spc * sec ≤ length v.file

pub length-padded : (v : Vol) (i : ℕ) (bytes : List ℕ) → length (padded v i bytes) ≡ v.spc * sec
length-padded v i bytes =
    let csz : ℕ = v.spc * sec in
    let chunk : List ℕ = slice (i * csz) ((i + 1) * csz) bytes in
    let next : (i + 1) * csz ≡ i * csz + csz = omega (arith, add-mul i 1 csz) in
    length-append chunk (replicate (csz - length chunk) 0)
    ∙ omega (
      arith,
      next,
      length-replicate {A = ℕ} (csz - length chunk) 0,
      length-take ((i + 1) * csz - i * csz) (drop (i * csz) bytes),
    )

pub apart : (v : Vol) (c d : ℕ) → 2 ≤ c → c < d → place v c + v.spc * sec ≤ place v d
unfolding clus_sec
apart v c d lo h =
    let m : (c - 2 + 1) * v.spc ≤ (d - 2) * v.spc = mul-le-mul_right v.spc (omega arith) in
    omega (arith, m, add-mul (c - 2) 1 v.spc)

pub IsHeld-IsLike : (v w : Vol) (c : ℕ) → IsLike v w → IsHeld v c → IsHeld w c
unfolding clus_sec
IsHeld-IsLike v w c l h = record {
  from_two = h.from_two;
  held = rw (l.base, l.spc, l.data0, l.size) h.held;
}

lt-cases : (c d : ℕ) → c ≢ d → (c < d) ⊎ (d < c)
lt-cases c d ne = ground (arith, ne)

-- A write of a whole cluster.
module _ (v w : Vol) (c : ℕ) (bytes : List ℕ)
    (e : w ≡ wr (record v { fat = w.fat }) (clus_sec v c) bytes) (full : length bytes ≡ v.spc * sec)
    (h : IsHeld v c) where
  fits : place v c + length bytes ≤ length v.file
  fits = omega (arith, full, h.held)

  write-IsLike : IsLike v w
  unfolding wr
  write-IsLike = record {
    base = ap (λ (x : Vol). x.base) e;
    spc = ap (λ (x : Vol). x.spc) e;
    data0 = ap (λ (x : Vol). x.data0) e;
    count = ap (λ (x : Vol). x.count) e;
    rsvd = ap (λ (x : Vol). x.rsvd) e;
    nfats = ap (λ (x : Vol). x.nfats) e;
    rootents = ap (λ (x : Vol). x.rootents) e;
    spf = ap (λ (x : Vol). x.spf) e;
    rootsec = ap (λ (x : Vol). x.rootsec) e;
    fat12 = ap (λ (x : Vol). x.fat12) e;
    size = ap (λ (x : Vol). length x.file) e ∙ length-overwrite v.file (place v c) bytes fits;
  }

  cluster_self : cluster w c ≡ bytes
  unfolding rd wr read_at clus_sec
  cluster_self =
      ap (λ (x : Vol). cluster x c) e
      ∙ ap (λ (k : ℕ). take k (drop (place v c) (overwrite v.file (place v c) bytes))) (sym full)
      ∙ read-overwrite_self v.file (place v c) bytes fits

  cluster_other : (d : ℕ) → c ≢ d → 2 ≤ d → cluster w d ≡ cluster v d
  unfolding rd wr read_at clus_sec
  cluster_other d ne lo = ap (λ (x : Vol). cluster x d) e ∙ elim (lt-cases c d ne) [
    | inl lt ↦
        read-overwrite_behind v.file (place v c) bytes fits (place v d) (v.spc * sec)
          (omega (arith, full, apart v c d h.from_two lt))
    | inr gt ↦
        read-overwrite_before v.file (place v c) bytes fits (place v d) (v.spc * sec)
          (apart v d c lo gt)
  ]

-- One round of the loop, with the write that it makes.
module _ (v : Vol) (c : ℕ) (rest : List ℕ) (i : ℕ) (bytes : List ℕ) {v' : Vol}
    (r : Round v c rest i bytes v') (h : IsHeld v c) where
  pub round-IsLike : IsLike v r.mid
  round-IsLike = write-IsLike v r.mid c (padded v i bytes) r.wrote (length-padded v i bytes) h

  round_self : cluster r.mid c ≡ padded v i bytes
  round_self = cluster_self v r.mid c (padded v i bytes) r.wrote (length-padded v i bytes) h

  round_other : (d : ℕ) → c ≢ d → 2 ≤ d → cluster r.mid d ≡ cluster v d
  round_other = cluster_other v r.mid c (padded v i bytes) r.wrote (length-padded v i bytes) h

pub IsLike-refl : (v : Vol) → IsLike v v
IsLike-refl v = record {
  rsvd = refl;
  nfats = refl;
  rootents = refl;
  spf = refl;
  rootsec = refl;
  fat12 = refl;
  base = refl;
  spc = refl;
  data0 = refl;
  count = refl;
  size = refl;
}

pub IsLike-trans : (v w x : Vol) → IsLike v w → IsLike w x → IsLike v x
IsLike-trans v w x a b = record {
  base = b.base ∙ a.base;
  spc = b.spc ∙ a.spc;
  data0 = b.data0 ∙ a.data0;
  count = b.count ∙ a.count;
  rsvd = b.rsvd ∙ a.rsvd;
  nfats = b.nfats ∙ a.nfats;
  rootents = b.rootents ∙ a.rootents;
  spf = b.spf ∙ a.spf;
  rootsec = b.rootsec ∙ a.rootsec;
  fat12 = b.fat12 ∙ a.fat12;
  size = b.size ∙ a.size;
}

pub All-IsHeld : (v w : Vol) (cs : List ℕ) → IsLike v w → All (IsHeld v) cs → All (IsHeld w) cs
All-IsHeld v w [] l h = tt
All-IsHeld v w (c ∷ cs) l h = (IsHeld-IsLike v w c l h.0, All-IsHeld v w cs l h.1)

-- The loop leaves every other cluster as it is.
pub link-cluster_other :
    (v : Vol) (cs : List ℕ) (i : ℕ) (bytes : List ℕ) (v' : Vol) (d : ℕ)
    → AreBytes v.fat
    → All (IsHeld v) cs
    → Avoids d cs
    → 2 ≤ d
    → link v cs i bytes ≡ some v'
    → (cluster v' d ≡ cluster v d) × IsLike v v'
link-cluster_other v [] i bytes v' d ok held av lo h =
    let same : v ≡ v' = unfold link in some-injective _ _ h in
    (ap (λ x. cluster x d) (sym same), subst (λ x. IsLike v x) same (IsLike-refl v))
link-cluster_other v (c ∷ rest) i bytes v' d ok held av lo h =
    let r = link-Round v c rest i bytes ok h in
    let l = round-IsLike v c rest i bytes r held.0 in
    let (g, k) =
      link-cluster_other r.mid rest (i + 1) bytes v' d r.keeps (All-IsHeld v r.mid rest l held.1)
        av.1 lo r.onward in
    (g ∙ round_other v c rest i bytes r held.0 d av.0 lo, IsLike-trans v r.mid v' l k)

pub link-IsLike :
    (v : Vol) (cs : List ℕ) (i : ℕ) (bytes : List ℕ) (v' : Vol)
    → AreBytes v.fat
    → All (IsHeld v) cs
    → link v cs i bytes ≡ some v'
    → IsLike v v'
link-IsLike v [] i bytes v' ok held h =
    let same : v ≡ v' = unfold link in some-injective _ _ h in
    subst (λ x. IsLike v x) same (IsLike-refl v)
link-IsLike v (c ∷ rest) i bytes v' ok held h =
    let r = link-Round v c rest i bytes ok h in
    let l = round-IsLike v c rest i bytes r held.0 in
    IsLike-trans v r.mid v' l
      (link-IsLike r.mid rest (i + 1) bytes v' r.keeps (All-IsHeld v r.mid rest l held.1) r.onward)

-- The pieces of the data for the clusters, from number `i` on.
abbrev pub pieces : ℕ → List ℕ → List ℕ → ℕ → List ℕ
pieces spc bytes [] i = []
pieces spc bytes (c ∷ cs) i =
    let csz = spc * sec in
    let chunk = slice (i * csz) ((i + 1) * csz) bytes in
    (chunk ++ replicate (csz - length chunk) 0) ++ pieces spc bytes cs (i + 1)

pub link-pieces :
    (v : Vol) (cs : List ℕ) (i : ℕ) (bytes : List ℕ) (v' : Vol)
    → AreBytes v.fat
    → All (IsHeld v) cs
    → AreDistinct cs
    → link v cs i bytes ≡ some v'
    → read_clusters v' cs ≡ pieces v.spc bytes cs i
unfolding read_clusters
link-pieces v [] i bytes v' ok held dis h = refl
link-pieces v (c ∷ rest) i bytes v' ok held dis h =
    let r = link-Round v c rest i bytes ok h in
    let l = round-IsLike v c rest i bytes r held.0 in
    let held' = All-IsHeld v r.mid rest l held.1 in
    let (g, k) =
      link-cluster_other r.mid rest (i + 1) bytes v' c r.keeps held' dis.0 held.0.from_two
        r.onward in
    let ih = link-pieces r.mid rest (i + 1) bytes v' r.keeps held' dis.1 r.onward in
    ap (λ t. t ++ read_clusters v' rest) (g ∙ round_self v c rest i bytes r held.0)
    ∙ ap (λ t. padded v i bytes ++ t) (ih ∙ ap (λ (s : ℕ). pieces s bytes rest (i + 1)) l.spc)
