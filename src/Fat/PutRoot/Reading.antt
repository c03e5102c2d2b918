-- ===== src/Fat/PutRoot/Reading.antt =====
-- What `readfile` of tools/fat12-proto/fatx.py reads from volumes that differ in their files only.
use elf_dos.Base.{
  ℕ, ◌≡◌, refl, ap, ◌∙◌, inl, inr, some, none, some-injective, List, [], ◌∷◌, ◌++◌, take,
  Option-cases,
}
use elf_dos.Base.Int.{pos}
use elf_dos.Fat.Names.{split}
use elf_dos.Fat.Chain.{IsChain, chain_iff}
use elf_dos.Fat.Vol.{
  Walk, bad_entry, looped, out_of_fuel, Vol, get, is_data, done, chain, read_clusters, read_data,
}
use elf_dos.Fat.Contents.{cluster}
use elf_dos.Fat.Dir.{
  Item, root_sectors, slots_at, scan, pick, entries, find, find_from, readfile, nonempty,
}

-- Only the table decides where a chain leads.
IsChain-file :
    (v : Vol) (file : List ℕ) (c : ℕ) (xs : List ℕ)
    → IsChain v c xs
    → IsChain (record v { file = file }) c xs
unfolding is_data get
IsChain-file v file c [] h = h
IsChain-file v file c (x ∷ xs) (e, d, n, g, h) = (e, d, n, g, IsChain-file v file n xs h)

pub chain-file :
    (v : Vol) (file : List ℕ) (n c : ℕ) (xs : List ℕ)
    → v.count ≡ pos n
    → chain v c ≡ done xs
    → chain (record v { file = file }) c ≡ done xs
chain-file v file n c xs count h =
    let (i, l) = (chain_iff v n c xs count).0 h in
    (chain_iff (record v { file = file }) n c xs count).1 (IsChain-file v file c xs i, l)

-- The clusters are alike, and so is what is read from them.
read_clusters-same :
    (v w : Vol) (cs : List ℕ)
    → ((c : ℕ) → cluster w c ≡ cluster v c)
    → read_clusters w cs ≡ read_clusters v cs
unfolding read_clusters
read_clusters-same v w [] h = refl
read_clusters-same v w (c ∷ cs) h =
    ap (λ t. t ++ read_clusters w cs) (h c)
    ∙ ap (λ t. cluster v c ++ t) (read_clusters-same v w cs h)

read_data-done :
    (v : Vol) (first size : ℕ) (bytes : List ℕ)
    → read_data v first size ≡ some bytes
    → (xs : List ℕ) × (chain v first ≡ done xs) × (take size (read_clusters v xs) ≡ bytes)
unfolding read_data
read_data-done v first size bytes r = go (chain v first) refl r
  where
    go :
        (k : Walk)
        → chain v first ≡ k
        → elim k [ done cs ↦ some (take size (read_clusters v cs)) | _ ↦ none ] ≡ some bytes
        → (xs : List ℕ) × (chain v first ≡ done xs) × (take size (read_clusters v xs) ≡ bytes)
    go (done xs) e h = (xs, e, some-injective _ _ h)
    go bad_entry e h = absurd (cc)
    go looped e h = absurd (cc)
    go out_of_fuel e h = absurd (cc)

pub read_data-same :
    (v w : Vol) (n first size : ℕ) (bytes : List ℕ)
    → v.count ≡ pos n
    → w ≡ record v { file = w.file }
    → ((c : ℕ) → cluster w c ≡ cluster v c)
    → read_data v first size ≡ some bytes
    → read_data w first size ≡ some bytes
unfolding read_data
read_data-same v w n first size bytes count e h r =
    let (xs, d, t) = read_data-done v first size bytes r in
    let d2 : chain w first ≡ done xs =
      ap (λ x. chain x first) e ∙ chain-file v w.file n first xs count d in
    rw (read_data, d2) (ap some (ap (λ s. take size s) (read_clusters-same v w xs h) ∙ t))

-- A path of one name, which the root directory lacks or holds.
pub find-pick-none :
    (v : Vol) (name : List ℕ)
    → nonempty (split b'/' name) ≡ name ∷ []
    → find v name ≡ some none
    → pick name (scan (slots_at v (root_sectors v) v.rootsec) []) ≡ some none
unfolding find find_from entries
find-pick-none v name one h =
    elim (Option-cases (pick name (scan (slots_at v (root_sectors v) v.rootsec) []))) [
      | inl z ↦ absurd (let h1 = rw (find, one, find_from, entries, z) at h in cc h1)
      | inr (none, z) ↦ z
      | inr (some x, z) ↦ absurd (let h1 = rw (find, one, find_from, entries, z) at h in cc h1)
    ]

pub readfile-pick :
    (v : Vol) (name bytes : List ℕ) (x : Item)
    → nonempty (split b'/' name) ≡ name ∷ []
    → pick name (scan (slots_at v (root_sectors v) v.rootsec) []) ≡ some (some x)
    → read_data v x.cluster x.size ≡ some bytes
    → readfile v name ≡ some (some bytes)
unfolding readfile find find_from entries
readfile-pick v name bytes x one p r =
    rw (readfile, find, one, find_from, entries, p, find_from, r) refl

pub find-pick-some :
    (v : Vol) (name : List ℕ) (x : Item)
    → nonempty (split b'/' name) ≡ name ∷ []
    → find v name ≡ some (some x)
    → pick name (scan (slots_at v (root_sectors v) v.rootsec) []) ≡ some (some x)
unfolding find find_from entries
find-pick-some v name x one h =
    elim (Option-cases (pick name (scan (slots_at v (root_sectors v) v.rootsec) []))) [
      | inl z ↦ absurd (let h1 = rw (find, one, find_from, entries, z) at h in cc h1)
      | inr (none, z) ↦ absurd (let h1 = rw (find, one, find_from, entries, z) at h in cc h1)
      | inr (some y, z) ↦ z ∙ (rw (find, one, find_from, entries, z, find_from) at h)
    ]

-- `readfile` reads the chain of the item that is picked.
pub readfile-chain :
    (v : Vol) (name : List ℕ) (x : Item) (cs : List ℕ)
    → nonempty (split b'/' name) ≡ name ∷ []
    → pick name (scan (slots_at v (root_sectors v) v.rootsec) []) ≡ some (some x)
    → chain v x.cluster ≡ done cs
    → readfile v name ≡ some (some (take x.size (read_clusters v cs)))
unfolding readfile find find_from entries read_data
readfile-chain v name x cs one p h =
    rw (readfile, find, one, find_from, entries, p, find_from, read_data, h) refl
