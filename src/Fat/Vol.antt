-- ===== src/Fat/Vol.antt =====
-- `Vol` of tools/fat12-proto/fatx.py: an open volume and its methods. The file is the list of its
-- bytes; a read past its end is short, and a write past its end fills the gap with zeros.
-- `none` is an exception (IndexError, struct.error or ZeroDivisionError).
use elf_dos.Base.{
  ℕ, zero, suc, ◌+◌, ◌-◌, ◌*◌, ◌/◌, ◌^◌, Bool, true, false, ◌&&◌, not, Option, none, some, List, [],
  ◌∷◌, ◌++◌, ltb, leb, ◌==◌, if◌then◌else◌, ◌>>=◌, ◌>>◌, require, length, get_elem?, take, drop,
  replicate, slice, max,
}
use elf_dos.Base.Int.{ℤ, pos, pos_part, neg_part, sub_ℕ, ltb_ℤ, div_ℤ}
use elf_dos.Fat.Entry.{get12, set12, get16, set16}

-- `SEC`
abbrev pub sec : ℕ
sec = 512

pub record Vol : Type 0 where
  pub file : List ℕ
  pub base : ℕ
  pub spc : ℕ
  pub rsvd : ℕ
  pub nfats : ℕ
  pub rootents : ℕ
  pub spf : ℕ
  pub rootsec : ℕ
  pub data0 : ℕ
  pub count : ℤ
  pub fat12 : Bool
  pub fat : List ℕ

-- `rd`, for a file and a base.
unfoldable pub read_at : List ℕ → ℕ → ℕ → ℕ → List ℕ
read_at file base s n = take (n * sec) (drop (base + s * sec) file)

-- `f.seek(o); f.write(bytes)`: a write behind the end fills the gap with zeros, one of no bytes does
-- nothing.
unfoldable pub overwrite : List ℕ → ℕ → List ℕ → List ℕ
overwrite file o [] = file
overwrite file o (b ∷ bytes) =
    take o file
    ++ (replicate (o - length file) 0 ++ (b ∷ bytes ++ drop (o + length (b ∷ bytes)) file))

unfoldable pub rd : Vol → ℕ → ℕ → List ℕ
unfolding read_at
rd v s n = read_at v.file v.base s n

unfoldable pub wr : Vol → ℕ → List ℕ → Vol
unfolding overwrite
wr v s bytes = record v { file = overwrite v.file (v.base + s * sec) bytes }

-- `struct.unpack_from('<H', b, o)[0]` and `'<I'`
unfoldable pub le16 : List ℕ → ℕ → Option ℕ
le16 b o = do x ← get_elem? b o; y ← get_elem? b (o + 1); some (x + y * 2 ^ 8)

unfoldable pub le32 : List ℕ → ℕ → Option ℕ
unfolding le16
le32 b o = do x ← le16 b o; y ← le16 b (o + 2); some (x + y * 2 ^ 16)

-- `b''.join(self.rd(self.rsvd + i) for i in range(self.spf))`, from sector `s` on.
unfoldable pub read_fat : ℕ → List ℕ → ℕ → ℕ → List ℕ
unfolding read_at
read_fat zero file base s = []
read_fat (suc n) file base s = read_at file base s 1 ++ read_fat n file base (s + 1)

-- `__init__`
unfoldable pub mount : List ℕ → ℕ → Option Vol
unfolding read_at le16 le32 read_fat
mount file lba = do
  let base = lba * sec
  let b = read_at file base 0 1
  spc ← get_elem? b 13
  rsvd ← le16 b 14
  nfats ← get_elem? b 16
  rootents ← le16 b 17
  spf ← le16 b 22
  small ← le16 b 19
  tot ← if small == 0 then le32 b 32 else some small
  let rootsec = rsvd + nfats * spf
  let data0 = rootsec + (rootents * 32 + sec - 1) / sec
  require (not (spc == 0))
  let count = div_ℤ (sub_ℕ tot data0) spc
  some (record {
    file = file;
    base = base;
    spc = spc;
    rsvd = rsvd;
    nfats = nfats;
    rootents = rootents;
    spf = spf;
    rootsec = rootsec;
    data0 = data0;
    count = count;
    fat12 = ltb_ℤ count (pos 4085);
    fat = read_fat spf file base rsvd;
  })

unfoldable pub get : Vol → ℕ → Option ℕ
get v c = if v.fat12 then get12 v.fat c else get16 v.fat c

unfoldable pub eoc : Vol → ℕ → Bool
eoc v n = leb (if v.fat12 then 0xFF8 else 0xFFF8) n

unfoldable pub put : Vol → ℕ → ℕ → Option Vol
put v c n = do
  fat ← if v.fat12 then set12 v.fat c n else set16 v.fat c n
  some (record v { fat = fat })

-- `for i in range(self.nfats)`: copy `i` of the table starts at sector `rsvd + i * spf`.
unfoldable pub flush_from : ℕ → ℕ → Vol → Vol
unfolding wr
flush_from zero i v = v
flush_from (suc n) i v = flush_from n (i + 1) (wr v (v.rsvd + i * v.spf) v.fat)

unfoldable pub flush : Vol → Vol
unfolding flush_from
flush v = flush_from v.nfats 0 v

-- How `chain` ends: with a list, with an exception of `get`, or with RuntimeError('loop').
pub data Walk : Type 0 where
  done : List ℕ → Walk
  bad_entry looped out_of_fuel : Walk

-- `2 <= c < 0xFF7 if self.fat12 else 2 <= c < 0xFFF7`
unfoldable pub is_data : Vol → ℕ → Bool
is_data v c = leb 2 c && ltb c (if v.fat12 then 0xFF7 else 0xFFF7)

-- `len(out) > self.count + 2`
unfoldable pub too_long : Vol → ℕ → Bool
too_long v n = ltb (pos_part v.count + 2) (n + neg_part v.count)

unfoldable pub chain_loop : Vol → ℕ → List ℕ → ℕ → Walk
chain_loop v zero out c = out_of_fuel
chain_loop v (suc f) out c = elim (is_data v c) [
  | false ↦ done out
  | true ↦ elim (get v c) [
    | none ↦ bad_entry
    | some n ↦ elim (too_long v (length (out ++ c ∷ []))) [
      | true ↦ looped
      | false ↦ chain_loop v f (out ++ c ∷ []) n
    ]
  ]
]

unfoldable pub chain : Vol → ℕ → Walk
unfolding chain_loop
chain v c = chain_loop v (pos_part v.count + 4) [] c

-- `clus_sec`, for the clusters of a chain, which are at least 2.
unfoldable pub clus_sec : Vol → ℕ → ℕ
clus_sec v c = v.data0 + (c - 2) * v.spc

-- `b''.join(self.rd(self.clus_sec(c), self.spc) for c in ...)`
unfoldable pub read_clusters : Vol → List ℕ → List ℕ
read_clusters v [] = []
read_clusters v (c ∷ cs) = rd v (clus_sec v c) v.spc ++ read_clusters v cs

-- `readfile`, for the first cluster and the size that the directory entry gives.
unfoldable pub read_data : Vol → ℕ → ℕ → Option (List ℕ)
read_data v first size = elim (chain v first) [
  | done cs ↦ some (take size (read_clusters v cs))
  | _ ↦ none
]

-- `[c for c in range(2, self.count + 2) if self.get(c) == 0]`, from cluster `c` on.
unfoldable pub free_from : Vol → ℕ → ℕ → Option (List ℕ)
unfolding get
free_from v zero c = some []
free_from v (suc n) c = do
  e ← get v c
  rest ← free_from v n (c + 1)
  some (if e == 0 then c ∷ rest else rest)

-- `free[i + 1] if i + 1 < len(free) else 0xFFF`, for what follows in the list.
abbrev pub successor : List ℕ → ℕ
successor [] = 0xFFF
successor (c ∷ rest) = c

-- `for i, c in enumerate(free)` of `putroot`, from cluster number `i` on.
unfoldable pub link : Vol → List ℕ → ℕ → List ℕ → Option Vol
link v [] i bytes = some v
link v (c ∷ rest) i bytes = do
  v' ← put v c (successor rest)
  let csz = v.spc * sec
  let chunk = slice (i * csz) ((i + 1) * csz) bytes
  link (wr v' (clus_sec v c) (chunk ++ replicate (csz - length chunk) 0)) rest (i + 1) bytes

-- `putroot` up to the directory entry: the clusters that it takes, and the volume after `flush`.
unfoldable pub put_data : Vol → List ℕ → Option (List ℕ × Vol)
unfolding free_from link flush
put_data v bytes = do
  let csz = v.spc * sec
  require (not (csz == 0))
  all ← free_from v (pos_part v.count) 2
  let free = take (max 1 ((length bytes + csz - 1) / csz)) all
  v' ← link v free 0 bytes
  some (free, flush v')
