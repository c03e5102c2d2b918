-- ===== src/Mdv/Wrap/Width.antt =====
-- No row is wider than the screen: the invariant of the row builder of tools/mdvref.py.
use elf_dos.Base.{
  ℕ, ◌+◌, ◌≤◌, ◌<◌, ◌≡◌, refl, Bool, true, false, List, [], ◌∷◌, arith, ◌&&◌, Bool-cases, inl, inr,
  All, All-append, length,
}
use elf_dos.Mdv.Style.{is_cont, reset, mark_sgr, bar_sgr}
use elf_dos.Mdv.Style.Columns.{
  IsPiece, IsPiece-nil, IsPiece-append, IsPiece-spaces, IsPiece-cons, csi-IsPiece,
}
use elf_dos.Mdv.Wrap.{
  Out, row, blank, Prefix, spaces, marker, bar, unless_plain, prefix_bytes, prefix_cols,
}

-- A row of at most `n` columns that ends outside escape sequences.
pub record FitsIn (n : ℕ) (b : List ℕ) : Type 0 where
  pub cols : ℕ
  pub piece : IsPiece b cols
  pub fits : cols ≤ n

pub record OutFits (n : ℕ) (o : Out) : Type 0 where
  pub same : o.width ≡ n
  pub rows : All (FitsIn n) o.rows

pub row-OutFits : {n : ℕ} (b : List ℕ) (o : Out) → FitsIn n b → OutFits n o → OutFits n (row b o)
unfolding row
row-OutFits {n} b o h f = record {
  same = f.same;
  rows = All-append (FitsIn n) o.rows (b ∷ []) f.rows (h, tt);
}

FitsIn-nil : {n : ℕ} → FitsIn n []
FitsIn-nil = record { cols = 0; piece = IsPiece-nil; fits = omega arith }

pub blank-OutFits : {n : ℕ} (o : Out) → OutFits n o → OutFits n (blank o)
unfolding blank
blank-OutFits {n} o f = elim (Bool-cases (o.need_blank && o.any_out)) [
  | inl e ↦
      rw e
        (let r = row-OutFits {n = n} [] o FitsIn-nil f in record { same = r.same; rows = r.rows })
  | inr e ↦ rw e (record { same = f.same; rows = f.rows })
]

-- A list marker is made of bytes that take a column each.
abbrev pub IsMarker : List ℕ → Type 0
IsMarker = All (λ c. (31 < c) × (is_cont c ≡ false))

abbrev pub IsPrefix : Prefix → Type 0
IsPrefix (spaces n) = Unit
IsPrefix (marker m mk) = IsMarker mk
IsPrefix bar = Unit

marker-IsPiece : (mk : List ℕ) → IsMarker mk → IsPiece mk (length mk)
marker-IsPiece [] h = IsPiece-nil
marker-IsPiece (c ∷ mk) h = IsPiece-cons c mk (length mk) h.0.0 h.0.1 (marker-IsPiece mk h.1)

sum_of_parts : (m k : ℕ) → m + k + 1 ≡ m + (0 + (k + (0 + 1)))
sum_of_parts m k = omega arith

pub sequence-IsPiece : (plain : Bool) (b : List ℕ) → IsPiece b 0 → IsPiece (unless_plain plain b) 0
sequence-IsPiece true b h = IsPiece-nil
sequence-IsPiece false b h = h

pub reset-IsPiece : IsPiece reset 0
reset-IsPiece = csi-IsPiece (b'0' ∷ []) (omega arith)

pub prefix-IsPiece :
    (plain : Bool) (p : Prefix) → IsPrefix p → IsPiece (prefix_bytes plain p) (prefix_cols p)
unfolding prefix_bytes is_cont
prefix-IsPiece plain (spaces n) h = IsPiece-spaces n
prefix-IsPiece plain (marker m mk) h = rw (sum_of_parts m (length mk)) (
    IsPiece-append _ _ m _ (IsPiece-spaces m) (
      IsPiece-append _ _ 0 _
        (sequence-IsPiece plain mark_sgr (csi-IsPiece (b'3' ∷ b'6' ∷ []) (omega arith)))
        (IsPiece-append _ _ (length mk) _ (marker-IsPiece mk h) (
          IsPiece-append _ _ 0 1 (sequence-IsPiece plain reset reset-IsPiece) (IsPiece-spaces 1)))))
prefix-IsPiece plain bar h =
    IsPiece-append _ _ 0 2
      (sequence-IsPiece plain bar_sgr (csi-IsPiece (b'3' ∷ b'2' ∷ []) (omega arith)))
      (IsPiece-cons b'|' _ 1 (omega arith) refl
        (IsPiece-append _ _ 0 1 (sequence-IsPiece plain reset reset-IsPiece) (IsPiece-spaces 1)))
