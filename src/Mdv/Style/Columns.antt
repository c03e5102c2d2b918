-- ===== src/Mdv/Style/Columns.antt =====
-- The columns of a row that is put together from pieces.
use elf_dos.Base.{
  ℕ, zero, suc, ◌+◌, ◌<◌, ◌≡◌, refl, ap, ◌∙◌, sym, false, List, [], ◌∷◌, ◌++◌, arith, if◌then◌else◌,
  append_assoc, All, All-append, replicate,
}
use elf_dos.Mdv.Style.{Mode, text, in_csi, step, width, vis_from, vis, is_cont, sgr, flags, esc}

-- Where the scan stands behind a piece.
unfoldable pub mode_after : Mode → List ℕ → Mode
mode_after m [] = m
mode_after m (c ∷ b) = mode_after (step m c) b

mode_after-append :
    (m : Mode) (a b : List ℕ) → mode_after m (a ++ b) ≡ mode_after (mode_after m a) b
unfolding mode_after
mode_after-append m [] b = refl
mode_after-append m (c ∷ a) b = mode_after-append (step m c) a b

vis_from-append :
    (m : Mode) (a b : List ℕ) → vis_from m (a ++ b) ≡ vis_from m a + vis_from (mode_after m a) b
unfolding mode_after vis_from
vis_from-append m [] b = omega arith
vis_from-append m (c ∷ a) b = omega (arith, vis_from-append (step m c) a b)

-- A piece of `n` columns that ends outside escape sequences.
pub record IsPiece (b : List ℕ) (n : ℕ) : Type 0 where
  pub ends : mode_after text b ≡ text
  pub cols : vis b ≡ n

pub IsPiece-nil : IsPiece [] 0
unfolding mode_after vis vis_from
IsPiece-nil = record { ends = refl; cols = refl }

pub IsPiece-append : (a b : List ℕ) (n m : ℕ) → IsPiece a n → IsPiece b m → IsPiece (a ++ b) (n + m)
unfolding vis
IsPiece-append a b n m ha hb = record {
  ends = mode_after-append text a b ∙ ap (λ k. mode_after k b) ha.ends ∙ hb.ends;
  cols =
      vis_from-append text a b
      ∙ ap (λ k. vis_from text a + vis_from k b) ha.ends
      ∙ omega (arith, ha.cols, hb.cols);
}

-- A piece behind one that takes no column.
pub IsPiece-behind : (a b : List ℕ) (n : ℕ) → IsPiece a 0 → IsPiece b n → IsPiece (a ++ b) n
IsPiece-behind a b n ha hb =
    let p = IsPiece-append a b 0 n ha hb in record { ends = p.ends; cols = p.cols ∙ omega arith }

-- What follows a piece in a piece is a piece.
pub IsPiece-rest :
    (a b : List ℕ) (n m : ℕ)
    → IsPiece a n
    → IsPiece (a ++ b) m
    → (IsPiece b (vis b)) × (m ≡ n + vis b)
unfolding vis
IsPiece-rest a b n m ha hab = (
  record {
    ends = ap (λ k. mode_after k b) (sym ha.ends) ∙ sym (mode_after-append text a b) ∙ hab.ends;
    cols = refl;
  },
  omega (arith, hab.cols, ha.cols, vis_from-append text a b, ap (λ k. vis_from k b) ha.ends),
)

-- One byte that is no ESC.
pub IsPiece-byte : (c : ℕ) → 31 < c → IsPiece (c ∷ []) (if is_cont c then 0 else 1)
unfolding mode_after vis vis_from step width
IsPiece-byte c h = record { ends = ground arith; cols = ground arith }

pub IsPiece-spaces : (n : ℕ) → IsPiece (replicate n b' ') n
unfolding mode_after vis vis_from step width is_cont
IsPiece-spaces zero = IsPiece-nil
IsPiece-spaces (suc n) =
    let r = IsPiece-spaces n in record { ends = r.ends; cols = omega (arith, r.cols) }

-- The parameters of an escape sequence.
abbrev pub AreParams : List ℕ → Type 0
AreParams = All (λ c. c < 0x40)

in_params : (b : List ℕ) → AreParams b → (mode_after in_csi b ≡ in_csi) × (vis_from in_csi b ≡ 0)
unfolding mode_after vis_from step width
in_params [] h = (refl, refl)
in_params (c ∷ b) h = ground (arith, in_params b h.1)

pub csi-IsPiece : (b : List ℕ) → AreParams b → IsPiece (esc ∷ b'[' ∷ (b ++ b'm' ∷ [])) 0
unfolding mode_after vis vis_from step width
csi-IsPiece b h =
    let (stay, none_seen) = in_params b h in
    record {
      ends = mode_after-append in_csi b (b'm' ∷ []) ∙ ap (λ k. mode_after k (b'm' ∷ [])) stay;
      cols = omega (
        arith,
        vis_from-append in_csi b (b'm' ∷ []),
        none_seen,
        ap (λ k. vis_from k (b'm' ∷ [])) stay,
      );
    }

flags-AreParams : (st : ℕ) → AreParams (flags st)
unfolding flags
flags-AreParams st = ground arith

-- A style change takes no column.
pub sgr-IsPiece : (base : List ℕ) (st : ℕ) → AreParams base → IsPiece (sgr base st) 0
unfolding sgr
sgr-IsPiece base st h = rw (← append_assoc base (flags st) (b'm' ∷ [])) (
    csi-IsPiece (b'0' ∷ (base ++ flags st))
      (omega arith, All-append (λ c. c < 0x40) base (flags st) h (flags-AreParams st)))

-- One byte in front of a piece.
pub IsPiece-cons :
    (c : ℕ) (b : List ℕ) (n : ℕ)
    → 31 < c
    → is_cont c ≡ false
    → IsPiece b n
    → IsPiece (c ∷ b) (suc n)
unfolding mode_after vis vis_from step width
IsPiece-cons c b n h k p = record { ends = ground (arith, p.ends); cols = ground (arith, p.cols) }
