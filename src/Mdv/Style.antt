-- ===== src/Mdv/Style.antt =====
-- Style bits, escape sequences and visible columns of tools/mdvref.py. A row is a list of bytes.
pub mod Columns
use elf_dos.Base.{
  ℕ, suc, ◌+◌, bit_and, Bool, true, false, ◌&&◌, ◌||◌, not, List, [], ◌∷◌, ◌++◌, ltb, leb, ◌==◌,
  if◌then◌else◌,
}
use elf_dos.Base.Text.{codes}

-- `S_B, S_I, S_L, S_C, S_U`
abbrev pub s_b : ℕ
s_b = 1

abbrev pub s_i : ℕ
s_i = 2

abbrev pub s_l : ℕ
s_l = 4

abbrev pub s_c : ℕ
s_c = 8

abbrev pub s_u : ℕ
s_u = 16

abbrev pub esc : ℕ
esc = 27

-- `MARK_SGR`, `BAR_SGR`, `HR_SGR`, `RESET`
abbrev pub mark_sgr : List ℕ
mark_sgr = esc ∷ codes "[36m"

abbrev pub bar_sgr : List ℕ
bar_sgr = esc ∷ codes "[32m"

abbrev pub hr_sgr : List ℕ
hr_sgr = esc ∷ codes "[36m"

abbrev pub reset : List ℕ
reset = esc ∷ codes "[0m"

-- `HEAD_SGR.get(level, b';1')`
abbrev pub head_sgr : ℕ → List ℕ
head_sgr level =
    if level == 1
    then codes ";1;4;36"
    else if level == 2
    then codes ";1;36"
    else if level == 3
    then codes ";1;35"
    else codes ";1"

-- `st & bit` as a truth value
unfoldable pub has_bit : ℕ → ℕ → Bool
has_bit st bit = not (bit_and st bit == 0)

-- What `sgr` appends for the style bits.
unfoldable pub flags : ℕ → List ℕ
flags st =
    (if has_bit st s_b then codes ";1" else [])
    ++ ((if has_bit st s_i then codes ";3" else [])
        ++ ((if has_bit st s_l then codes ";4" else [])
            ++ ((if has_bit st s_c then codes ";33" else [])
                ++ (if has_bit st s_u then codes ";32" else []))))

unfoldable pub sgr : List ℕ → ℕ → List ℕ
sgr base st = esc ∷ codes "[0" ++ (base ++ (flags st ++ b'm' ∷ []))

-- `(c & 0xC0) == 0x80`: a continuation byte of UTF-8.
unfoldable pub is_cont : ℕ → Bool
is_cont c = bit_and c 0xC0 == 0x80

-- Where the scan of `vis` stands: in text, behind an ESC, or inside an escape sequence.
pub data Mode : Type 0 where
  text after_esc in_csi : Mode

-- One byte of the scan.
unfoldable pub step : Mode → ℕ → Mode
step text c = if c == esc then after_esc else text
step after_esc c = if c == b'[' then in_csi else text
step in_csi c = if leb 0x40 c && leb c 0x7e then text else in_csi

-- The column that a byte takes.
unfoldable pub width : Mode → ℕ → ℕ
width text c = if c == esc then 0 else if is_cont c then 0 else 1
width after_esc c = 0
width in_csi c = 0

-- The loop of `vis`, from a place in the row on.
unfoldable pub vis_from : Mode → List ℕ → ℕ
vis_from m [] = 0
vis_from m (c ∷ b) = width m c + vis_from (step m c) b

unfoldable pub vis : List ℕ → ℕ
vis b = vis_from text b
