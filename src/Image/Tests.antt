-- ===== src/Image/Tests.antt =====
-- Small images through the model of tools/split_kernel.py, and the theorems at concrete inputs.
use elf_dos.Base.Scan.{is_letter, is_name_char}
use elf_dos.Image.Source.{read_equs}
use elf_dos.Image.Source.RoundTrip.{EquLine, IsEquLine, printed}
use elf_dos.Image.Source.Dictionary.{last_value, read_equs-printed}
use elf_dos.Base.{
  map, All, ℕ, ◌≡◌, ◌≢◌, ◌↔◌, refl, some, none, List, [], ◌∷◌, ◌++◌, arith, ◌>>=◌, replicate,
}
use elf_dos.Base.Text.{codes}
use elf_dos.Base.Text.{lookup_text, has_text, text_eq}
use elf_dos.Image.Equates.{
  Equs, is_space, skip_spaces, drop_spaces, strip, hex_value, dec_value, digits_from, number,
  literal, eval_equ_loop, eval_equ,
}
use elf_dos.Image.Equates.Meaning.{Means, eval_equ_iff}
use elf_dos.Image.Rom.{Report, reported, rom_info}
use elf_dos.Image.Rom.Accepts.{Describes, rom_info-split_kernel}
use elf_dos.Image.Hex.{intel_hex, rec, hex, hex_digit, sum, checksum, hex_lines, join_lines}
use elf_dos.Image.Hex.Reader.{read_hex, load}
use elf_dos.Image.Hex.RoundTrip.{load-intel_hex}
use elf_dos.Image.Split.{
  sectors, bad_last_count, has_prefix, patch, patch_all, last_count, pad, assemble, slice_to,
  slice_from, write_images, split_kernel,
}
use elf_dos.Image.Split.Guards.{
  assemble-ne-bad_last_count, CanSplit, split_kernel-CanSplit, Parts, split_kernel-Parts,
}

-- A known record: the address, the bytes and the checksum.
record_text : rec 0x8100 0 (1 ∷ 2 ∷ 0xAB ∷ []) ≡ codes ":038100000102ABCE"
unfolding rec hex hex_digit checksum sum
record_text = refl

end_text : intel_hex [] 0x8100 16 ≡ codes ":00000001FF\n"
unfolding intel_hex hex_lines join_lines rec hex hex_digit checksum sum
end_text = refl

load-intel_hex_example :
    (read_hex (intel_hex (1 ∷ 2 ∷ 255 ∷ []) 0x8100 2) >>= load 0x8100) ≡ some (1 ∷ 2 ∷ 255 ∷ [])
load-intel_hex_example =
    load-intel_hex (1 ∷ 2 ∷ 255 ∷ []) 0x8100 2 (omega arith) (omega arith) (omega arith)
      (omega arith)

abbrev krnboot : List ℕ
krnboot = codes "KRN" ++ replicate 2557 0

-- Linked from $0100: four volatile bytes, a gap, and four non-volatile bytes at $0110.
abbrev kernel : List ℕ
kernel = (1 ∷ 2 ∷ 3 ∷ 4 ∷ []) ++ (replicate 12 0 ++ codes "NVK!")

abbrev full_image : List ℕ
full_image =
    (patch (patch (patch krnboot 4 1) 9 1) 11 4) ++ (pad (1 ∷ 2 ∷ 3 ∷ 4 ∷ []) ++ codes "NVK!")

assemble-ne-bad_last_count_example :
    (assemble (1 ∷ []) (replicate 512 7) krnboot).0 ≢ some bad_last_count
assemble-ne-bad_last_count_example =
    assemble-ne-bad_last_count (1 ∷ []) (replicate 512 7) krnboot (omega arith)

split_succeeds : (split_kernel 0x110 0x1000 (some 0x103) kernel krnboot).stop ≡ none
unfolding split_kernel write_images assemble patch_all patch sectors last_count has_prefix slice_to
    slice_from
split_succeeds = refl

split_kernel-CanSplit_example :
    ((split_kernel 0x110 0x1000 (some 0x103) kernel krnboot).stop ≡ none)
    ↔ CanSplit 0x110 0x1000 0x103 kernel krnboot
split_kernel-CanSplit_example = split_kernel-CanSplit 0x110 0x1000 0x103 kernel krnboot

split_kernel-Parts_example :
    Parts 0x110 0x1000 0x103 kernel (split_kernel 0x110 0x1000 (some 0x103) kernel krnboot)
split_kernel-Parts_example =
    split_kernel-Parts 0x110 0x1000 0x103 kernel krnboot (omega arith) split_succeeds

-- NVK_SIG_LEN as `include/memmap.inc` might give it, behind two names.
abbrev equs : Equs
equs = (codes "A", codes " B ") ∷ (codes "B", codes "$1f") ∷ (codes "C", codes "C") ∷ []

through_names : eval_equ (codes "A") equs ≡ some (some 31)
unfolding eval_equ eval_equ_loop literal number hex_value dec_value digits_from strip skip_spaces
    drop_spaces is_space lookup_text has_text text_eq
through_names = refl

circle : eval_equ (codes "C") equs ≡ some none
unfolding eval_equ eval_equ_loop literal number hex_value dec_value digits_from strip skip_spaces
    drop_spaces is_space lookup_text has_text text_eq
circle = refl

eval_equ_iff_example :
    (eval_equ (codes "A") equs ≢ none)
    × ((n : ℕ)
        → (eval_equ (codes "A") equs ≡ some (some n)) ↔ ((k : ℕ) × Means equs k (codes "A") n))
eval_equ_iff_example = eval_equ_iff (codes "A") equs

split_writes : (split_kernel 0x110 0x1000 (some 0x103) kernel krnboot).nv_out ≡ some (codes "NVK!")
unfolding split_kernel write_images has_prefix slice_to slice_from
split_writes = refl

rom_info-split_kernel_example :
    (r : Report) × (rom_info 0x110 0x1000 4 (codes "NVK!") ≡ reported r)
    × Describes 0x110 0x1000 4 r
rom_info-split_kernel_example =
    rom_info-split_kernel 0x110 0x1000 0x103 4 kernel krnboot (codes "NVK!") (omega arith)
      split_succeeds split_writes (omega arith)

-- ` A : equ $8000 ; top`, `B<tab>EQu 5 five`, `A equ 7`.
abbrev three_lines : List EquLine
three_lines =
    record {
      indent = b' ' ∷ [];
      initial = b'A';
      name = [];
      colon = some (b' ' ∷ []);
      gap = b' ';
      gaps = [];
      letter_e = b'e';
      letter_q = b'q';
      letter_u = b'u';
      stop = b' ';
      stops = [];
      first = b'$';
      value = codes "8000";
      trailing = b' ' ∷ [];
      comment = some (codes " top");
    }
    ∷ record {
      indent = [];
      initial = b'B';
      name = [];
      colon = none;
      gap = 9;
      gaps = [];
      letter_e = b'E';
      letter_q = b'Q';
      letter_u = b'u';
      stop = b' ';
      stops = [];
      first = b'5';
      value = [];
      trailing = codes " five" ++ 10 ∷ [];
      comment = none;
    }
    ∷ record {
      indent = [];
      initial = b'A';
      name = [];
      colon = none;
      gap = b' ';
      gaps = [];
      letter_e = b'e';
      letter_q = b'q';
      letter_u = b'u';
      stop = b' ';
      stops = [];
      first = b'7';
      value = [];
      trailing = [];
      comment = none;
    }
    ∷ []

three_printed :
    map printed three_lines
    ≡ codes " A : equ $8000 ; top"
      ∷ (b'B' ∷ 9 ∷ (codes "EQu 5 five" ++ 10 ∷ []))
      ∷ codes "A equ 7"
      ∷ []
three_printed = refl

three_lines-IsEquLine : All IsEquLine three_lines
unfolding is_letter is_name_char is_space
three_lines-IsEquLine = (
  record {
    indent_blank = (refl, tt);
    letter = refl;
    name_chars = tt;
    colon_blank = (refl, tt);
    is_e = refl;
    is_q = refl;
    is_u = refl;
    gap_blank = (refl, tt);
    stop_blank = (refl, tt);
    value_solid = (refl, (refl, (refl, (refl, (refl, tt)))));
    value_ends = refl;
    no_comment = omega arith;
  },
  (
    record {
      indent_blank = tt;
      letter = refl;
      name_chars = tt;
      colon_blank = tt;
      is_e = refl;
      is_q = refl;
      is_u = refl;
      gap_blank = (refl, tt);
      stop_blank = (refl, tt);
      value_solid = (refl, tt);
      value_ends = refl;
      no_comment = omega arith;
    },
    (
      record {
        indent_blank = tt;
        letter = refl;
        name_chars = tt;
        colon_blank = tt;
        is_e = refl;
        is_q = refl;
        is_u = refl;
        gap_blank = (refl, tt);
        stop_blank = (refl, tt);
        value_solid = (refl, tt);
        value_ends = tt;
        no_comment = omega arith;
      },
      tt,
    ),
  ),
)

read_equs-printed_example :
    lookup_text (codes "A") (read_equs (map printed three_lines))
    ≡ last_value (codes "A") three_lines
read_equs-printed_example = read_equs-printed (codes "A") three_lines three_lines-IsEquLine

last_A : last_value (codes "A") three_lines ≡ some (codes "7")
unfolding last_value text_eq
last_A = refl
