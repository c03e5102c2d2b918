-- ===== src/Lib.antt =====
-- The host tools of ELF-DOS, in Python: what builds, checks and models parts of the operating
-- system.
--
-- Base: shared names, lists by native numbers, bit operations, results of code that may raise.
-- Mdv: tools/mdvref.py, the byte-exact model of the Markdown viewer. Mdv/Style holds the escape
--   sequences and `vis`; Mdv/Wrap the classes `Out` and `Wrap`, with `put` and `finish`; Mdv/Scan
--   the look-ahead functions over a text that ends in a NUL; Mdv/Inline `render_inline`, one
--   function for each branch of its loop; Mdv/Blocks the class `Doc` with `flush`, `code_row`,
--   `hr`, `quote_blank` and `start`; Mdv/Line `Doc.line`, one function for each kind of line;
--   Mdv/Render `render`. A `Wrap` refers to its `Out`; here the `Out` is a field of it, and
--   `flush` takes it back.
-- Image: tools/split_kernel.py. Image/Hex is `intel_hex`, with a reader of the format;
--   Image/Split is `main` from the linker's symbols on: guards, images, header and installable
--   image, with what boot/krnboot.asm loads of it in Image/Split/Layout; Image/Equates is its
--   `eval_equ`, Image/Source its `read_equs`, and Image/Rom `main` of tools/rom_info.py, which
--   reports on the non-volatile image.
-- Fat: tools/fat12-proto/fatx.py. Fat/Entry is a table entry as bytes, Fat/Vol the class `Vol`,
--   and Fat/Chain, Fat/Table and Fat/Link are about `chain`, `set` and the loop of `putroot`,
--   Fat/Bounds about the clusters that have an entry and Fat/EndMark about that loop on FAT16;
--   Fat/Regions, Fat/Contents and Fat/Files follow the data through that loop and back; Fat/Below
--   and Fat/Free are about what it leaves alone and the clusters it takes, Fat/Mount about the
--   layout that `__init__` finds, Fat/Flush about `flush` and Fat/Synced about both. Fat/Names
--   holds the string methods, Fat/Dir `entries`, `find` and `readfile`, Fat/PutRoot the whole of
--   `putroot`; below it Slot and Built are about the directory entry, Place, Sectors and Scan
--   about its place, Steps, Done and Total about a whole run, Reading, RoundTrip and Others about
--   what is read afterwards; Fat/Total is about runs that raise nothing. An `entries` generator
--   is the list of what it yields. Lower case is exact for the characters below 256, upper case
--   for ASCII.
-- Margin: tools/check_kernel_margin.py. Margin/Expr is `eval_expr`, with its tokenizer, and the
--   relay floor, Margin/Check `main` once the sources are read and the kernel is linked: the four
--   checks and the exit code.
-- Sim: tools/fat12-proto/sim12.py. Sim/Cpu is the class `CPU` with the decoding of `run`, Sim/Run
--   the loop with its hooks, Sim/Cache the model disk with the hook `fls` and `effective`, and
--   Sim/Reference `ref_get` and `ref_set`; Sim/Expected is what simb7.py and simswd.py, beside
--   it, expect of a boot sector. Memory is a function of the address. Registers are natural
--   numbers: the source lets the stack pointer go below zero, where the model ends with `none`;
--   of such a stack nothing is said, and the theorems on calls assume room on it.
--
-- A Python exception is `none`, or a constructor of the result's own type. Bytes are natural
-- numbers; the theorems that need them below 256 say so. A `while` loop runs on fuel: the length
-- of the text for the scans, the number of clusters and a few more for a chain, the count of
-- `range` for the HEX lines, one more than the equates for `eval_equ` and `eval_expr`; that the
-- fuel is enough is part of the theorems. The fuel of the simulator's `run` is the number of its
-- rounds; no bound is given for it, since a hook may send the CPU back to itself. The other
-- regular expressions, files, the linker and what is printed are not modelled; the assembly
-- sources of the operating system are not modelled either, but for the loading of the image.
pub mod Base
pub mod Fat
pub mod Image
pub mod Margin
pub mod Mdv
pub mod Sim
