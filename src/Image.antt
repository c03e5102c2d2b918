-- ===== src/Image.antt =====
-- tools/split_kernel.py and tools/rom_info.py: the kernel image cut in two and made installable.
pub mod Hex
pub mod Split
pub mod Equates
pub mod Source
pub mod Rom
mod Tests
