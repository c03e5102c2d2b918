-- ===== src/Margin.antt =====
-- tools/check_kernel_margin.py: the checks of the linked kernel against the memory map.
pub mod Expr
pub mod Check
mod Tests
