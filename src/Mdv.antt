-- ===== src/Mdv.antt =====
-- tools/mdvref.py: the reference model of the Markdown viewer MDV.
pub mod Style
pub mod Wrap
pub mod Scan
pub mod Inline
pub mod Blocks
pub mod Line
pub mod Render
mod Tests
