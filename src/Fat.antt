-- ===== src/Fat.antt =====
-- tools/fat12-proto/fatx.py: the FAT12/FAT16 volume reader and root-file writer.
pub mod Entry
pub mod Vol
pub mod Names
pub mod Dir
pub mod PutRoot
pub mod Mount
pub mod Table
pub mod Chain
pub mod Regions
pub mod Bounds
pub mod Link
pub mod EndMark
pub mod Contents
pub mod Files
pub mod Below
pub mod Free
pub mod Total
pub mod Flush
pub mod Synced
mod Tests
