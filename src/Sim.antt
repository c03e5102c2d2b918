-- ===== src/Sim.antt =====
-- tools/fat12-proto: the 1802 simulator and the model disk of sim12.py, which the FAT code of the
-- kernel runs against, and what simb7.py and simswd.py expect of it.
pub mod Cpu
pub mod Run
pub mod Cache
pub mod Reference
pub mod Expected
mod Tests
