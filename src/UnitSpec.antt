-- ===== src/UnitSpec.antt =====
-- core/unitspec.h and core/unitspec.cpp.
pub mod Unc
pub mod Mountpoint
pub mod Options
pub mod Template
