-- ===== src/UnitValue.antt =====
-- core/unitvalue.h and core/unitvalue.cpp: the encoder of unit-file values, the names of a share's
-- two units, and the marker block that both of its unit files carry.
pub mod Access
pub mod Encode
pub mod Marker
pub mod Paths
