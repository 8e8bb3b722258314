-- ===== src/Verify.antt =====
-- core/verify.h and core/verify.cpp: what the unit files and the kernel say of a share. The files,
-- systemctl, mountinfo and the mount ids are read through the records of Verify/Files and
-- Verify/Runtime.
pub mod Files
pub mod Definition
pub mod Halves
pub mod Scan
pub mod Mountinfo
pub mod Runtime
