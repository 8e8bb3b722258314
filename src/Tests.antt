-- ===== src/Tests.antt =====
-- Concrete inputs: runs of the definitions, and the theorems at values that meet their hypotheses.
mod Setting
mod Core
mod Inspection
mod Machine
mod Package
mod Disk
mod Operations
mod Programs
mod Durable
