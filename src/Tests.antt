-- ===== src/Tests.antt =====
-- Concrete runs of the code, at which the theorems about it apply.
mod Kernel
mod Tables
mod Noc
mod Buffers
mod Control
mod Apps
mod Processor
mod Tasks
mod Mapping
