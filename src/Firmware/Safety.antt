-- ===== src/Firmware/Safety.antt =====
-- Every request that the firmware serves ends, without an access out of bounds.
pub mod Buffers
pub mod Short
pub mod ReadBlock
pub mod WriteBlock
pub mod Raw
pub mod Served
