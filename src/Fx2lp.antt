-- ===== src/Fx2lp.antt =====
-- The driver of the FX2LP interface, lib/smbusb-fx2lp.c.
pub mod State
pub mod Transfers
pub mod Blocks
pub mod Arbitrary
pub mod Open
pub mod Accepted
pub mod WriteBlock
pub mod Flags
pub mod Write
pub mod ReadBlock
pub mod BringUp
mod Tests
mod BoardTests
