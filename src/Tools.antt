-- ===== src/Tools.antt =====
-- The programs of tools, which call lib/smbusb.c.
pub mod State
pub mod Scan
pub mod Scanned
pub mod Memory
pub mod R2j240
pub mod Checksum
pub mod RamRead
pub mod RamTrip
pub mod RamStays
pub mod Erased
pub mod RamVerified
pub mod M37512
pub mod FlashStays
pub mod FlashRead
pub mod FlashWrite
pub mod Comm
pub mod SbsReport
pub mod Reported
pub mod Typed
pub mod Bq8030
pub mod Verified
mod Chips
mod RamChip
mod RamProgram
mod FlashChip
mod Tests
