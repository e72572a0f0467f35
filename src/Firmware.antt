-- ===== src/Firmware.antt =====
-- The firmware of the interface, firmware/smbusb_firmware.c: a USB vendor request at a time is
-- turned into accesses to the I2C controller of the FX2LP. The parts stand in the modules below.
pub mod State
pub mod I2c
pub mod Commands
pub mod Keeps
pub mod Timeout
pub mod Copies
pub mod ReadOn
pub mod WriteOn
pub mod Safety
pub mod Reach
pub mod Bus
mod Tests
