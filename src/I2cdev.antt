-- ===== src/I2cdev.antt =====
-- The driver for the I2C devices of Linux, lib/smbusb-i2cdev.c.
pub mod State
pub mod Transfers
pub mod Laws
mod Tests
