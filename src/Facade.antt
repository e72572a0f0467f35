-- ===== src/Facade.antt =====
-- lib/smbusb.c: the options in the URI of a device, and the functions that call the open driver.
pub mod Options
pub mod Device
pub mod Laws
pub mod Stays
mod Tests
