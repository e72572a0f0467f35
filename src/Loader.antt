-- ===== src/Loader.antt =====
-- The firmware loader, lib/fxloader.c: a line of an Intel HEX file, and the upload of an image.
pub mod Hex
pub mod Upload
pub mod Encode
pub mod Parse
pub mod Bounds
pub mod Image
pub mod Sent
pub mod Tests
