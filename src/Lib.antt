-- ===== src/Lib.antt =====
-- smbusb: an SMBus interface built from a Cypress FX2LP board, its firmware, and the library that
-- drives it.
--
-- The program. The firmware (firmware/smbusb_firmware.c) runs on the board. The host sends it vendor
-- requests over endpoint 0 of USB; `handle_vendorcommand` serves each by a transaction on the I2C bus.
-- Blocks that do not fit the 64 bytes of the endpoint travel in several requests and are kept in the
-- array `temp` between them. The driver lib/smbusb-fx2lp.c turns each operation of the library into
-- such requests, after lib/fxloader.c has sent the firmware to the board where it is missing.
-- lib/smbusb-i2cdev.c does the same by the I2C devices of Linux, and lib/smbusb.c selects the driver
-- that a URI names and passes each call on to it. The programs of tools call lib/smbusb.c.
--
-- The model, with one module per part:
--   Prelude                  C arithmetic (u8, u16, sub16), arrays as lists, status codes as integers
--   Pec                      `pec_crc`, the packet error code, and what it detects
--   Firmware.State           the global variables; the registers of the hardware are the parameter
--                            `Env`, a function of the accesses so far and the number of the poll; a
--                            run ends normally, by a jump to a fail label, in an endless wait, or in
--                            an access out of bounds
--   Firmware.I2c             `i2c_start` to `i2c_bytein`, with their timeouts
--   Firmware.Commands        the cases of `handle_vendorcommand`, a definition for each, and the switch
--                            itself in Firmware.Commands.Dispatch
--   Firmware.Keeps, .Timeout, .Copies, .ReadOn, .WriteOn, .Safety
--                            the proofs: rules for actions, waits, copy loops, blocks that take several
--                            requests, and all requests
--   Fx2lp                    lib/smbusb-fx2lp.c; libusb is the parameter `Libusb`, what each call
--                            returns after the calls before it; opening a device calls Loader
--   EndToEnd                 the driver on a board that runs the firmware; that libusb and fx2lib pass a
--                            transfer to `handle_vendorcommand` and its answer back is a hypothesis
--   Facade                   lib/smbusb.c: the options of a URI, the dispatch over a table of drivers
--   I2cdev                   lib/smbusb-i2cdev.c; the kernel is the parameter `Kernel`
--   Firmware.Bus             what SMBus asks of a controller, as sequences of accesses, and that the
--                            requests of the firmware make exactly these; Bench is hardware to test on
--   Firmware.Reach           the states that the firmware reaches from power-up
--   Loader                   lib/fxloader.c: a line of Intel HEX (Hex), the upload (Upload), over libusb;
--                            `sscanf` is a parameter. Encode is a specification of the format
--   Tools                    the programs of tools, over the functions of Facade: smbusb_scan (Scan),
--                            smbusb_comm (Comm), smbusb_sbsreport (SbsReport), and the flashers
--                            (R2j240, M37512, Bq8030). Memory describes the memory of a chip; the
--                            chips are parameters, with what their documentation says as hypotheses,
--                            and Tools.Chips holds concrete ones
--
-- Bounds and fuel. The waits of the firmware are on fuel, the number of polls; where timer 0 ticks as
-- `IsRunning` says, any fuel in which it ticks more than I2C_TIMEOUT times is enough. The loop that
-- reads a block has 256 rounds, more than a BYTE counts. The retries of opening a device and the
-- rounds of the FX2LP driver's block read are on fuel, too, since the code itself bounds neither;
-- so is the repetition of an interrupted `ioctl`.
--
-- The loops of the loader and the tools are structural: over the lines of the image, the chunks that are
-- left, or fuel that is the number of bytes that are left. A loop of `parse_hex_line` has 257 rounds,
-- since `num` stops it at 256.
--
-- What the I2C controller returns may depend on the accesses so far and on the number of the poll. That
-- a read is one transaction is shown where the waits of `i2c_bytein` for DONE behind a read of I2DAT, and
-- for STOP behind the last one, end before they time out (`IsPrompt`): a wait that times out makes it
-- return 0, which its callers take for a byte. The other waits may time out. The pieces of a block
-- arrive before BLOCK_SEQ_TIMEOUT where endpoint 0 is ready at each poll, since a block of 192 bytes
-- takes three further requests. The end-to-end statements count only the time of polls, not that
-- between two transfers. The delays of lib/smbusb-fx2lp.c are left out.
--
-- Not modelled: CypressSetResetAddress of lib/fxloader.c, which nothing calls; the start-up of the
-- firmware and its USB descriptors, which only set registers; the log functions; of the programs of
-- tools, their files, the usage texts, the options but those of smbusb_scan and the presets, and the
-- messages but the lines of smbusb_sbsreport; the images of the firmware (lib/firmware.h), which are
-- generated.
pub mod Prelude
pub mod Pec
pub mod Firmware
pub mod Fx2lp
pub mod Facade
pub mod I2cdev
pub mod Loader
pub mod Tools
pub mod EndToEnd
