-- ===== src/Pec.antt =====
-- The packet error code of SMBus: `pec_crc` of firmware/smbusb_firmware.c, which
-- lib/smbusb-i2cdev.c repeats.
pub mod Crc
mod Tests
use smbusb.Prelude.{ℕ, zero, suc, ◌*◌, List, foldl, bit_and, bit_xor, u8, ◌==◌, if◌then◌else◌}

-- One round of the loop: `data <<= 1` on a byte, with 0x07 added in where a bit falls out.
unfoldable pub shift_bit : ℕ → ℕ
shift_bit d = if bit_and d 0x80 == 0 then u8 (d * 2) else bit_xor (u8 (d * 2)) 0x07

unfoldable pub rounds : ℕ → ℕ → ℕ
unfolding shift_bit
rounds zero d = d
rounds (suc n) d = rounds n (shift_bit d)

unfoldable pub pec_crc : ℕ → ℕ → ℕ
unfolding rounds
pec_crc crc d = rounds 8 (bit_xor crc d)

-- The code of a sequence of bytes, from the code of those before it.
abbrev pub pec_from : ℕ → List ℕ → ℕ
pec_from crc bytes = foldl pec_crc crc bytes
