-- ===== src/Tools/RamProgram.antt =====
-- A run of tools/smbusb_r2j240flasher.c that programs 30 bytes.
use smbusb.Prelude.{◌≡◌, refl, true, false, replicate, take, arith, ℤ}
use smbusb.Facade.Device.{Name, dispatch, smb_transfer, smb_write_block, smb_read_word}
use smbusb.Tools.State.{◌>>=◌}
use smbusb.Tools.Memory.{contents}
use smbusb.Tools.R2j240.{
  read_ram_rounds, read_ram, write_ram_rounds, write_ram, erase_tries, erase_flash_block,
  Programmed, program_block,
}
use smbusb.Tools.RamVerified.{program_block-verified}
use smbusb.Tools.RamChip.{chip-IsReadable}
use smbusb.Tools.Chips.{chip_table, memory_of, powered}

verified :
    (program_block chip_table
      (λ t. true)
      (replicate 30 9)
      false
      false
      0x3000
      30
      (replicate 30 7)
      (replicate 64 0)
      powered).0
    ≡ Programmed.verified (ℤ.pos 30)
unfolding program_block erase_flash_block erase_tries read_ram read_ram_rounds write_ram
    write_ram_rounds smb_transfer smb_write_block smb_read_word dispatch ◌>>=◌
verified = refl

program_block-verified_example :
    contents
      (memory_of
        (program_block chip_table
          (λ t. true)
          (replicate 30 9)
          false
          false
          0x3000
          30
          (replicate 30 7)
          (replicate 64 0)
          powered).1)
      0x3000
      30
    ≡ take 30 (replicate 30 7)
program_block-verified_example =
    program_block-verified chip_table Name.fx2lp memory_of chip-IsReadable (λ t. true)
      (replicate 30 9) false 0x3000 30 (replicate 30 7) (replicate 64 0) (ℤ.pos 30) powered refl
      (omega arith) (omega arith) verified
