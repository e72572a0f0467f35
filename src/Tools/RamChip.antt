-- ===== src/Tools/RamChip.antt =====
-- Runs of tools/smbusb_r2j240flasher.c on a chip.
use smbusb.Prelude.{
  ℕ, below, ◌^◌, ◌<◌, ◌≡◌, refl, ap, true, false, List, [], ◌++◌, length, drop, replicate, arith, ℤ,
}
use smbusb.Facade.Device.{Name, Library, smb_read_word, smb_write_block}
use smbusb.Facade.Stays.{smb_write_block-s_drv}
use smbusb.Tools.Erased.{erase_flash_block_positive}
use smbusb.Tools.Memory.{store, contents}
use smbusb.Tools.R2j240.{
  address_bytes, erase_flash_block, read_messages, write_message, write_ram, read_ram, ram_header,
}
use smbusb.Tools.RamRead.{IsReadable, IsR2j240}
use smbusb.Tools.RamTrip.{write_ram-read_ram}
use smbusb.Tools.Chips.{
  Chip, ram_address, chip_table, memory_of, powered, transfer_open, read_word_open,
  write_block_open,
}

ram_address-header :
    (cmd addr cur : ℕ) (rest : List ℕ)
    → addr < 2 ^ 24
    → ram_address (ram_header cmd addr cur ++ rest) ≡ addr
ram_address-header cmd addr cur rest h = omega arith

pub chip-IsReadable : IsReadable chip_table Name.fx2lp memory_of
chip-IsReadable = record {
  read_ok = λ addr cur old s o some_byte low few.
      rw (transfer_open (read_messages addr cur old) 2 s o) refl;
  read_data = λ addr cur old s o some_byte low few.
      rw (transfer_open (read_messages addr cur old) 2 s o) (
        ap (λ a. contents (memory_of s) a cur) (ram_address-header 0xFC addr cur [] (omega arith)));
  read_keeps = λ addr cur old s o some_byte low few.
      rw (transfer_open (read_messages addr cur old) 2 s o) refl;
}

chip-IsR2j240 : IsR2j240 chip_table Name.fx2lp memory_of
chip-IsR2j240 = record {
  readable = chip-IsReadable;
  write_ok =
      λ addr bytes s o some_byte low few. rw (transfer_open (write_message addr bytes) 1 s o) refl;
  write_stored = λ addr bytes s o some_byte low few.
      rw (transfer_open (write_message addr bytes) 1 s o) (
        ap (λ a. store (memory_of s) a bytes)
          (ram_address-header 0xFD addr (length bytes) bytes (omega arith)));
}

-- 100 bytes take four messages to write, and two to read.
write_ram-read_ram_example :
    let written = write_ram chip_table 0x3000 100 (replicate 100 7) powered in
    let back = read_ram chip_table 0x3000 100 (replicate 128 0) written.1 in
    (written.0 ≡ ℤ.pos 100) × (back.0 ≡ (ℤ.pos 100, replicate 100 7 ++ drop 100 (replicate 128 0)))
write_ram-read_ram_example =
    write_ram-read_ram chip_table Name.fx2lp memory_of chip-IsR2j240 0x3000 (replicate 100 7)
      (replicate 128 0) powered refl (omega arith) (omega arith)

-- The memory of this chip is 0 at 0x3000 after the erasing.
erase_flash_block_positive_example :
    below (erase_flash_block chip_table (λ t. true) (replicate 32 9) 0x3000 32 powered).0 1 ≡ false
erase_flash_block_positive_example =
    erase_flash_block_positive chip_table Name.fx2lp memory_of chip-IsReadable (λ t. true)
      (replicate 32 9) 0x3000 32 powered refl (omega arith) (omega arith) (omega arith) accepted
      late (λ t. refl)
  where
    commanded : Library Chip
    commanded = (smb_write_block chip_table 0x16 0x20 (address_bytes 0x3000) 3 powered).1

    accepted :
        below (smb_write_block chip_table 0x16 0x20 (address_bytes 0x3000) 3 powered).0 0 ≡ false
    accepted = ap (λ r. below r.0 0) (write_block_open 0x20 (address_bytes 0x3000) 3 powered refl)

    late : below (smb_read_word chip_table 0x16 0x50 commanded).0 0 ≡ true
    late =
        ap (λ r. below r.0 0)
          (read_word_open 0x50 commanded
            (smb_write_block-s_drv chip_table 0x16 0x20 (address_bytes 0x3000) 3 powered))
