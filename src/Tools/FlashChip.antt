-- ===== src/Tools/FlashChip.antt =====
-- Runs of tools/smbusb_m37512flasher.c on a chip.
use smbusb.Prelude.{
  ℕ, ◌+◌, ◌*◌, ◌/◌, ◌^◌, ◌<◌, ◌≡◌, refl, ap, true, false, [], ◌∷◌, replicate, arith, u8, ltb, leb,
  ◌&&◌, cond, ℤ,
}
use smbusb.Facade.Device.{Name, Library}
use smbusb.Tools.Memory.{Memory, store, contents, IsErased}
use smbusb.Tools.M37512.{Outcome, read_clear_status_register, program}
use smbusb.Tools.FlashRead.{IsReadable, program-verified}
use smbusb.Tools.FlashWrite.{IsWritable, program-stored}
use smbusb.Tools.Chips.{
  Chip, flash_block, clear, chip_table, memory_of, powered, read_byte_open, read_block_open,
  write_block_open,
}

two_bytes : (a : ℕ) → a < 2 ^ 16 → u8 a + 2 ^ 8 * u8 (a / 2 ^ 8) ≡ a
two_bytes a h = omega arith

pointed : ℕ → Library Chip → Library Chip
pointed p s = record {
  s_drv = s.s_drv;
  drivers = record { memory = s.drivers.memory; pointer = p };
}

chip-IsReadable : IsReadable chip_table Name.fx2lp memory_of
unfolding pointed
chip-IsReadable = record {
  set_ok = λ a s o low. rw (write_block_open 0xFF (u8 a ∷ u8 (a / 2 ^ 8) ∷ []) 2 s o) refl;
  bytes = λ a s o low.
      let p = u8 a + 2 ^ 8 * u8 (a / 2 ^ 8) in
      rw (write_block_open 0xFF (u8 a ∷ u8 (a / 2 ^ 8) ∷ []) 2 s o, read_block_open (pointed p s) o)
        (ap (λ k. contents (memory_of s) k 16) (two_bytes a (omega arith)));
  keeps = λ a s o low.
      let p = u8 a + 2 ^ 8 * u8 (a / 2 ^ 8) in
      rw (write_block_open 0xFF (u8 a ∷ u8 (a / 2 ^ 8) ∷ []) 2 s o, read_block_open (pointed p s) o)
        refl;
}

clear-IsErased : (memory : Memory) (a b : ℕ) → a ≡ b → IsErased (clear memory a) b flash_block
clear-IsErased memory a b e k from to =
    let inside : (leb a k && ltb k (a + flash_block)) ≡ true = ground arith in
    ap (λ c. cond c 0xFF (memory k)) inside

chip-IsWritable : IsWritable chip_table Name.fx2lp memory_of (λ a. flash_block)
unfolding read_clear_status_register
chip-IsWritable = record {
  clear_keeps = λ s o. ap (λ r. memory_of r.1) (read_byte_open 0x70 s o);
  erase_ok = λ a s o low. rw (write_block_open 0x20 (u8 (a / 2 ^ 8) ∷ u8 a ∷ []) 2 s o) refl;
  erased = λ a s o low.
      rw (write_block_open 0x20 (u8 (a / 2 ^ 8) ∷ u8 a ∷ []) 2 s o)
        (clear-IsErased (memory_of s) (u8 a + 2 ^ 8 * u8 (a / 2 ^ 8)) a (two_bytes a low));
  write_ok = λ a bytes s o size low erased.
      rw (write_block_open 0x40 (u8 a ∷ u8 (a / 2 ^ 8) ∷ bytes) 18 s o) refl;
  is_stored = λ a bytes s o size low erased.
      rw (write_block_open 0x40 (u8 a ∷ u8 (a / 2 ^ 8) ∷ bytes) 18 s o)
        (ap (λ k. store (memory_of s) k bytes) (two_bytes a (omega arith)));
}

-- Two chunks at 0x1000.
program-stored_example :
    let r =
      program chip_table false
        (replicate 16 1)
        0x1000
        32
        (replicate 32 7)
        (replicate 64 0)
        powered in
    (r.0 ≡ Outcome.verified (ℤ.pos 32)) × (contents (memory_of r.1) 0x1000 32 ≡ replicate 32 7)
program-stored_example =
    program-stored chip_table Name.fx2lp memory_of chip-IsReadable (λ a. flash_block)
      chip-IsWritable (replicate 16 1) (replicate 32 7) (replicate 64 0) 0x1000 powered refl
      (omega arith) refl refl (omega arith) (omega arith) (omega arith)

program-verified_example :
    contents
      (memory_of
        (program chip_table false
          (replicate 16 1)
          0x1000
          32
          (replicate 32 7)
          (replicate 64 0)
          powered).1)
      0x1000
      32
    ≡ replicate 32 7
program-verified_example =
    program-verified chip_table Name.fx2lp memory_of chip-IsReadable (replicate 16 1)
      (replicate 32 7) (replicate 64 0) 0x1000 32 (ℤ.pos 32) powered refl refl refl (omega arith)
      (omega arith) verified
  where
    verified :
        (program chip_table false
          (replicate 16 1)
          0x1000
          32
          (replicate 32 7)
          (replicate 64 0)
          powered).0
        ≡ Outcome.verified (ℤ.pos 32)
    verified =
        (program-stored chip_table Name.fx2lp memory_of chip-IsReadable (λ a. flash_block)
          chip-IsWritable (replicate 16 1) (replicate 32 7) (replicate 64 0) 0x1000 powered refl
          (omega arith) refl refl (omega arith) (omega arith) (omega arith)).0
