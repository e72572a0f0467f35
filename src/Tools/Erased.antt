-- ===== src/Tools/Erased.antt =====
-- What `eraseFlashBlock` of tools/smbusb_r2j240flasher.c returns after a timeout.
use smbusb.Prelude.{
  ℕ, zero, suc, ◌+◌, ◌^◌, ◌≤◌, ◌<◌, ◌≡◌, ◌∙◌, refl, Bool, true, false, some, List, ◌++◌, arith,
  length, take, drop, length-append, length-drop, u32, ltb, cond, ℤ, below,
}
use smbusb.Facade.Device.{SmbDriver, Name, Library, smb_write_block, smb_read_word}
use smbusb.Facade.Stays.{smb_write_block-s_drv, smb_read_word-s_drv}
use smbusb.Tools.State.{pure, ◌>>=◌}
use smbusb.Tools.Memory.{Memory, contents, length-contents}
use smbusb.Tools.R2j240.{
  address_bytes, read_ram_rounds, read_ram, all_erased, erase_tries, erase_flash_block,
}
use smbusb.Tools.RamRead.{IsReadable, IsRead, read_ram_rounds_lem}

module _ {D : Type 0} (table : Name → SmbDriver D) (open_driver : Name)
    (memory : Library D → Memory) (chip : IsReadable table open_driver memory) where
  pub read_ram_lem :
      (address size : ℕ) (buf : List ℕ) (s : Library D)
      → s.s_drv ≡ some open_driver
      → address + size ≤ 2 ^ 24
      → size ≤ length buf
      → (let r = read_ram table address size buf s in
          (r.0 ≡ (ℤ.pos size, contents (memory s) address size ++ drop size buf))
          × (r.1.s_drv ≡ some open_driver)
          × (memory r.1 ≡ memory s))
  unfolding read_ram ◌>>=◌
  read_ram_lem address size buf s o low room = rw (wrap, got.0, got.1) (refl, got.3, got.2)
    where
      wrap : u32 address ≡ address
      wrap = omega arith

      got :
          IsRead table open_driver memory chip address size buf s
            (read_ram_rounds table size (ℤ.pos 0) address size buf s)
      got =
          read_ram_rounds_lem table open_driver memory chip size (ℤ.pos 0) address size buf s o refl
            (omega arith) low room

  -- Once a try has read the block, the result is positive, also where no try found it erased.
  erase_tries_lem :
      (left address size : ℕ) (status : ℤ) (buf : List ℕ) (s : Library D)
      → s.s_drv ≡ some open_driver
      → address + size ≤ 2 ^ 24
      → size ≤ length buf
      → 0 < size
      → (left ≡ 0 → below status 1 ≡ false)
      → below (erase_tries table left address size status buf s).0 1 ≡ false
  unfolding erase_tries ◌>>=◌
  erase_tries_lem zero address size status buf s o low room some_byte h = h refl
  erase_tries_lem (suc left) address size status buf s o low room some_byte h =
      rw (got.0, positive)
        (by_erased (all_erased table (take size after)) (
          erase_tries_lem left address size (ℤ.pos size) after (read_ram table address size buf s).1
            got.1 low longer some_byte λ e. ground arith))
    where
      after : List ℕ
      after = contents (memory s) address size ++ drop size buf

      got :
          (let r = read_ram table address size buf s in
            (r.0 ≡ (ℤ.pos size, after)) × (r.1.s_drv ≡ some open_driver) × (memory r.1 ≡ memory s))
      got = read_ram_lem address size buf s o low room

      positive : ltb size 0 ≡ false
      positive = ground arith

      longer : size ≤ length after
      longer = omega (
        arith,
        length-append (contents (memory s) address size) (drop size buf),
        length-contents (memory s) address size,
        length-drop size buf,
      )

      by_erased :
          (b : Bool)
          → below
              (erase_tries table left address size
                (ℤ.pos size)
                after
                (read_ram table address size buf s).1).0
              1
            ≡ false
          → below
              (cond b
                (pure (ℤ.pos 1))
                (erase_tries table left address size (ℤ.pos size) after)
                (read_ram table address size buf s).1).0
              1
            ≡ false
      by_erased true rest = refl
      by_erased false rest = rest

  -- With the device open and a chip whose memory can be read below 2^24, where the command to erase is accepted and the
  -- status is not read in time, `eraseFlashBlock` returns a positive number, which is success,
  -- whatever the block holds in the end.
  pub erase_flash_block_positive :
      (timed_out : Library D → Bool) (garbage : List ℕ) (address size : ℕ) (s : Library D)
      → s.s_drv ≡ some open_driver
      → address + size ≤ 2 ^ 24
      → size ≤ length garbage
      → 0 < size
      → below (smb_write_block table 0x16 0x20 (address_bytes address) 3 s).0 0 ≡ false
      → below
          (smb_read_word table 0x16 0x50
            (smb_write_block table 0x16 0x20 (address_bytes address) 3 s).1).0
          0
        ≡ true
      → ((t : Library D) → timed_out t ≡ true)
      → below (erase_flash_block table timed_out garbage address size s).0 1 ≡ false
  unfolding erase_flash_block ◌>>=◌
  erase_flash_block_positive timed_out garbage address size s o low room some_byte accepted late
        timed =
      let present : ltb 0 size ≡ true = ground arith in
      rw (accepted, late, timed, present)
        (erase_tries_lem 10 address size _ garbage _ still low room some_byte
          λ e. absurd (omega arith))
    where
      commanded : Library D
      commanded = (smb_write_block table 0x16 0x20 (address_bytes address) 3 s).1

      still : (smb_read_word table 0x16 0x50 commanded).1.s_drv ≡ some open_driver
      still =
          smb_read_word-s_drv table 0x16 0x50 commanded
          ∙ smb_write_block-s_drv table 0x16 0x20 (address_bytes address) 3 s
          ∙ o
