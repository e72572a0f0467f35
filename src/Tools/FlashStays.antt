-- ===== src/Tools/FlashStays.antt =====
-- Erasing and writing by tools/smbusb_m37512flasher.c leave the driver open that is open.
use smbusb.Prelude.{
  ℕ, zero, suc, ◌+◌, ◌/◌, ◌%◌, ◌≡◌, ◌∙◌, refl, Bool, true, false, not, List, take, drop, ◌==◌, cond,
  minus, below,
}
use smbusb.Facade.Device.{SmbDriver, Name, Library}
use smbusb.Facade.Stays.{smb_read_byte-s_drv, smb_write_block-s_drv}
use smbusb.Tools.State.{pure, ◌>>=◌}
use smbusb.Tools.M37512.{
  chunklen, read_clear_status_register, clear_block, write_chunk_at, erase_flash_block,
  write_flash_rounds, write_flash,
}

module _ {D : Type 0} (table : Name → SmbDriver D) where
  pub read_clear_status_register-s_drv :
      (s : Library D) → (read_clear_status_register table s).1.s_drv ≡ s.s_drv
  unfolding read_clear_status_register
  read_clear_status_register-s_drv s = smb_read_byte-s_drv table 0x16 0x70 s

  pub erase_flash_block-s_drv :
      (address : ℕ) (s : Library D) → (erase_flash_block table address s).1.s_drv ≡ s.s_drv
  unfolding erase_flash_block read_clear_status_register ◌>>=◌
  erase_flash_block-s_drv address s = by_status (below (clear_block table address s).0 0)
    where
      cleared : (clear_block table address s).1.s_drv ≡ s.s_drv
      cleared = smb_write_block-s_drv table 0x16 0x20 _ 2 s

      by_status :
          (b : Bool)
          → (cond b
              (pure (clear_block table address s).0)
              (read_clear_status_register table >>= λ ignored. pure (clear_block table address s).0)
              (clear_block table address s).1).1.s_drv
            ≡ s.s_drv
      by_status true = cleared
      by_status false =
          smb_read_byte-s_drv table 0x16 0x70 (clear_block table address s).1 ∙ cleared

  write_flash_rounds-s_drv :
      (n address len : ℕ) (buf : List ℕ) (s : Library D)
      → (write_flash_rounds table n address len buf s).1.s_drv ≡ s.s_drv
  unfolding write_flash_rounds read_clear_status_register ◌>>=◌
  write_flash_rounds-s_drv zero address len buf s = refl
  write_flash_rounds-s_drv (suc n) address len buf s =
      by_status (below (write_chunk_at table address (take chunklen buf) cleared).0 0)
        (write_flash_rounds-s_drv n (address + chunklen) len (drop chunklen buf) after)
    where
      cleared : Library D
      cleared = (read_clear_status_register table s).1

      after : Library D
      after = (write_chunk_at table address (take chunklen buf) cleared).1

      here : after.s_drv ≡ s.s_drv
      here =
          smb_write_block-s_drv table 0x16 0x40 _ (chunklen + 2) cleared
          ∙ smb_read_byte-s_drv table 0x16 0x70 s

      by_status :
          (b : Bool)
          → (write_flash_rounds table n (address + chunklen) len (drop chunklen buf) after).1.s_drv
            ≡ after.s_drv
          → (cond b
              (pure (write_chunk_at table address (take chunklen buf) cleared).0)
              (write_flash_rounds table n (address + chunklen) len (drop chunklen buf))
              after).1.s_drv
            ≡ s.s_drv
      by_status true rest = here
      by_status false rest = rest ∙ here

  pub write_flash-s_drv :
      (address size : ℕ) (block : List ℕ) (s : Library D)
      → (write_flash table address size block s).1.s_drv ≡ s.s_drv
  unfolding write_flash
  write_flash-s_drv address size block s = by_chunks (not (size % chunklen == 0))
    where
      by_chunks :
          (b : Bool)
          → (cond b
              (pure (minus 99))
              (write_flash_rounds table (size / chunklen) address size block)
              s).1.s_drv
            ≡ s.s_drv
      by_chunks true = refl
      by_chunks false = write_flash_rounds-s_drv (size / chunklen) address size block s
