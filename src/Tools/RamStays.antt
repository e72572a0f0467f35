-- ===== src/Tools/RamStays.antt =====
-- The operations of tools/smbusb_r2j240flasher.c leave the driver open that is open.
use Prim.Native.Nat.{min}
use smbusb.Prelude.{
  ℕ, zero, suc, ◌+◌, ◌-◌, ◌≡◌, ◌∙◌, refl, Bool, true, false, ◌&&◌, Option, List, take, drop,
  overlay, u32, ltb, ◌==◌, cond, ℤ, below,
}
use smbusb.Facade.Device.{SmbDriver, Name, Library, smb_write_block, smb_read_word, smb_transfer}
use smbusb.Facade.Stays.{smb_transfer-s_drv, smb_write_block-s_drv, smb_read_word-s_drv}
use smbusb.Tools.State.{M, pure, ◌>>=◌}
use smbusb.Tools.R2j240.{
  address_bytes, read_chunk, write_chunk, read_messages, write_message, read_ram_rounds, read_ram,
  write_ram_rounds, write_ram, all_erased, erase_tries, erase_flash_block,
}

-- A choice between two programs that leave it open.
cond-s_drv :
    {D A : Type 0} (b : Bool) (m n : M (Library D) A) (s : Library D) {drv : Option Name}
    → (m s).1.s_drv ≡ drv
    → (n s).1.s_drv ≡ drv
    → (cond b m n s).1.s_drv ≡ drv
cond-s_drv true m n s h k = h
cond-s_drv false m n s h k = k

module _ {D : Type 0} (table : Name → SmbDriver D) where
  read_ram_rounds-s_drv :
      (fuel : ℕ) (sts : ℤ) (addr remain : ℕ) (buf : List ℕ) (s : Library D)
      → (read_ram_rounds table fuel sts addr remain buf s).1.s_drv ≡ s.s_drv
  unfolding read_ram_rounds ◌>>=◌
  read_ram_rounds-s_drv zero sts addr remain buf s = refl
  read_ram_rounds-s_drv (suc fuel) sts addr remain buf s =
      cond-s_drv (remain == 0) (pure (sts, buf)) _ s refl (
        cond-s_drv (below answer.0.0 0) _ _ answer.1 sent (
          read_ram_rounds-s_drv fuel answer.0.0 (u32 (addr + cur)) (remain - cur) (drop cur next)
            answer.1
          ∙ sent))
    where
      cur : ℕ
      cur = min remain read_chunk

      answer : (ℤ × List ℕ) × Library D
      answer = smb_transfer table (read_messages addr cur (take cur buf)) 2 s

      next : List ℕ
      next = overlay (take cur answer.0.1) buf

      sent : answer.1.s_drv ≡ s.s_drv
      sent = smb_transfer-s_drv table (read_messages addr cur (take cur buf)) 2 s

  read_ram-s_drv :
      (address size : ℕ) (buf : List ℕ) (s : Library D)
      → (read_ram table address size buf s).1.s_drv ≡ s.s_drv
  unfolding read_ram ◌>>=◌
  read_ram-s_drv address size buf s = read_ram_rounds-s_drv size (ℤ.pos 0) (u32 address) size buf s

  write_ram_rounds-s_drv :
      (fuel : ℕ) (sts : ℤ) (addr remain : ℕ) (buf : List ℕ) (s : Library D)
      → (write_ram_rounds table fuel sts addr remain buf s).1.s_drv ≡ s.s_drv
  unfolding write_ram_rounds ◌>>=◌
  write_ram_rounds-s_drv zero sts addr remain buf s = refl
  write_ram_rounds-s_drv (suc fuel) sts addr remain buf s =
      cond-s_drv (remain == 0) (pure sts) _ s refl (
        cond-s_drv (below answer.0.0 0) _ _ answer.1 sent (
          write_ram_rounds-s_drv fuel answer.0.0 (u32 (addr + cur)) (remain - cur) (drop cur buf)
            answer.1
          ∙ sent))
    where
      cur : ℕ
      cur = min remain write_chunk

      answer : (ℤ × List ℕ) × Library D
      answer = smb_transfer table (write_message addr (take cur buf)) 1 s

      sent : answer.1.s_drv ≡ s.s_drv
      sent = smb_transfer-s_drv table (write_message addr (take cur buf)) 1 s

  pub write_ram-s_drv :
      (address size : ℕ) (buf : List ℕ) (s : Library D)
      → (write_ram table address size buf s).1.s_drv ≡ s.s_drv
  unfolding write_ram ◌>>=◌
  write_ram-s_drv address size buf s =
      write_ram_rounds-s_drv size (ℤ.pos 0) (u32 address) size buf s

  erase_tries-s_drv :
      (left address size : ℕ) (status : ℤ) (buf : List ℕ) (s : Library D)
      → (erase_tries table left address size status buf s).1.s_drv ≡ s.s_drv
  unfolding erase_tries ◌>>=◌
  erase_tries-s_drv zero address size status buf s = refl
  erase_tries-s_drv (suc left) address size status buf s =
      let again : (erase_tries table left address size r.0.0 r.0.1 r.1).1.s_drv ≡ s.s_drv =
        erase_tries-s_drv left address size r.0.0 r.0.1 r.1 ∙ stays in
      cond-s_drv (below r.0.0 0) _ _ r.1 again
        (cond-s_drv (all_erased table (take size r.0.1)) _ _ r.1 stays again)
    where
      r : (ℤ × List ℕ) × Library D
      r = read_ram table address size buf s

      stays : r.1.s_drv ≡ s.s_drv
      stays = read_ram-s_drv address size buf s

  pub erase_flash_block-s_drv :
      (timed_out : Library D → Bool) (garbage : List ℕ) (address size : ℕ) (s : Library D)
      → (erase_flash_block table timed_out garbage address size s).1.s_drv ≡ s.s_drv
  unfolding erase_flash_block ◌>>=◌
  erase_flash_block-s_drv timed_out garbage address size s =
      cond-s_drv (below sent.0 0) _ _ sent.1 stays (
        cond-s_drv (below status.0 0 && timed_out status.1 && ltb 0 size) _ _ status.1
          (erase_tries-s_drv 10 address size status.0 garbage status.1 ∙ read) read)
    where
      sent : ℤ × Library D
      sent = smb_write_block table 0x16 0x20 (address_bytes address) 3 s

      stays : sent.1.s_drv ≡ s.s_drv
      stays = smb_write_block-s_drv table 0x16 0x20 (address_bytes address) 3 s

      status : ℤ × Library D
      status = smb_read_word table 0x16 0x50 sent.1

      read : status.1.s_drv ≡ s.s_drv
      read = smb_read_word-s_drv table 0x16 0x50 sent.1 ∙ stays
