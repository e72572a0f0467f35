-- ===== src/Tools/RamVerified.antt =====
-- What the verification of tools/smbusb_r2j240flasher.c is worth.
use smbusb.Prelude.{
  ℕ, ◌+◌, ◌^◌, ◌≤◌, ◌≡◌, ◌∙◌, refl, sym, Bool, true, false, some, List, ◌++◌, arith, length, take,
  drop, cond, ℤ, below,
}
use smbusb.Facade.Device.{SmbDriver, Name, Library}
use smbusb.Tools.State.{pure, ◌>>=◌}
use smbusb.Tools.Memory.{Memory, contents, length-contents}
use smbusb.Tools.M37512.{same_bytes}
use smbusb.Tools.FlashRead.{same_bytes_sound, take_front}
use smbusb.Tools.R2j240.{
  read_ram, write_ram, erase_flash_block, fix_lgc_static_checksum, Programmed, program_block,
}
use smbusb.Tools.RamRead.{IsReadable}
use smbusb.Tools.RamStays.{erase_flash_block-s_drv, write_ram-s_drv}
use smbusb.Tools.Erased.{read_ram_lem}

module _ {D : Type 0} (table : Name → SmbDriver D) (open_driver : Name)
    (memory : Library D → Memory) (chip : IsReadable table open_driver memory) where
  -- With the device open and a chip whose memory can be read below 2^24, whatever the erasing and the
  -- writes did, "Verified OK!" is reported only where the memory holds the block, with the checksum
  -- where that was asked for.
  pub program_block-verified :
      (timed_out : Library D → Bool) (garbage : List ℕ) (fix : Bool) (address size : ℕ)
      (block block2 : List ℕ) (status : ℤ) (s : Library D)
      → s.s_drv ≡ some open_driver
      → address + size ≤ 2 ^ 24
      → size ≤ length block2
      → (program_block table timed_out garbage fix false address size block block2 s).0
        ≡ Programmed.verified status
      → contents
          (memory (program_block table timed_out garbage fix false address size block block2 s).1)
          address
          size
        ≡ take size (cond fix (fix_lgc_static_checksum size block) block)
  unfolding program_block ◌>>=◌
  program_block-verified timed_out garbage fix address size block block2 status s o low room =
      by_erased (below erased.0 1)
    where
      written_block : List ℕ
      written_block = cond fix (fix_lgc_static_checksum size block) block

      erased : ℤ × Library D
      erased = erase_flash_block table timed_out garbage address size s

      writing : ℤ × Library D
      writing = write_ram table address size written_block erased.1

      still : writing.1.s_drv ≡ some open_driver
      still =
          write_ram-s_drv table address size written_block erased.1
          ∙ erase_flash_block-s_drv table timed_out garbage address size s
          ∙ o

      got :
          (let r = read_ram table address size block2 writing.1 in
            (r.0 ≡ (ℤ.pos size, contents (memory writing.1) address size ++ drop size block2))
            × (r.1.s_drv ≡ some open_driver)
            × (memory r.1 ≡ memory writing.1))
      got = read_ram_lem table open_driver memory chip address size block2 writing.1 still low room

      front :
          take size (contents (memory writing.1) address size ++ drop size block2)
          ≡ contents (memory writing.1) address size
      front = take_front size _ (drop size block2) (length-contents (memory writing.1) address size)

      by_same :
          (b : Bool)
          → same_bytes (take size written_block) (contents (memory writing.1) address size) ≡ b
          → cond b (Programmed.verified writing.0) (Programmed.differs writing.0)
            ≡ Programmed.verified status
          → contents (memory writing.1) address size ≡ take size written_block
      by_same true e h =
          sym (
            same_bytes_sound (take size written_block) (contents (memory writing.1) address size) e)
      by_same false e h = absurd (ground arith)

      by_erased :
          (b : Bool)
          → (let r =
                cond b
                  (pure Programmed.not_erased)
                  (write_ram table address size written_block >>= λ w.
                    read_ram table address size block2 >>= λ r. pure (
                      cond
                        (same_bytes (take size written_block) (take size r.1))
                        (Programmed.verified w)
                        (Programmed.differs w)))
                  erased.1 in
              r.0 ≡ Programmed.verified status
              → contents (memory r.1) address size ≡ take size written_block)
      by_erased true = λ h. absurd (ground arith)
      by_erased false =
          rw (got.0, got.2, front)
            (λ h.
              by_same
                (same_bytes (take size written_block) (contents (memory writing.1) address size))
                refl h)
