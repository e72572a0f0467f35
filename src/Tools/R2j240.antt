-- ===== src/Tools/R2j240.antt =====
-- tools/smbusb_r2j240flasher.c, without its options and messages; `sleep` leaves the state alone.
use Prim.Native.Nat.{min}
use smbusb.Prelude.{
  ℕ, zero, suc, ◌+◌, ◌-◌, ◌*◌, ◌/◌, ◌^◌, Bool, true, Option, none, some, List, [], ◌∷◌, ◌++◌,
  length, take, drop, overlay, get_or, set, u8, u32, ◌==◌, ◌&&◌, cond, ltb, ℤ, minus, below,
}
use smbusb.Facade.Device.{
  smb_write_word, SmbDriver, SmbMsg, Name, Library, smb_write_block, smb_read_word, smb_transfer,
}
use smbusb.Facade.Options.{same}
use smbusb.I2cdev.Transfers.{smb_m_rd}
use smbusb.Tools.M37512.{same_bytes}
use smbusb.Tools.State.{M, pure, ◌>>=◌}

abbrev cmd_read_ram : ℕ
cmd_read_ram = 0xFC

abbrev cmd_write_ram : ℕ
cmd_write_ram = 0xFD

abbrev cmd_erase_block : ℕ
cmd_erase_block = 0x20

abbrev cmd_read_clear_status_reg : ℕ
cmd_read_clear_status_reg = 0x50

abbrev pub address_bytes : ℕ → List ℕ
address_bytes a = u8 a ∷ u8 (a / 2 ^ 8) ∷ u8 (a / 2 ^ 16) ∷ []

-- A command, an address, and a number of bytes.
abbrev pub ram_header : ℕ → ℕ → ℕ → List ℕ
ram_header cmd addr cur = cmd ∷ address_bytes addr ++ (u8 cur ∷ u8 (cur / 2 ^ 8) ∷ [])

-- The messages of a read, to a buffer that holds `old`, and that of a write.
abbrev pub read_messages : ℕ → ℕ → List ℕ → List SmbMsg
read_messages addr cur old =
    record { addr = 0x16; flags = 0; len = 6; buf = ram_header cmd_read_ram addr cur }
    ∷ record { addr = 0x16; flags = smb_m_rd; len = cur; buf = old }
    ∷ []

abbrev pub write_message : ℕ → List ℕ → List SmbMsg
write_message addr bytes =
    record {
      addr = 0x16;
      flags = 0;
      len = 6 + length bytes;
      buf = ram_header cmd_write_ram addr (length bytes) ++ bytes;
    }
    ∷ []

abbrev pub read_chunk : ℕ
read_chunk = 64

abbrev pub write_chunk : ℕ
write_chunk = 26

module _ {D : Type 0} (table : Name → SmbDriver D) where
  -- The rest of a read, behind the bytes of a chunk.
  abbrev pub behind_chunk : List ℕ → ℤ × List ℕ → ℤ × List ℕ
  behind_chunk chunk rest = (rest.0, chunk ++ rest.1)

  -- `while (remain)` of `readRam`, where `sts` is the status before and `buf` begins at `ptr`; gives the
  -- status and `buf` afterwards. Each round reads a byte at least, so that `remain` rounds are enough.
  unfoldable pub read_ram_rounds : ℕ → ℤ → ℕ → ℕ → List ℕ → M (Library D) (ℤ × List ℕ)
  read_ram_rounds zero sts addr remain buf = pure (sts, buf)
  read_ram_rounds (suc fuel) sts addr remain buf =
      let cur = min remain read_chunk in
      let more = read_ram_rounds fuel in
      cond (remain == 0) (pure (sts, buf)) (do
        r ← smb_transfer table (read_messages addr cur (take cur buf)) 2
        let next = overlay (take cur r.1) buf
        cond (below r.0 0) (pure (r.0, next)) (do
          rest ← more r.0 (u32 (addr + cur)) (remain - cur) (drop cur next)
          pure (behind_chunk (take cur next) rest)))

  -- `return sts < 0 ? -1 : size;`
  abbrev pub size_unless : ℤ → ℕ → ℤ
  size_unless sts size = cond (below sts 0) (minus 1) (ℤ.pos size)

  -- `readRam`, with the buffer afterwards; `size` fits an `int`.
  unfoldable pub read_ram : ℕ → ℕ → List ℕ → M (Library D) (ℤ × List ℕ)
  read_ram address size buf = do
    r ← read_ram_rounds size (ℤ.pos 0) (u32 address) size buf
    pure (size_unless r.0 size, r.1)

  -- `while (remain)` of `writeRam`.
  unfoldable pub write_ram_rounds : ℕ → ℤ → ℕ → ℕ → List ℕ → M (Library D) ℤ
  write_ram_rounds zero sts addr remain buf = pure sts
  write_ram_rounds (suc fuel) sts addr remain buf =
      let cur = min remain write_chunk in
      let more = write_ram_rounds fuel in
      cond (remain == 0) (pure sts) (do
        r ← smb_transfer table (write_message addr (take cur buf)) 1
        cond (below r.0 0) (pure r.0) (more r.0 (u32 (addr + cur)) (remain - cur) (drop cur buf)))

  -- `writeRam`, where the memory suffices.
  unfoldable pub write_ram : ℕ → ℕ → List ℕ → M (Library D) ℤ
  write_ram address size buf = do
    sts ← write_ram_rounds size (ℤ.pos 0) (u32 address) size buf
    pure (size_unless sts size)

  abbrev pub all_erased : List ℕ → Bool
  all_erased [] = true
  all_erased (b ∷ bytes) = (b == 0xFF) && all_erased bytes

  -- The 10 tries of `eraseFlashBlock`, with those that are left.
  unfoldable pub erase_tries : ℕ → ℕ → ℕ → ℤ → List ℕ → M (Library D) ℤ
  erase_tries zero address size status buf = pure status
  erase_tries (suc left) address size status buf =
      let again = erase_tries left address size in
      do
        r ← read_ram address size buf
        cond (below r.0 0) (again r.0 r.1)
            (cond (all_erased (take size r.1)) (pure (ℤ.pos 1)) (again r.0 r.1))

  -- `eraseFlashBlock`; `timed_out` is whether `errno` is ETIMEDOUT after a state, and `garbage` what the
  -- allocated buffer holds.
  unfoldable pub erase_flash_block : (Library D → Bool) → List ℕ → ℕ → ℕ → M (Library D) ℤ
  erase_flash_block timed_out garbage address size = do
    status ← smb_write_block table 0x16 cmd_erase_block (address_bytes address) 3
    cond (below status 0) (pure status) (do
      status ← smb_read_word table 0x16 cmd_read_clear_status_reg
      late ← (λ s. (timed_out s, s))
      cond (below status 0 && late && ltb 0 size) (erase_tries 10 address size status garbage)
          (pure status))

-- A word of the block, the low byte first.
abbrev pub word_at : List ℕ → ℕ → ℕ
word_at block j =
    get_or block (4 * j) 0
    + 2 ^ 8 * get_or block (4 * j + 1) 0
    + 2 ^ 16 * get_or block (4 * j + 2) 0
    + 2 ^ 24 * get_or block (4 * j + 3) 0

abbrev pub put_word : List ℕ → ℕ → ℕ → List ℕ
put_word block j v =
    set
      (set (set (set block (4 * j) (u8 v)) (4 * j + 1) (u8 (v / 2 ^ 8))) (4 * j + 2)
        (u8 (v / 2 ^ 16)))
      (4 * j + 3) (u8 (v / 2 ^ 24))

-- `chk -= *((uint32_t *)block+j)`, with the rounds that are left.
unfoldable pub checksum_rounds : ℕ → ℕ → ℕ → List ℕ → ℕ
checksum_rounds zero j chk block = chk
checksum_rounds (suc left) j chk block =
    checksum_rounds left (j + 1) (u32 (chk + 2 ^ 32 - word_at block j)) block

-- `--fix-lgc-static-checksum`, for a size that is not negative.
unfoldable pub fix_lgc_static_checksum : ℕ → List ℕ → List ℕ
fix_lgc_static_checksum size block =
    put_word block (size / 4 - 1) (checksum_rounds (size / 4 - 1) 0 0 block)

-- The presets of the options: an address and a size.
unfoldable pub preset : List ℕ → Option (ℕ × ℕ)
preset name = cond (same name (b'd' ∷ b'f' ∷ b'1' ∷ [])) (some (0x3000, 0x400)) (
    cond (same name (b'd' ∷ b'f' ∷ b'2' ∷ [])) (some (0x3400, 0x400)) (
      cond (same name (b'd' ∷ b'f' ∷ b'3' ∷ [])) (some (0xC000, 0x2000)) (
        cond (same name (b'f' ∷ b'u' ∷ b'l' ∷ b'l' ∷ b'1' ∷ [])) (some (0, 0x10000)) (
          cond (same name (b'f' ∷ b'u' ∷ b'l' ∷ b'l' ∷ b'2' ∷ [])) (some (0x10000, 0x2000))
            (cond (same name (b'f' ∷ b'w' ∷ [])) (some (0x4000, 0x8000)) none)))))

-- How programming a block ends, with the status of the write where there was one.
pub data Programmed : Type 0 where
  not_erased : Programmed
  unverified verified differs : ℤ → Programmed

module _ {D : Type 0} (table : Name → SmbDriver D) where
  -- The part of `main` that programs a block from a file of the right size; the result of the last read
  -- is ignored.
  unfoldable pub program_block :
      (Library D → Bool) → List ℕ → Bool → Bool → ℕ → ℕ → List ℕ → List ℕ → M (Library D) Programmed
  program_block timed_out garbage lgc_checksum_fix no_verify address size block block2 =
      let written_block = cond lgc_checksum_fix (fix_lgc_static_checksum size block) block in
      do
        erased ← erase_flash_block table timed_out garbage address size
        cond (below erased 1) (pure Programmed.not_erased) (do
          status ← write_ram table address size written_block
          cond no_verify (pure (Programmed.unverified status)) (do
            r ← read_ram table address size block2
            pure (
                cond (same_bytes (take size written_block) (take size r.1))
                  (Programmed.verified status) (Programmed.differs status))))

  -- `--execute`
  unfoldable pub execute_flash : M (Library D) ℤ
  execute_flash = smb_write_word table 0x16 0 0xD001
