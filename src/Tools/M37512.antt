-- ===== src/Tools/M37512.antt =====
-- tools/smbusb_m37512flasher.c, without its options and messages; `usleep` leaves the state alone.
use smbusb.Prelude.{
  ℕ, zero, suc, ◌+◌, ◌/◌, ◌%◌, ◌^◌, Bool, true, false, not, ◌&&◌, Option, none, some, List, [], ◌∷◌,
  ◌++◌, length, take, drop, overlay, u8, ltb, ◌==◌, cond, ℤ, minus, below,
}
use smbusb.Facade.Device.{SmbDriver, Name, Library, smb_read_byte, smb_read_block, smb_write_block}
use smbusb.Tools.State.{M, pure, ◌>>=◌}

-- `CHUNKLEN`
abbrev pub chunklen : ℕ
chunklen = 0x10

-- What a read leaves: the status and the buffer; `none` is an access out of bounds.
abbrev pub Read : Type 0
Read = Option (ℤ × List ℕ)

abbrev pub behind : List ℕ → Read → Read
behind chunk none = none
behind chunk (some r) = some (r.0, chunk ++ r.1)

-- `memcmp(...) == 0`
abbrev pub same_bytes : List ℕ → List ℕ → Bool
same_bytes [] [] = true
same_bytes [] (y ∷ ys) = false
same_bytes (x ∷ xs) [] = false
same_bytes (x ∷ xs) (y ∷ ys) = (x == y) && same_bytes xs ys

-- How programming a block ends, with the status of the write where there was one.
pub data Outcome : Type 0 where
  fault : Outcome
  erase_failed : ℤ → Outcome
  unverified read_failed verified differs : ℤ → Outcome

module _ {D : Type 0} (table : Name → SmbDriver D) where
  unfoldable pub read_clear_status_register : M (Library D) ℤ
  read_clear_status_register = smb_read_byte table 0x16 0x70

  -- The commands, with the address in front.
  abbrev pub clear_block : ℕ → M (Library D) ℤ
  clear_block address = smb_write_block table 0x16 0x20 (u8 (address / 2 ^ 8) ∷ u8 address ∷ []) 2

  abbrev pub set_read_address : ℕ → M (Library D) ℤ
  set_read_address address =
      smb_write_block table 0x16 0xFF (u8 address ∷ u8 (address / 2 ^ 8) ∷ []) 2

  abbrev pub write_chunk_at : ℕ → List ℕ → M (Library D) ℤ
  write_chunk_at address chunk =
      smb_write_block table 0x16 0x40 (u8 address ∷ u8 (address / 2 ^ 8) ∷ chunk) (chunklen + 2)

  unfoldable pub erase_flash_block : ℕ → M (Library D) ℤ
  erase_flash_block address = do
    status ← clear_block address
    cond (below status 0) (pure status) (do ignored ← read_clear_status_register; pure status)

  -- The loop of `readFlash`, with the rounds that are left; `chunk` is what the local array holds, and `buf`
  -- begins where the next chunk goes.
  unfoldable pub read_flash_rounds : ℕ → ℕ → ℕ → List ℕ → List ℕ → M (Library D) Read
  read_flash_rounds zero address len chunk buf = pure (some (ℤ.pos len, buf))
  read_flash_rounds (suc left) address len chunk buf =
      let more = read_flash_rounds left (address + chunklen) len in
      do
        status ← set_read_address address
        cond (below status 0) (pure (some (minus 1, buf))) (do
          r ← smb_read_block table 0x16 0xFE
          cond (ltb chunklen (length r.1)) (pure none) (
              cond (ltb (length buf) chunklen) (pure none) (do
                rest ← more (overlay r.1 chunk) (drop chunklen buf)
                pure (behind (overlay r.1 chunk) rest))))

  -- `readFlash`; `garbage` is what the local array holds.
  unfoldable pub read_flash : List ℕ → ℕ → ℕ → List ℕ → M (Library D) Read
  read_flash garbage address len buf =
      cond (not (len % chunklen == 0)) (pure (some (minus 99, buf)))
        (read_flash_rounds (len / chunklen) address len garbage buf)

  -- The loop of `writeFlash`.
  unfoldable pub write_flash_rounds : ℕ → ℕ → ℕ → List ℕ → M (Library D) ℤ
  write_flash_rounds zero address len buf = pure (ℤ.pos len)
  write_flash_rounds (suc left) address len buf =
      let more = write_flash_rounds left (address + chunklen) len in
      do
        ignored ← read_clear_status_register
        status ← write_chunk_at address (take chunklen buf)
        cond (below status 0) (pure status) (more (drop chunklen buf))

  -- `writeFlash`, where `buf` has at least `len` bytes.
  unfoldable pub write_flash : ℕ → ℕ → List ℕ → M (Library D) ℤ
  write_flash address len buf =
      cond (not (len % chunklen == 0)) (pure (minus 99))
        (write_flash_rounds (len / chunklen) address len buf)

  -- `if (i=memcmp(block,block2,opSize) == 0)`
  abbrev pub compared : ℕ → ℤ → List ℕ → Read → Outcome
  compared size written block none = Outcome.fault
  compared size written block (some r) = cond (below r.0 0) (Outcome.read_failed written) (
      cond (same_bytes (take size block) (take size r.1)) (Outcome.verified written)
        (Outcome.differs written))

  -- The part of `main` that programs a block from a file of the right size. Where the erasing fails, it is
  -- done once more for the message.
  unfoldable pub program : Bool → List ℕ → ℕ → ℕ → List ℕ → List ℕ → M (Library D) Outcome
  program no_verify garbage address size block block2 = do
    status ← erase_flash_block address
    cond (below status 0) (do again ← erase_flash_block address; pure (Outcome.erase_failed again))
        (do
          written ← write_flash address size block
          cond no_verify (pure (Outcome.unverified written))
              (do r ← read_flash garbage address size block2; pure (compared size written block r)))

-- The presets of the options: an address and a size.
unfoldable pub preset : List ℕ → Option (ℕ × ℕ)
preset name = cond (same_bytes name (b'b' ∷ b'b' ∷ [])) (some (0x1000, 0x800)) (
    cond (same_bytes name (b'b' ∷ b'a' ∷ [])) (some (0x1800, 0x800)) (
      cond (same_bytes name (b'b' ∷ b'3' ∷ [])) (some (0x4000, 0x4000)) (
        cond (same_bytes name (b'b' ∷ b'2' ∷ [])) (some (0x8000, 0x4000)) (
          cond (same_bytes name (b'b' ∷ b'1' ∷ [])) (some (0xC000, 0x2000))
            (cond (same_bytes name (b'b' ∷ b'0' ∷ [])) (some (0xE000, 0x2000)) none)))))
