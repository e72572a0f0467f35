-- ===== src/Tools/Bq8030.antt =====
-- tools/smbusb_bq8030flasher.c, without its options and messages; `sleep` leaves the state alone.
use smbusb.Prelude.{
  ℕ, zero, suc, ◌+◌, ◌-◌, ◌*◌, ◌/◌, ◌^◌, Bool, true, false, not, Option, none, some, List, [], ◌∷◌,
  ◌++◌, length, take, drop, overlay, u8, ◌==◌, cond, ℤ, minus, is, below,
}
use smbusb.Facade.Device.{SmbDriver, Name, Library, smb_write_word, smb_write_block, smb_read_block}
use smbusb.Tools.State.{M, pure, ◌>>=◌}
use smbusb.Tools.M37512.{same_bytes}

abbrev data_erase_confirm : ℕ
data_erase_confirm = 0x83DE

abbrev eeprom_base_addr : ℕ
eeprom_base_addr = 0x4000

abbrev pub program_blocksz : ℕ
program_blocksz = 0x60

abbrev pub eeprom_blocksz : ℕ
eeprom_blocksz = 0x20

abbrev pub program_block_count : ℕ
program_block_count = 768

abbrev pub eeprom_block_count : ℕ
eeprom_block_count = 64

abbrev pub eeprom_reserved_bytes : ℕ
eeprom_reserved_bytes = 32

-- `z - n`
abbrev pub less : ℤ → ℕ → ℤ
less z zero = z
less (ℤ.pos zero) (suc n) = ℤ.negsuc n
less (ℤ.pos (suc m)) (suc n) = less (ℤ.pos m) n
less (ℤ.negsuc m) (suc n) = ℤ.negsuc (m + suc n)

-- What a read of a block returns, with the bytes it wrote to the buffer.
abbrev pub Block : Type 0
Block = ℤ × List ℕ

-- How saving and flashing end.
pub data Saved : Type 0 where
  saved : List ℕ → Saved
  read_error : ℤ → Saved

pub data Flashed : Type 0 where
  unconfirmed no_file wrong_size finished : Flashed
  error : ℤ → Flashed
  verify_failed : ℕ → Flashed

abbrev pub and_saved : List ℕ → Saved → Saved
and_saved bytes (Saved.saved more) = Saved.saved (bytes ++ more)
and_saved bytes (Saved.read_error status) = Saved.read_error status

-- The loops over the blocks, which are alike for program flash and EEPROM, with the blocks that are left.
module _ {S : Type 0} (size : ℕ) where
  -- Saving; `block` is what the array holds.
  unfoldable pub save_rounds : (ℕ → M S Block) → ℕ → ℕ → List ℕ → M S Saved
  save_rounds reader zero i block = pure (Saved.saved [])
  save_rounds reader (suc left) i block =
      let more = save_rounds reader left (i + 1) in
      do
        r ← reader i
        cond (not (is r.0 size)) (pure (Saved.read_error r.0)) (do
          rest ← more (overlay r.1 block)
          pure (and_saved (take size (overlay r.1 block)) rest))

  -- Writing the file, from its next byte on; `then` is what follows the loop.
  unfoldable pub write_rounds : (ℕ → List ℕ → M S ℤ) → M S Flashed → ℕ → ℕ → List ℕ → M S Flashed
  write_rounds writer then zero i file = then
  write_rounds writer then (suc left) i file =
      let more = write_rounds writer then left (i + 1) (drop size file) in
      do
        status ← writer i (take size file)
        cond (not (is status size)) (pure (Flashed.error status)) more

  -- Comparing the first `compared` bytes of each block with the file.
  unfoldable pub verify_rounds : (ℕ → M S Block) → ℕ → ℕ → ℕ → List ℕ → List ℕ → M S Flashed
  verify_rounds reader compared zero i block2 file = pure Flashed.finished
  verify_rounds reader compared (suc left) i block2 file =
      let more = verify_rounds reader compared left (i + 1) in
      do
        r ← reader i
        cond (not (is r.0 size)) (pure (Flashed.error r.0)) (
            cond (same_bytes (take compared (take size file)) (take compared (overlay r.1 block2)))
              (more (overlay r.1 block2) (drop size file)) (pure (Flashed.verify_failed i)))

module _ {D : Type 0} (table : Name → SmbDriver D) where
  unfoldable pub erase_program_flash : M (Library D) ℤ
  erase_program_flash = smb_write_word table 0x16 0x7 data_erase_confirm

  unfoldable pub erase_eeprom_flash : M (Library D) ℤ
  erase_eeprom_flash = smb_write_word table 0x16 0x12 data_erase_confirm

  unfoldable pub read_program_block : ℕ → M (Library D) Block
  read_program_block block_nr = do
    status ←
        smb_write_block table 0x16 0x0
          (u8 block_nr ∷ u8 (block_nr / 2 ^ 8) ∷ u8 (block_nr / 2 ^ 16) ∷ []) 3
    cond (not (is status 3)) (pure (minus 1, [])) (smb_read_block table 0x16 0x2)

  unfoldable pub write_program_block : ℕ → List ℕ → M (Library D) ℤ
  write_program_block block_nr buf = do
    status ← smb_write_block table 0x16 0x5 (u8 block_nr ∷ u8 (block_nr / 2 ^ 8) ∷ buf) 0x62
    pure (less status 2)

  unfoldable pub write_eeprom_block : ℕ → List ℕ → M (Library D) ℤ
  write_eeprom_block block_nr buf = do
    status ← smb_write_block table 0x16 0x10 (u8 block_nr ∷ buf) 33
    pure (less status 1)

  unfoldable pub read_eeprom_block : ℕ → M (Library D) Block
  read_eeprom_block block_nr = do
    status ← smb_write_word table 0x16 0x9 (eeprom_base_addr + u8 block_nr * 32)
    cond (below status 0) (pure (minus 1, [])) (smb_read_block table 0x16 0xC)

  unfoldable pub save_program : List ℕ → M (Library D) Saved
  save_program block = save_rounds program_blocksz read_program_block program_block_count 0 block

  unfoldable pub save_eeprom : List ℕ → M (Library D) Saved
  save_eeprom block = save_rounds eeprom_blocksz read_eeprom_block eeprom_block_count 0 block

  -- The part of `main` for --flash-program: erased before the file is opened, which is `none` where that fails.
  unfoldable pub flash_program : Bool → Bool → List ℕ → Option (List ℕ) → M (Library D) Flashed
  flash_program false no_verify block2 file = pure Flashed.unconfirmed
  flash_program true no_verify block2 none = do ignored ← erase_program_flash; pure Flashed.no_file
  flash_program true no_verify block2 (some file) = do
    ignored ← erase_program_flash
    cond (not (length file == program_blocksz * program_block_count)) (pure Flashed.wrong_size) (
        write_rounds program_blocksz write_program_block
          (cond no_verify (pure Flashed.finished) (
            verify_rounds program_blocksz read_program_block program_blocksz program_block_count 0
              block2 file))
          program_block_count 0 file)

  -- The part for --flash-eeprom.
  unfoldable pub flash_eeprom : Bool → Bool → List ℕ → Option (List ℕ) → M (Library D) Flashed
  flash_eeprom false no_verify block2 file = pure Flashed.unconfirmed
  flash_eeprom true no_verify block2 none = pure Flashed.no_file
  flash_eeprom true no_verify block2 (some file) =
      cond (not (length file == eeprom_blocksz * eeprom_block_count)) (pure Flashed.wrong_size) (do
        ignored ← erase_eeprom_flash
        write_rounds eeprom_blocksz write_eeprom_block
            (cond no_verify (pure Flashed.finished) (
              verify_rounds eeprom_blocksz read_eeprom_block
                (eeprom_blocksz - eeprom_reserved_bytes) eeprom_block_count 0 block2 file))
            eeprom_block_count 0 file)
