-- ===== src/Tools/Verified.antt =====
-- What the verification of tools/smbusb_bq8030flasher.c is worth.
use smbusb.Prelude.{
  ℕ, zero, suc, ◌+◌, ◌*◌, ◌≢◌, Bool, true, false, not, Option, none, some, List, length, take, drop,
  overlay, ◌==◌, cond, ℤ, is,
}
use mathlib.Core.Path.{subst}
use smbusb.Facade.Device.{SmbDriver, Name, Library}
use smbusb.Tools.State.{M, pure, ◌>>=◌}
use smbusb.Tools.Bq8030.{
  Block, Flashed, eeprom_blocksz, eeprom_block_count, write_rounds, verify_rounds,
  write_eeprom_block, read_eeprom_block, erase_eeprom_flash, flash_eeprom,
}

-- An end that is not a failed comparison.
abbrev IsNotDifferent : Flashed → Type 0
IsNotDifferent (Flashed.verify_failed i) = ⊥
IsNotDifferent f = Unit {0}

module _ {S : Type 0} (size : ℕ) where
  -- What holds of every error and of what follows the loop holds of the loop.
  pub write_rounds_lem :
      (P : Flashed × S → Type 0) (writer : ℕ → List ℕ → M S ℤ) (then : M S Flashed) (left i : ℕ)
      (file : List ℕ) (s : S)
      → ((t : S) → P (then t))
      → ((status : ℤ) (t : S) → P (Flashed.error status, t))
      → P (write_rounds size writer then left i file s)
  unfolding write_rounds ◌>>=◌
  write_rounds_lem P writer then zero i file s h failing = h s
  write_rounds_lem P writer then (suc left) i file s h failing =
      by_status (not (is (writer i (take size file) s).0 size)) (
        write_rounds_lem P writer then left (i + 1) (drop size file) (writer i (take size file) s).1
          h failing)
    where
      by_status :
          (b : Bool)
          → P (
              write_rounds size writer then left
                (i + 1)
                (drop size file)
                (writer i (take size file) s).1)
          → P (
              cond b
                (pure (Flashed.error (writer i (take size file) s).0))
                (write_rounds size writer then left (i + 1) (drop size file))
                (writer i (take size file) s).1)
      by_status true ih = failing (writer i (take size file) s).0 (writer i (take size file) s).1
      by_status false ih = ih

  -- Nothing differs where nothing is compared.
  verify_rounds-IsNotDifferent :
      (reader : ℕ → M S Block) (left i : ℕ) (block2 file : List ℕ) (s : S)
      → IsNotDifferent (verify_rounds size reader 0 left i block2 file s).0
  unfolding verify_rounds ◌>>=◌
  verify_rounds-IsNotDifferent reader zero i block2 file s = tt
  verify_rounds-IsNotDifferent reader (suc left) i block2 file s =
      by_status (not (is (reader i s).0.0 size))
        (verify_rounds-IsNotDifferent reader left (i + 1) next (drop size file) (reader i s).1)
    where
      next : List ℕ
      next = overlay (reader i s).0.1 block2

      by_status :
          (b : Bool)
          → IsNotDifferent
              (verify_rounds size reader 0 left (i + 1) next (drop size file) (reader i s).1).0
          → IsNotDifferent
              (cond b
                (pure (Flashed.error (reader i s).0.0))
                (verify_rounds size reader 0 left (i + 1) next (drop size file))
                (reader i s).1).0
      by_status true ih = tt
      by_status false ih = ih

module _ {D : Type 0} (table : Name → SmbDriver D) where
  flash_eeprom-IsNotDifferent :
      (confirm no_verify : Bool) (block2 : List ℕ) (file : Option (List ℕ)) (s : Library D)
      → IsNotDifferent (flash_eeprom table confirm no_verify block2 file s).0
  unfolding flash_eeprom ◌>>=◌
  flash_eeprom-IsNotDifferent false no_verify block2 file s = tt
  flash_eeprom-IsNotDifferent true no_verify block2 none s = tt
  flash_eeprom-IsNotDifferent true no_verify block2 (some file) s =
      by_size (not (length file == eeprom_blocksz * eeprom_block_count)) (
        write_rounds_lem eeprom_blocksz (λ r. IsNotDifferent r.0) (write_eeprom_block table)
          verifying eeprom_block_count 0 file erased (verifying-IsNotDifferent no_verify)
          (λ status t. tt))
    where
      erased : Library D
      erased = (erase_eeprom_flash table s).1

      verify : M (Library D) Flashed
      verify =
          verify_rounds eeprom_blocksz (read_eeprom_block table) 0 eeprom_block_count 0 block2 file

      verifying : M (Library D) Flashed
      verifying = cond no_verify (pure Flashed.finished) verify

      verifying-IsNotDifferent :
          (b : Bool) (t : Library D) → IsNotDifferent (cond b (pure Flashed.finished) verify t).0
      verifying-IsNotDifferent true t = tt
      verifying-IsNotDifferent false t =
          verify_rounds-IsNotDifferent eeprom_blocksz (read_eeprom_block table) eeprom_block_count 0
            block2 file t

      written : M (Library D) Flashed
      written =
          write_rounds eeprom_blocksz (write_eeprom_block table) verifying eeprom_block_count 0 file

      by_size :
          (b : Bool)
          → IsNotDifferent (written erased).0
          → IsNotDifferent
              (cond b
                (pure Flashed.wrong_size)
                (erase_eeprom_flash table >>= λ ignored. written)
                s).0
      by_size true h = tt
      by_size false h = h

  -- Whatever the chip does and whatever it holds afterwards, --flash-eeprom never ends with
  -- "Block verify fail".
  pub flash_eeprom-verify_failed :
      (confirm no_verify : Bool) (block2 : List ℕ) (file : Option (List ℕ)) (s : Library D) (i : ℕ)
      → (flash_eeprom table confirm no_verify block2 file s).0 ≢ Flashed.verify_failed i
  flash_eeprom-verify_failed confirm no_verify block2 file s i e =
      subst IsNotDifferent e (flash_eeprom-IsNotDifferent confirm no_verify block2 file s)
