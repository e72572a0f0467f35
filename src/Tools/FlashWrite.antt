-- ===== src/Tools/FlashWrite.antt =====
-- What tools/smbusb_m37512flasher.c writes to the flash of a chip, it verifies.
use smbusb.Prelude.{
  ℕ, zero, suc, ◌+◌, ◌*◌, ◌/◌, ◌%◌, ◌^◌, ◌≤◌, ◌<◌, ◌≡◌, ◌∙◌, refl, sym, ap, true, false, not, some,
  List, [], ◌∷◌, ◌++◌, arith, length, take, drop, length-take, length-drop, take-append-drop,
  take_of_length_le, ltb, ◌==◌, ℤ, below,
}
use smbusb.Facade.Device.{SmbDriver, Name, Library}
use smbusb.Facade.Stays.{smb_write_block-s_drv}
use smbusb.Tools.FlashStays.{
  read_clear_status_register-s_drv, erase_flash_block-s_drv, write_flash-s_drv,
}
use smbusb.Tools.State.{◌>>=◌}
use smbusb.Tools.Memory.{
  Memory, store, contents, store-append, contents-store, length-contents, IsErased, IsErased-store,
}
use smbusb.Tools.M37512.{
  chunklen, same_bytes, Outcome, read_clear_status_register, clear_block, write_chunk_at,
  erase_flash_block, read_flash, write_flash_rounds, write_flash, program,
}
use smbusb.Tools.FlashRead.{IsReadable, IsRead, read_flash_lem, take_front}

-- Erasing and writing: a block of `size_of` bytes is erased, 16 bytes are written where the flash is erased.
pub record IsWritable {D : Type 0} (table : Name → SmbDriver D) (open_driver : Name)
    (flash : Library D → Memory) (size_of : ℕ → ℕ) : Type 0 where
  pub clear_keeps :
      (s : Library D)
      → s.s_drv ≡ some open_driver
      → flash (read_clear_status_register table s).1 ≡ flash s
  pub erase_ok :
      (a : ℕ) (s : Library D)
      → s.s_drv ≡ some open_driver
      → a < 2 ^ 16
      → below (clear_block table a s).0 0 ≡ false
  pub erased :
      (a : ℕ) (s : Library D)
      → s.s_drv ≡ some open_driver
      → a < 2 ^ 16
      → IsErased (flash (clear_block table a s).1) a (size_of a)
  pub write_ok :
      (a : ℕ) (bytes : List ℕ) (s : Library D)
      → s.s_drv ≡ some open_driver
      → length bytes ≡ 16
      → a + 16 ≤ 2 ^ 16
      → IsErased (flash s) a 16
      → below (write_chunk_at table a bytes s).0 0 ≡ false
  pub is_stored :
      (a : ℕ) (bytes : List ℕ) (s : Library D)
      → s.s_drv ≡ some open_driver
      → length bytes ≡ 16
      → a + 16 ≤ 2 ^ 16
      → IsErased (flash s) a 16
      → flash (write_chunk_at table a bytes s).1 ≡ store (flash s) a bytes

same_bytes_refl : (xs : List ℕ) → same_bytes xs xs ≡ true
same_bytes_refl [] = refl
same_bytes_refl (x ∷ xs) = let same : (x == x) ≡ true = ground arith in rw same (same_bytes_refl xs)

module _ {D : Type 0} (table : Name → SmbDriver D) (open_driver : Name) (flash : Library D → Memory)
    (readable : IsReadable table open_driver flash) (size_of : ℕ → ℕ)
    (writable : IsWritable table open_driver flash size_of) where
  write_flash_rounds_lem :
      (n address len : ℕ) (buf : List ℕ) (s : Library D)
      → s.s_drv ≡ some open_driver
      → length buf ≡ n * 16
      → address + n * 16 ≤ 2 ^ 16
      → IsErased (flash s) address (n * 16)
      → (let r = write_flash_rounds table n address len buf s in
          (r.0 ≡ ℤ.pos len) × (flash r.1 ≡ store (flash s) address buf))
  unfolding write_flash_rounds ◌>>=◌
  write_flash_rounds_lem zero address len [] s o size low e = (refl, refl)
  write_flash_rounds_lem zero address len (b ∷ buf) s o size low e = absurd (omega arith)
  write_flash_rounds_lem (suc n) address len buf s o size low e =
      let rest : (let r = write_flash_rounds table n (address + 16) len (drop 16 buf) after in
          (r.0 ≡ ℤ.pos len) × (flash r.1 ≡ store (flash after) (address + 16) (drop 16 buf))) =
        write_flash_rounds_lem n (address + 16) len (drop 16 buf) after still
          (omega (arith, length-drop 16 buf)) (omega arith) still_erased in
      rw
        (writable.write_ok address (take 16 buf) cleared cleared_open size_of_chunk (omega arith)
          here)
        (rest.0, rest.1 ∙ together)
    where
      cleared : Library D
      cleared = (read_clear_status_register table s).1

      after : Library D
      after = (write_chunk_at table address (take 16 buf) cleared).1

      cleared_open : cleared.s_drv ≡ some open_driver
      cleared_open = read_clear_status_register-s_drv table s ∙ o

      still : after.s_drv ≡ some open_driver
      still = smb_write_block-s_drv table 0x16 0x40 _ (chunklen + 2) cleared ∙ cleared_open

      size_of_chunk : length (take 16 buf) ≡ 16
      size_of_chunk = omega (arith, length-take 16 buf)

      here : IsErased (flash cleared) address 16
      here k from to = ap (λ m. m k) (writable.clear_keeps s o) ∙ e k from (omega arith)

      was_stored : flash after ≡ store (flash s) address (take 16 buf)
      was_stored =
          writable.is_stored address (take 16 buf) cleared cleared_open size_of_chunk (omega arith)
            here
          ∙ ap (λ m. store m address (take 16 buf)) (writable.clear_keeps s o)

      still_erased : IsErased (flash after) (address + 16) (n * 16)
      still_erased = rw was_stored (
          IsErased-store (flash s) address (address + 16) (n * 16) (take 16 buf)
            (omega (arith, size_of_chunk)) λ k from to. e k (omega arith) (omega arith))

      together : store (flash after) (address + 16) (drop 16 buf) ≡ store (flash s) address buf
      together =
          ap (λ m. store m (address + 16) (drop 16 buf)) was_stored
          ∙ ap (λ k. store (store (flash s) address (take 16 buf)) (address + k) (drop 16 buf))
              (sym size_of_chunk)
          ∙ store-append (flash s) address (take 16 buf) (drop 16 buf)
          ∙ ap (store (flash s) address) (take-append-drop 16 buf)

  write_flash_lem :
      (address size : ℕ) (block : List ℕ) (s : Library D)
      → s.s_drv ≡ some open_driver
      → size % 16 ≡ 0
      → length block ≡ size
      → address + size ≤ 2 ^ 16
      → IsErased (flash s) address size
      → (let r = write_flash table address size block s in
          (r.0 ≡ ℤ.pos size) × (flash r.1 ≡ store (flash s) address block))
  unfolding write_flash
  write_flash_lem address size block s o chunks whole low e = rw chunked (
      write_flash_rounds_lem (size / chunklen) address size block s o (omega arith) (omega arith)
        λ k from to. e k from (omega arith))
    where
      chunked : not (size % chunklen == 0) ≡ false
      chunked = ground arith

  erase_flash_block_lem :
      (a : ℕ) (s : Library D)
      → s.s_drv ≡ some open_driver
      → a < 2 ^ 16
      → (let r = erase_flash_block table a s in
          (below r.0 0 ≡ false) × IsErased (flash r.1) a (size_of a))
  unfolding erase_flash_block ◌>>=◌
  erase_flash_block_lem a s o below_end = rw (writable.erase_ok a s o below_end) (
    writable.erase_ok a s o below_end,
    λ k from to.
        ap (λ m. m k)
          (writable.clear_keeps (clear_block table a s).1
            (smb_write_block-s_drv table 0x16 0x20 _ 2 s ∙ o))
        ∙ writable.erased a s o below_end k from to,
  )

  -- With the device open and a chip that works, programming a block of whole chunks that is no larger than the block of the
  -- flash at that address ends in "Verified OK!", and the flash holds the block.
  pub program-stored :
      (garbage block block2 : List ℕ) (address : ℕ) (s : Library D)
      → s.s_drv ≡ some open_driver
      → address < 2 ^ 16
      → length garbage ≡ 16
      → length block % 16 ≡ 0
      → length block ≤ size_of address
      → address + length block ≤ 2 ^ 16
      → length block ≤ length block2
      → (let r = program table false garbage address (length block) block block2 s in
          (r.0 ≡ Outcome.verified (ℤ.pos (length block)))
          × (contents (flash r.1) address (length block) ≡ block))
  unfolding program ◌>>=◌
  program-stored garbage block block2 address s o below_end g chunks fits low room =
      rw
        (
          erased.0,
          got.0,
          got.1,
          wrote.0,
          wrote.1,
          positive,
          front,
          all,
          contents-store (flash erasing) address block,
          same_bytes_refl block,
        )
        (refl, refl)
    where
      n : ℕ
      n = length block

      erased :
          (let r = erase_flash_block table address s in
            (below r.0 0 ≡ false) × IsErased (flash r.1) address (size_of address))
      erased = erase_flash_block_lem address s o below_end

      erasing : Library D
      erasing = (erase_flash_block table address s).1

      erasing_open : erasing.s_drv ≡ some open_driver
      erasing_open = erase_flash_block-s_drv table address s ∙ o

      writing : Library D
      writing = (write_flash table address n block erasing).1

      writing_open : writing.s_drv ≡ some open_driver
      writing_open = write_flash-s_drv table address n block erasing ∙ erasing_open

      wrote :
          (let r = write_flash table address n block erasing in
            (r.0 ≡ ℤ.pos n) × (flash r.1 ≡ store (flash erasing) address block))
      wrote =
          write_flash_lem address n block erasing erasing_open chunks refl low
            λ k from to. erased.1 k from (omega arith)

      got :
          IsRead table open_driver flash readable address n n block2 writing
            (read_flash table garbage address n block2 writing)
      got =
          read_flash_lem table open_driver flash readable garbage block2 address n writing
            writing_open g chunks low room

      positive : ltb n 0 ≡ false
      positive = ground arith

      all : take n block ≡ block
      all = take_of_length_le n block (omega arith)

      front :
          take n (contents (store (flash erasing) address block) address n ++ drop n block2)
          ≡ contents (store (flash erasing) address block) address n
      front =
          take_front n _ (drop n block2)
            (length-contents (store (flash erasing) address block) address n)
