-- ===== src/Tools/FlashRead.antt =====
-- What tools/smbusb_m37512flasher.c reads from the flash of a chip, and what its verification is worth.
use smbusb.Prelude.{
  ℕ, zero, suc, ◌+◌, ◌*◌, ◌/◌, ◌%◌, ◌^◌, ◌≤◌, ◌≡◌, ◌∙◌, refl, sym, ap, Bool, true, false, not, some,
  List, [], ◌∷◌, ◌++◌, arith, length, take, drop, overlay, length-drop, ltb, ◌==◌, cond, ℤ, below,
  append_assoc, drop-drop,
}
use smbusb.Facade.Device.{SmbDriver, Name, Library, smb_read_block}
use smbusb.Facade.Stays.{smb_read_block-s_drv, smb_write_block-s_drv}
use smbusb.Tools.FlashStays.{erase_flash_block-s_drv, write_flash-s_drv}
use smbusb.Tools.State.{pure, ◌>>=◌}
use smbusb.Tools.Memory.{Memory, contents, contents_add, length-contents}
use smbusb.Tools.M37512.{
  chunklen, Read, same_bytes, Outcome, set_read_address, erase_flash_block, read_flash_rounds,
  read_flash, write_flash, compared, program,
}

-- Reads, by the documentation of the chip: behind the command for the address, a block read gives 16
-- bytes; nothing of this changes the flash.
pub record IsReadable {D : Type 0} (table : Name → SmbDriver D) (open_driver : Name)
    (flash : Library D → Memory) : Type 0 where
  pub set_ok :
      (a : ℕ) (s : Library D)
      → s.s_drv ≡ some open_driver
      → a + 16 ≤ 2 ^ 16
      → below (set_read_address table a s).0 0 ≡ false
  pub bytes :
      (a : ℕ) (s : Library D)
      → s.s_drv ≡ some open_driver
      → a + 16 ≤ 2 ^ 16
      → (smb_read_block table 0x16 0xFE (set_read_address table a s).1).0.1
        ≡ contents (flash s) a 16
  pub keeps :
      (a : ℕ) (s : Library D)
      → s.s_drv ≡ some open_driver
      → a + 16 ≤ 2 ^ 16
      → flash (smb_read_block table 0x16 0xFE (set_read_address table a s).1).1 ≡ flash s

pub same_bytes_sound : (xs ys : List ℕ) → same_bytes xs ys ≡ true → xs ≡ ys
same_bytes_sound [] [] h = refl
same_bytes_sound [] (y ∷ ys) h = absurd (ground arith)
same_bytes_sound (x ∷ xs) [] h = absurd (ground arith)
same_bytes_sound (x ∷ xs) (y ∷ ys) h =
    let first : x ≡ y = ground arith in
    let others : same_bytes xs ys ≡ true = ground arith in
    rw first (ap (◌∷◌ y) (same_bytes_sound xs ys others))

overlay_whole : (src dst : List ℕ) → length src ≡ length dst → overlay src dst ≡ src
overlay_whole [] [] h = refl
overlay_whole [] (y ∷ dst) h = absurd (omega arith)
overlay_whole (x ∷ src) [] h = absurd (omega arith)
overlay_whole (x ∷ src) (y ∷ dst) h = ap (◌∷◌ x) (overlay_whole src dst (omega arith))

pub take_front : (n : ℕ) (xs ys : List ℕ) → length xs ≡ n → take n (xs ++ ys) ≡ xs
take_front zero [] ys h = refl
take_front zero (x ∷ xs) ys h = absurd (omega arith)
take_front (suc n) [] ys h = absurd (omega arith)
take_front (suc n) (x ∷ xs) ys h = ap (◌∷◌ x) (take_front n xs ys (omega arith))

module _ {D : Type 0} (table : Name → SmbDriver D) (open_driver : Name) (flash : Library D → Memory)
    (readable : IsReadable table open_driver flash) where
  abbrev pub IsRead : ℕ → ℕ → ℕ → List ℕ → Library D → Read × Library D → Type 0
  IsRead address size len buf s r =
      (r.0 ≡ some (ℤ.pos len, contents (flash s) address size ++ drop size buf))
      × (flash r.1 ≡ flash s)

  read_flash_rounds_lem :
      (n address len : ℕ) (chunk buf : List ℕ) (s : Library D)
      → s.s_drv ≡ some open_driver
      → length chunk ≡ 16
      → address + n * 16 ≤ 2 ^ 16
      → n * 16 ≤ length buf
      → IsRead address (n * 16) len buf s (read_flash_rounds table n address len chunk buf s)
  unfolding read_flash_rounds ◌>>=◌
  read_flash_rounds_lem zero address len chunk buf s o size low room = (refl, refl)
  read_flash_rounds_lem (suc n) address len chunk buf s o size low room =
      let rest : IsRead (address + 16) (n * 16) len (drop 16 buf) after
          (read_flash_rounds table n (address + 16) len bytes (drop 16 buf) after) =
        read_flash_rounds_lem n (address + 16) len bytes (drop 16 buf) after still
          (length-contents (flash s) address 16) (omega arith)
          (omega (arith, length-drop 16 buf)) in
      rw
        (
          readable.set_ok address s o (omega arith),
          readable.bytes address s o (omega arith),
          enough,
          whole,
          rest.0,
        )
        (ap (λ bs. some (ℤ.pos len, bs)) together, rest.1 ∙ kept)
    where
      bytes : List ℕ
      bytes = contents (flash s) address 16

      after : Library D
      after = (smb_read_block table 0x16 0xFE (set_read_address table address s).1).1

      still : after.s_drv ≡ some open_driver
      still =
          smb_read_block-s_drv table 0x16 0xFE (set_read_address table address s).1
          ∙ smb_write_block-s_drv table 0x16 0xFF _ 2 s
          ∙ o

      kept : flash after ≡ flash s
      kept = readable.keeps address s o (omega arith)

      enough : ltb (length buf) chunklen ≡ false
      enough = ground arith

      whole : overlay bytes chunk ≡ bytes
      whole = overlay_whole bytes chunk (length-contents (flash s) address 16 ∙ sym size)

      total : 16 + n * 16 ≡ suc n * 16
      total = omega arith

      together :
          bytes ++ (contents (flash after) (address + 16) (n * 16) ++ drop (n * 16) (drop 16 buf))
          ≡ contents (flash s) address (suc n * 16) ++ drop (suc n * 16) buf
      together =
          rw (kept, drop-drop 16 (n * 16) buf, total)
            (sym (
                append_assoc bytes (contents (flash s) (address + 16) (n * 16))
                  (drop (suc n * 16) buf))
              ∙ ap (λ xs. xs ++ drop (suc n * 16) buf)
                  (sym (contents_add (flash s) address 16 (n * 16))
                    ∙ ap (contents (flash s) address) total))

  -- A read of whole chunks gives the bytes of the flash.
  pub read_flash_lem :
      (garbage buf : List ℕ) (address size : ℕ) (s : Library D)
      → s.s_drv ≡ some open_driver
      → length garbage ≡ 16
      → size % 16 ≡ 0
      → address + size ≤ 2 ^ 16
      → size ≤ length buf
      → IsRead address size size buf s (read_flash table garbage address size buf s)
  unfolding read_flash
  read_flash_lem garbage buf address size s o g chunks low room = rw chunked (
      subst_size (
        read_flash_rounds_lem (size / chunklen) address size garbage buf s o g (omega arith)
          (omega arith)))
    where
      chunked : not (size % chunklen == 0) ≡ false
      chunked = ground arith

      total : size / chunklen * 16 ≡ size
      total = omega arith

      subst_size :
          IsRead address
            (size / chunklen * 16)
            size
            buf
            s
            (read_flash_rounds table (size / chunklen) address size garbage buf s)
          → IsRead address size size buf s
              (read_flash_rounds table (size / chunklen) address size garbage buf s)
      subst_size r =
          (r.0 ∙ ap (λ k. some (ℤ.pos size, contents (flash s) address k ++ drop k buf)) total, r.1)

  -- Whatever the writes did, with the device open and a chip that can be read, "Verified OK!" is reported only where the flash
  -- holds the block from the address on.
  pub program-verified :
      (garbage block block2 : List ℕ) (address size : ℕ) (written : ℤ) (s : Library D)
      → s.s_drv ≡ some open_driver
      → length garbage ≡ 16
      → size % 16 ≡ 0
      → address + size ≤ 2 ^ 16
      → size ≤ length block2
      → (program table false garbage address size block block2 s).0 ≡ Outcome.verified written
      → contents (flash (program table false garbage address size block block2 s).1) address size
        ≡ take size block
  unfolding program ◌>>=◌
  program-verified garbage block block2 address size written s o g chunks low room =
      by_erase (below (erase_flash_block table address s).0 0)
    where
      erasing : Library D
      erasing = (erase_flash_block table address s).1

      writing : ℤ × Library D
      writing = write_flash table address size block erasing

      still : writing.1.s_drv ≡ some open_driver
      still =
          write_flash-s_drv table address size block erasing
          ∙ erase_flash_block-s_drv table address s
          ∙ o

      got :
          IsRead address size size block2 writing.1
            (read_flash table garbage address size block2 writing.1)
      got = read_flash_lem garbage block2 address size writing.1 still g chunks low room

      positive : ltb size 0 ≡ false
      positive = ground arith

      front :
          take size (contents (flash writing.1) address size ++ drop size block2)
          ≡ contents (flash writing.1) address size
      front = take_front size _ (drop size block2) (length-contents (flash writing.1) address size)

      by_same :
          (b : Bool)
          → same_bytes (take size block) (contents (flash writing.1) address size) ≡ b
          → cond b (Outcome.verified writing.0) (Outcome.differs writing.0)
            ≡ Outcome.verified written
          → contents (flash writing.1) address size ≡ take size block
      by_same true e h =
          sym (same_bytes_sound (take size block) (contents (flash writing.1) address size) e)
      by_same false e h = absurd (ground arith)

      by_erase :
          (b : Bool)
          → (let r =
                cond b
                  (erase_flash_block table address >>= λ again. pure (Outcome.erase_failed again))
                  (write_flash table address size block >>= λ w.
                    read_flash table garbage address size block2 >>= λ r.
                    pure (compared table size w block r))
                  erasing in
              r.0 ≡ Outcome.verified written → contents (flash r.1) address size ≡ take size block)
      by_erase true = λ h. absurd (ground arith)
      by_erase false =
          rw (got.0, got.1, positive, front)
            (λ h.
              by_same (same_bytes (take size block) (contents (flash writing.1) address size)) refl
                h)
