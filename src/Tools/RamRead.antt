-- ===== src/Tools/RamRead.antt =====
-- What tools/smbusb_r2j240flasher.c reads from the memory of a chip.
use Prim.Native.Nat.{min}
use smbusb.Prelude.{
  ℕ, zero, suc, ◌+◌, ◌-◌, ◌^◌, ◌≤◌, ◌<◌, ◌≡◌, ◌∙◌, refl, sym, ap, false, some, List, ◌++◌, arith,
  length, take, drop, overlay, length-drop, length-overlay, drop-drop, drop-overlay, take-overlay,
  take_of_length_le, u32, ◌==◌, ℤ, below, append_assoc,
}
use smbusb.Facade.Device.{SmbDriver, Name, Library, smb_transfer}
use smbusb.Facade.Stays.{smb_transfer-s_drv}
use smbusb.Tools.State.{◌>>=◌}
use smbusb.Tools.Memory.{Memory, store, contents, contents_add, length-contents}
use smbusb.Tools.R2j240.{read_messages, write_message, read_chunk, read_ram_rounds}

-- What the chip does with the reads of the tool, by its documentation: a read of at most 64 bytes
-- gives them and changes nothing. Its writes may do anything.
pub record IsReadable {D : Type 0} (table : Name → SmbDriver D) (open_driver : Name)
    (memory : Library D → Memory) : Type 0 where
  pub read_ok :
      (addr cur : ℕ) (old : List ℕ) (s : Library D)
      → s.s_drv ≡ some open_driver
      → 0 < cur
      → addr + cur ≤ 2 ^ 24
      → cur ≤ 64
      → below (smb_transfer table (read_messages addr cur old) 2 s).0.0 0 ≡ false
  pub read_data :
      (addr cur : ℕ) (old : List ℕ) (s : Library D)
      → s.s_drv ≡ some open_driver
      → 0 < cur
      → addr + cur ≤ 2 ^ 24
      → cur ≤ 64
      → (smb_transfer table (read_messages addr cur old) 2 s).0.1 ≡ contents (memory s) addr cur
  pub read_keeps :
      (addr cur : ℕ) (old : List ℕ) (s : Library D)
      → s.s_drv ≡ some open_driver
      → 0 < cur
      → addr + cur ≤ 2 ^ 24
      → cur ≤ 64
      → memory (smb_transfer table (read_messages addr cur old) 2 s).1 ≡ memory s

-- A chip that can be read and of which a write of at most 26 bytes stores them.
pub record IsR2j240 {D : Type 0} (table : Name → SmbDriver D) (open_driver : Name)
    (memory : Library D → Memory) : Type 0 where
  pub readable : IsReadable table open_driver memory
  pub write_ok :
      (addr : ℕ) (bytes : List ℕ) (s : Library D)
      → s.s_drv ≡ some open_driver
      → 0 < length bytes
      → addr + length bytes ≤ 2 ^ 24
      → length bytes ≤ 26
      → below (smb_transfer table (write_message addr bytes) 1 s).0.0 0 ≡ false
  pub write_stored :
      (addr : ℕ) (bytes : List ℕ) (s : Library D)
      → s.s_drv ≡ some open_driver
      → 0 < length bytes
      → addr + length bytes ≤ 2 ^ 24
      → length bytes ≤ 26
      → memory (smb_transfer table (write_message addr bytes) 1 s).1 ≡ store (memory s) addr bytes

module _ {D : Type 0} (table : Name → SmbDriver D) (open_driver : Name)
    (memory : Library D → Memory) (chip : IsReadable table open_driver memory) where
  -- The state after the rounds of a read, and what they return.
  abbrev pub IsRead : ℕ → ℕ → List ℕ → Library D → (ℤ × List ℕ) × Library D → Type 0
  IsRead addr size buf s r =
      (below r.0.0 0 ≡ false)
      × (r.0.1 ≡ contents (memory s) addr size ++ drop size buf)
      × (memory r.1 ≡ memory s)
      × (r.1.s_drv ≡ some open_driver)

  pub read_ram_rounds_lem :
      (fuel : ℕ) (sts : ℤ) (addr remain : ℕ) (buf : List ℕ) (s : Library D)
      → s.s_drv ≡ some open_driver
      → below sts 0 ≡ false
      → remain ≤ fuel
      → addr + remain ≤ 2 ^ 24
      → remain ≤ length buf
      → IsRead addr remain buf s (read_ram_rounds table fuel sts addr remain buf s)
  unfolding read_ram_rounds ◌>>=◌
  read_ram_rounds_lem zero sts addr zero buf s o ok enough low room = (ok, refl, refl, o)
  read_ram_rounds_lem zero sts addr (suc remain) buf s o ok enough low room = absurd (omega arith)
  read_ram_rounds_lem (suc fuel) sts addr zero buf s o ok enough low room = (ok, refl, refl, o)
  read_ram_rounds_lem (suc fuel) sts addr (suc remain) buf s o ok enough low room =
      let rest : IsRead (addr + cur) (size - cur) (drop cur next) answer.1 (
          read_ram_rounds table fuel answer.0.0 (addr + cur) (size - cur) (drop cur next)
            answer.1) =
        read_ram_rounds_lem fuel answer.0.0 (addr + cur) (size - cur) (drop cur next) answer.1 still
          sent (omega arith) (omega arith) (omega (arith, length-drop cur next, size_of_next)) in
      rw (more, sent, wrap)
        (rest.0, ap (λ xs. take cur next ++ xs) rest.1 ∙ together, rest.2 ∙ kept, rest.3)
    where
      size : ℕ
      size = suc remain

      cur : ℕ
      cur = min size read_chunk

      answer : (ℤ × List ℕ) × Library D
      answer = smb_transfer table (read_messages addr cur (take cur buf)) 2 s

      next : List ℕ
      next = overlay (take cur answer.0.1) buf

      still : answer.1.s_drv ≡ some open_driver
      still = smb_transfer-s_drv table (read_messages addr cur (take cur buf)) 2 s ∙ o

      more : (size == 0) ≡ false
      more = ground arith

      sent : below answer.0.0 0 ≡ false
      sent = chip.read_ok addr cur (take cur buf) s o (omega arith) (omega arith) (omega arith)

      kept : memory answer.1 ≡ memory s
      kept = chip.read_keeps addr cur (take cur buf) s o (omega arith) (omega arith) (omega arith)

      whole : cur + (size - cur) ≡ size
      whole = omega arith

      wrap : u32 (addr + cur) ≡ addr + cur
      wrap = omega arith

      chunk : take cur answer.0.1 ≡ contents (memory s) addr cur
      chunk =
          ap (take cur)
            (chip.read_data addr cur (take cur buf) s o (omega arith) (omega arith) (omega arith))
          ∙ take_of_length_le cur (contents (memory s) addr cur)
              (omega (arith, length-contents (memory s) addr cur))

      size_of_next : length next ≡ length buf
      size_of_next = length-overlay (take cur answer.0.1) buf

      first : take cur next ≡ contents (memory s) addr cur
      first =
          take-overlay cur (take cur answer.0.1) buf
            (ap length chunk ∙ length-contents (memory s) addr cur) (omega arith)
          ∙ chunk

      behind : drop (size - cur) (drop cur next) ≡ drop size buf
      behind =
          drop-drop cur (size - cur) next
          ∙ ap (λ k. drop k next) whole
          ∙ drop-overlay size (take cur answer.0.1) buf
              (omega (arith, ap length chunk, length-contents (memory s) addr cur))

      together :
          take cur next
            ++ (contents (memory answer.1) (addr + cur) (size - cur)
                ++ drop (size - cur) (drop cur next))
          ≡ contents (memory s) addr size ++ drop size buf
      together =
          rw (first, kept, behind)
            (sym (
                append_assoc (contents (memory s) addr cur)
                  (contents (memory s) (addr + cur) (size - cur)) (drop size buf))
              ∙ ap (λ xs. xs ++ drop size buf)
                  (sym (contents_add (memory s) addr cur (size - cur))
                    ∙ ap (contents (memory s) addr) whole))
