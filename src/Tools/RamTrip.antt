-- ===== src/Tools/RamTrip.antt =====
-- What tools/smbusb_r2j240flasher.c wrote to the memory of a chip, it reads back.
use Prim.Native.Nat.{min}
use smbusb.Prelude.{
  ℕ, zero, suc, ◌+◌, ◌-◌, ◌^◌, ◌≤◌, ◌≡◌, ◌∙◌, refl, sym, ap, false, some, List, [], ◌∷◌, ◌++◌,
  arith, length, take, drop, length-take, length-drop, take-append-drop, u32, ◌==◌, ℤ, below,
}
use smbusb.Facade.Device.{SmbDriver, Name, Library, smb_transfer}
use smbusb.Facade.Stays.{smb_transfer-s_drv}
use smbusb.Tools.State.{◌>>=◌}
use smbusb.Tools.Memory.{Memory, store, store-append, contents-store}
use smbusb.Tools.R2j240.{
  write_message, write_chunk, read_ram_rounds, read_ram, write_ram_rounds, write_ram,
}
use smbusb.Tools.RamRead.{IsR2j240, IsRead, read_ram_rounds_lem}

module _ {D : Type 0} (table : Name → SmbDriver D) (open_driver : Name)
    (memory : Library D → Memory) (chip : IsR2j240 table open_driver memory) where
  write_ram_rounds_lem :
      (fuel : ℕ) (sts : ℤ) (addr remain : ℕ) (buf : List ℕ) (s : Library D)
      → s.s_drv ≡ some open_driver
      → below sts 0 ≡ false
      → remain ≤ fuel
      → addr + remain ≤ 2 ^ 24
      → length buf ≡ remain
      → (let r = write_ram_rounds table fuel sts addr remain buf s in
          (below r.0 0 ≡ false)
          × (memory r.1 ≡ store (memory s) addr buf)
          × (r.1.s_drv ≡ some open_driver))
  unfolding write_ram_rounds ◌>>=◌
  write_ram_rounds_lem fuel sts addr remain [] s o ok enough low size = rw (sym size) (by_fuel fuel)
    where
      by_fuel :
          (n : ℕ)
          → (let r = write_ram_rounds table n sts addr 0 [] s in
              (below r.0 0 ≡ false) × (memory r.1 ≡ memory s) × (r.1.s_drv ≡ some open_driver))
      by_fuel zero = (ok, refl, o)
      by_fuel (suc n) = (ok, refl, o)
  write_ram_rounds_lem zero sts addr remain (b ∷ buf) s o ok enough low size = absurd (omega arith)
  write_ram_rounds_lem (suc fuel) sts addr remain (b ∷ buf) s o ok enough low size =
      let rest : (let r =
            write_ram_rounds table fuel answer.0.0 (addr + cur) (remain - cur) (drop cur bytes)
              answer.1 in
          (below r.0 0 ≡ false)
          × (memory r.1 ≡ store (memory answer.1) (addr + cur) (drop cur bytes))
          × (r.1.s_drv ≡ some open_driver)) =
        write_ram_rounds_lem fuel answer.0.0 (addr + cur) (remain - cur) (drop cur bytes) answer.1
          still sent (omega arith) (omega arith) (omega (arith, length-drop cur bytes)) in
      rw (more, sent, wrap) (rest.0, rest.1 ∙ together, rest.2)
    where
      bytes : List ℕ
      bytes = b ∷ buf

      cur : ℕ
      cur = min remain write_chunk

      answer : (ℤ × List ℕ) × Library D
      answer = smb_transfer table (write_message addr (take cur bytes)) 1 s

      size_of_chunk : length (take cur bytes) ≡ cur
      size_of_chunk = omega (arith, length-take cur bytes)

      still : answer.1.s_drv ≡ some open_driver
      still = smb_transfer-s_drv table (write_message addr (take cur bytes)) 1 s ∙ o

      more : (remain == 0) ≡ false
      more = ground arith

      sent : below answer.0.0 0 ≡ false
      sent =
          chip.write_ok addr (take cur bytes) s o (omega (arith, size_of_chunk))
            (omega (arith, size_of_chunk)) (omega (arith, size_of_chunk))

      wrap : u32 (addr + cur) ≡ addr + cur
      wrap = omega arith

      was_stored : memory answer.1 ≡ store (memory s) addr (take cur bytes)
      was_stored =
          chip.write_stored addr (take cur bytes) s o (omega (arith, size_of_chunk))
            (omega (arith, size_of_chunk)) (omega (arith, size_of_chunk))

      together : store (memory answer.1) (addr + cur) (drop cur bytes) ≡ store (memory s) addr bytes
      together =
          ap (λ m. store m (addr + cur) (drop cur bytes)) was_stored
          ∙ ap (λ k. store (store (memory s) addr (take cur bytes)) (addr + k) (drop cur bytes))
              (sym size_of_chunk)
          ∙ store-append (memory s) addr (take cur bytes) (drop cur bytes)
          ∙ ap (store (memory s) addr) (take-append-drop cur bytes)

  -- With the device open, a block that was written to the memory of the chip, below 2^24, is read back
  -- from there: both calls return its size, and the buffer of the read has the block in front, with the
  -- rest as it was.
  pub write_ram-read_ram :
      (address : ℕ) (block buf : List ℕ) (s : Library D)
      → s.s_drv ≡ some open_driver
      → address + length block ≤ 2 ^ 24
      → length block ≤ length buf
      → (let written = write_ram table address (length block) block s in
          let back = read_ram table address (length block) buf written.1 in
          (written.0 ≡ ℤ.pos (length block))
          × (back.0 ≡ (ℤ.pos (length block), block ++ drop (length block) buf)))
  unfolding write_ram read_ram ◌>>=◌
  write_ram-read_ram address block buf s o low room =
      rw (wrap, wrote.0, got.0, got.1, wrote.1, contents-store (memory s) address block)
        (refl, refl)
    where
      n : ℕ
      n = length block

      wrap : u32 address ≡ address
      wrap = omega arith

      after : Library D
      after = (write_ram_rounds table n (ℤ.pos 0) address n block s).1

      wrote :
          (let r = write_ram_rounds table n (ℤ.pos 0) address n block s in
            (below r.0 0 ≡ false)
            × (memory r.1 ≡ store (memory s) address block)
            × (r.1.s_drv ≡ some open_driver))
      wrote = write_ram_rounds_lem n (ℤ.pos 0) address n block s o refl (omega arith) low refl

      got :
          IsRead table open_driver memory chip.readable address n buf after
            (read_ram_rounds table n (ℤ.pos 0) address n buf after)
      got =
          read_ram_rounds_lem table open_driver memory chip.readable n (ℤ.pos 0) address n buf after
            wrote.2 refl (omega arith) low room
