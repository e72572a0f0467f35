-- ===== src/Loader/Sent.antt =====
-- What the upload of an image sends: its records, between the two resets.
use smbusb.Prelude.{
  ℕ, ◌+◌, ◌/◌, ◌^◌, ◌≤◌, ◌<◌, ◌≡◌, ◌≢◌, ◌∙◌, refl, ap, false, some, List, [], ◌∷◌, arith, length,
  take, u16, u32, ltb, ◌==◌, ℤ,
}
use smbusb.Pec.Crc.{AreBytes}
use smbusb.Fx2lp.State.{Transfer, Libusb, Driver, Call, ◌>>=◌, vendor_out, control_transfer}
use smbusb.Loader.Hex.{Scanf, Fields}
use smbusb.Loader.Upload.{
  reset_address, cypress_write_ram, cypress_reset, load_line, load_lines, restart,
  cypress_upload_ihx_firmware,
}
use smbusb.Loader.Parse.{
  IsScanf, stored_bytes, stored_bytes_lem, length-store_int, parse_hex_line_lem,
}
use smbusb.Loader.Image.{Chunk, AreChunks, lines_of, image_of, until_zero-image_of, tokens-image_of}

-- The vendor request with which the FX2LP takes bytes for its memory.
abbrev pub ram_transfer : ℕ → List ℕ → Call
ram_transfer addr bytes = Call.control (record {
  inward = false;
  request = 0xA0;
  value = addr;
  index = 0;
  sent = bytes;
  wanted = length bytes;
})

-- The calls that write records, behind the calls before, the last one first.
abbrev pub with_chunks : List Chunk → List Call → List Call
with_chunks [] calls = calls
with_chunks (c ∷ chunks) calls = with_chunks chunks (ram_transfer c.addr c.bytes ∷ calls)

length-stored_bytes :
    (num : ℕ) (new bytes : List ℕ) → length (stored_bytes num new bytes) ≡ length bytes
length-stored_bytes num [] bytes = refl
length-stored_bytes num (b ∷ new) bytes =
    length-stored_bytes (num + 1) new _ ∙ length-store_int num b bytes

-- An outward transfer that succeeds returns the number of bytes it was given.
pub record IsTaking (usb : Libusb) : Type 0 where
  pub all :
      (calls : List Call) (t : Transfer)
      → t.inward ≡ false
      → usb.status calls (Call.control t) ≡ ℤ.pos t.wanted

module _ (usb : Libusb) (taking : IsTaking usb) where
  -- A write to the memory is one transfer, which succeeds.
  cypress_write_ram_lem :
      (addr len : ℕ) (buf : List ℕ) (s : Driver)
      → addr < 2 ^ 16
      → length (take len buf) ≡ len
      → cypress_write_ram usb addr buf len s
        ≡ (ℤ.pos len, record s { calls = ram_transfer addr (take len buf) ∷ s.calls })
  unfolding cypress_write_ram vendor_out control_transfer ◌>>=◌
  cypress_write_ram_lem addr len buf s low long =
      let value : u16 addr ≡ addr = omega arith in
      let index : u16 (u32 addr / 2 ^ 16) ≡ 0 = omega arith in rw (value, index, taken, long) refl
    where
      sending : Transfer
      sending = record {
        inward = false;
        request = 0xA0;
        value = addr;
        index = 0;
        sent = take len buf;
        wanted = len;
      }

      taken : usb.status s.calls (Call.control sending) ≡ ℤ.pos len
      taken = taking.all s.calls sending refl

  module _ (sscanf : Scanf) (scans : IsScanf sscanf) (garbage : ℕ) where
    load_lines-lines_of :
        (chunks : List Chunk) (f : Fields) (s : Driver)
        → AreChunks chunks
        → length f.bytes ≡ 256
        → load_lines sscanf usb garbage (lines_of chunks) f s
          ≡ (some (ℤ.pos 0), record s { calls = with_chunks chunks s.calls })
    unfolding load_lines load_line ◌>>=◌ AreBytes
    load_lines-lines_of [] f s all size =
        rw
          (parse_hex_line_lem sscanf scans garbage 1 0 [] f (omega arith) tt (omega arith)
            (omega arith) size)
          refl
    load_lines-lines_of (c ∷ chunks) f s (AreChunks.more_chunks one all) size =
        rw
          (
            parse_hex_line_lem sscanf scans garbage 0 c.addr c.bytes f one.few one.all (omega arith)
                one.low size,
            cypress_write_ram_lem c.addr (length c.bytes) was_stored s one.low (ap length written),
            written,
            positive,
          )
          (load_lines-lines_of chunks after next all (length-stored_bytes 0 c.bytes f.bytes ∙ size))
      where
        was_stored : List ℕ
        was_stored = stored_bytes 0 c.bytes f.bytes

        after : Fields
        after = record { bytes = was_stored; addr = c.addr; num = length c.bytes; code = 0 }

        room : 0 + length c.bytes ≤ length f.bytes
        room = omega (arith, size, one.few)

        next : Driver
        next = record s { calls = ram_transfer c.addr c.bytes ∷ s.calls }

        positive : ltb (length c.bytes) 0 ≡ false
        positive = ground arith

        from_zero : length c.bytes ≡ 0 + length c.bytes
        from_zero = omega arith

        written : take (length c.bytes) was_stored ≡ c.bytes
        written =
            ap (λ n. take n was_stored) from_zero ∙ stored_bytes_lem 0 c.bytes f.bytes room one.all

    -- The upload of an image of records of at most 252 bytes and a last line of code 1 succeeds where
    -- libusb accepts each transfer and `code` is not 1 by chance: it writes 1 to CPUCS, then the
    -- bytes of each record to its address, in order, then 0 to CPUCS, and sends nothing else.
    pub cypress_upload_ihx_firmware-image_of :
        (chunks : List Chunk) (f : Fields) (s : Driver)
        → AreChunks chunks
        → length f.bytes ≡ 256
        → f.code ≢ 1
        → cypress_upload_ihx_firmware sscanf usb garbage f (image_of chunks) s ≡ (
          some (ℤ.pos 1),
          record s {
            calls =
                ram_transfer 0xE600 (0 ∷ [])
                ∷ with_chunks chunks (ram_transfer 0xE600 (1 ∷ []) ∷ s.calls);
          },
        )
    unfolding cypress_upload_ihx_firmware cypress_reset restart ◌>>=◌
    cypress_upload_ihx_firmware-image_of chunks f s all size other =
        let begins : (f.code == 1) ≡ false = ground (arith, other) in
        rw
          (
            cypress_write_ram_lem reset_address 1 (1 ∷ []) s (omega arith) refl,
            until_zero-image_of chunks,
            tokens-image_of chunks,
            begins,
            load_lines-lines_of chunks f
                (record s { calls = ram_transfer 0xE600 (1 ∷ []) ∷ s.calls }) all size,
            cypress_write_ram_lem reset_address 1 (0 ∷ [])
                (record s { calls = with_chunks chunks (ram_transfer 0xE600 (1 ∷ []) ∷ s.calls) })
                (omega arith) refl,
          )
          refl
