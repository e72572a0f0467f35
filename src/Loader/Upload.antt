-- ===== src/Loader/Upload.antt =====
-- The upload of an image by lib/fxloader.c.
use smbusb.Prelude.{ℕ, ◌/◌, ◌^◌, Option, none, some, List, [], ◌∷◌, take, u32, ◌==◌, cond, ℤ, below}
use smbusb.Facade.Options.{tokens}
use smbusb.Fx2lp.State.{Libusb, M, pure, ◌>>=◌, vendor_out}
use smbusb.Loader.Hex.{Scanf, Fields, Parsed, parse_hex_line}

-- `reset_address`, the address of CPUCS.
abbrev pub reset_address : ℕ
reset_address = 0xE600

-- `strlen` stops at the first zero.
abbrev pub until_zero : List ℕ → List ℕ
until_zero [] = []
until_zero (c ∷ s) = cond (c == 0) [] (c ∷ until_zero s)

abbrev pub newline : ℕ
newline = 10

module _ (usb : Libusb) where
  -- `CypressWriteRam`, where `buf` has at least `len` bytes.
  unfoldable pub cypress_write_ram : ℕ → List ℕ → ℕ → M ℤ
  cypress_write_ram addr buf len = do
    r ← vendor_out usb 0xA0 addr (u32 addr / 2 ^ 16) (take len buf) len
    pure r.status

  unfoldable pub cypress_reset : ℕ → M ℤ
  cypress_reset suspended = cypress_write_ram reset_address (suspended ∷ []) 1

module _ (sscanf : Scanf) (usb : Libusb) where
  -- How the loop over the lines goes on behind `parse_hex_line`, whose result is ignored: a record of
  -- data is written, and one of code 1 ends the loop. A negative status is returned; `none` is an
  -- access out of bounds.
  unfoldable pub load_line : (Fields → M (Option ℤ)) → Parsed → M (Option ℤ)
  load_line more Parsed.fault = pure none
  load_line more (Parsed.returned accepted f) =
      cond (f.code == 0)
        (cypress_write_ram usb f.addr f.bytes f.num >>= λ i.
          cond (below i 0) (pure (some i)) (more f))
        (cond (f.code == 1) (pure (some (ℤ.pos 0))) (more f))

  unfoldable pub load_lines : ℕ → List (List ℕ) → Fields → M (Option ℤ)
  load_lines garbage [] f = pure (some (ℤ.pos 0))
  load_lines garbage (line ∷ lines) f =
      load_line (load_lines garbage lines) (parse_hex_line sscanf garbage line f)

  -- The reset that starts the firmware, where the lines were written.
  unfoldable pub restart : Option ℤ → M (Option ℤ)
  restart none = pure none
  restart (some (ℤ.negsuc n)) = pure (some (ℤ.negsuc n))
  restart (some (ℤ.pos n)) = do
    i ← cypress_reset usb 0
    pure (cond (below i 0) (some i) (some (ℤ.pos 1)))

  -- `CypressUploadIhxFirmware`, where the memory suffices; `f` and `garbage` are what the locals hold.
  -- The loop begins where `code` is not 1 by chance.
  unfoldable pub cypress_upload_ihx_firmware : ℕ → Fields → List ℕ → M (Option ℤ)
  cypress_upload_ihx_firmware garbage f buf = do
    i ← cypress_reset usb 1
    cond (below i 0) (pure (some i)) (do
      let lines = tokens newline [] (until_zero buf)
      loaded ← cond (f.code == 1) (pure (some (ℤ.pos 0))) (load_lines garbage lines f)
      restart loaded)
