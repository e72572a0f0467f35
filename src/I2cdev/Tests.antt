-- ===== src/I2cdev/Tests.antt =====
-- Runs of the driver against a kernel that interrupts every second request.
use smbusb.Prelude.{Bool, false, not, List, [], ◌∷◌, replicate, ℤ}
use smbusb.I2cdev.State.{I2cCtx, Request, Kernel}

abbrev is_odd : List Request → Bool
is_odd [] = false
is_odd (r ∷ requests) = not (is_odd requests)

-- It answers with a block of 70 bytes.
abbrev kernel : Kernel
kernel = record {
  status = λ calls r. ℤ.pos 0;
  again = λ calls r. is_odd calls;
  answer = λ calls r. 70 ∷ replicate 64 7;
  funcs = λ calls. 0;
}

abbrev opened : I2cCtx
opened = record { fd = ℤ.pos 3; pec_enabled = false; sw_pec = false; requests = [] }
