-- ===== src/EndToEnd.antt =====
-- The driver of lib/smbusb-fx2lp.c on a board that runs firmware/smbusb_firmware.c. Between them are
-- libusb, the host's USB stack and fx2lib, whose documented behaviour is a hypothesis here.
pub mod Words
pub mod Drained
pub mod BlockRounds
pub mod BlockReads
mod Tests
use smbusb.Prelude.{ℕ, ◌≡◌, refl, Bool, true, false, List, ◌∷◌, ℤ, min, take}
use smbusb.Firmware.State.{Env, Fw, Request, Run, ok}
use smbusb.Firmware.Keeps.{Post, post_ok, post_failed}
use smbusb.Firmware.Commands.Dispatch.{handle_vendorcommand}
use smbusb.Fx2lp.State.{Libusb, Call, Transfer}

-- The request that a control transfer makes of the firmware.
abbrev pub request_of : Transfer → Request
request_of t = record { value = t.value; index = t.index; payload = t.sent }

-- LIBUSB_ERROR_PIPE, the status of a transfer that the device stalls.
abbrev pub libusb_error_pipe : ℤ
libusb_error_pipe = ℤ.negsuc 8

module _ (usb : Libusb) (env : Env) (fuel : ℕ) (board : List Call → Fw) where
  -- The firmware accepted the transfer and is in the state `s`: all data that the driver sends have
  -- been sent, or as many of the armed bytes of endpoint 0 arrive as were asked for.
  pub record Accepted (calls : List Call) (t : Transfer) (s : Fw) : Type 0 where
    pub moved : board (Call.control t ∷ calls) ≡ s
    pub outward : t.inward ≡ false → usb.status calls (Call.control t) ≡ ℤ.pos t.wanted
    pub inward : t.inward ≡ true → usb.status calls (Call.control t) ≡ ℤ.pos (min t.wanted s.ep0bc)
    pub arrived : t.inward ≡ true → usb.data_in calls (Call.control t) ≡ take s.ep0bc s.ep0buf

  -- After the calls made so far, the firmware is in the state `board calls`. A control transfer runs
  -- `handle_vendorcommand`; the device stalls it where that returns FALSE.
  pub record IsConnected : Type 0 where
    pub answered :
        (calls : List Call) (t : Transfer) (s : Fw)
        → handle_vendorcommand env fuel t.request (request_of t) (board calls) ≡ ok true s
        → Accepted calls t s
    pub stalled :
        (calls : List Call) (t : Transfer) (s : Fw)
        → handle_vendorcommand env fuel t.request (request_of t) (board calls) ≡ ok false s
        → (board (Call.control t ∷ calls) ≡ s)
          × (usb.status calls (Call.control t) ≡ libusb_error_pipe)

-- A run that neither jumps nor hangs, by what it returns.
pub record Returns {A : Type 0} (Q : A → Fw → Type 0) (r : Run A) : Type 0 where
  pub value : A
  pub state : Fw
  pub is_ok : r ≡ ok value state
  pub holds : Q value state

pub Post-Returns : {A : Type 0} {Q : A → Fw → Type 0} {r : Run A} → Post Q (λ _. ⊥) r → Returns Q r
Post-Returns (post_ok q) = record { value = _; state = _; is_ok = refl; holds = q }
Post-Returns (post_failed q) = absurd q
