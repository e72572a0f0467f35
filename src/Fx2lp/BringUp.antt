-- ===== src/Fx2lp/BringUp.antt =====
-- Opening a board that has no firmware yet.
use smbusb.Prelude.{ℕ, ◌≡◌, Bool, true, false, some, List, [], ◌∷◌, length, u16, ℤ, below}
use smbusb.Fx2lp.State.{Call, Libusb}
use smbusb.Loader.Image.{Chunk}
use smbusb.Loader.Sent.{ram_transfer, with_chunks, IsTaking}

-- The request for 3 bytes that identifies the interface, and that for the version.
abbrev request_in : ℕ → Call
request_in request =
    Call.control
      (record { inward = true; request = request; value = 0; index = 0; sent = []; wanted = 3 })

abbrev pub id_request : Call
id_request = request_in 0x99

abbrev pub version_request : Call
version_request = request_in 0x98

-- The calls of an upload, behind the calls before.
abbrev pub uploaded : List Chunk → List Call → List Call
uploaded chunks calls =
    ram_transfer 0xE600 (0 ∷ []) ∷ with_chunks chunks (ram_transfer 0xE600 (1 ∷ []) ∷ calls)

-- The calls that open the board.
abbrev pub opening : ℕ → ℕ → List Call → List Call
opening vid pid calls =
    Call.claim ∷ Call.set_auto_detach ∷ Call.open_vid_pid (u16 vid) (u16 pid) ∷ calls

-- A board that runs the firmware after some calls and not after others, behind a libusb that works: it
-- identifies itself and tells its version where the firmware runs, and refuses to identify itself
-- elsewhere. The firmware starts where CPUCS is set to 0, and it goes on while the board is only
-- opened, set to detach, claimed and identified.
pub record IsBoard (usb : Libusb) (runs : List Call → Bool) (handle : ℕ) (version : List ℕ)
    : Type 0 where
  pub init_ok : (calls : List Call) → below (usb.status calls Call.init) 0 ≡ false
  pub opens :
      (calls : List Call) (vid pid : ℕ) → usb.opened calls (Call.open_vid_pid vid pid) ≡ some handle
  pub claims : (calls : List Call) → usb.status calls Call.claim ≡ ℤ.pos 0
  pub takes : IsTaking usb
  pub silent :
      (calls : List Call) → runs calls ≡ false → below (usb.status calls id_request) 1 ≡ true
  pub answers : (calls : List Call) → runs calls ≡ true → usb.status calls id_request ≡ ℤ.pos 3
  pub magic :
      (calls : List Call)
      → runs calls ≡ true
      → usb.data_in calls id_request ≡ 0x55 ∷ 0x53 ∷ 0x4D ∷ []
  pub tells : (calls : List Call) → runs calls ≡ true → usb.status calls version_request ≡ ℤ.pos 3
  pub told : (calls : List Call) → runs calls ≡ true → usb.data_in calls version_request ≡ version
  pub three : length version ≡ 3
  pub released : (calls : List Call) → runs (ram_transfer 0xE600 (0 ∷ []) ∷ calls) ≡ true
  pub still_opened :
      (calls : List Call) (vid pid : ℕ)
      → runs calls ≡ true
      → runs (Call.open_vid_pid vid pid ∷ calls) ≡ true
  pub still_set :
      (calls : List Call) → runs calls ≡ true → runs (Call.set_auto_detach ∷ calls) ≡ true
  pub still_claimed : (calls : List Call) → runs calls ≡ true → runs (Call.claim ∷ calls) ≡ true
  pub still_identified : (calls : List Call) → runs calls ≡ true → runs (id_request ∷ calls) ≡ true
