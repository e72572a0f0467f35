-- ===== src/Fx2lp/State.antt =====
-- The variables of lib/smbusb-fx2lp.c, and its calls of libusb, which is a parameter: what each
-- call returns is a function of the calls before it.
use smbusb.Prelude.{
  ℕ, ◌+◌, ◌*◌, Bool, true, false, Option, List, [], ◌∷◌, take, replicate, overlay, u8, u16, ℤ, is,
  cond,
}

-- A control transfer to the interface: bRequest, wValue, wIndex, the data that the driver sends,
-- and the length of the data.
pub record Transfer : Type 0 where
  pub inward : Bool
  pub request : ℕ
  pub value : ℕ
  pub index : ℕ
  pub sent : List ℕ
  pub wanted : ℕ

-- The calls with which the driver reaches the device.
pub data Call : Type 0 where
  init exit set_debug set_auto_detach claim release close list free_list : Call
  open_vid_pid : ℕ → ℕ → Call
  open_listed : ℕ → Call
  control : Transfer → Call

-- A device in the list of libusb.
pub record Listed : Type 0 where
  pub bus : ℕ
  pub address : ℕ
  pub device : ℕ

-- libusb: the status of a call, the data of an inward transfer, the handle of an opened device,
-- and the list of devices, after the calls made so far, the last one first.
pub record Libusb : Type 0 where
  pub status : List Call → Call → ℤ
  pub data_in : List Call → Call → List ℕ
  pub opened : List Call → Call → Option ℕ
  pub listed : List Call → Option (List Listed)

-- `device`, and the calls made so far, the last one first.
pub record Driver : Type 0 where
  pub device : Option ℕ
  pub calls : List Call

abbrev pub M : Type 0 → Type 0
M A = Driver → A × Driver

abbrev pub pure : {A : Type 0} → A → M A
pure a s = (a, s)

module _ {A B : Type 0} where
  infixl 5 ◌>>=◌ ◌>>◌
  unfoldable pub ◌>>=◌ : M A → (A → M B) → M B
  ◌>>=◌ m k s = k (m s).0 (m s).1

  unfoldable pub ◌>>◌ : M A → M B → M B
  unfolding ◌>>=◌
  m >> n = m >>= λ _. n

unfoldable pub set_device : Option ℕ → M (Unit {0})
set_device d s = (tt, record s { device = d })

unfoldable pub get_device : M (Option ℕ)
get_device s = (s.device, s)

-- What a transfer gives back: its status, and the data that arrived.
pub record Reply : Type 0 where
  pub status : ℤ
  pub bytes : List ℕ

module _ (usb : Libusb) where
  -- A call whose status is of interest.
  unfoldable pub call : Call → M ℤ
  call c s = (usb.status s.calls c, record s { calls = c ∷ s.calls })

  -- `libusb_control_transfer`; at most as many bytes arrive as were asked for.
  unfoldable pub control_transfer : Transfer → M Reply
  control_transfer t s = (
    record {
      status = usb.status s.calls (Call.control t);
      bytes = take t.wanted (usb.data_in s.calls (Call.control t));
    },
    record s { calls = Call.control t ∷ s.calls },
  )

  -- The two kinds of transfers; `value` and `index` are 16 bits wide.
  unfoldable pub vendor_in : ℕ → ℕ → ℕ → ℕ → M Reply
  vendor_in request value index n = control_transfer (record {
    inward = true;
    request = request;
    value = u16 value;
    index = u16 index;
    sent = [];
    wanted = n;
  })

  unfoldable pub vendor_out : ℕ → ℕ → ℕ → List ℕ → ℕ → M Reply
  vendor_out request value index bytes n = control_transfer (record {
    inward = false;
    request = request;
    value = u16 value;
    index = u16 index;
    sent = bytes;
    wanted = n;
  })

-- A variable in memory, the low byte first.
abbrev pub little_endian : List ℕ → ℕ
little_endian [] = 0
little_endian (b ∷ bytes) = u8 b + 256 * little_endian bytes

-- A variable of `n` bytes that was zero before the bytes arrived.
abbrev pub variable : ℕ → List ℕ → ℕ
variable n bytes = little_endian (overlay bytes (replicate n 0))

-- `if (status==n) return value; else return status;`
abbrev pub value_or_status : Reply → ℕ → ℕ → ℤ
value_or_status r n value = cond (is r.status n) (ℤ.pos value) r.status
