-- ===== src/Fx2lp/Open.antt =====
-- Opening and closing the device in lib/smbusb-fx2lp.c.
use smbusb.Prelude.{
  ℕ, zero, suc, Bool, true, false, not, ◌&&◌, Option, none, some, List, [], ◌∷◌, u16, u32, ◌==◌,
  cond, ℤ, minus, is, below,
}
use smbusb.Facade.Options.{OptDictItem, same, opt_dict_process, get_num_base}
use smbusb.Fx2lp.State.{
  Libusb, Listed, Call, M, pure, ◌>>=◌, ◌>>◌, set_device, get_device, call, vendor_in, variable,
}
use smbusb.Fx2lp.Transfers.{interface_id}
use smbusb.Loader.Hex.{Scanf, Fields}
use smbusb.Loader.Upload.{cypress_upload_ihx_firmware}

-- The error codes of lib/libsmbusb.h.
abbrev pub err_device_open : ℤ
err_device_open = minus 1

abbrev pub err_already_open : ℤ
err_already_open = minus 5

abbrev pub err_claim_interface : ℤ
err_claim_interface = minus 10

abbrev pub err_firmware_download : ℤ
err_firmware_download = minus 11

abbrev pub init_retry : ℤ
init_retry = minus 20

abbrev pub is_init_retry : ℤ → Bool
is_init_retry (ℤ.pos n) = false
is_init_retry (ℤ.negsuc n) = n == 19

-- `if (status == INIT_RETRY) goto ...; return status;`
abbrev pub unless_retry : Option ℤ → M (Option ℤ) → M (Option ℤ)
unless_retry none again = pure none
unless_retry (some status) again = cond (is_init_retry status) again (pure (some status))

-- Which open routine the options ask for.
pub data Routine : Type 0 where
  vid_pid bus_addr : Routine

-- `if (CypressUploadIhxFirmware(...) < 0) return ERR_FIRMWARE_DOWNLOAD; ... return INIT_RETRY;`
abbrev pub after_upload : Option ℤ → Option ℤ
after_upload none = none
after_upload (some loaded) = some (cond (below loaded 0) err_firmware_download init_retry)

-- The image of the firmware is generated when the library is built; `garbage` and `locals` are what the
-- uninitialised variables of the loader hold. A result of `none` is a loader that accesses memory out
-- of bounds, or, of a routine with fuel, one that still tries.
module _ (sscanf : Scanf) (image : List ℕ) (garbage : ℕ) (locals : Fields) (usb : Libusb) where
  unfoldable pub init_device : M (Option ℤ)
  init_device = do
    detached ← call usb Call.set_auto_detach
    status ← call usb Call.claim
    cond (not (is status 0)) (call usb Call.close >> pure (some err_claim_interface)) (do
      id ← interface_id usb
      cond (not (id == 0x4d5355))
          (do
            loaded ← cypress_upload_ihx_firmware sscanf usb garbage locals image
            pure (after_upload loaded))
          (do
            r ← vendor_in usb 0x98 0 0 3
            pure (some (cond (is r.status 3) (ℤ.pos (variable 4 r.bytes)) err_firmware_download))))

  -- The handle that a call of libusb yields.
  unfoldable pub open_handle : Call → M (Option ℕ)
  open_handle c s = (usb.opened s.calls c, record s { calls = c ∷ s.calls })

  -- From the label `openvidpid_retry` on; each firmware upload leads back to it, so the tries are on
  -- fuel.
  unfoldable pub vid_pid_tries : ℕ → ℕ → ℕ → M (Option ℤ)
  vid_pid_tries zero vid pid = pure none
  vid_pid_tries (suc fuel) vid pid = do
    device ← open_handle (Call.open_vid_pid (u16 vid) (u16 pid))
    set_device device
    elim device [
      | none ↦ pure (some err_device_open)
      | some h ↦ do status ← init_device; unless_retry status (vid_pid_tries fuel vid pid)
    ]

  -- The first device of the list with the numbers.
  abbrev found : ℕ → ℕ → List Listed → Option Listed
  found bus addr [] = none
  found bus addr (d ∷ devices) =
      let rest = found bus addr devices in
      cond ((d.bus == bus) && (d.address == addr)) (some d) rest

  unfoldable pub get_device_list : M (Option (List Listed))
  get_device_list s = (usb.listed s.calls, record s { calls = Call.list ∷ s.calls })

  -- `libusb_open`, which sets `device` where it succeeds, and the list is freed.
  unfoldable pub open_found : Listed → M ℤ
  open_found d = do
    handle ← open_handle (Call.open_listed d.device)
    freed ← call usb Call.free_list
    elim handle [ none ↦ pure (minus 2) | some h ↦ (set_device (some h) >> pure (ℤ.pos 0)) ]

  -- From the label `openbusadd_retry` on.
  unfoldable pub bus_addr_tries : ℕ → ℕ → ℕ → M (Option ℤ)
  bus_addr_tries zero bus addr = pure none
  bus_addr_tries (suc fuel) bus addr = do
    devices ← get_device_list
    elim devices [
      | none ↦ pure (some err_device_open)
      | some ds ↦ elim (found bus addr ds) [
        | none ↦ pure (some (minus 1))
        | some d ↦ do
          status ← open_found d
          cond (below status 0) (pure (some status))
              (do status ← init_device; unless_retry status (bus_addr_tries fuel bus addr))
      ]
    ]

  abbrev tries : ℕ → Routine → ℕ → ℕ → M (Option ℤ)
  tries fuel Routine.vid_pid a b = vid_pid_tries fuel a b
  tries fuel Routine.bus_addr a b = bus_addr_tries fuel a b

  -- `FX2LP_SMBOpenDeviceVIDPID` and `FX2LP_SMBOpenDeviceBusAddr`, which begin alike.
  unfoldable pub open_device : ℕ → Routine → ℕ → ℕ → M (Option ℤ)
  open_device fuel routine a b = do
    device ← get_device
    elim device [
      | some h ↦ pure (some err_already_open)
      | none ↦ do
        status ← call usb Call.init
        cond (below status 0) (pure (some (minus 1)))
            (call usb Call.set_debug >> tries fuel routine a b)
    ]

  unfoldable pub close_device : M (Unit {0})
  close_device = do
    device ← get_device
    elim device [
      | none ↦ pure tt
      | some h ↦
          (call usb Call.release >> call usb Call.close >> call usb Call.exit >> set_device none)
    ]

-- The options read so far: the routine and its two arguments.
pub record Arguments : Type 0 where
  pub routine : Option Routine
  pub arg0 : ℕ
  pub arg1 : ℕ

-- The properties of a URI.
pub data Property : Type 0 where
  vid pid bus addr : Property

abbrev pub property_of : List ℕ → Option Property
property_of key = cond (same key (118 ∷ 105 ∷ 100 ∷ [])) (some Property.vid) (
    cond (same key (112 ∷ 105 ∷ 100 ∷ [])) (some Property.pid) (
      cond (same key (98 ∷ 117 ∷ 115 ∷ [])) (some Property.bus)
        (cond (same key (97 ∷ 100 ∷ 100 ∷ 114 ∷ [])) (some Property.addr) none)))

-- A property of one routine is an error behind one of the other.
abbrev pub fits : Routine → Option Routine → Bool
fits r none = true
fits Routine.vid_pid (some Routine.vid_pid) = true
fits Routine.vid_pid (some Routine.bus_addr) = false
fits Routine.bus_addr (some Routine.vid_pid) = false
fits Routine.bus_addr (some Routine.bus_addr) = true

abbrev pub record_property : Property → ℕ → Arguments → Option Arguments
record_property Property.vid n args =
    cond (fits Routine.vid_pid args.routine)
      (some (record args { routine = some Routine.vid_pid; arg0 = n })) none
record_property Property.pid n args =
    cond (fits Routine.vid_pid args.routine)
      (some (record args { routine = some Routine.vid_pid; arg1 = n })) none
record_property Property.bus n args =
    cond (fits Routine.bus_addr args.routine)
      (some (record args { routine = some Routine.bus_addr; arg0 = n })) none
record_property Property.addr n args =
    cond (fits Routine.bus_addr args.routine)
      (some (record args { routine = some Routine.bus_addr; arg1 = n })) none

-- `strtoul` of the library of C is a parameter: the number of a string in a base.
module _ (strtoul : List ℕ → ℕ → ℕ) (sscanf : Scanf) (image : List ℕ) (garbage : ℕ)
    (locals : Fields) where
  -- The loop over the options, which stops at one without key or value; `none` is `goto cleanup`.
  unfoldable pub read_options : List OptDictItem → Arguments → Option Arguments
  read_options [] args = some args
  read_options (op ∷ opts) args = elim op.key [
    | none ↦ some args
    | some key ↦ elim op.val [
      | none ↦ some args
      | some val ↦ elim (property_of key) [
        | none ↦ none
        | some p ↦ elim (record_property p (u32 (strtoul val (get_num_base val))) args) [
          | none ↦ none
          | some next ↦ read_options opts next
        ]
      ]
    ]
  ]

  -- The checks behind the loop; `arg0` and `arg1` begin as -1, as unsigned numbers.
  unfoldable pub checked_options : List OptDictItem → Option (Routine × ℕ × ℕ)
  checked_options opts =
      elim (read_options opts (record { routine = none; arg0 = 0xFFFFFFFF; arg1 = 0xFFFFFFFF })) [
        | none ↦ none
        | some args ↦ elim args.routine [
          | none ↦ none
          | some routine ↦
              cond (args.arg0 == 0xFFFFFFFF) none
                (cond (args.arg1 == 0xFFFFFFFF) none (some (routine, args.arg0, args.arg1)))
        ]
      ]

  -- Exactly two options are wanted.
  unfoldable pub arguments_of : List OptDictItem → Option (Routine × ℕ × ℕ)
  arguments_of [] = none
  arguments_of (one ∷ []) = none
  arguments_of (one ∷ two ∷ []) = checked_options (one ∷ two ∷ [])
  arguments_of (one ∷ two ∷ three ∷ more) = none

  -- `FX2LP_Open`
  unfoldable pub fx2lp_open : Libusb → ℕ → List ℕ → M (Option ℤ)
  fx2lp_open usb fuel device_ops = elim (arguments_of (opt_dict_process device_ops)) [
    | none ↦ pure (some (minus 1))
    | some args ↦ open_device sscanf image garbage locals usb fuel args.0 args.1 args.2
  ]
