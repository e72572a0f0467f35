-- ===== src/Facade/Device.antt =====
-- The functions of lib/smbusb.c: `s_drv`, the driver that is open, and what calls it. A driver is a
-- record of functions, as `struct SMBDriver` is, on a state of its own.
use smbusb.Prelude.{ℕ, Bool, Option, none, some, List, [], ◌∷◌, cond, ℤ, minus, below}
use smbusb.Facade.Options.{after_prefix}

-- The messages of SMBTransfer.
pub record SmbMsg : Type 0 where
  pub addr : ℕ
  pub flags : ℕ
  pub len : ℕ
  pub buf : List ℕ

-- `struct SMBDriver`. A function that writes to a buffer returns what it wrote,
-- too; SMBTransfer, the bytes that its messages read, in order.
pub record SmbDriver (D : Type 0) : Type 0 where
  pub smb_open : List ℕ → D → ℤ × D
  pub smb_close : D → D
  pub smb_read_byte : ℕ → ℕ → D → ℤ × D
  pub smb_send_byte : ℕ → ℕ → D → ℤ × D
  pub smb_write_byte : ℕ → ℕ → ℕ → D → ℤ × D
  pub smb_read_word : ℕ → ℕ → D → ℤ × D
  pub smb_write_word : ℕ → ℕ → ℕ → D → ℤ × D
  pub smb_read_block : ℕ → ℕ → D → (ℤ × List ℕ) × D
  pub smb_write_block : ℕ → ℕ → List ℕ → ℕ → D → ℤ × D
  pub smb_get_last_read_pec_fail : D → ℕ × D
  pub smb_enable_pec : ℕ → D → D
  pub smb_write : Bool → Bool → Bool → List ℕ → ℕ → D → ℤ × D
  pub smb_read : ℕ → List ℕ → Bool → D → (ℤ × List ℕ) × D
  pub smb_transfer : List SmbMsg → ℕ → D → (ℤ × List ℕ) × D
  pub smb_get_arb_pec : D → ℕ × D
  pub smb_test_address_ack : ℕ → D → ℤ × D
  pub smb_test_command_ack : ℕ → ℕ → D → ℤ × D
  pub smb_test_command_write : ℕ → ℕ → D → ℤ × D
  pub smb_set_debug_log_func : ℕ → D → D

-- The drivers that are built in.
pub data Name : Type 0 where
  fx2lp i2cdev : Name

-- `s_drv`, and the state of the drivers.
pub record Library (D : Type 0) : Type 0 where
  pub s_drv : Option Name
  pub drivers : D

-- "fx2lp://", "i2cdev://" and "i2c://"
abbrev uri_fx2lp : List ℕ
uri_fx2lp = 102 ∷ 120 ∷ 50 ∷ 108 ∷ 112 ∷ 58 ∷ 47 ∷ 47 ∷ []

abbrev uri_i2cdev : List ℕ
uri_i2cdev = 105 ∷ 50 ∷ 99 ∷ 100 ∷ 101 ∷ 118 ∷ 58 ∷ 47 ∷ 47 ∷ []

abbrev uri_i2c : List ℕ
uri_i2c = 105 ∷ 50 ∷ 99 ∷ 58 ∷ 47 ∷ 47 ∷ []

-- The driver that a URI names, and the options behind the scheme.
unfoldable pub driver_of : List ℕ → Option (Name × List ℕ)
driver_of uri = elim (after_prefix uri_fx2lp uri) [
  | some ops ↦ some (Name.fx2lp, ops)
  | none ↦ elim (after_prefix uri_i2cdev uri) [
    | some ops ↦ some (Name.i2cdev, ops)
    | none ↦ elim (after_prefix uri_i2c uri) [ some ops ↦ some (Name.i2cdev, ops) | none ↦ none ]
  ]
]

module _ {D : Type 0} (table : Name → SmbDriver D) where
  -- A driver that returns a negative status is not open; without one, `s_drv` stays NULL.
  unfoldable pub open_named : Option (Name × List ℕ) → Library D → ℤ × Library D
  open_named none s = (minus 1, s)
  open_named (some named) s =
      let answer = (table named.0).smb_open named.1 s.drivers in
      (answer.0, record { s_drv = cond (below answer.0 0) none (some named.0); drivers = answer.1 })

  -- `if (s_drv) return -1;`
  abbrev pub open_unless : Option Name → List ℕ → Library D → ℤ × Library D
  open_unless (some d) uri s = (minus 1, s)
  open_unless none uri s = open_named (driver_of uri) s

  unfoldable pub smb_open_device : List ℕ → Library D → ℤ × Library D
  smb_open_device uri s = open_unless s.s_drv uri s

  abbrev pub close_named : Option Name → Library D → Library D
  close_named none s = s
  close_named (some d) s = record s { drivers = (table d).smb_close s.drivers }

  unfoldable pub smb_close_device : Library D → Library D
  smb_close_device s = close_named s.s_drv s

  -- `!s_drv ? value : s_drv->f(...)`
  unfoldable pub dispatch : {A : Type 0} → A → (SmbDriver D → D → A × D) → Library D → A × Library D
  dispatch value f s = elim s.s_drv [
    | none ↦ (value, s)
    | some d ↦ let answer = f (table d) s.drivers in (answer.0, record s { drivers = answer.1 })
  ]

  -- The same, of a function without a result.
  unfoldable pub dispatch_void : (SmbDriver D → D → D) → Library D → Library D
  dispatch_void f s = elim s.s_drv [
    | none ↦ s
    | some d ↦ record s { drivers = f (table d) s.drivers }
  ]

  unfoldable pub smb_send_byte : ℕ → ℕ → Library D → ℤ × Library D
  smb_send_byte address command = dispatch (minus 1) λ d. d.smb_send_byte address command

  unfoldable pub smb_read_byte : ℕ → ℕ → Library D → ℤ × Library D
  smb_read_byte address command = dispatch (minus 1) λ d. d.smb_read_byte address command

  unfoldable pub smb_write_byte : ℕ → ℕ → ℕ → Library D → ℤ × Library D
  smb_write_byte address command byte =
      dispatch (minus 1) λ d. d.smb_write_byte address command byte

  unfoldable pub smb_read_word : ℕ → ℕ → Library D → ℤ × Library D
  smb_read_word address command = dispatch (minus 1) λ d. d.smb_read_word address command

  unfoldable pub smb_write_word : ℕ → ℕ → ℕ → Library D → ℤ × Library D
  smb_write_word address command word =
      dispatch (minus 1) λ d. d.smb_write_word address command word

  unfoldable pub smb_read_block : ℕ → ℕ → Library D → (ℤ × List ℕ) × Library D
  smb_read_block address command = dispatch (minus 1, []) λ d. d.smb_read_block address command

  unfoldable pub smb_write_block : ℕ → ℕ → List ℕ → ℕ → Library D → ℤ × Library D
  smb_write_block address command bytes len =
      dispatch (minus 1) λ d. d.smb_write_block address command bytes len

  unfoldable pub smb_enable_pec : ℕ → Library D → Library D
  smb_enable_pec state = dispatch_void λ d. d.smb_enable_pec state

  unfoldable pub smb_get_last_read_pec_fail : Library D → ℕ × Library D
  smb_get_last_read_pec_fail = dispatch 0 λ d. d.smb_get_last_read_pec_fail

  unfoldable pub smb_write : Bool → Bool → Bool → List ℕ → ℕ → Library D → ℤ × Library D
  smb_write start restart stop bytes len =
      dispatch (minus 1) λ d. d.smb_write start restart stop bytes len

  unfoldable pub smb_read : ℕ → List ℕ → Bool → Library D → (ℤ × List ℕ) × Library D
  smb_read len buf last = dispatch (minus 1, buf) λ d. d.smb_read len buf last

  unfoldable pub smb_get_arb_pec : Library D → ℕ × Library D
  smb_get_arb_pec = dispatch 0 λ d. d.smb_get_arb_pec

  unfoldable pub smb_test_address_ack : ℕ → Library D → ℤ × Library D
  smb_test_address_ack address = dispatch (minus 1) λ d. d.smb_test_address_ack address

  unfoldable pub smb_test_command_ack : ℕ → ℕ → Library D → ℤ × Library D
  smb_test_command_ack address command =
      dispatch (minus 1) λ d. d.smb_test_command_ack address command

  unfoldable pub smb_test_command_write : ℕ → ℕ → Library D → ℤ × Library D
  smb_test_command_write address command =
      dispatch (minus 1) λ d. d.smb_test_command_write address command

  unfoldable pub smb_set_debug_log_func : ℕ → Library D → Library D
  smb_set_debug_log_func f = dispatch_void λ d. d.smb_set_debug_log_func f

  unfoldable pub smb_transfer : List SmbMsg → ℕ → Library D → (ℤ × List ℕ) × Library D
  smb_transfer msgs count = dispatch (minus 1, []) λ d. d.smb_transfer msgs count
