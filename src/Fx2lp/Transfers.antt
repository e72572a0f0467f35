-- ===== src/Fx2lp/Transfers.antt =====
-- The operations of lib/smbusb-fx2lp.c that take one transfer.
use smbusb.Prelude.{
  ℕ, ◌/◌, ◌%◌, ◌-◌, ◌+◌, ◌^◌, Bool, true, false, ◌||◌, [], ◌∷◌, u8, ltb, ◌==◌, cond, ℤ, is, below,
}
use smbusb.Fx2lp.State.{Libusb, M, pure, ◌>>=◌, vendor_in, vendor_out, variable, value_or_status}

-- An `int` from its bits.
abbrev int_of_short : ℕ → ℕ
int_of_short n = cond (ltb n (2 ^ 15)) n (n + 2 ^ 32 - 2 ^ 16)

-- A status as an unsigned number of `n` bits.
abbrev pub wrapped : ℕ → ℤ → ℕ
wrapped n (ℤ.pos m) = m % 2 ^ n
wrapped n (ℤ.negsuc m) = (2 ^ n - 1) - m % 2 ^ n

module _ (usb : Libusb) where
  unfoldable pub interface_id : M ℕ
  interface_id = do
    r ← vendor_in usb 0x99 0 0 3
    pure (cond (below r.status 1 || not_magic (variable 4 r.bytes)) 0 (variable 4 r.bytes))
    where
      not_magic : ℕ → Bool
      not_magic n = cond (n == 0x4d5355) false true

  unfoldable pub read_byte : ℕ → ℕ → M ℤ
  read_byte address command = do
    r ← vendor_in usb 0x10 address command 1
    pure (value_or_status r 1 (variable 4 r.bytes))

  unfoldable pub send_byte : ℕ → ℕ → M ℤ
  send_byte address command = do r ← vendor_out usb 0x12 address command (0 ∷ []) 1; pure r.status

  unfoldable pub write_byte : ℕ → ℕ → ℕ → M ℤ
  write_byte address command byte = do
    r ← vendor_out usb 0x11 address command (byte ∷ []) 1
    pure (value_or_status r 1 0)

  unfoldable pub read_word : ℕ → ℕ → M ℤ
  read_word address command = do
    r ← vendor_in usb 0x20 address command 2
    pure (value_or_status r 2 (variable 4 r.bytes))

  unfoldable pub write_word : ℕ → ℕ → ℕ → M ℤ
  write_word address command word = do
    r ← vendor_out usb 0x21 address command (u8 word ∷ u8 (word / 256) ∷ []) 2
    pure (value_or_status r 2 0)

  -- The result is an unsigned byte, also where the transfer fails.
  unfoldable pub get_last_read_pec_fail : M ℕ
  get_last_read_pec_fail = do
    r ← vendor_in usb 0x54 1 0 1
    pure (cond (is r.status 1) (variable 1 r.bytes) (wrapped 8 r.status))

  unfoldable pub enable_pec : ℕ → M (Unit {0})
  enable_pec state = do r ← vendor_out usb 0x5 (cond (ltb 0 state) 1 0) 0 [] 0; pure tt

  unfoldable pub get_arb_pec : M ℕ
  get_arb_pec = do
    r ← vendor_in usb 0x55 2 0 2
    pure (cond (is r.status 2) (int_of_short (variable 2 r.bytes)) (wrapped 32 r.status))

  unfoldable pub test_address_ack : ℕ → M ℤ
  test_address_ack address = do
    r ← vendor_in usb 0x90 address 0 1
    pure (value_or_status r 1 (variable 1 r.bytes))

  unfoldable pub test_command_ack : ℕ → ℕ → M ℤ
  test_command_ack address command = do
    r ← vendor_in usb 0x91 address command 1
    pure (value_or_status r 1 (variable 1 r.bytes))

  unfoldable pub test_command_write : ℕ → ℕ → M ℤ
  test_command_write address command = do
    r ← vendor_in usb 0x92 address command 1
    pure (value_or_status r 1 (variable 1 r.bytes))
