-- ===== src/Firmware/Commands/Transfers.antt =====
-- `handle_vendorcommand`: the cases that send or read one byte or one word.
use smbusb.Prelude.{ℕ, Bool, true, false, not, u8}
use smbusb.Pec.{pec_crc}
use smbusb.Firmware.State.{
  Env, Request, M, pure, ◌>>=◌, ◌>>◌, gets, if◌then◌else◌, when, ep0_get, ep0_put, arm, ep0_wait,
  ep0_receive,
}
use smbusb.Firmware.I2c.{i2c_start, i2c_stop, i2c_bytein, out}
use smbusb.Firmware.Commands.{or_stop, start_or_fail, read_header, header_pec, check_pec}

module _ (env : Env) (fuel : ℕ) where
  -- SMB_SEND_BYTE: a start that fails returns without a stop.
  unfoldable pub send_byte : Request → M Bool
  send_byte r = do
    ep0_wait env fuel
    started ← i2c_start env
    if not started
        then pure false
        else or_stop env fuel
            (do out env fuel r.value; out env fuel r.index; i2c_stop env fuel; arm 0)

  -- SMB_READ_BYTE
  unfoldable pub read_byte : Request → M Bool
  read_byte r = do
    ep0_wait env fuel
    or_stop env fuel (do
      read_header env fuel r
      pec ← gets (λ s. s.pec_enabled)
      b ←
          if pec
          then (do
            b ← i2c_bytein env fuel true false true false
            rpec ← i2c_bytein env fuel false false false true
            check_pec env fuel rpec (pec_crc (header_pec env fuel r) b)
            pure b)
          else i2c_bytein env fuel true true false true
      ep0_put 0 b
      arm 1)

  -- SMB_WRITE_BYTE
  unfoldable pub write_byte : Request → M Bool
  write_byte r = do
    ep0_receive env fuel r.payload
    or_stop env fuel (do
      start_or_fail env fuel
      out env fuel r.value
      out env fuel r.index
      d ← ep0_get 0
      out env fuel d
      pec ← gets (λ s. s.pec_enabled)
      when pec (out env fuel (pec_crc (pec_crc (pec_crc 0 (u8 r.value)) (u8 r.index)) d))
      i2c_stop env fuel)

  -- SMB_READ_WORD
  unfoldable pub read_word : Request → M Bool
  read_word r = do
    ep0_wait env fuel
    or_stop env fuel (do
      read_header env fuel r
      pec ← gets (λ s. s.pec_enabled)
      if pec
          then (do
            lo ← i2c_bytein env fuel true false false false
            ep0_put 0 lo
            hi ← i2c_bytein env fuel false false true false
            ep0_put 1 hi
            rpec ← i2c_bytein env fuel false false false true
            check_pec env fuel rpec (pec_crc (pec_crc (header_pec env fuel r) lo) hi))
          else (do
            lo ← i2c_bytein env fuel true false true false
            ep0_put 0 lo
            hi ← i2c_bytein env fuel false false false true
            ep0_put 1 hi)
      arm 2)

  -- SMB_WRITE_WORD
  unfoldable pub write_word : Request → M Bool
  write_word r = do
    ep0_receive env fuel r.payload
    or_stop env fuel (do
      start_or_fail env fuel
      out env fuel r.value
      out env fuel r.index
      lo ← ep0_get 0
      out env fuel lo
      hi ← ep0_get 1
      out env fuel hi
      pec ← gets (λ s. s.pec_enabled)
      when pec
          (out env fuel (pec_crc (pec_crc (pec_crc (pec_crc 0 (u8 r.value)) (u8 r.index)) lo) hi))
      i2c_stop env fuel)
