-- ===== src/Firmware/Commands/Probe.antt =====
-- `handle_vendorcommand`: the cases that look for addresses and commands which acknowledge.
use smbusb.Prelude.{ℕ, ◌+◌, Bool, true, false, not, cond, u8}
use smbusb.Firmware.State.{
  Env, Request, M, pure, catch, ◌>>=◌, ◌>>◌, if◌then◌else◌, ep0_get, ep0_put, arm, ep0_wait,
}
use smbusb.Firmware.I2c.{i2c_start, i2c_stop, i2c_byteout, out}

module _ (env : Env) (fuel : ℕ) where
  -- The end of a probe: stop, and return 0xFF or 0 to the host.
  unfoldable pub report_ack : Bool → M Bool
  report_ack ack = do i2c_stop env fuel; ep0_put 0 (cond ack 0xFF 0); arm 1; pure true

  -- SMB_TEST_ADDRESS_ACK
  unfoldable pub test_address_ack : Request → M Bool
  test_address_ack r = do
    ep0_wait env fuel
    started ← i2c_start env
    if not started then pure false else (do ack ← i2c_byteout env fuel r.value; report_ack ack)

  -- SMB_TEST_COMMAND_ACK
  unfoldable pub test_command_ack : Request → M Bool
  test_command_ack r = do
    ep0_wait env fuel
    started ← i2c_start env
    if not started then pure false else (do
      addressed ← i2c_byteout env fuel r.value
      ack ← if addressed then i2c_byteout env fuel r.index else pure false
      report_ack ack)

  -- `if (i2c_byteout(b)) (*EP0BUF)++; else goto tcwOver`
  unfoldable pub out_counted : ℕ → M (Unit {0})
  out_counted b = do out env fuel b; n ← ep0_get 0; ep0_put 0 (u8 (n + 1))

  -- SMB_TEST_COMMAND_WRITE: `(*EP0BUF)` counts the stages that the device acknowledges.
  unfoldable pub test_command_write : Request → M Bool
  test_command_write r = do
    ep0_wait env fuel
    ep0_put 0 0
    started ← i2c_start env
    if not started then pure false else (do
      catch
          (do
            out env fuel r.value
            out_counted r.index
            out_counted 3
            out_counted 0
            out env fuel 0
            out_counted 0
            out_counted 0)
          (pure tt)
      i2c_stop env fuel
      arm 1
      pure true)
