-- ===== src/Firmware/Safety/Served.antt =====
-- `handle_vendorcommand` as a whole.
use smbusb.Prelude.{ℕ, ◌+◌, ◌≤◌, ◌≡◌, ◌≢◌, List, ◌∷◌, u8, cond, false}
use smbusb.Firmware.State.{Env, Request}
use smbusb.Firmware.Keeps.{Keeps, Keeps-pure}
use smbusb.Firmware.Timeout.{IsRunning, IsValid}
use smbusb.Firmware.Safety.Short
use smbusb.Firmware.Safety.ReadBlock.{read_block-Keeps}
use smbusb.Firmware.Safety.WriteBlock.{write_block-Keeps}
use smbusb.Firmware.Safety.Raw.{write_raw-Keeps, read_raw-Keeps}
use smbusb.Firmware.Commands.Raw.{has_flag, last_read}
use smbusb.Firmware.Commands.Dispatch.{Command, decode, execute, handle_vendorcommand}

-- The data of a block write start with a size other than 64 and at most 192.
pub record IsFitting (bytes : List ℕ) : Type 0 where
  pub size : ℕ
  pub rest : List ℕ
  pub starts : bytes ≡ size ∷ rest
  pub other : size ≢ 64
  pub small : size ≤ 192

-- The requests whose sizes fit the buffers: a block write as above, and the two raw requests move at most 64 bytes, the code included.
unfoldable pub IsServed : Command → Request → Type 0
IsServed Command.smb_write_block r = IsFitting r.payload
IsServed Command.smb_write r = r.value ≤ 64
IsServed Command.smb_read r = r.value + cond (has_flag (u8 r.index) last_read) 1 0 ≤ 64
IsServed c r = Unit {0}

module _ (env : Env) (fuel : ℕ) (run : IsRunning env fuel) where
  execute-Keeps : (c : Command) (r : Request) → IsServed c r → Keeps IsValid (execute env fuel c r)
  unfolding execute IsServed
  execute-Keeps Command.smb_enable_pec r h = Short.enable_pec-Keeps env fuel run r
  execute-Keeps Command.smb_interface_id r h = Short.interface_id-Keeps env fuel run
  execute-Keeps Command.smb_firmware_version r h = Short.firmware_version-Keeps env fuel run
  execute-Keeps Command.smb_send_byte r h = Short.send_byte-Keeps env fuel run r
  execute-Keeps Command.smb_read_byte r h = Short.read_byte-Keeps env fuel run r
  execute-Keeps Command.smb_write_byte r h = Short.write_byte-Keeps env fuel run r
  execute-Keeps Command.smb_read_word r h = Short.read_word-Keeps env fuel run r
  execute-Keeps Command.smb_write_word r h = Short.write_word-Keeps env fuel run r
  execute-Keeps Command.smb_read_block r h = read_block-Keeps env fuel run r
  execute-Keeps Command.smb_write_block r h =
      write_block-Keeps env fuel run r h.size h.rest h.starts h.other h.small
  execute-Keeps Command.smb_write r h = write_raw-Keeps env fuel run r h
  execute-Keeps Command.smb_read r h = read_raw-Keeps env fuel run r h
  execute-Keeps Command.smb_get_clear_pec_fail r h = Short.get_clear_pec_fail-Keeps env fuel run
  execute-Keeps Command.smb_read_temp r h = Short.read_temp-Keeps env fuel run
  execute-Keeps Command.smb_read_count r h = Short.read_count-Keeps env fuel run
  execute-Keeps Command.smb_get_mrq_pecs r h = Short.get_mrq_pecs-Keeps env fuel run
  execute-Keeps Command.smb_reset_interface r h = Short.reset_interface-Keeps env fuel run
  execute-Keeps Command.smb_test_address_ack r h = Short.test_address_ack-Keeps env fuel run r
  execute-Keeps Command.smb_test_command_ack r h = Short.test_command_ack-Keeps env fuel run r
  execute-Keeps Command.smb_test_command_write r h = Short.test_command_write-Keeps env fuel run r
  execute-Keeps Command.unknown r h = Keeps-pure false

  -- Where the timer and the host are as `IsRunning` says, a request that fits the buffers ends from
  -- every well-formed state, whatever the I2C controller returns: normally or at a fail label,
  -- without an access out of bounds, and the state is well formed again.
  pub handle_vendorcommand-Keeps :
      (cmd : ℕ) (r : Request)
      → IsServed (decode cmd) r
      → Keeps IsValid (handle_vendorcommand env fuel cmd r)
  unfolding handle_vendorcommand
  handle_vendorcommand-Keeps cmd r h = execute-Keeps (decode cmd) r h
