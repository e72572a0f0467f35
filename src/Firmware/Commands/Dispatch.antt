-- ===== src/Firmware/Commands/Dispatch.antt =====
-- `handle_vendorcommand`: the switch over the number of the request.
use smbusb.Prelude.{ℕ, Bool, false, ◌==◌, if◌then◌else◌}
use smbusb.Firmware.State.{Env, Request, M, pure}
use smbusb.Firmware.Commands.{
  enable_pec, interface_id, firmware_version, get_clear_pec_fail, get_mrq_pecs, reset_interface,
  read_temp, read_count,
}
use smbusb.Firmware.Commands.Transfers.{send_byte, read_byte, write_byte, read_word, write_word}
use smbusb.Firmware.Commands.Probe.{test_address_ack, test_command_ack, test_command_write}
use smbusb.Firmware.Commands.ReadBlock.{read_block}
use smbusb.Firmware.Commands.WriteBlock.{write_block}
use smbusb.Firmware.Commands.Raw.{write_raw, read_raw}

-- The cases of the switch.
pub data Command : Type 0 where
  smb_enable_pec smb_interface_id smb_firmware_version : Command
  smb_send_byte smb_read_byte smb_write_byte smb_read_word smb_write_word : Command
  smb_read_block smb_write_block smb_write smb_read : Command
  smb_get_clear_pec_fail smb_read_temp smb_read_count smb_get_mrq_pecs : Command
  smb_reset_interface smb_test_address_ack smb_test_command_ack smb_test_command_write : Command
  unknown : Command

unfoldable pub decode : ℕ → Command
decode cmd =
    if cmd == 0x5
    then smb_enable_pec
    else if cmd == 0x99
    then smb_interface_id
    else if cmd == 0x98
    then smb_firmware_version
    else if cmd == 0x12
    then smb_send_byte
    else if cmd == 0x10
    then smb_read_byte
    else if cmd == 0x11
    then smb_write_byte
    else if cmd == 0x20
    then smb_read_word
    else if cmd == 0x21
    then smb_write_word
    else if cmd == 0x30
    then smb_read_block
    else if cmd == 0x32
    then smb_write_block
    else if cmd == 0x50
    then smb_write
    else if cmd == 0x51
    then smb_read
    else if cmd == 0x54
    then smb_get_clear_pec_fail
    else if cmd == 0x66
    then smb_read_temp
    else if cmd == 0x67
    then smb_read_count
    else if cmd == 0x55
    then smb_get_mrq_pecs
    else if cmd == 0x61
    then smb_reset_interface
    else if cmd == 0x90
    then smb_test_address_ack
    else if cmd == 0x91
    then smb_test_command_ack
    else if cmd == 0x92
    then smb_test_command_write
    else unknown

module _ (env : Env) (fuel : ℕ) where
  unfoldable pub execute : Command → Request → M Bool
  execute smb_enable_pec r = enable_pec env fuel r
  execute smb_interface_id r = interface_id env fuel
  execute smb_firmware_version r = firmware_version env fuel
  execute smb_send_byte r = send_byte env fuel r
  execute smb_read_byte r = read_byte env fuel r
  execute smb_write_byte r = write_byte env fuel r
  execute smb_read_word r = read_word env fuel r
  execute smb_write_word r = write_word env fuel r
  execute smb_read_block r = read_block env fuel r
  execute smb_write_block r = write_block env fuel r
  execute smb_write r = write_raw env fuel r
  execute smb_read r = read_raw env fuel r
  execute smb_get_clear_pec_fail r = get_clear_pec_fail env fuel
  execute smb_read_temp r = read_temp env fuel
  execute smb_read_count r = read_count env fuel
  execute smb_get_mrq_pecs r = get_mrq_pecs env fuel
  execute smb_reset_interface r = reset_interface env fuel
  execute smb_test_address_ack r = test_address_ack env fuel r
  execute smb_test_command_ack r = test_command_ack env fuel r
  execute smb_test_command_write r = test_command_write env fuel r
  execute unknown r = pure false

  unfoldable pub handle_vendorcommand : ℕ → Request → M Bool
  handle_vendorcommand cmd r = execute (decode cmd) r
