-- ===== src/Firmware/Safety/Short.antt =====
-- The requests of one byte or word, the probes, and those of the interface itself.
use smbusb.Prelude.{ℕ, zero, suc, ◌+◌, ◌≤◌, Bool, true, false, refl, ltb, arith}
use smbusb.Firmware.State.{Env, Request, M, modify}
use smbusb.Firmware.Keeps.{Keeps, Keeps-modify, Keeps-pure, Keeps-bind, Keeps-then, keeps_rules}
use smbusb.Firmware.Timeout.{
  IsRunning, IsValid, ep0_wait-Keeps, i2c_start-Keeps, i2c_restart-Keeps, i2c_stop-Keeps,
  i2c_byteout-Keeps, i2c_bytein-Keeps, out-Keeps,
}
use smbusb.Firmware.Safety.Buffers.{
  arm-Keeps, ep0_get-Keeps, ep0_put-Keeps, temp_get-Keeps, ep0_receive-Keeps,
}
use smbusb.Firmware.Commands.{
  or_stop, start_or_fail, read_header, check_pec, enable_pec, interface_id, firmware_version,
  get_clear_pec_fail, get_mrq_pecs, reset_interface, dump_temp, read_temp, read_count,
}
use smbusb.Firmware.Commands.Transfers.{send_byte, read_byte, write_byte, read_word, write_word}
use smbusb.Firmware.Commands.Probe.{
  report_ack, test_address_ack, test_command_ack, out_counted, test_command_write,
}

pub ruleset call_rules = (
  keeps_rules, ep0_get-Keeps, ep0_put-Keeps, arm-Keeps, ep0_receive-Keeps, ep0_wait-Keeps,
  i2c_start-Keeps, i2c_restart-Keeps, i2c_stop-Keeps, i2c_byteout-Keeps, i2c_bytein-Keeps,
  out-Keeps, refl,
)

module _ (env : Env) (fuel : ℕ) (run : IsRunning env fuel) where
  pub or_stop-Keeps : (m : M (Unit {0})) → Keeps IsValid m → Keeps IsValid (or_stop env fuel m)
  unfolding or_stop
  or_stop-Keeps m km = search call_rules depth 10

  pub start_or_fail-Keeps : Keeps IsValid (start_or_fail env fuel)
  unfolding start_or_fail
  start_or_fail-Keeps = search (call_rules) depth 16

  pub enable_pec-Keeps : (r : Request) → Keeps IsValid (enable_pec env fuel r)
  unfolding enable_pec
  enable_pec-Keeps r =
      let enabled : Keeps IsValid (modify λ s. record s { pec_enabled = ltb 0 r.value }) =
        Keeps-modify _ λ s v. ground arith in
      let cleared : Keeps IsValid (modify λ s. record s { mrq_pec = 0; rcv_pec = 0 }) =
        Keeps-modify _ λ s v. ground arith in
      search (call_rules) depth 16

  pub interface_id-Keeps : Keeps IsValid (interface_id env fuel)
  unfolding interface_id
  interface_id-Keeps = search (call_rules) depth 16

  pub firmware_version-Keeps : Keeps IsValid (firmware_version env fuel)
  unfolding firmware_version
  firmware_version-Keeps = search (call_rules) depth 16

  pub read_header-Keeps : (r : Request) → Keeps IsValid (read_header env fuel r)
  unfolding read_header
  read_header-Keeps r = search (call_rules, start_or_fail-Keeps) depth 16

  pub check_pec-Keeps : (x y : ℕ) → Keeps IsValid (check_pec env fuel x y)
  unfolding check_pec
  check_pec-Keeps x y =
      let recorded : Keeps IsValid (modify λ s. record s { pec_failed = true }) =
        Keeps-modify _ λ s v. ground arith in
      search (call_rules) depth 16

  pub get_clear_pec_fail-Keeps : Keeps IsValid (get_clear_pec_fail env fuel)
  unfolding get_clear_pec_fail
  get_clear_pec_fail-Keeps =
      let cleared : Keeps IsValid (modify λ s. record s { pec_failed = false }) =
        Keeps-modify _ λ s v. ground arith in
      search (call_rules) depth 16

  pub get_mrq_pecs-Keeps : Keeps IsValid (get_mrq_pecs env fuel)
  unfolding get_mrq_pecs
  get_mrq_pecs-Keeps = search (call_rules) depth 16

  pub reset_interface-Keeps : Keeps IsValid (reset_interface env fuel)
  unfolding reset_interface
  reset_interface-Keeps =
      let cleared : Keeps IsValid
          (modify λ s. record s { mrq_pec = 0; rcv_pec = 0; templen = 0; tempptr = 0 }) =
        Keeps-modify _ λ s v. ground arith in
      search (call_rules) depth 16

  pub read_count-Keeps : Keeps IsValid (read_count env fuel)
  unfolding read_count
  read_count-Keeps = search (call_rules) depth 16

  pub send_byte-Keeps : (r : Request) → Keeps IsValid (send_byte env fuel r)
  unfolding send_byte
  send_byte-Keeps r = search (call_rules, or_stop-Keeps) depth 24

  pub read_byte-Keeps : (r : Request) → Keeps IsValid (read_byte env fuel r)
  unfolding read_byte
  read_byte-Keeps r =
      search (call_rules, or_stop-Keeps, read_header-Keeps, check_pec-Keeps) depth 24

  pub write_byte-Keeps : (r : Request) → Keeps IsValid (write_byte env fuel r)
  unfolding write_byte
  write_byte-Keeps r = search (call_rules, or_stop-Keeps, start_or_fail-Keeps) depth 24

  pub read_word-Keeps : (r : Request) → Keeps IsValid (read_word env fuel r)
  unfolding read_word
  read_word-Keeps r =
      search (call_rules, or_stop-Keeps, read_header-Keeps, check_pec-Keeps) depth 24

  pub write_word-Keeps : (r : Request) → Keeps IsValid (write_word env fuel r)
  unfolding write_word
  write_word-Keeps r = search (call_rules, or_stop-Keeps, start_or_fail-Keeps) depth 24

  pub report_ack-Keeps : (b : Bool) → Keeps IsValid (report_ack env fuel b)
  unfolding report_ack
  report_ack-Keeps b = search (call_rules) depth 16

  pub test_address_ack-Keeps : (r : Request) → Keeps IsValid (test_address_ack env fuel r)
  unfolding test_address_ack
  test_address_ack-Keeps r = search (call_rules, report_ack-Keeps) depth 16

  pub test_command_ack-Keeps : (r : Request) → Keeps IsValid (test_command_ack env fuel r)
  unfolding test_command_ack
  test_command_ack-Keeps r = search (call_rules, report_ack-Keeps) depth 16

  pub out_counted-Keeps : (b : ℕ) → Keeps IsValid (out_counted env fuel b)
  unfolding out_counted
  out_counted-Keeps b = search (call_rules) depth 16

  pub test_command_write-Keeps : (r : Request) → Keeps IsValid (test_command_write env fuel r)
  unfolding test_command_write
  test_command_write-Keeps r = search (call_rules, out_counted-Keeps) depth 24

  dump_temp-Keeps : (left i : ℕ) → i + left ≤ 64 → Keeps IsValid (dump_temp env fuel left i)
  unfolding dump_temp
  dump_temp-Keeps zero i h = Keeps-pure tt
  dump_temp-Keeps (suc left) i h = Keeps-bind _ _ (temp_get-Keeps i (ground arith)) λ b.
      Keeps-then _ _ (ep0_put-Keeps i b (ground arith)) (dump_temp-Keeps left (i + 1) (omega arith))

  pub read_temp-Keeps : Keeps IsValid (read_temp env fuel)
  unfolding read_temp
  read_temp-Keeps =
      let dumped : Keeps IsValid (dump_temp env fuel 64 0) = dump_temp-Keeps 64 0 (omega arith) in
      search call_rules depth 10
