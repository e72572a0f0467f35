-- ===== src/Firmware/Commands.antt =====
-- `handle_vendorcommand`, the cases of one byte or word and those of the interface itself.
pub mod Transfers
pub mod Probe
pub mod ReadBlock
pub mod WriteBlock
pub mod Raw
pub mod Dispatch
use smbusb.Prelude.{ℕ, zero, suc, ◌+◌, ◌/◌, ◌%◌, Bool, true, false, not, u8, u16, ltb, ◌==◌}
use smbusb.Pec.{pec_crc}
use smbusb.Firmware.State.{
  Env, Fw, Request, M, pure, fail, catch, require, ◌>>=◌, ◌>>◌, gets, modify, if◌then◌else◌, when,
  ep0_get, ep0_put, temp_get, arm, ep0_wait, ep0_receive,
}
use smbusb.Firmware.I2c.{i2c_start, i2c_restart, i2c_stop, i2c_byteout, i2c_bytein, out}

abbrev pub version_major : ℕ
version_major = 1

abbrev pub version_minor : ℕ
version_minor = 0

abbrev pub version_revision : ℕ
version_revision = 1

module _ (env : Env) (fuel : ℕ) where
  -- The label that stops the bus and returns FALSE.
  unfoldable pub or_stop : M (Unit {0}) → M Bool
  or_stop m = catch (do m; pure true) (do i2c_stop env fuel; pure false)

  unfoldable pub start_or_fail : M (Unit {0})
  start_or_fail = do started ← i2c_start env; require started

  -- SMB_ENABLE_PEC
  unfoldable pub enable_pec : Request → M Bool
  enable_pec r = do
    ep0_wait env fuel
    arm 0
    modify (λ s. record s { pec_enabled = ltb 0 r.value })
    when (not (ltb 0 r.value)) (modify (λ s. record s { mrq_pec = 0; rcv_pec = 0 }))
    pure true

  -- SMB_INTERFACE_ID
  unfoldable pub interface_id : M Bool
  interface_id = do
    ep0_wait env fuel
    ep0_put 0 0x55
    ep0_put 1 0x53
    ep0_put 2 0x4D
    arm 3
    pure true

  -- SMB_FIRMWARE_VERSION
  unfoldable pub firmware_version : M Bool
  firmware_version = do
    ep0_wait env fuel
    ep0_put 0 version_major
    ep0_put 1 version_minor
    ep0_put 2 version_revision
    arm 3
    pure true

  -- The address phase of a read: START, address, command, START, address + 1.
  unfoldable pub read_header : Request → M (Unit {0})
  read_header r = do
    start_or_fail
    out env fuel r.value
    out env fuel r.index
    i2c_restart env
    out env fuel (r.value + 1)

  -- The code of the three bytes of the address phase.
  abbrev pub header_pec : Request → ℕ
  header_pec r = pec_crc (pec_crc (pec_crc 0 (u8 r.value)) (u8 r.index)) (u8 (r.value + 1))

  -- The comparison of the received code with the computed one.
  unfoldable pub check_pec : ℕ → ℕ → M (Unit {0})
  check_pec rpec pec =
      if rpec == pec
      then pure tt
      else (do arm 0; modify (λ s. record s { pec_failed = true }); fail)

  -- SMB_GET_CLEAR_PEC_FAIL
  unfoldable pub get_clear_pec_fail : M Bool
  get_clear_pec_fail = do
    ep0_wait env fuel
    pec_failed ← gets (λ s. s.pec_failed)
    if pec_failed
        then (do ep0_put 0 0xFF; modify (λ s. record s { pec_failed = false }))
        else ep0_put 0 0
    arm 1
    pure true

  -- SMB_GET_MRQ_PECS
  unfoldable pub get_mrq_pecs : M Bool
  get_mrq_pecs = do
    ep0_wait env fuel
    mrq_pec ← gets (λ s. s.mrq_pec)
    ep0_put 0 mrq_pec
    rcv_pec ← gets (λ s. s.rcv_pec)
    ep0_put 1 rcv_pec
    arm 2
    pure true

  -- SMB_RESET_INTERFACE
  unfoldable pub reset_interface : M Bool
  reset_interface = do
    ep0_wait env fuel
    modify (λ s. record s { mrq_pec = 0; rcv_pec = 0; templen = 0; tempptr = 0 })
    i2c_stop env fuel
    pure true

  -- `while (i<64) { *(EP0BUF+i) = temp[i]; i++; }` with `left` rounds left.
  unfoldable pub dump_temp : ℕ → ℕ → M (Unit {0})
  dump_temp zero i = pure tt
  dump_temp (suc left) i = do b ← temp_get i; ep0_put i b; dump_temp left (i + 1)

  -- Request 0x66
  unfoldable pub read_temp : M Bool
  read_temp = do ep0_wait env fuel; dump_temp 64 0; arm 64; pure true

  -- Request 0x67
  unfoldable pub read_count : M Bool
  read_count = do
    ep0_wait env fuel
    smb_addr ← gets (λ s. s.count)
    ep0_put 0 (smb_addr % 256)
    ep0_put 1 (u8 (smb_addr / 256))
    arm 2
    pure true
