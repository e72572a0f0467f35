-- ===== src/Firmware/Safety/Raw.antt =====
-- The requests of arbitrary bytes stay within the buffer of endpoint 0, where their length does.
use smbusb.Prelude.{ℕ, zero, suc, ◌+◌, ◌≤◌, ◌≡◌, Bool, true, false, arith, ltb, cond, u8}
use smbusb.Pec.{pec_crc}
use smbusb.Firmware.State.{Env, Request, modify}
use smbusb.Firmware.Keeps.{Keeps, Keeps-modify, Keeps-pure, Keeps-bind, Keeps-then, Keeps-gets}
use smbusb.Firmware.Timeout.{IsRunning, IsValid, i2c_bytein-Keeps, out-Keeps, ep0_wait-Keeps}
use smbusb.Firmware.Safety.Buffers.{ep0_get-Keeps}
use smbusb.Firmware.Safety.Short.{call_rules, or_stop-Keeps, start_or_fail-Keeps}
use smbusb.Firmware.Commands.Raw.{
  raw_rounds, write_raw, keep_byte, raw_reads, read_raw, has_flag, last_read,
}

module _ (env : Env) (fuel : ℕ) (run : IsRunning env fuel) where
  keep_byte-Keeps :
      (last : Bool) (i j b : ℕ) → ltb i 64 ≡ true → Keeps IsValid (keep_byte env fuel last i j b)
  unfolding keep_byte
  keep_byte-Keeps last i j b h =
      let coded : Keeps IsValid (modify λ s. record s { rcv_pec = b }) =
        Keeps-modify _ λ s v. ground arith in
      let folded : Keeps IsValid (modify λ s. record s { mrq_pec = pec_crc s.mrq_pec b }) =
        Keeps-modify _ λ s v. ground arith in
      search (call_rules) depth 12

  raw_rounds-Keeps : (left i : ℕ) → i + left ≤ 64 → Keeps IsValid (raw_rounds env fuel left i)
  unfolding raw_rounds
  raw_rounds-Keeps zero i h = Keeps-pure tt
  raw_rounds-Keeps (suc left) i h = Keeps-bind _ _ (ep0_get-Keeps i (ground arith)) λ b.
      Keeps-then _ _ (out-Keeps env fuel run b) (
        Keeps-then _ _ (Keeps-modify _ λ s v. ground arith)
          (raw_rounds-Keeps left (i + 1) (omega arith)))

  pub write_raw-Keeps : (r : Request) → r.value ≤ 64 → Keeps IsValid (write_raw env fuel r)
  unfolding write_raw
  write_raw-Keeps r h =
      let cleared : Keeps IsValid (modify λ s. cond s.pec_enabled (record s { mrq_pec = 0 }) s) =
        Keeps-modify _ λ s v. ground arith in
      let sent : Keeps IsValid (raw_rounds env fuel r.value 0) =
        raw_rounds-Keeps r.value 0 (omega arith) in
      search (call_rules, or_stop-Keeps, start_or_fail-Keeps) depth 20

  raw_reads-Keeps :
      (last : Bool) (j : ℕ) (first : Bool) (left i : ℕ)
      → i + left ≤ 64
      → Keeps IsValid (raw_reads env fuel last j first left i)
  unfolding raw_reads
  raw_reads-Keeps last j first zero i h = Keeps-pure tt
  raw_reads-Keeps last j first (suc left) i h =
      Keeps-bind _ _ (i2c_bytein-Keeps env fuel run _ _ _ _) λ b.
        Keeps-then _ _ (keep_byte-Keeps last i j b (ground arith))
          (raw_reads-Keeps last j false left (i + 1) (omega arith))

  pub read_raw-Keeps :
      (r : Request)
      → r.value + cond (has_flag (u8 r.index) last_read) 1 0 ≤ 64
      → Keeps IsValid (read_raw env fuel r)
  unfolding read_raw
  read_raw-Keeps r h = Keeps-then _ _ (ep0_wait-Keeps env fuel run) (
      Keeps-bind _ _ (Keeps-gets _) λ pec_enabled.
        Keeps-then _ _ (raw_reads-Keeps _ _ _ _ 0 (ground arith)) (search call_rules))
