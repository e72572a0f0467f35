-- ===== src/Firmware/Safety/ReadBlock.antt =====
-- A block read ends within the bounds of both buffers, whatever size the device claims.
use smbusb.Prelude.{
  ℕ, zero, suc, ◌+◌, ◌-◌, ◌≤◌, ◌<◌, ◌≡◌, refl, Bool, true, arith, ltb, u8, sub16, cond, ltb→lt,
  Bool-cases, inl, inr,
}
use smbusb.Firmware.State.{
  Env, Request, fail, ◌>>=◌, ◌>>◌, gets, modify, if◌then◌else◌, ep0_put, temp_put,
}
use smbusb.Firmware.Keeps.{
  post_ok, Keeps, Keeps-if, Keeps-when, Keeps-gets, Keeps-bind, Keeps-then, Keeps-catch,
  Keeps-Yields, Yields-catch, Keeps-modify, Yields-bind, Yields-then, keeps_rules, Yields,
  Yields-pure, Yields-fail, Yields-if, Yields-mono, yields_rules, Yields-Yields,
}
use smbusb.Firmware.I2c.{i2c_stop}
use smbusb.Firmware.Timeout.{
  IsRunning, IsValid, i2c_bytein-Keeps, i2c_start-Keeps, i2c_stop-Keeps, ep0_wait-Keeps,
}
use smbusb.Firmware.Commands.{header_pec}
use smbusb.Firmware.ReadOn.{read_outstanding_lem, advanced-IsValid}
use smbusb.Firmware.Safety.Buffers.{ep0_put-Keeps, temp_put-Keeps}
use smbusb.Firmware.Safety.Short.{call_rules}
use smbusb.Firmware.Commands.ReadBlock.{
  drop_stale, read_outstanding, Locals, store_byte, take_byte, read_rounds, read_transaction,
  finish_block, read_new_block, read_block,
}

drop_stale-Keeps : Keeps IsValid drop_stale
unfolding drop_stale
drop_stale-Keeps = Keeps-modify _ λ s v. ground arith

-- Only the bytes before the code are stored, so an index into `temp` stays below 190.
keep_byte-Keeps :
    (i blocklen b : ℕ)
    → i + 1 < blocklen
    → blocklen < 256
    → Keeps IsValid (if ltb i 64 then ep0_put i b else temp_put (i - 64) b)
keep_byte-Keeps i blocklen b h small =
    Keeps-if _ _ _ (λ near. ep0_put-Keeps i b near)
      (λ far. temp_put-Keeps (i - 64) b (ground arith))

store_byte-Yields :
    (l : Locals) (b : ℕ)
    → l.i < 255
    → l.blocklen < 256
    → Yields (λ l'. (l'.i ≡ l.i + 1) × (l'.blocklen ≡ l.blocklen)) IsValid (store_byte l b)
unfolding store_byte
store_byte-Yields l b low small = Yields-bind _ _ (Keeps-gets _) λ pec_enabled.
    Yields-then _ _ (Keeps-when _ _ λ h. keep_byte-Keeps l.i l.blocklen b (ltb→lt _ _ h) small)
      (Yields-pure _ (omega arith, refl))

take_byte-Yields :
    (l : Locals) (b : ℕ)
    → l.i < 255
    → l.blocklen < 256
    → Yields (λ l'. (l'.i ≡ l.i + 1) × (l'.blocklen < 256)) IsValid (take_byte l b)
unfolding take_byte
take_byte-Yields l b low small =
    Yields-if _ _ _
      (λ first.
        Yields-if _ _ _ (λ bad. Yields-fail)
          λ good.
            Yields-mono (store_byte-Yields (record l { blocklen = u8 (b + 2) }) b low (omega arith))
              λ l' q. omega arith)
      (λ later. Yields-mono (store_byte-Yields l b low small) λ l' q. omega arith)

module _ (env : Env) (fuel : ℕ) (run : IsRunning env fuel) where
  read_rounds-Yields :
      (left : ℕ) (l : Locals)
      → 256 ≤ left + l.i
      → l.i < 256
      → l.blocklen < 256
      → Yields (λ l'. l'.blocklen < 256) IsValid (read_rounds env fuel left l)
  unfolding read_rounds
  read_rounds-Yields zero l enough low small = absurd (omega arith)
  read_rounds-Yields (suc left) l enough low small =
      Yields-if _ _ _ (λ done. Yields-pure l small)
        λ more. Yields-bind _ _ (i2c_bytein-Keeps env fuel run _ _ _ _) λ b.
          Yields-Yields _ _ (take_byte-Yields l b (ground arith) small)
            λ l' q. read_rounds-Yields left l' (omega arith) (ground arith) q.1

  read_transaction-Yields :
      (r : Request) → Yields (λ l. l.blocklen < 256) IsValid (read_transaction env fuel r)
  unfolding read_transaction
  read_transaction-Yields r =
      let rounds = λ (pec_enabled : Bool).
        read_rounds-Yields 256
          (record {
            i = 0;
            blocklen = 255;
            pec = cond pec_enabled (header_pec env fuel r) 0;
            rpec = 0;
          })
          (omega arith) (omega arith) (omega arith) in
      search (yields_rules, call_rules) depth 14

  finish_block-Keeps : (l : Locals) → l.blocklen < 256 → Keeps IsValid (finish_block env fuel l)
  unfolding finish_block
  finish_block-Keeps l small =
      let kept : Keeps IsValid
          (modify λ s. record s { templen = l.blocklen - 65; tempptr = 0; count = 0 }) =
        Keeps-modify _ λ s v. ground arith in
      let failed : Keeps IsValid (modify λ s. record s { pec_failed = true }) =
        Keeps-modify _ λ s v. ground arith in
      search (call_rules) depth 14

  read_new_block-Keeps : (r : Request) → Keeps IsValid (read_new_block env fuel r)
  unfolding read_new_block
  read_new_block-Keeps r =
      Keeps-catch _ _
        (Keeps-bind _ _ (i2c_start-Keeps env fuel run) λ started.
          Keeps-then _ _ (search keeps_rules) (
            Keeps-Yields _ _ (Yields-catch _ _ (read_transaction-Yields r) given_up)
              finish_block-Keeps))
        (search call_rules)
    where
      given_up :
          Yields (λ (l : Locals). l.blocklen < 256) IsValid (i2c_stop env fuel >> fail {A = Locals})
      given_up = Yields-then _ _ (i2c_stop-Keeps env fuel run) Yields-fail

  -- With data outstanding they are returned, otherwise a block is read.
  serve-Keeps :
      (r : Request)
      → Keeps IsValid (
          gets (λ s. ltb 0 (sub16 s.templen s.tempptr)) >>= λ outstanding.
          if outstanding then read_outstanding else read_new_block env fuel r)
  unfolding gets ◌>>=◌ if◌then◌else◌
  serve-Keeps r = record {
    at = λ s v. elim (Bool-cases (ltb 0 (sub16 s.templen s.tempptr))) [
      | inl more ↦
          let below : s.tempptr < s.templen = ground arith in
          rw (more, read_outstanding_lem s v below) (post_ok (advanced-IsValid s v below))
      | inr none_left ↦ rw none_left ((read_new_block-Keeps r).at s v)
    ];
  }

  pub read_block-Keeps : (r : Request) → Keeps IsValid (read_block env fuel r)
  unfolding read_block
  read_block-Keeps r =
      Keeps-then _ _ (ep0_wait-Keeps env fuel run) (Keeps-then _ _ drop_stale-Keeps (serve-Keeps r))
