-- ===== src/Firmware/Commands/Raw.antt =====
-- `handle_vendorcommand`, the cases SMB_WRITE and SMB_READ: arbitrary bytes, in which the host
-- says where START and STOP stand.
use smbusb.Prelude.{ℕ, zero, suc, ◌+◌, Bool, true, false, not, ◌&&◌, bit_and, u8, ◌==◌, cond}
use smbusb.Pec.{pec_crc}
use smbusb.Firmware.State.{
  Env, Request, M, pure, ◌>>=◌, ◌>>◌, gets, modify, if◌then◌else◌, when, ep0_get, ep0_put, arm,
  ep0_wait, ep0_receive,
}
use smbusb.Firmware.I2c.{i2c_restart, i2c_stop, i2c_bytein, out}
use smbusb.Firmware.Commands.{or_stop, start_or_fail}

-- `flags & bit`, as a condition.
abbrev pub has_flag : ℕ → ℕ → Bool
has_flag flags bit = not (bit_and flags bit == 0)

abbrev pub start_first : ℕ
start_first = 0x1

abbrev pub restart_first : ℕ
restart_first = 0x2

abbrev pub stop_after : ℕ
stop_after = 0x4

abbrev pub first_read : ℕ
first_read = 0x1

abbrev pub last_read : ℕ
last_read = 0x2

module _ (env : Env) (fuel : ℕ) where
  -- The bytes of endpoint 0 from `i` on, with `left` rounds left. Where the length passes 255 the
  -- BYTE `i` would wrap, but the access to the buffer is out of bounds before that.
  unfoldable pub raw_rounds : ℕ → ℕ → M (Unit {0})
  raw_rounds zero i = pure tt
  raw_rounds (suc left) i = do
    b ← ep0_get i
    out env fuel b
    modify (λ s. cond s.pec_enabled (record s { mrq_pec = pec_crc s.mrq_pec b }) s)
    raw_rounds left (i + 1)

  -- SMB_WRITE
  unfoldable pub write_raw : Request → M Bool
  write_raw r = do
    ep0_receive env fuel r.payload
    or_stop env fuel (do
      when (has_flag r.index start_first)
          (do modify (λ s. cond s.pec_enabled (record s { mrq_pec = 0 }) s); start_or_fail env fuel)
      when (has_flag r.index restart_first) (i2c_restart env)
      raw_rounds r.value 0
      when (has_flag r.index stop_after) (do
        pec_enabled ← gets (λ s. s.pec_enabled)
        mrq_pec ← gets (λ s. s.mrq_pec)
        when pec_enabled (out env fuel mrq_pec)
        i2c_stop env fuel))

  -- Where the byte `b` with the number `i` of `j` goes.
  unfoldable pub keep_byte : Bool → ℕ → ℕ → ℕ → M (Unit {0})
  keep_byte last i j b = do
    pec_enabled ← gets (λ s. s.pec_enabled)
    if pec_enabled
        then if last && i + 1 == j
          then modify (λ s. record s { rcv_pec = b })
          else (do ep0_put i b; modify (λ s. record s { mrq_pec = pec_crc s.mrq_pec b }))
        else ep0_put i b

  -- `while (i<j)`, with `left` rounds left; `first` and `last` are the flags in `rs`.
  unfoldable pub raw_reads : Bool → ℕ → Bool → ℕ → ℕ → M (Unit {0})
  raw_reads last j first zero i = pure tt
  raw_reads last j first (suc left) i = do
    b ← i2c_bytein env fuel first (first && j == 1) (last && i + 2 == j) (last && i + 1 == j)
    keep_byte last i j b
    raw_reads last j false left (i + 1)

  -- SMB_READ: with the code enabled, one byte more is read at the end.
  unfoldable pub read_raw : Request → M Bool
  read_raw r = do
    ep0_wait env fuel
    pec_enabled ← gets (λ s. s.pec_enabled)
    let rs = u8 r.index
    let last = has_flag rs last_read
    let j = u8 (cond (pec_enabled && last) (u8 r.value + 1) (u8 r.value))
    raw_reads last j (has_flag rs first_read) j 0
    arm r.value
    pure true
