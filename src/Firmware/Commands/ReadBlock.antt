-- ===== src/Firmware/Commands/ReadBlock.antt =====
-- `handle_vendorcommand`, the case SMB_READ_BLOCK. A block that does not fit the 64 bytes of
-- endpoint 0 is kept in `temp`, and the next requests return the rest.
use smbusb.Prelude.{
  ℕ, zero, suc, ◌+◌, ◌-◌, Bool, true, false, not, ◌&&◌, ◌||◌, u8, u16, sub16, ltb, ◌==◌, cond,
}
use smbusb.Pec.{pec_crc}
use smbusb.Firmware.State.{
  Env, Request, M, pure, hang, fail, catch, ◌>>=◌, ◌>>◌, gets, modify, if◌then◌else◌, when, ep0_put,
  temp_get, temp_put, arm, ep0_wait,
}
use smbusb.Firmware.I2c.{i2c_start, i2c_restart, i2c_stop, i2c_bytein, out}
use smbusb.Firmware.Commands.{header_pec}

abbrev pub block_seq_timeout : ℕ
block_seq_timeout = 5

-- `if (templen>0 && count>BLOCK_SEQ_TIMEOUT) { templen=0; tempptr=0; }`
unfoldable pub drop_stale : M (Unit {0})
drop_stale = modify (λ s.
    cond (ltb 0 s.templen && ltb block_seq_timeout s.count) (record s { templen = 0; tempptr = 0 })
      s)

-- The copy of the next bytes of `temp` to endpoint 0, with `left` rounds left; `i` is a BYTE.
unfoldable pub copy_out : ℕ → ℕ → ℕ → M (Unit {0})
copy_out zero i j = pure tt
copy_out (suc left) i j = do b ← temp_get i; ep0_put j b; copy_out left (u8 (i + 1)) (j + 1)

-- `blocklen` bytes of `temp` from `ptr` on are returned; after the last one the block is forgotten.
unfoldable pub send_portion : ℕ → ℕ → M Bool
send_portion blocklen ptr = do
  copy_out blocklen (u8 ptr) 0
  modify (λ s. record s { tempptr = u16 (s.tempptr + blocklen) })
  arm blocklen
  modify (λ s. cond (sub16 s.templen s.tempptr == 0) (record s { templen = 0; tempptr = 0 }) s)
  pure true

-- The request while data are outstanding: its parameters are ignored.
unfoldable pub read_outstanding : M Bool
read_outstanding = do
  rest ← gets (λ s. sub16 s.templen s.tempptr)
  ptr ← gets (λ s. s.tempptr)
  send_portion (cond (ltb 64 rest) 64 rest) ptr

-- The local variables of the loop that reads a block.
pub record Locals : Type 0 where
  pub i : ℕ
  pub blocklen : ℕ
  pub pec : ℕ
  pub rpec : ℕ

-- What the loop does with the byte `b`, once `blocklen` is known.
unfoldable pub store_byte : Locals → ℕ → M Locals
store_byte l b = do
  pec_enabled ← gets (λ s. s.pec_enabled)
  when (ltb (l.i + 1) l.blocklen) (if ltb l.i 64 then ep0_put l.i b else temp_put (l.i - 64) b)
  pure (record {
    i = u8 (l.i + 1);
    blocklen = l.blocklen;
    pec = cond (pec_enabled && ltb (l.i + 1) l.blocklen) (pec_crc l.pec b) l.pec;
    rpec = cond (pec_enabled && l.i + 1 == l.blocklen) b l.rpec;
  })

-- The first byte is the size of the block; the code that follows the data is always read.
unfoldable pub take_byte : Locals → ℕ → M Locals
take_byte l b =
    if l.i == 0
    then if ltb 0xFE b || b == 0 then fail else store_byte (record l { blocklen = u8 (b + 2) }) b
    else store_byte l b

module _ (env : Env) (fuel : ℕ) where
  -- `while (i<blocklen)`. The loop makes at most 255 rounds, since `blocklen` is a BYTE.
  unfoldable pub read_rounds : ℕ → Locals → M Locals
  read_rounds zero l = λ _. hang
  read_rounds (suc left) l = if not (ltb l.i l.blocklen) then pure l else (do
    b ← i2c_bytein env fuel (l.i == 0) false (l.i + 2 == l.blocklen) (l.i + 1 == l.blocklen)
    l' ← take_byte l b
    read_rounds left l')

  abbrev pub max_rounds : ℕ
  max_rounds = 256

  -- From the address to the last byte; a failure goes to `rlstopfail`.
  unfoldable pub read_transaction : Request → M Locals
  read_transaction r = do
    out env fuel r.value
    out env fuel r.index
    i2c_restart env
    out env fuel (r.value + 1)
    pec_enabled ← gets (λ s. s.pec_enabled)
    read_rounds max_rounds (record {
      i = 0;
      blocklen = 255;
      pec = cond pec_enabled (header_pec env fuel r) 0;
      rpec = 0;
    })

  -- What comes after the loop; a failure goes to `rlfail`.
  unfoldable pub finish_block : Locals → M Bool
  finish_block l = do
    when (ltb 65 l.blocklen)
        (modify (λ s. record s { templen = l.blocklen - 65; tempptr = 0; count = 0 }))
    pec_enabled ← gets (λ s. s.pec_enabled)
    if pec_enabled && not (l.rpec == l.pec)
        then (do modify (λ s. record s { pec_failed = true }); fail)
        else pure tt
    arm (cond (ltb 65 l.blocklen) 64 (u8 (l.blocklen + 255)))
    pure true

  -- The request when no data are outstanding, with the labels `rlstopfail` and `rlfail`.
  unfoldable pub read_new_block : Request → M Bool
  read_new_block r =
      catch
        (do
          started ← i2c_start env
          if not started then fail else pure tt
          l ← catch (read_transaction r) (do i2c_stop env fuel; fail)
          finish_block l)
        (do arm 0; pure false)

  -- SMB_READ_BLOCK
  unfoldable pub read_block : Request → M Bool
  read_block r = do
    ep0_wait env fuel
    drop_stale
    outstanding ← gets (λ s. ltb 0 (sub16 s.templen s.tempptr))
    if outstanding then read_outstanding else read_new_block r
