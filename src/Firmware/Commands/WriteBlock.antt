-- ===== src/Firmware/Commands/WriteBlock.antt =====
-- `handle_vendorcommand`, the case SMB_WRITE_BLOCK. A block of more than 64 bytes comes in several
-- requests, is collected in `temp`, and goes to the bus when it is complete.
use smbusb.Prelude.{ℕ, zero, suc, ◌+◌, Bool, true, u8, u16, sub16, ltb, ◌==◌, cond}
use smbusb.Pec.{pec_crc}
use smbusb.Firmware.State.{
  Env, Request, M, pure, ◌>>=◌, ◌>>◌, gets, modify, if◌then◌else◌, when, ep0_get, temp_get,
  temp_put, ep0_receive,
}
use smbusb.Firmware.I2c.{i2c_stop, out}
use smbusb.Firmware.Commands.{or_stop, start_or_fail}
use smbusb.Firmware.Commands.ReadBlock.{drop_stale}

-- `while (i<blocklen) { temp[j] = *(EP0BUF+i); i++; j++; }` with `left` rounds left; `j` is a BYTE.
unfoldable pub copy_in : ℕ → ℕ → ℕ → M (Unit {0})
copy_in zero i j = pure tt
copy_in (suc left) i j = do b ← ep0_get i; temp_put j b; copy_in left (i + 1) (u8 (j + 1))

-- The first request of a long block: its size and 63 bytes.
unfoldable pub begin_long : ℕ → M Bool
begin_long size = do
  copy_in 63 1 0
  modify (λ s. record s { templen = size; tempptr = 63; count = 0 })
  pure true

-- The next `blocklen` bytes go to `temp` from `ptr` on.
unfoldable pub take_portion : ℕ → ℕ → M (Unit {0})
take_portion blocklen ptr = do
  copy_in blocklen 0 (u8 ptr)
  modify (λ s. record s { tempptr = u16 (s.tempptr + blocklen) })

-- A further request of a long block.
unfoldable pub continue_long : M (Unit {0})
continue_long = do
  more ← gets (λ s. ltb s.tempptr s.templen)
  rest ← gets (λ s. sub16 s.templen s.tempptr)
  ptr ← gets (λ s. s.tempptr)
  when more (take_portion (u8 (cond (ltb 64 rest) 64 rest)) ptr)

module _ (env : Env) (fuel : ℕ) where
  -- START, address, command and size, with the code so far.
  unfoldable pub write_header : Request → ℕ → M ℕ
  write_header r size = do
    start_or_fail env fuel
    out env fuel r.value
    out env fuel r.index
    out env fuel size
    pure (pec_crc (pec_crc (pec_crc 0 (u8 r.value)) (u8 r.index)) (u8 size))

  -- The bytes `read i`, `read (i + 1)`, ..., with the code `pec` of those before them. `i` is a
  -- BYTE and the limit at most 255, so it does not wrap.
  unfoldable pub write_rounds : (ℕ → M ℕ) → ℕ → ℕ → ℕ → M ℕ
  write_rounds read zero i pec = pure pec
  write_rounds read (suc left) i pec = do
    b ← read i
    out env fuel b
    write_rounds read left (i + 1) (pec_crc pec b)

  -- The code, where it is enabled, and STOP.
  unfoldable pub write_trailer : ℕ → M (Unit {0})
  write_trailer pec = do
    pec_enabled ← gets (λ s. s.pec_enabled)
    when pec_enabled (out env fuel pec)
    i2c_stop env fuel

  unfoldable pub send_long : Request → ℕ → M (Unit {0})
  send_long r size = do
    pec ← write_header r size
    pec ← write_rounds temp_get size 0 pec
    write_trailer pec
    modify (λ s. record s { tempptr = 0; templen = 0 })

  unfoldable pub send_short : Request → ℕ → M (Unit {0})
  send_short r size = do
    pec ← write_header r size
    pec ← write_rounds (λ i. ep0_get (1 + i)) size 0 pec
    write_trailer pec

  -- The request after the data are received, where `size` is the first byte.
  unfoldable pub write_received : Request → Bool → ℕ → M Bool
  write_received r idle size =
      if idle
      then (if ltb 64 size then begin_long size else or_stop env fuel (send_short r size))
      else (do
        continue_long
        complete ← gets (λ s. s.tempptr == s.templen)
        templen ← gets (λ s. s.templen)
        if complete then or_stop env fuel (send_long r templen) else pure true)

  -- SMB_WRITE_BLOCK
  unfoldable pub write_block : Request → M Bool
  write_block r = do
    ep0_receive env fuel r.payload
    drop_stale
    idle ← gets (λ s. s.templen == 0)
    size ← ep0_get 0
    write_received r idle size
