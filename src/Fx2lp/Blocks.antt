-- ===== src/Fx2lp/Blocks.antt =====
-- `FX2LP_SMBReadBlock` and `FX2LP_SMBWriteBlock`: a block that is longer than a transfer.
use smbusb.Prelude.{
  ℕ, zero, suc, ◌+◌, ◌-◌, ◌*◌, ◌/◌, Option, none, some, List, [], ◌∷◌, ◌++◌, take, drop, get_or,
  length, overlay, ltb, cond, ℤ, is, below, nat_of,
}
use smbusb.Fx2lp.State.{Libusb, M, Reply, pure, ◌>>=◌, vendor_in, vendor_out}

module _ (usb : Libusb) where
  -- `while (i<wholeWrites)` with `left` rounds left: the status of a short transfer, where the
  -- function returns it.
  unfoldable pub block_rounds : ℕ → ℕ → List ℕ → ℕ → ℕ → M (Option ℤ)
  block_rounds address command tmp zero i = pure none
  block_rounds address command tmp (suc left) i = do
    r ← vendor_out usb 0x32 address command (take 64 (drop (i * 64) tmp)) 64
    cond (is r.status 64) (block_rounds address command tmp left (i + 1)) (pure (some r.status))

  -- `if (remainder>0)`
  unfoldable pub block_rest : ℕ → ℕ → List ℕ → ℕ → ℕ → M (Option ℤ)
  block_rest address command tmp whole_writes zero = pure none
  block_rest address command tmp whole_writes (suc n) = do
    r ← vendor_out usb 0x32 address command (take (suc n) (drop (whole_writes * 64) tmp)) (suc n)
    pure (cond (is r.status (suc n)) none (some r.status))

  abbrev or_len : ℕ → Option ℤ → ℤ
  or_len len (some status) = status
  or_len len none = ℤ.pos len

  -- What follows the loop, with what the loop returned.
  unfoldable pub after_rounds : ℕ → ℕ → List ℕ → ℕ → ℕ → Option ℤ → M ℤ
  after_rounds address command tmp whole_writes len (some status) = pure status
  after_rounds address command tmp whole_writes len none = do
    early ← block_rest address command tmp whole_writes ((len + 1) - whole_writes * 64)
    pure (or_len len early)

  -- `data` has at least `len` bytes, a number of 8 bits.
  unfoldable pub write_block : ℕ → ℕ → List ℕ → ℕ → M ℤ
  write_block address command bytes len = do
    let whole_writes = (len + 1) / 64
    let tmp = len ∷ take len bytes
    early ← block_rounds address command tmp whole_writes 0
    after_rounds address command tmp whole_writes len early

  -- What the buffer of 64 bytes holds after a transfer; before the first one its bytes are `old`.
  abbrev buffered : List ℕ → Reply → List ℕ
  buffered old r = overlay r.bytes old

  -- `while (rcvd < total)`: the bytes so far are in `data`. A transfer of no bytes leaves the
  -- function in its loop, so the rounds are on fuel.
  unfoldable pub read_block_rounds : ℕ → ℕ → ℕ → ℕ → List ℕ → List ℕ → M (Option (ℤ × List ℕ))
  read_block_rounds address command zero total tmp bytes = pure none
  read_block_rounds address command (suc fuel) total tmp bytes =
      cond (ltb (length bytes) total)
        (vendor_in usb 0x30 address command 64 >>= λ r.
          cond (below r.status 0) (pure (some (r.status, bytes))) (
            read_block_rounds address command fuel total (buffered tmp r)
              (bytes ++ take (nat_of r.status) (buffered tmp r))))
        (pure (some (ℤ.pos total, bytes)))

  -- The result, and what was written to `data`.
  unfoldable pub read_block : ℕ → List ℕ → ℕ → ℕ → M (Option (ℤ × List ℕ))
  read_block fuel garbage address command = do
    r ← vendor_in usb 0x30 address command 64
    let tmp = buffered garbage r
    cond (below r.status 1) (pure (some (r.status, []))) (
        read_block_rounds address command fuel (get_or tmp 0 0) tmp
          (take (nat_of r.status - 1) (drop 1 tmp)))
