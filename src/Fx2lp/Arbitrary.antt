-- ===== src/Fx2lp/Arbitrary.antt =====
-- `FX2LP_SMBWrite` and `FX2LP_SMBRead`: arbitrary bytes, in transfers of at most 64, with flags that
-- tell the firmware where START and STOP stand.
use smbusb.Prelude.{
  ℕ, zero, suc, ◌+◌, ◌-◌, ◌*◌, ◌/◌, Bool, ◌&&◌, List, ◌++◌, take, drop, overlay, bit_and, bit_or,
  ◌==◌, cond, ℤ, below,
}
use smbusb.Fx2lp.State.{Libusb, M, pure, ◌>>=◌, vendor_in, vendor_out}

-- `if (condition) rs |= flag;`
abbrev pub set_flag : Bool → ℕ → ℕ → ℕ
set_flag condition flag rs = cond condition (bit_or rs flag) rs

-- `rs &= ~flag;` on a byte.
abbrev pub clear_flag : ℕ → ℕ → ℕ
clear_flag flag rs = bit_and rs (0xFF - flag)

abbrev pub start_first : ℕ
start_first = 0x1

abbrev pub restart_first : ℕ
restart_first = 0x2

abbrev pub stop_after : ℕ
stop_after = 0x4

abbrev pub first_read : ℕ
first_read = 0x1

abbrev pub last_read : ℕ
last_read = 0x2

-- How a loop ends: the function returns a status, or goes on with `status` and `rs`.
pub data Loop : Type 0 where
  returned : ℤ → Loop
  ended : ℤ → ℕ → Loop

module _ (usb : Libusb) where
  -- `while (i<wholeWrites)` with `left` rounds left; `rest` is the remainder.
  unfoldable pub write_rounds : Bool → List ℕ → ℕ → ℕ → ℕ → ℤ → ℕ → M Loop
  write_rounds stop bytes rest zero i status rs = pure (Loop.ended status rs)
  write_rounds stop bytes rest (suc left) i status rs = do
    let rs = set_flag ((left == 0) && (rest == 0) && stop) stop_after rs
    r ← vendor_out usb 0x50 64 rs (take 64 (drop (i * 64) bytes)) 64
    cond (below r.status 64) (pure (Loop.returned r.status)) (
        write_rounds stop bytes rest left (i + 1) r.status
          (clear_flag restart_first (clear_flag start_first rs)))

  -- The rest of the function.
  unfoldable pub write_rest : Bool → List ℕ → ℕ → ℕ → Loop → M ℤ
  write_rest stop bytes len rest (Loop.returned status) = pure status
  write_rest stop bytes len zero (Loop.ended status rs) =
      pure (cond (below status 1) status (ℤ.pos len))
  write_rest stop bytes len (suc n) (Loop.ended status rs) = do
    r ←
        vendor_out usb 0x50 (suc n) (set_flag stop stop_after rs)
          (take (suc n) (drop (len / 64 * 64) bytes)) (suc n)
    pure (cond (below r.status 1) r.status (ℤ.pos len))

  -- `status` has no value before the first transfer: `garbage` is what it holds. An `i` of the loop
  -- is the last one where no rounds are left.
  unfoldable pub write : ℤ → Bool → Bool → Bool → List ℕ → ℕ → M ℤ
  write garbage start restart stop bytes len = do
    let whole_writes = len / 64
    let remainder = len - whole_writes * 64
    let rs = set_flag restart restart_first (set_flag start start_first 0)
    l ← write_rounds stop bytes remainder whole_writes 0 garbage rs
    write_rest stop bytes len remainder l

  -- The bytes `new` over those of the buffer from `at` on.
  abbrev overlay_at : ℕ → List ℕ → List ℕ → List ℕ
  overlay_at at new buf = take at buf ++ overlay new (drop at buf)

  -- `while (i<wholeReads)` with `left` rounds left; the buffer that is read into comes back, too.
  unfoldable pub read_rounds : Bool → ℕ → ℕ → ℕ → ℤ → ℕ → List ℕ → M (Loop × List ℕ)
  read_rounds last rest zero i status rs buf = pure (Loop.ended status rs, buf)
  read_rounds last rest (suc left) i status rs buf = do
    let rs = set_flag (last && (left == 0) && (rest == 0)) last_read rs
    r ← vendor_in usb 0x51 64 rs 64
    cond (below r.status 64) (pure (Loop.returned r.status, overlay_at (i * 64) r.bytes buf)) (
        read_rounds last rest left (i + 1) r.status (clear_flag first_read rs)
          (overlay_at (i * 64) r.bytes buf))

  unfoldable pub read_rest : Bool → ℕ → ℕ → Loop × List ℕ → M (ℤ × List ℕ)
  read_rest last len rest (Loop.returned status, buf) = pure (status, buf)
  read_rest last len zero (Loop.ended status rs, buf) = pure (status, buf)
  read_rest last len (suc n) (Loop.ended status rs, buf) = do
    r ← vendor_in usb 0x51 (suc n) (set_flag last last_read rs) (suc n)
    pure (r.status, overlay_at (len / 64 * 64) r.bytes buf)

  unfoldable pub read : ℤ → ℕ → List ℕ → Bool → M (ℤ × List ℕ)
  read garbage len buf last = do
    let whole_reads = len / 64
    let remainder = len - whole_reads * 64
    l ← read_rounds last remainder whole_reads 0 garbage first_read buf
    read_rest last len remainder l
