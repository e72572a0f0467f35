-- ===== src/Firmware/ReadOn.antt =====
-- A block that did not fit one request: what a further request does while bytes are outstanding.
use Prim.Native.Nat.{min}
use smbusb.Prelude.{
  ℕ, ◌+◌, ◌-◌, ◌<◌, ◌≡◌, true, arith, cond, ltb, u8, sub16, ◌==◌, take, drop, overlay,
  length-overlay,
}
use smbusb.Firmware.State.{Fw, ok, ◌>>=◌, ◌>>◌, gets, modify, arm}
use smbusb.Firmware.Timeout.{IsValid}
use smbusb.Firmware.Copies.{copy_out_lem}
use smbusb.Firmware.Commands.ReadBlock.{send_portion, read_outstanding}

-- The number of bytes that the next request returns.
abbrev pub portion : Fw → ℕ
portion s = min 64 (s.templen - s.tempptr)

-- The state after it.
abbrev pub advanced : Fw → Fw
advanced s = record s {
  ep0buf = overlay (take (portion s) (drop s.tempptr s.temp)) s.ep0buf;
  ep0bc = portion s;
  tempptr = cond (s.tempptr + portion s == s.templen) 0 (s.tempptr + portion s);
  templen = cond (s.tempptr + portion s == s.templen) 0 s.templen;
}

send_portion_lem :
    (s : Fw)
    → IsValid s
    → s.tempptr < s.templen
    → send_portion (portion s) s.tempptr s ≡ ok true (advanced s)
unfolding send_portion modify arm ◌>>◌
send_portion_lem s v more =
    rw (is_ptr, copy_out_lem (portion s) s.tempptr s (omega arith) (omega arith) (omega arith))
      (ground arith)
  where
    is_ptr : u8 s.tempptr ≡ s.tempptr
    is_ptr = omega arith

-- A request for outstanding data copies the next bytes of `temp`, 64 at most, to the front of the
-- buffer of endpoint 0, returns just those, and forgets the block after its last byte.
pub read_outstanding_lem :
    (s : Fw) → IsValid s → s.tempptr < s.templen → read_outstanding s ≡ ok true (advanced s)
unfolding read_outstanding gets ◌>>=◌
read_outstanding_lem s v more = rw is_portion (send_portion_lem s v more)
  where
    is_portion :
        cond (ltb 64 (sub16 s.templen s.tempptr)) 64 (sub16 s.templen s.tempptr) ≡ portion s
    is_portion = ground arith

pub advanced-IsValid : (s : Fw) → IsValid s → s.tempptr < s.templen → IsValid (advanced s)
advanced-IsValid s v more =
    let kept = length-overlay (take (portion s) (drop s.tempptr s.temp)) s.ep0buf in ground arith
