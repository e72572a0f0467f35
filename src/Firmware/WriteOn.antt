-- ===== src/Firmware/WriteOn.antt =====
-- A block write that does not fit one request: each further request appends its data to `temp`.
use smbusb.Prelude.{
  ◌∙◌, ap, take-append, take-overlay, length-append, length-overlay, ℕ, ◌+◌, ◌<◌, ◌≡◌, sym, true,
  List, ◌++◌, arith, cond, ltb, u8, sub16, length, take, drop, overlay, length-take, length-drop,
  take-append-drop,
}
use smbusb.Firmware.State.{Fw, ok, ◌>>=◌, ◌>>◌, gets, modify, when}
use smbusb.Firmware.Timeout.{IsValid}
use smbusb.Firmware.ReadOn.{portion}
use smbusb.Firmware.Copies.{copy_in_behind}
use smbusb.Firmware.Commands.WriteBlock.{take_portion, continue_long}

-- The state after the next bytes arrived.
abbrev pub appended : Fw → Fw
appended s = record s {
  temp = take s.tempptr s.temp ++ overlay (take (portion s) s.ep0buf) (drop s.tempptr s.temp);
  tempptr = s.tempptr + portion s;
}

take_portion_lem :
    (s : Fw)
    → IsValid s
    → s.tempptr < s.templen
    → take_portion (portion s) s.tempptr s ≡ ok tt (appended s)
unfolding take_portion modify ◌>>◌ ◌>>=◌
take_portion_lem s v more =
    rw
      (
        is_ptr,
        copy_in_behind (portion s) 0 (take s.tempptr s.temp) (drop s.tempptr s.temp) s (omega arith)
            (omega (arith, length-take s.tempptr s.temp))
            (omega (arith, length-drop s.tempptr s.temp)) (sym (take-append-drop s.tempptr s.temp)),
      )
      (ground arith)
  where
    is_ptr : u8 s.tempptr ≡ length (take s.tempptr s.temp)
    is_ptr = omega (arith, length-take s.tempptr s.temp)

-- A further request appends the next bytes of the buffer, 64 at most, to those in `temp`.
pub continue_long_lem :
    (s : Fw) → IsValid s → s.tempptr < s.templen → continue_long s ≡ ok tt (appended s)
unfolding continue_long gets when ◌>>=◌
continue_long_lem s v more = rw (is_more, is_portion) (take_portion_lem s v more)
  where
    is_more : ltb s.tempptr s.templen ≡ true
    is_more = ground arith

    is_portion :
        u8 (cond (ltb 64 (sub16 s.templen s.tempptr)) 64 (sub16 s.templen s.tempptr)) ≡ portion s
    is_portion = ground arith

-- The bytes of the block that have arrived.
abbrev pub gathered : Fw → List ℕ
gathered s = take s.tempptr s.temp

pub gathered-appended :
    (s : Fw)
    → IsValid s
    → s.tempptr < s.templen
    → gathered (appended s) ≡ gathered s ++ take (portion s) s.ep0buf
gathered-appended s v more =
    ap (λ n. take n (gathered s ++ tail)) length_first
    ∙ take-append (portion s) (gathered s) tail
    ∙ ap (◌++◌ (gathered s)) (
        take-overlay (portion s) (take (portion s) s.ep0buf) (drop s.tempptr s.temp)
          (omega (arith, length-take (portion s) s.ep0buf))
          (omega (arith, length-drop s.tempptr s.temp)))
  where
    tail : List ℕ
    tail = overlay (take (portion s) s.ep0buf) (drop s.tempptr s.temp)

    length_first : s.tempptr + portion s ≡ length (gathered s) + portion s
    length_first = omega (arith, length-take s.tempptr s.temp)

pub appended-IsValid : (s : Fw) → IsValid s → s.tempptr < s.templen → IsValid (appended s)
appended-IsValid s v more =
    let size : length (appended s).temp ≡ 192 = omega (
      arith,
      length-append (gathered s) (overlay (take (portion s) s.ep0buf) (drop s.tempptr s.temp)),
      length-overlay (take (portion s) s.ep0buf) (drop s.tempptr s.temp),
      length-take s.tempptr s.temp,
      length-drop s.tempptr s.temp,
    ) in
    record {
      ep0_size = v.ep0_size;
      temp_size = size;
      ptr_in = omega arith;
      len_in = v.len_in;
      count_in = v.count_in;
    }
