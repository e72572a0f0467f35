-- ===== src/Fx2lp/Tests.antt =====
-- Runs of the driver against a libusb that accepts every transfer.
use smbusb.Prelude.{
  ◌+◌, ◌/◌, true, false, arith, ◌≡◌, refl, none, some, [], ◌∷◌, ◌++◌, take, replicate, ℤ,
}
use smbusb.Fx2lp.State.{Libusb, Call, Driver}
use smbusb.Fx2lp.Blocks.{write_block, read_block}
use smbusb.Fx2lp.Arbitrary.{write}
use smbusb.Fx2lp.Flags.{sent_flags, start_flags, flags_of}
use smbusb.Fx2lp.Write.{write-sent}
use smbusb.Fx2lp.ReadBlock.{IsProgressing, IsAnswer, read_block-IsAnswer}
use smbusb.Fx2lp.Accepted.{IsAccepting, sent_data, AreSized}
use smbusb.Fx2lp.WriteBlock.{write_block-sent}

abbrev status_of : Call → ℤ
status_of (Call.control t) = ℤ.pos t.wanted
status_of c = ℤ.pos 0

abbrev accepting : Libusb
accepting = record {
  status = λ calls c. status_of c;
  data_in = λ calls c. [];
  opened = λ calls c. none;
  listed = λ calls. none;
}

accepting-IsAccepting : IsAccepting accepting
accepting-IsAccepting = record { all = λ calls t. refl }

abbrev fresh : Driver
fresh = record { device = some 1; calls = [] }

-- A block of 70 bytes takes two transfers.
write_block-sent_example :
    let after = write_block accepting 0x16 0x44 (replicate 70 5) 70 fresh in
    (after.0 ≡ ℤ.pos 70)
    × (sent_data after.1.calls ≡ sent_data [] ++ (70 ∷ take 70 (replicate 70 5)))
    × AreSized after.1.calls
write_block-sent_example =
    write_block-sent accepting accepting-IsAccepting 0x16 0x44 (replicate 70 5) 70 fresh tt

-- 70 bytes, of which the last 6 take a second transfer, which has STOP.
write-sent_example :
    let after = write accepting (ℤ.negsuc 0) true false true (replicate 70 5) 70 fresh in
    (after.0 ≡ ℤ.pos 70)
    × (sent_data after.1.calls ≡ sent_data [] ++ take 70 (replicate 70 5))
    × (sent_flags after.1.calls
        ≡ sent_flags [] ++ flags_of (start_flags true false) true ((70 + 63) / 64))
    × AreSized after.1.calls
write-sent_example =
    write-sent accepting accepting-IsAccepting (ℤ.negsuc 0) true false true (replicate 70 5) 70
      fresh (omega arith) tt

-- A device with a block of 70 bytes, all of them 70.
abbrev talking : Libusb
talking = record {
  status = λ calls c. ℤ.pos 64;
  data_in = λ calls c. replicate 64 70;
  opened = λ calls c. none;
  listed = λ calls. none;
}

talking-IsProgressing : IsProgressing talking
talking-IsProgressing = record { some_data = λ calls t. refl }

read_block-IsAnswer_example : IsAnswer (read_block talking 71 (replicate 64 0) 0x16 0x23 fresh).0
read_block-IsAnswer_example =
    read_block-IsAnswer talking talking-IsProgressing 0x16 0x23 71 (replicate 64 0) fresh refl
      (omega arith)
