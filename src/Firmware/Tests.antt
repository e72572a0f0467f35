-- ===== src/Firmware/Tests.antt =====
-- Runs of the firmware on a concrete bus: the device acknowledges everything, STOP is never seen, so
-- that the timer ends each wait for it, and endpoint 0 is always ready.
use smbusb.Prelude.{refl, inl, true, false, ◌∷◌, replicate, arith}
use smbusb.Firmware.State.{Env, Fw, Request, timer0_isr}
use smbusb.Firmware.Keeps.{Keeps}
use smbusb.Firmware.Timeout.{IsRunning, IsValid}
use smbusb.Firmware.Commands.Dispatch.{decode, handle_vendorcommand}
use smbusb.Firmware.Reach.{power_up, Reach, here, next, ticked, power_up-IsValid}
use smbusb.Firmware.Safety.Served.{IsServed, handle_vendorcommand-Keeps}

abbrev bench : Env
bench = record {
  i2cs = λ bus t. record { stop = false; berr = false; ack = true; done = true };
  i2dat = λ bus t. 7;
  ticks = λ t. 1;
  busy = λ t. false;
}

bench-IsRunning : IsRunning bench 12
bench-IsRunning = record { slow = λ t. omega arith; timer = λ t. omega arith; host = λ t. inl refl }

-- The first request of a block write of 70 bytes, to the address 0x16.
abbrev long_write : Request
long_write = record { value = 0x16; index = 0x44; payload = 70 ∷ replicate 63 9 }

long_write-IsServed : IsServed (decode 0x32) long_write
unfolding decode IsServed
long_write-IsServed = record {
  size = 70;
  rest = replicate 63 9;
  starts = refl;
  other = ground arith;
  small = omega arith;
}

handle_vendorcommand-Keeps_example : Keeps IsValid (handle_vendorcommand bench 12 0x32 long_write)
handle_vendorcommand-Keeps_example =
    handle_vendorcommand-Keeps bench 12 bench-IsRunning 0x32 long_write long_write-IsServed

-- Power-up, then an interrupt of timer 0.
abbrev up : Fw
up = power_up (replicate 192 5) (replicate 64 6)

up-Reach : Reach bench 12 up (timer0_isr up)
up-Reach = next here (ticked refl)

power_up-IsValid_example : IsValid (timer0_isr up)
power_up-IsValid_example =
    power_up-IsValid bench 12 bench-IsRunning (replicate 192 5) (replicate 64 6) refl refl up-Reach
