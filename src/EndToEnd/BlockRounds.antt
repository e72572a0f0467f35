-- ===== src/EndToEnd/BlockRounds.antt =====
-- The rounds of `FX2LP_SMBReadBlock` on a board: they end with the whole block.
use smbusb.Prelude.{
  ℕ, zero, suc, ◌+◌, ◌-◌, ◌/◌, ◌<◌, ◌≤◌, ◌≡◌, refl, ap, ◌∙◌, true, false, some, List, [], ◌∷◌, ◌++◌,
  append-nil, append_assoc, take, overlay, length, length-append, length-overlay, take-overlay,
  take-append-drop, take_of_length_le, arith, ltb, u16, ℤ, below,
}
use smbusb.Firmware.State.{Env, Fw}
use smbusb.Firmware.Timeout.{IsRunning, IsValid}
use smbusb.Firmware.ReadOn.{portion, advanced, advanced-IsValid}
use smbusb.Firmware.Commands.Dispatch.{decode, execute, handle_vendorcommand}
use smbusb.Fx2lp.State.{Libusb, Call, Transfer, Driver, ◌>>=◌, vendor_in, control_transfer}
use smbusb.Fx2lp.Blocks.{read_block_rounds}
use smbusb.EndToEnd.{IsConnected, Accepted, request_of}
use smbusb.EndToEnd.Drained.{
  outstanding, outstanding-advanced, polled, polled-IsValid, front, length-front, front-advanced,
  read_block-advanced,
}

abbrev pub block_request : ℕ → ℕ → Transfer
block_request address command = record {
  inward = true;
  request = 0x30;
  value = u16 address;
  index = u16 command;
  sent = [];
  wanted = 64;
}

module _ (usb : Libusb) (env : Env) (fuel : ℕ) (board : List Call → Fw)
    (connected : IsConnected usb env fuel board) (run : IsRunning env fuel)
    (ready : (n : ℕ) → env.busy n ≡ false) (address command : ℕ) where
  -- What one round gets.
  fetched :
      (d : Driver) (s : Fw)
      → board d.calls ≡ s
      → IsValid s
      → s.count < 5
      → s.tempptr < s.templen
      → Accepted usb env fuel board d.calls
          (block_request address command)
          (advanced (polled env s))
  unfolding handle_vendorcommand decode execute
  fetched d s e v early more =
      connected.answered d.calls (block_request address command) (advanced (polled env s)) (
        rw e (
          read_block-advanced env fuel run ready (request_of (block_request address command)) s v
            early more))

  pub rounds_lem :
      (n left total : ℕ) (tmp bytes : List ℕ) (d : Driver) (s : Fw)
      → board d.calls ≡ s
      → IsValid s
      → (0 < n → s.count + n ≤ 5)
      → n ≡ (s.templen - s.tempptr + 63) / 64
      → n < left
      → length tmp ≡ 64
      → total ≡ length bytes + (s.templen - s.tempptr)
      → let after = read_block_rounds usb address command left total tmp bytes d in
        (after.0 ≡ some (ℤ.pos total, bytes ++ outstanding s)) × ((board after.1.calls).bus ≡ s.bus)
  unfolding read_block_rounds ◌>>=◌ vendor_in control_transfer
  rounds_lem n zero total tmp bytes d s e v early rounds enough room size = absurd (omega arith)
  rounds_lem zero (suc left) total tmp bytes d s e v early rounds enough room size =
      rw (all, none_left, append-nil bytes) (refl, ap (λ w. w.bus) e)
    where
      all : ltb (length bytes) total ≡ false
      all = ground arith

      none_left : s.templen - s.tempptr ≡ 0
      none_left = omega arith
  rounds_lem (suc n) (suc left) total tmp bytes d s e v early rounds enough room size =
      let rest =
        rounds_lem n left total (overlay (take 64 brought) tmp) (bytes ++ front s)
          (record d { calls = Call.control t ∷ d.calls }) (advanced s') acc.moved
          (advanced-IsValid s' v' more) (λ h. omega (arith, run.slow s.time, in_time)) rounds_left
          (omega arith) (length-overlay (take 64 brought) tmp ∙ room) size_left in
      rw (more_is, status_is, positive, got_is)
        (rest.0 ∙ ap (λ xs. some (ℤ.pos total, xs)) whole, rest.1)
    where
      t : Transfer
      t = block_request address command

      s' : Fw
      s' = polled env s

      v' : IsValid s'
      v' = polled-IsValid env s v

      in_time : s.count + suc n ≤ 5
      in_time = early (omega arith)

      more : s.tempptr < s.templen
      more = omega arith

      more_is : ltb (length bytes) total ≡ true
      more_is = ground arith

      acc : Accepted usb env fuel board d.calls t (advanced s')
      acc = fetched d s e v (omega (arith, in_time)) more

      brought : List ℕ
      brought = usb.data_in d.calls (Call.control t)

      brought_is : brought ≡ front s
      brought_is = acc.arrived refl ∙ front-advanced s' v' more

      status_is : usb.status d.calls (Call.control t) ≡ ℤ.pos (portion s)
      status_is = acc.inward refl ∙ ap ℤ.pos (omega arith)

      positive : below (ℤ.pos (portion s)) 0 ≡ false
      positive = ground arith

      got_is : take (portion s) (overlay (take 64 brought) tmp) ≡ front s
      got_is =
          ap (λ xs. take (portion s) (overlay (take 64 xs) tmp)) brought_is
          ∙ ap (λ xs. take (portion s) (overlay xs tmp))
              (take_of_length_le 64 (front s) (omega (arith, length-front s v more)))
          ∙ take-overlay (portion s) (front s) tmp (length-front s v more) (omega arith)

      rounds_left : n ≡ ((advanced s').templen - (advanced s').tempptr + 63) / 64
      rounds_left = ground arith

      size_left :
          total ≡ length (bytes ++ front s) + ((advanced s').templen - (advanced s').tempptr)
      size_left = ground (arith, length-append bytes (front s), length-front s v more)

      whole : (bytes ++ front s) ++ outstanding (advanced s') ≡ bytes ++ outstanding s
      whole =
          append_assoc bytes (front s) (outstanding (advanced s'))
          ∙ ap (◌++◌ bytes) (
              ap (◌++◌ (front s)) (outstanding-advanced s' v' more)
              ∙ take-append-drop (portion s) (outstanding s))
