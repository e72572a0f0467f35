-- ===== src/EndToEnd/Tests.antt =====
-- A board whose device acknowledges everything, and the libusb that is connected to it.
use smbusb.Prelude.{
  ◌≡◌, refl, ◌⊎◌, Bool, true, false, none, some, List, [], ◌∷◌, take, replicate, arith, min, cond,
  ℤ,
}
use smbusb.Firmware.State.{Fw, Run, ok, failed, hang, fault}
use smbusb.Firmware.Timeout.{IsValid}
use smbusb.Firmware.Commands.Dispatch.{handle_vendorcommand}
use smbusb.Firmware.Bus.{write_transaction, Carried}
use smbusb.Firmware.Bus.Bench.{bench, bench-IsRunning, bench-IsPrompt}
use smbusb.Fx2lp.State.{Libusb, Call, Transfer, Driver}
use smbusb.Fx2lp.Transfers.{read_word, write_word}
use smbusb.Firmware.Bus.BlockAnswers.{Unread}
use smbusb.Fx2lp.Blocks.{read_block}
use smbusb.EndToEnd.Drained.{replies, replies-outstanding}
use smbusb.EndToEnd.BlockRounds.{block_request}
use smbusb.EndToEnd.BlockReads.{BlockGot, read_block-BlockGot}
use smbusb.EndToEnd.{IsConnected, libusb_error_pipe, request_of}
use smbusb.EndToEnd.Words.{Stalled, WordRead, write_word-Carried_by, read_word-Answered_by}

abbrev powered : Fw
powered = record {
  pec_enabled = true;
  pec_failed = false;
  temp = replicate 192 9;
  tempptr = 0;
  templen = 0;
  mrq_pec = 0;
  rcv_pec = 0;
  count = 0;
  ep0buf = replicate 64 0;
  ep0bc = 0;
  time = 0;
  bus = [];
}

powered-IsValid : IsValid powered
powered-IsValid = record {
  ep0_size = refl;
  temp_size = refl;
  ptr_in = omega arith;
  len_in = omega arith;
  count_in = omega arith;
}

-- The state that a run leaves, and the status of its transfer.
unfoldable state_after : Fw → Run Bool → Fw
state_after s (ok b t) = t
state_after s (failed t) = t
state_after s hang = s
state_after s fault = s

unfoldable status_after : Transfer → Run Bool → ℤ
status_after t (ok true s) = cond t.inward (ℤ.pos (min t.wanted s.ep0bc)) (ℤ.pos t.wanted)
status_after t (ok false s) = libusb_error_pipe
status_after t (failed s) = libusb_error_pipe
status_after t hang = libusb_error_pipe
status_after t fault = libusb_error_pipe

unfoldable moved : Call → Fw → Fw
moved (Call.control t) s = state_after s (handle_vendorcommand bench 12 t.request (request_of t) s)
moved c s = s

unfoldable board : List Call → Fw
board [] = powered
board (c ∷ calls) = moved c (board calls)

unfoldable status_to : Call → Fw → ℤ
status_to (Call.control t) s =
    status_after t (handle_vendorcommand bench 12 t.request (request_of t) s)
status_to c s = ℤ.pos 0

abbrev wire : Libusb
wire = record {
  status = λ calls c. status_to c (board calls);
  data_in = λ calls c. take (moved c (board calls)).ep0bc (moved c (board calls)).ep0buf;
  opened = λ calls c. none;
  listed = λ calls. none;
}

wire-IsConnected : IsConnected wire bench 12 board
unfolding board moved status_to state_after status_after
wire-IsConnected = record {
  answered = λ calls t s e. record {
    moved = rw e refl;
    outward = λ out. rw (e, out) refl;
    inward = λ inwards. rw (e, inwards) refl;
    arrived = λ inwards. rw e refl;
  };
  stalled = λ calls t s e. (rw e refl, rw e refl);
}

abbrev opened : Driver
opened = record { device = some 1; calls = [] }

write_word-Carried_by_example :
    let after = write_word wire 0x16 0x44 0x1234 opened in
    ((after.0 ≡ ℤ.pos 0)
      × Carried [] (write_transaction true (0x16 ∷ 0x44 ∷ 0x34 ∷ 0x12 ∷ [])) (board after.1.calls))
    ⊎ Stalled after.0 (board after.1.calls)
unfolding board
write_word-Carried_by_example =
    write_word-Carried_by wire bench 12 board wire-IsConnected bench-IsRunning 0x16 0x44 0x1234
      opened powered-IsValid

read_word-Answered_by_example :
    let after = read_word wire 0x16 0x44 opened in
    WordRead powered 0x16 0x44 after.0 (board after.1.calls) ⊎ Stalled after.0 (board after.1.calls)
unfolding board
read_word-Answered_by_example =
    read_word-Answered_by wire bench 12 board wire-IsConnected bench-IsRunning bench-IsPrompt 0x16
      0x44 opened powered-IsValid

read_block-BlockGot_example :
    let after = read_block wire 4 (replicate 64 0) 0x16 0x44 opened in
    let r = request_of (block_request 0x16 0x44) in
    let t = board (Call.control (block_request 0x16 0x44) ∷ []) in
    BlockGot powered t r after.0 (board after.1.calls)
    ⊎ (Unread powered r t ⊎ (after.0 ≡ some (libusb_error_pipe, [])))
unfolding board
read_block-BlockGot_example =
    read_block-BlockGot wire bench 12 board wire-IsConnected bench-IsRunning (λ n. refl) 0x16 0x44
      bench-IsPrompt 4 (replicate 64 0) opened (omega arith) refl powered-IsValid refl

-- A block of 70 bytes of which 5 are still in `temp`.
abbrev reading : Fw
reading = record {
  pec_enabled = true;
  pec_failed = false;
  temp = 1 ∷ 2 ∷ 3 ∷ 4 ∷ 5 ∷ 6 ∷ replicate 186 0;
  tempptr = 1;
  templen = 6;
  mrq_pec = 0;
  rcv_pec = 0;
  count = 0;
  ep0buf = replicate 64 0;
  ep0bc = 64;
  time = 0;
  bus = [];
}

reading-IsValid : IsValid reading
reading-IsValid = record {
  ep0_size = refl;
  temp_size = refl;
  ptr_in = omega arith;
  len_in = omega arith;
  count_in = omega arith;
}

replies-outstanding_example :
    replies bench 12 (record { value = 0x16; index = 0x44; payload = [] }) 1 reading
    ≡ 2 ∷ 3 ∷ 4 ∷ 5 ∷ 6 ∷ []
replies-outstanding_example =
    replies-outstanding bench 12 bench-IsRunning (λ n. refl)
      (record { value = 0x16; index = 0x44; payload = [] }) 1 reading reading-IsValid refl
      (omega arith)
