-- ===== src/EndToEnd/Words.antt =====
-- Writing and reading a word, from the function of the library to the bus.
use smbusb.Prelude.{
  ℕ, ◌+◌, ◌*◌, ◌/◌, ◌≡◌, refl, ap, ◌∙◌, ◌⊎◌, inl, inr, Bool, true, false, List, [], ◌∷◌, take,
  length, get_or, min, arith, u8, u16, ℤ,
}
use smbusb.Firmware.State.{Env, Fw, Event, ok, set_stop}
use smbusb.Firmware.Timeout.{IsRunning, IsValid}
use smbusb.Firmware.Commands.Dispatch.{decode, execute, handle_vendorcommand}
use smbusb.Firmware.Bus.{
  write_transaction, read_transaction, Carried, Carried-eq, Outcome, finished, aborted,
}
use smbusb.Firmware.Bus.Writes.{write_word-Carried}
use smbusb.Firmware.Bus.Receive.{IsPrompt}
use smbusb.Firmware.Bus.Reads.{Answered}
use smbusb.Firmware.Bus.WordReads.{read_word-Answered}
use smbusb.Fx2lp.State.{
  Libusb, Call, Transfer, Driver, ◌>>=◌, vendor_in, vendor_out, control_transfer, variable,
  value_or_status,
}
use smbusb.Fx2lp.Transfers.{read_word, write_word}
use smbusb.EndToEnd.{IsConnected, libusb_error_pipe, Returns, Post-Returns, request_of}

-- The call failed, and STOP was the last access to the bus.
pub record Stalled (status : ℤ) (s : Fw) : Type 0 where
  pub error : status ≡ libusb_error_pipe
  pub bus : List Event
  pub stopped : s.bus ≡ set_stop ∷ bus

abbrev write_word_transfer : ℕ → ℕ → ℕ → Transfer
write_word_transfer address command word = record {
  inward = false;
  request = 0x21;
  value = u16 address;
  index = u16 command;
  sent = u8 word ∷ u8 (word / 256) ∷ [];
  wanted = 2;
}

abbrev read_word_transfer : ℕ → ℕ → Transfer
read_word_transfer address command = record {
  inward = true;
  request = 0x20;
  value = u16 address;
  index = u16 command;
  sent = [];
  wanted = 2;
}

-- The call returned the word whose bytes, the low one first, a read transaction brought.
pub record WordRead (s : Fw) (address command : ℕ) (status : ℤ) (t : Fw) : Type 0 where
  pub discarded : ℕ
  pub lo : ℕ
  pub hi : ℕ
  pub value : status ≡ ℤ.pos (u8 lo + 256 * u8 hi)
  pub carried :
      Carried s.bus (read_transaction s.pec_enabled address command discarded (lo ∷ hi ∷ [])) t

two_bytes : (xs : List ℕ) → length xs ≡ 2 → xs ≡ get_or xs 0 0 ∷ get_or xs 1 0 ∷ []
two_bytes [] e = absurd (omega arith)
two_bytes (x ∷ []) e = absurd (omega arith)
two_bytes (x ∷ y ∷ []) e = refl
two_bytes (x ∷ y ∷ z ∷ xs) e = absurd (omega arith)

word_value :
    (st : ℤ) (data_in : List ℕ) (lo hi : ℕ)
    → st ≡ ℤ.pos 2
    → data_in ≡ lo ∷ hi ∷ []
    → value_or_status
        (record { status = st; bytes = take 2 data_in })
        2
        (variable 4 (take 2 data_in))
      ≡ ℤ.pos (u8 lo + 256 * u8 hi)
word_value st data_in lo hi e e' = rw (e, e') (ap ℤ.pos (omega arith))

module _ (usb : Libusb) (env : Env) (fuel : ℕ) (board : List Call → Fw)
    (connected : IsConnected usb env fuel board) (run : IsRunning env fuel) where
  written :
      (t : Transfer) (calls : List Call) (tx : List Event)
      → Returns
          (Outcome (Carried (board calls).bus tx))
          (handle_vendorcommand env fuel t.request (request_of t) (board calls))
      → t.inward ≡ false
      → ((usb.status calls (Call.control t) ≡ ℤ.pos t.wanted)
          × Carried (board calls).bus tx (board (Call.control t ∷ calls)))
        ⊎ Stalled (usb.status calls (Call.control t)) (board (Call.control t ∷ calls))
  written t calls tx ret out = judged ret.value ret.state ret.is_ok ret.holds
    where
      judged :
          (b : Bool) (s : Fw)
          → handle_vendorcommand env fuel t.request (request_of t) (board calls) ≡ ok b s
          → Outcome (Carried (board calls).bus tx) b s
          → ((usb.status calls (Call.control t) ≡ ℤ.pos t.wanted)
              × Carried (board calls).bus tx (board (Call.control t ∷ calls)))
            ⊎ Stalled (usb.status calls (Call.control t)) (board (Call.control t ∷ calls))
      judged true s e (finished c) =
          let accepted = connected.answered calls t s e in
          inl (accepted.outward out, rw accepted.moved c)
      judged false s e (aborted {bus} stop v) =
          let stalled = connected.stalled calls t s e in
          inr (record { error = stalled.1; bus = bus; stopped = rw stalled.0 stop })

  -- Over a connection that behaves as documented, to a board in a well-formed state, with a running
  -- timer and host, `FX2LP_SMBWriteWord` either returns 0, and exactly one transaction with the
  -- address, the command, the low and the high byte of the word and, where codes are on, their code
  -- went over the bus; or it returns the error of a stalled transfer, and STOP was the last access.
  pub write_word-Carried_by :
      (address command word : ℕ) (d : Driver)
      → IsValid (board d.calls)
      → let after = write_word usb address command word d in
        ((after.0 ≡ ℤ.pos 0)
          × Carried
              (board d.calls).bus
              (write_transaction
                (board d.calls).pec_enabled
                (u8 (u16 address) ∷ u8 (u16 command) ∷ u8 word ∷ u8 (word / 256) ∷ []))
              (board after.1.calls))
        ⊎ Stalled after.0 (board after.1.calls)
  unfolding write_word ◌>>=◌ vendor_out control_transfer handle_vendorcommand decode execute
  write_word-Carried_by address command word d v =
      elim (written t d.calls _
        (Post-Returns (
          write_word-Carried env fuel run (request_of t) (board d.calls) v (u8 word)
            (u8 (word / 256)) [] refl))
        refl) [
          | inl done ↦ inl (rw done.0 refl, done.1)
          | inr stalled ↦ inr (record {
            error = rw stalled.error refl;
            bus = stalled.bus;
            stopped = stalled.stopped;
          })
        ]
    where
      t : Transfer
      t = write_word_transfer address command word

  -- Over a connection that behaves as documented, to a board in a well-formed state, with a
  -- running timer and host, and where the waits of `i2c_bytein` end before they time out
  -- (`IsPrompt`), `FX2LP_SMBReadWord` either returns the word whose low and high byte came in
  -- exactly one read transaction, with the right code where codes are on; or it returns the error
  -- of a stalled transfer, and STOP was the last access.
  pub read_word-Answered_by :
      IsPrompt env fuel
      → (address command : ℕ) (d : Driver) → IsValid (board d.calls)
      → let after = read_word usb address command d in
        WordRead (board d.calls) (u16 address) (u16 command) after.0 (board after.1.calls)
        ⊎ Stalled after.0 (board after.1.calls)
  unfolding read_word ◌>>=◌ vendor_in control_transfer handle_vendorcommand decode execute
  read_word-Answered_by prompt address command d v = judged ret.value ret.state ret.is_ok ret.holds
    where
      t : Transfer
      t = read_word_transfer address command

      ret :
          Returns
            (Outcome (Answered (board d.calls) (request_of t) 2))
            (handle_vendorcommand env fuel 0x20 (request_of t) (board d.calls))
      ret = Post-Returns (read_word-Answered env fuel run prompt (request_of t) (board d.calls) v)

      judged :
          (b : Bool) (s : Fw)
          → handle_vendorcommand env fuel t.request (request_of t) (board d.calls) ≡ ok b s
          → Outcome (Answered (board d.calls) (request_of t) 2) b s
          → (let after = read_word usb address command d in
              WordRead (board d.calls) (u16 address) (u16 command) after.0 (board after.1.calls)
              ⊎ Stalled after.0 (board after.1.calls))
      judged true s e (finished a) =
          let accepted = connected.answered d.calls t s e in
          let lo : ℕ = get_or a.bytes 0 0 in
          let hi : ℕ = get_or a.bytes 1 0 in
          let bytes_are : a.bytes ≡ lo ∷ hi ∷ [] = two_bytes a.bytes a.sized in
          inl (record {
            discarded = a.discarded;
            lo = lo;
            hi = hi;
            value =
                word_value (usb.status d.calls (Call.control t))
                  (usb.data_in d.calls (Call.control t)) lo hi
                  (accepted.inward refl ∙ ap (λ n. ℤ.pos (min 2 n)) a.armed)
                  (accepted.arrived refl
                    ∙ ap (λ n. take n s.ep0buf) a.armed
                    ∙ a.returned
                    ∙ bytes_are);
            carried =
                Carried-eq refl
                  (ap
                    (read_transaction (board d.calls).pec_enabled (u16 address) (u16 command)
                      a.discarded)
                    bytes_are)
                  (rw accepted.moved a.carried);
          })
      judged false s e (aborted {bus} stop v') =
          let stalled = connected.stalled d.calls t s e in
          inr (record { error = rw stalled.1 refl; bus = bus; stopped = rw stalled.0 stop })
