-- ===== src/EndToEnd/BlockReads.antt =====
-- Reading a block, from the bus to the caller of the library.
use smbusb.Prelude.{
  ℕ, suc, ◌+◌, ◌-◌, ◌/◌, ◌<◌, ◌≤◌, ◌≡◌, refl, sym, ap, ◌∙◌, ◌⊎◌, inl, inr, Bool, true, false,
  Option, some, List, [], ◌∷◌, ◌++◌, take, drop, get_or, overlay, length, length-append,
  length-take, length-drop, length-overlay, take-overlay, take_of_length_le, min, arith, ℤ, below,
}
use smbusb.Firmware.State.{Env, Fw, Request, ok}
use smbusb.Firmware.Timeout.{IsRunning, IsValid}
use smbusb.Firmware.Commands.Dispatch.{decode, execute, handle_vendorcommand}
use smbusb.Firmware.Bus.Receive.{IsPrompt}
use smbusb.Firmware.Bus.BlockAnswers.{BlockAnswered, Unread}
use smbusb.Firmware.Bus.BlockRequests.{BlockOutcome, read_block-Answered}
use smbusb.Fx2lp.State.{Libusb, Call, Transfer, Driver, ◌>>=◌, vendor_in, control_transfer}
use smbusb.Fx2lp.Blocks.{read_block}
use smbusb.EndToEnd.{IsConnected, Accepted, libusb_error_pipe, Returns, Post-Returns, request_of}
use smbusb.EndToEnd.Drained.{outstanding, length-outstanding}
use smbusb.EndToEnd.BlockRounds.{block_request, rounds_lem}

-- The first transfer brings the size and the first bytes.
first_bytes :
    (brought garbage : List ℕ) (m : ℕ)
    → length brought ≡ m
    → 1 ≤ m
    → m ≤ 64
    → length garbage ≡ 64
    → (get_or (overlay (take 64 brought) garbage) 0 0 ≡ get_or brought 0 0)
      × (take (m - 1) (drop 1 (overlay (take 64 brought) garbage)) ≡ drop 1 brought)
first_bytes [] garbage m e low high room = absurd (omega arith)
first_bytes (x ∷ rest) [] m e low high room = absurd (omega arith)
first_bytes (x ∷ rest) (g ∷ garbage) m e low high room =
    rw (take_of_length_le 63 rest (omega arith))
      (refl, take-overlay (m - 1) rest garbage (omega arith) (omega arith))

split_first :
    {x : ℕ} {zs : List ℕ} (xs ys : List ℕ)
    → xs ++ ys ≡ x ∷ zs
    → 1 ≤ length xs
    → (get_or xs 0 0 ≡ x) × (drop 1 xs ++ ys ≡ zs)
split_first [] ys e h = absurd (omega arith)
split_first (x ∷ xs) ys e h = (ap (λ l. get_or l 0 0) e, ap (drop 1) e)

-- The call returned the block that the firmware read by its first transfer, and the other transfers
-- made no access to the bus.
pub record BlockGot (s t : Fw) (r : Request) (result : Option (ℤ × List ℕ)) (u : Fw) : Type 0 where
  pub after_first : Fw
  pub is_after : t ≡ after_first
  pub answered : BlockAnswered s r after_first
  pub value : result ≡ some (ℤ.pos (length answered.bytes), answered.bytes)
  pub quiet : u.bus ≡ t.bus

module _ (usb : Libusb) (env : Env) (fuel : ℕ) (board : List Call → Fw)
    (connected : IsConnected usb env fuel board) (run : IsRunning env fuel)
    (ready : (n : ℕ) → env.busy n ≡ false) (address command : ℕ) where
  whole_block :
      (left : ℕ) (garbage : List ℕ) (d : Driver) (t : Fw)
      → 4 ≤ left
      → length garbage ≡ 64
      → handle_vendorcommand env fuel 0x30
          (request_of (block_request address command))
          (board d.calls)
        ≡ ok true t
      → BlockAnswered (board d.calls) (request_of (block_request address command)) t
      → let after = read_block usb left garbage address command d in
        BlockGot
          (board d.calls)
          (board (Call.control (block_request address command) ∷ d.calls))
          (request_of (block_request address command))
          after.0
          (board after.1.calls)
  unfolding read_block ◌>>=◌ vendor_in control_transfer
  whole_block left garbage d t enough room e a =
      let rounds =
        rounds_lem usb env fuel board connected run ready address command
          ((t.templen - t.tempptr + 63) / 64) left (length a.bytes)
          (overlay (take 64 brought) garbage) (drop 1 brought)
          (record d { calls = Call.control first ∷ d.calls }) t acc.moved a.valid early refl
          (omega (arith, remaining)) (length-overlay (take 64 brought) garbage ∙ room)
          (omega (arith, remaining, length_is, length-drop 1 brought)) in
      rw (status_is, positive, starts.0, parts.0, starts.1)
        (record {
          after_first = t;
          is_after = acc.moved;
          answered = a;
          value = rounds.0 ∙ ap (λ xs. some (ℤ.pos (length a.bytes), xs)) parts.1;
          quiet = rounds.1 ∙ sym (ap (λ u. u.bus) acc.moved);
        })
    where
      first : Transfer
      first = block_request address command

      acc : Accepted usb env fuel board d.calls first t
      acc = connected.answered d.calls first t e

      brought : List ℕ
      brought = usb.data_in d.calls (Call.control first)

      m : ℕ
      m = min 64 (suc (length a.bytes))

      status_is : usb.status d.calls (Call.control first) ≡ ℤ.pos m
      status_is = acc.inward refl ∙ ap (λ n. ℤ.pos (min 64 n)) a.armed ∙ ap ℤ.pos (omega arith)

      positive : below (ℤ.pos m) 1 ≡ false
      positive = ground arith

      brought_is : brought ≡ take t.ep0bc t.ep0buf
      brought_is = acc.arrived refl

      length_is : length brought ≡ m
      length_is =
          ap length brought_is
          ∙ length-take t.ep0bc t.ep0buf
          ∙ omega (arith, a.armed, a.valid.ep0_size)

      starts :
          (get_or (overlay (take 64 brought) garbage) 0 0 ≡ get_or brought 0 0)
          × (take (m - 1) (drop 1 (overlay (take 64 brought) garbage)) ≡ drop 1 brought)
      starts = first_bytes brought garbage m length_is (omega arith) (omega arith) room

      outstanding_is : outstanding t ≡ take t.templen t.temp
      outstanding_is =
          ap (λ k. take (t.templen - k) (drop k t.temp)) a.at_start
          ∙ ap (λ k. take k t.temp) (omega arith)

      joined : brought ++ outstanding t ≡ length a.bytes ∷ a.bytes
      joined =
          ap (λ xs. xs ++ outstanding t) brought_is
          ∙ ap (◌++◌ (take t.ep0bc t.ep0buf)) outstanding_is
          ∙ a.returned

      parts : (get_or brought 0 0 ≡ length a.bytes) × (drop 1 brought ++ outstanding t ≡ a.bytes)
      parts = split_first brought (outstanding t) joined (omega (arith, length_is))

      remaining : t.templen - t.tempptr ≡ suc (length a.bytes) - m
      remaining = omega (
        arith,
        ap length joined,
        length-append brought (outstanding t),
        length-outstanding t a.valid,
        length_is,
      )

      early :
          0 < (t.templen - t.tempptr + 63) / 64 → t.count + (t.templen - t.tempptr + 63) / 64 ≤ 5
      early h = elim a.in_time [
        | inl gone ↦ absurd (omega (arith, gone))
        | inr reset ↦ omega (arith, reset, remaining, a.room)
      ]

  -- Over a connection that behaves as documented, to a board in a well-formed state in which no
  -- block is outstanding, with a running timer and an endpoint 0 that is ready at each poll,
  -- where the waits of `i2c_bytein` end before they time out (`IsPrompt`), and with 4 rounds at
  -- least, a call of `FX2LP_SMBReadBlock` goes in one of three ways. It returns the size and
  -- exactly the bytes of a block of 1 to 253 bytes, all of which came in one block transaction of
  -- the first transfer, with the right code where codes are on, while the other transfers make no
  -- access to the bus; or it returns the error of a stalled transfer, and no data; or the device
  -- announced 254 bytes, which the firmware did not read, and then nothing is said of the result.
  pub read_block-BlockGot :
      IsPrompt env fuel
      → (left : ℕ) (garbage : List ℕ) (d : Driver) → 4 ≤ left
      → length garbage ≡ 64
      → IsValid (board d.calls)
      → (board d.calls).templen ≡ 0
      → let after = read_block usb left garbage address command d in
        let r = request_of (block_request address command) in
        let t = board (Call.control (block_request address command) ∷ d.calls) in
        BlockGot (board d.calls) t r after.0 (board after.1.calls)
        ⊎ (Unread (board d.calls) r t ⊎ (after.0 ≡ some (libusb_error_pipe, [])))
  unfolding read_block ◌>>=◌ vendor_in control_transfer handle_vendorcommand decode execute
  read_block-BlockGot prompt left garbage d enough room v idle =
      judged ret.value ret.state ret.is_ok ret.holds
    where
      r : Request
      r = request_of (block_request address command)

      ret :
          Returns
            (BlockOutcome (board d.calls) r)
            (handle_vendorcommand env fuel 0x30 r (board d.calls))
      ret = Post-Returns (read_block-Answered env fuel run prompt r v idle)

      judged :
          (b : Bool) (t : Fw)
          → handle_vendorcommand env fuel 0x30 r (board d.calls) ≡ ok b t
          → BlockOutcome (board d.calls) r b t
          → (let after = read_block usb left garbage address command d in
              let u = board (Call.control (block_request address command) ∷ d.calls) in
              BlockGot (board d.calls) u r after.0 (board after.1.calls)
              ⊎ (Unread (board d.calls) r u ⊎ (after.0 ≡ some (libusb_error_pipe, []))))
      judged true t e (inl (eb, inl a)) = inl (whole_block left garbage d t enough room e a)
      judged true t e (inl (eb, inr q)) =
          inr (inl (rw (connected.answered d.calls (block_request address command) t e).moved q))
      judged true t e (inr q) = absurd (ground (arith, q.0))
      judged false t e (inl q) = absurd (ground (arith, q.0))
      judged false t e (inr q) =
          inr (inr (rw (connected.stalled d.calls (block_request address command) t e).1 refl))
