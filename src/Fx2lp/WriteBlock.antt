-- ===== src/Fx2lp/WriteBlock.antt =====
-- `FX2LP_SMBWriteBlock` sends the size and the data, in transfers that fit endpoint 0.
use smbusb.Prelude.{
  ℕ, zero, suc, ◌+◌, ◌-◌, ◌*◌, ◌/◌, ◌≤◌, ◌≡◌, refl, sym, ap, ◌∙◌, List, ◌∷◌, ◌++◌, append_assoc,
  append-nil, arith, take, drop, u16, false, length-take, take_add, take_of_length_le, Option, none,
  some, ℤ,
}
use smbusb.Fx2lp.State.{Libusb, Driver, Call, Transfer, ◌>>=◌, vendor_out, control_transfer}
use smbusb.Fx2lp.Blocks.{block_rounds, block_rest, after_rounds, write_block}
use smbusb.Fx2lp.Accepted.{IsAccepting, sent_data, AreSized, split_rounds}

abbrev block_transfer : ℕ → ℕ → List ℕ → ℕ → Transfer
block_transfer address command bytes n = record {
  inward = false;
  request = 0x32;
  value = u16 address;
  index = u16 command;
  sent = bytes;
  wanted = n;
}

module _ (usb : Libusb) (accepting : IsAccepting usb) where
  -- The rounds send the next `left * 64` bytes of `tmp`.
  block_rounds_lem :
      (address command : ℕ) (tmp : List ℕ) (left i : ℕ) (s : Driver)
      → AreSized s.calls
      → let after = block_rounds usb address command tmp left i s in
        (after.0 ≡ none)
        × (sent_data after.1.calls ≡ sent_data s.calls ++ take (left * 64) (drop (i * 64) tmp))
        × AreSized after.1.calls
  unfolding block_rounds ◌>>=◌ vendor_out control_transfer
  block_rounds_lem address command tmp zero i s sized =
      (refl, sym (append-nil (sent_data s.calls)), sized)
  block_rounds_lem address command tmp (suc left) i s sized =
      let rest =
        block_rounds_lem address command tmp left (i + 1)
          (record s { calls = Call.control sent ∷ s.calls })
          ((omega (arith, length-take 64 (drop (i * 64) tmp)), omega arith), sized) in
      rw (accepting.all s.calls sent) (
        rest.0,
        rest.1
            ∙ append_assoc (sent_data s.calls) _ _
            ∙ ap (◌++◌ (sent_data s.calls)) (split_rounds left i tmp),
        rest.2,
      )
    where
      sent : Transfer
      sent = block_transfer address command (take 64 (drop (i * 64) tmp)) 64

  -- The last, shorter transfer sends the next `n` bytes.
  block_rest_lem :
      (address command : ℕ) (tmp : List ℕ) (whole n : ℕ) (s : Driver)
      → n ≤ 64
      → AreSized s.calls
      → let after = block_rest usb address command tmp whole n s in
        (after.0 ≡ none)
        × (sent_data after.1.calls ≡ sent_data s.calls ++ take n (drop (whole * 64) tmp))
        × AreSized after.1.calls
  unfolding block_rest ◌>>=◌ vendor_out control_transfer
  block_rest_lem address command tmp whole zero s h sized =
      (refl, sym (append-nil (sent_data s.calls)), sized)
  block_rest_lem address command tmp whole (suc n) s h sized =
      rw
        (accepting.all s.calls
          (block_transfer address command (take (suc n) (drop (whole * 64) tmp)) (suc n)))
        (
          ground arith,
          refl,
          ((omega (arith, length-take (suc n) (drop (whole * 64) tmp)), h), sized),
        )

  after_rounds_lem :
      (address command : ℕ) (tmp : List ℕ) (whole len : ℕ) (early : Option ℤ) (s : Driver)
      → early ≡ none
      → (len + 1) - whole * 64 ≤ 64
      → AreSized s.calls
      → let after = after_rounds usb address command tmp whole len early s in
        (after.0 ≡ ℤ.pos len)
        × (sent_data after.1.calls
            ≡ sent_data s.calls ++ take ((len + 1) - whole * 64) (drop (whole * 64) tmp))
        × AreSized after.1.calls
  unfolding after_rounds ◌>>=◌
  after_rounds_lem address command tmp whole len (some status) s e h sized = absurd (ground arith)
  after_rounds_lem address command tmp whole len none s e h sized =
      let last = block_rest_lem address command tmp whole ((len + 1) - whole * 64) s h sized in
      (rw (last.0) refl, last.1, last.2)

  -- Where libusb accepts every transfer, the bytes sent are the size and the first `len` bytes of the
  -- data, in this order, each transfer fits endpoint 0, and the result is `len`.
  pub write_block-sent :
      (address command : ℕ) (bytes : List ℕ) (len : ℕ) (s : Driver)
      → AreSized s.calls
      → let after = write_block usb address command bytes len s in
        (after.0 ≡ ℤ.pos len)
        × (sent_data after.1.calls ≡ sent_data s.calls ++ (len ∷ take len bytes))
        × AreSized after.1.calls
  unfolding write_block ◌>>=◌
  write_block-sent address command bytes len s sized =
      let first =
        block_rounds_lem address command (len ∷ take len bytes) ((len + 1) / 64) 0 s sized in
      let last =
        after_rounds_lem address command (len ∷ take len bytes) ((len + 1) / 64) len _ _ first.0
          (omega arith) first.2 in
      (
        last.0,
        last.1
            ∙ ap (λ xs. xs ++ tail) first.1
            ∙ append_assoc (sent_data s.calls) _ tail
            ∙ ap (◌++◌ (sent_data s.calls)) whole,
        last.2,
      )
    where
      message : List ℕ
      message = len ∷ take len bytes

      tail : List ℕ
      tail = take ((len + 1) - (len + 1) / 64 * 64) (drop ((len + 1) / 64 * 64) message)

      whole : take ((len + 1) / 64 * 64) message ++ tail ≡ message
      whole =
          take_add ((len + 1) / 64 * 64) _ message
          ∙ take_of_length_le _ message (omega (arith, length-take len bytes))
