-- ===== src/Fx2lp/Write.antt =====
-- `FX2LP_SMBWrite` sends the data in transfers that fit endpoint 0, with START in front of the first
-- and STOP behind the last one only.
use smbusb.Prelude.{
  ℕ, zero, suc, ◌+◌, ◌-◌, ◌*◌, ◌/◌, ◌≤◌, ◌<◌, ◌≡◌, refl, sym, ap, ◌∙◌, Bool, false, ◌&&◌, List, [],
  ◌∷◌, ◌++◌, append_assoc, append-nil, arith, length, take, drop, length-take, drop-drop, take_add,
  ℤ, cond, u16, ◌==◌,
}
use smbusb.Fx2lp.State.{Libusb, Driver, Call, Transfer, ◌>>=◌, vendor_out, control_transfer}
use smbusb.Fx2lp.Arbitrary.{Loop, set_flag, stop_after, write_rounds, write_rest, write}
use smbusb.Fx2lp.Accepted.{IsAccepting, sent_data, AreSized}
use smbusb.Fx2lp.Flags.{
  sent_flags, start_flags, flags_of, initial, cleared, closing, going_on, raw_transfer, count_of,
  transfers_of, flags_of-round,
}

module _ (usb : Libusb) (accepting : IsAccepting usb) where
  IsSent : ℕ → List ℕ → List ℕ → Driver → ℤ × Driver → Type 0
  IsSent len new flags s after =
      (after.0 ≡ ℤ.pos len)
      × (sent_data after.1.calls ≡ sent_data s.calls ++ new)
      × (sent_flags after.1.calls ≡ sent_flags s.calls ++ flags)
      × AreSized after.1.calls

  write_rest_lem :
      (a b stop : Bool) (bytes : List ℕ) (len n i : ℕ) (status : ℤ) (s : Driver)
      → suc n ≤ 64
      → i ≡ len / 64
      → AreSized s.calls
      → IsSent len
          (take (suc n) (drop (i * 64) bytes))
          ((start_flags a b + cond stop 4 0) ∷ [])
          s
          (write_rest usb stop bytes len (suc n) (Loop.ended status (start_flags a b)) s)
  unfolding write_rest ◌>>=◌ vendor_out control_transfer IsSent
  write_rest_lem a b stop bytes len n i status s h e sized =
      rw
        (
          e,
          accepting.all s.calls (
              raw_transfer (set_flag stop stop_after (start_flags a b))
                (take (suc n) (drop (len / 64 * 64) bytes)) (suc n)),
        )
        (
          ground arith,
          refl,
          ap (λ f. sent_flags s.calls ++ (f ∷ [])) (closing a b stop),
          ((omega (arith, length-take (suc n) (drop (len / 64 * 64) bytes)), h), sized),
        )

  -- What one round sends, in front of what the rounds after it send.
  IsSent-round :
      (len left rest i f : ℕ) (bytes flags : List ℕ) (s : Driver) (after : ℤ × Driver)
      → IsSent len
          (take (left * 64 + rest) (drop ((i + 1) * 64) bytes))
          flags
          (record s {
            calls = Call.control (raw_transfer f (take 64 (drop (i * 64) bytes)) 64) ∷ s.calls;
          })
          after
      → IsSent len (take (suc left * 64 + rest) (drop (i * 64) bytes)) (u16 f ∷ flags) s after
  unfolding IsSent
  IsSent-round len left rest i f bytes flags s after h = (
    h.0,
    h.1 ∙ append_assoc (sent_data s.calls) _ _ ∙ ap (◌++◌ (sent_data s.calls)) split,
    h.2 ∙ append_assoc (sent_flags s.calls) _ _,
    h.3,
  )
    where
      next : (i + 1) * 64 ≡ i * 64 + 64
      next = omega arith

      split :
          take 64 (drop (i * 64) bytes) ++ take (left * 64 + rest) (drop ((i + 1) * 64) bytes)
          ≡ take (suc left * 64 + rest) (drop (i * 64) bytes)
      split =
          ap (λ ys. take 64 (drop (i * 64) bytes) ++ take (left * 64 + rest) ys)
            (rw next (sym (drop-drop (i * 64) 64 bytes)))
          ∙ take_add 64 (left * 64 + rest) (drop (i * 64) bytes)
          ∙ ap (λ n. take n (drop (i * 64) bytes)) (omega arith)

  -- The rounds that are left and the remainder, from any round on.
  Rest : Bool → Bool → Bool → List ℕ → ℕ → ℕ → ℕ → ℕ → ℤ → Driver → Type 0
  Rest a b stop bytes len rest left i status s =
      IsSent len (take (left * 64 + rest) (drop (i * 64) bytes))
        (flags_of (start_flags a b) stop (count_of left rest)) s
        ((write_rounds usb stop bytes rest left i status (start_flags a b)
            >>= write_rest usb stop bytes len rest)
          s)

  -- A round that is not the last transfer.
  Rest-round :
      (a b stop : Bool) (bytes : List ℕ) (len rest left i : ℕ) (status : ℤ) (s : Driver)
      → 0 < left + rest
      → Rest false false stop bytes len rest left (i + 1) (ℤ.pos 64) (record s {
        calls =
            Call.control (raw_transfer (start_flags a b) (take 64 (drop (i * 64) bytes)) 64)
            ∷ s.calls;
      })
      → Rest a b stop bytes len rest (suc left) i status s
  unfolding Rest write_rounds ◌>>=◌ vendor_out control_transfer
  Rest-round a b stop bytes len rest left i status s more h =
      rw
        (
          inner,
          accepting.all s.calls (raw_transfer (start_flags a b) (take 64 (drop (i * 64) bytes)) 64),
          cleared a b,
          flags,
        )
        (IsSent-round len left rest i (start_flags a b) bytes _ s _ h)
    where
      inner : ((left == 0) && (rest == 0) && stop) ≡ false
      inner = ground arith

      flags :
          flags_of (start_flags a b) stop (count_of (suc left) rest)
          ≡ u16 (start_flags a b) ∷ flags_of 0 stop (count_of left rest)
      flags =
          flags_of-round (start_flags a b) stop left rest more
          ∙ ap (λ f. f ∷ flags_of 0 stop (count_of left rest)) (sym (going_on a b))

  -- Nothing is sent after a transfer that fits.
  sent_nothing :
      (len : ℕ) (t : Transfer) (s : Driver)
      → (length t.sent ≤ t.wanted) × (t.wanted ≤ 64)
      → AreSized s.calls
      → let after = record s { calls = Call.control t ∷ s.calls } in
        IsSent len [] [] after (ℤ.pos len, after)
  unfolding IsSent
  sent_nothing len t s fits sized = (refl, sym (append-nil _), sym (append-nil _), (fits, sized))

  -- The transfer of the remainder, after the last round.
  Rest-short :
      (n : ℕ) (a b stop : Bool) (bytes : List ℕ) (len i : ℕ) (status : ℤ) (s : Driver)
      → suc n ≤ 64
      → i ≡ len / 64
      → AreSized s.calls
      → Rest a b stop bytes len (suc n) 0 i status s
  unfolding Rest IsSent write_rounds ◌>>=◌
  Rest-short n a b stop bytes len i status s small e sized =
      let sent = write_rest_lem a b stop bytes len n i status s small e sized in
      let all : suc n ≡ 0 * 64 + suc n = omega arith in
      (
        sent.0,
        sent.1 ∙ ap (λ k. sent_data s.calls ++ take k (drop (i * 64) bytes)) all,
        sent.2,
        sent.3,
      )

  -- The last transfer, where it is a whole one.
  Rest-last :
      (a b stop : Bool) (bytes : List ℕ) (len i : ℕ) (status : ℤ) (s : Driver)
      → AreSized s.calls
      → Rest a b stop bytes len 0 1 i status s
  unfolding Rest write_rounds write_rest ◌>>=◌ vendor_out control_transfer
  Rest-last a b stop bytes len i status s sized =
      rw
        (
          accepting.all s.calls (
              raw_transfer (set_flag stop stop_after (start_flags a b))
                (take 64 (drop (i * 64) bytes)) 64),
          sym (closing a b stop),
        )
        (IsSent-round len 0 0 i (set_flag stop stop_after (start_flags a b)) bytes [] s _ (
          sent_nothing len _ s (omega (arith, length-take 64 (drop (i * 64) bytes)), omega arith)
            sized))

  run_lem :
      (left rest : ℕ) (a b stop : Bool) (bytes : List ℕ) (len i : ℕ) (status : ℤ) (s : Driver)
      → 0 < left + rest
      → rest ≤ 64
      → i + left ≡ len / 64
      → AreSized s.calls
      → Rest a b stop bytes len rest left i status s
  run_lem zero zero a b stop bytes len i status s more small e sized = absurd (omega arith)
  run_lem zero (suc n) a b stop bytes len i status s more small e sized =
      Rest-short n a b stop bytes len i status s small (omega arith) sized
  run_lem (suc zero) zero a b stop bytes len i status s more small e sized =
      Rest-last a b stop bytes len i status s sized
  run_lem (suc zero) (suc n) a b stop bytes len i status s more small e sized =
      Rest-round a b stop bytes len (suc n) 0 i status s (omega arith) (
        run_lem zero (suc n) false false stop bytes len (i + 1) (ℤ.pos 64) _ (omega arith) small
          (omega arith) ((omega (arith, length-take 64 (drop (i * 64) bytes)), omega arith), sized))
  run_lem (suc (suc left)) rest a b stop bytes len i status s more small e sized =
      Rest-round a b stop bytes len rest (suc left) i status s (omega arith) (
        run_lem (suc left) rest false false stop bytes len (i + 1) (ℤ.pos 64) _ (omega arith) small
          (omega arith) ((omega (arith, length-take 64 (drop (i * 64) bytes)), omega arith), sized))

  -- Where libusb accepts every transfer, a write of `len` bytes, at least one, sends exactly those, in
  -- order, in transfers that fit endpoint 0; START or a repeated START, where it is asked for, stands
  -- in front of the first transfer only, and STOP behind the last one only; the result is `len`.
  pub write-sent :
      (garbage : ℤ) (start restart stop : Bool) (bytes : List ℕ) (len : ℕ) (s : Driver)
      → 0 < len
      → AreSized s.calls
      → let after = write usb garbage start restart stop bytes len s in
        (after.0 ≡ ℤ.pos len)
        × (sent_data after.1.calls ≡ sent_data s.calls ++ take len bytes)
        × (sent_flags after.1.calls
            ≡ sent_flags s.calls ++ flags_of (start_flags start restart) stop ((len + 63) / 64))
        × AreSized after.1.calls
  unfolding write Rest IsSent ◌>>=◌
  write-sent garbage start restart stop bytes len s some_bytes sized =
      let sent =
        run_lem (len / 64) (len - len / 64 * 64) start restart stop bytes len 0 garbage s
          (omega arith) (omega arith) (omega arith) sized in
      rw (initial start restart) (
        sent.0,
        sent.1 ∙ ap (λ n. sent_data s.calls ++ take n bytes) (omega arith),
        sent.2
            ∙ ap (λ n. sent_flags s.calls ++ flags_of (start_flags start restart) stop n)
                (transfers_of len),
        sent.3,
      )
