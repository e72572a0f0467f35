-- ===== src/Firmware/Bus/WordReads.antt =====
-- The request that reads one word.
use smbusb.Prelude.{ℕ, refl, ap, ◌∙◌, Bool, true, false, List, [], ◌∷◌, arith, set, take}
use smbusb.Pec.{pec_crc}
use smbusb.Firmware.State.{
  Env, Event, set_stop, set_lastrd, got, Fw, Request, gets, ◌>>◌, ◌>>=◌, if◌then◌else◌, ep0_put,
}
use smbusb.Firmware.Keeps.{Post, Post-bind, Post-mono, Post-weaken}
use smbusb.Firmware.Timeout.{IsRunning, IsValid}
use smbusb.Firmware.I2c.{i2c_bytein}
use smbusb.Firmware.Commands.{header_pec, check_pec}
use smbusb.Firmware.Commands.Transfers.{read_word}
use smbusb.Firmware.Bus.{logged, check_code, receive, Outcome}
use smbusb.Firmware.Bus.At.{At, At-eq, At-refl, ep0_waited-At}
use smbusb.Firmware.Bus.Steps.{or_stop-Outcome}
use smbusb.Firmware.Bus.Receive.{IsPrompt, bytein_events, i2c_bytein-At}
use smbusb.Firmware.Bus.Reads.{
  Answered, Received, ep0_put-At, read_header-Addressed, check_pec-At, armed-Answered, take_two,
}

-- The state with the two bytes at the front of the buffer.
abbrev with_word : Fw → ℕ → ℕ → Fw
with_word s lo hi = record s { ep0buf = set (set s.ep0buf 0 lo) 1 hi }

-- The data phase of the read of a word; its bytes are in the buffer.
record WordReceived (s : Fw) (bus : List Event) (on : Bool) (r : Request) (t : Fw) : Type 0 where
  lo : ℕ
  hi : ℕ
  on_bus : Received (with_word s lo hi) bus on r (lo ∷ hi ∷ []) t

module _ (env : Env) (fuel : ℕ) (run : IsRunning env fuel) (prompt : IsPrompt env fuel)
    (r : Request) {s : Fw} where
  word-Received :
      (on : Bool) {bus : List Event} (t : Fw)
      → At s bus t
      → Post
          (λ _ u. WordReceived s bus on r u)
          (λ u. IsValid u)
          ((if on
              then (do
                lo ← i2c_bytein env fuel true false false false
                ep0_put 0 lo
                hi ← i2c_bytein env fuel false false true false
                ep0_put 1 hi
                rpec ← i2c_bytein env fuel false false false true
                check_pec env fuel rpec (pec_crc (pec_crc (header_pec env fuel r) lo) hi))
              else (do
                lo ← i2c_bytein env fuel true false true false
                ep0_put 0 lo
                hi ← i2c_bytein env fuel false false false true
                ep0_put 1 hi))
            t)
  unfolding if◌then◌else◌ ◌>>=◌ ◌>>◌ logged receive check_code bytein_events
  word-Received true {bus} t at =
      Post-bind (i2c_bytein-At env fuel run prompt true false false false t at) λ lo t1 q1.
        Post-bind (ep0_put-At 0 lo t1 (omega arith) q1.at) λ _ t2 at2.
          Post-bind (i2c_bytein-At env fuel run prompt false false true false t2 at2) λ hi t3 q3.
            Post-bind (ep0_put-At 1 hi t3 (omega arith) q3.at) λ _ t4 at4.
              Post-bind (i2c_bytein-At env fuel run prompt false false false true t4 at4)
                λ rpec t5 q5.
                  Post-weaken (check_pec-At env fuel run r rpec _ t5 q5.at)
                    (λ _ t6 q6. record {
                      lo = lo;
                      hi = hi;
                      on_bus = record {
                        discarded = q1.discarded;
                        at = At-eq t6 q6.1 (
                            ap
                              (λ c.
                                got c
                                ∷ set_stop
                                ∷ got hi
                                ∷ set_lastrd
                                ∷ got lo
                                ∷ got q1.discarded
                                ∷ bus)
                              q6.0);
                      };
                    })
                    λ u at'. at'.valid
  word-Received false t at =
      Post-bind (i2c_bytein-At env fuel run prompt true false true false t at) λ lo t1 q1.
        Post-bind (ep0_put-At 0 lo t1 (omega arith) q1.at) λ _ t2 at2.
          Post-bind (i2c_bytein-At env fuel run prompt false false false true t2 at2) λ hi t3 q3.
            Post-mono (ep0_put-At 1 hi t3 (omega arith) q3.at) λ _ t4 at4. record {
              lo = lo;
              hi = hi;
              on_bus = record { discarded = q1.discarded; at = at4 };
            }

module _ (env : Env) (fuel : ℕ) (run : IsRunning env fuel) (prompt : IsPrompt env fuel)
    (r : Request) (s : Fw) (v : IsValid s) where
  -- From a well-formed state, with a running timer and host, and where the waits of `i2c_bytein`
  -- end before they time out (`IsPrompt`), the read of a word ends: either it succeeds, exactly
  -- one read transaction of two bytes went over the bus, in which LASTRD and STOP were set where
  -- the controller asks for them, the host gets the two bytes in the order in which they were
  -- read, and where codes are on the received code is that of the whole message; or it fails and
  -- STOP was the last access.
  pub read_word-Answered : Post (Outcome (Answered s r 2)) (λ _. ⊥) (read_word env fuel r s)
  unfolding read_word ◌>>=◌ ◌>>◌ gets
  read_word-Answered = Post-bind (ep0_waited-At env fuel run s (At-refl s v)) λ _ t at.
      or_stop-Outcome env fuel run _ t (
        Post-bind
          (Post-weaken (read_header-Addressed env fuel run r t at) (λ _ u q. q) λ u at'. at'.valid)
          λ _ t1 a. Post-bind (word-Received env fuel run prompt r t1.pec_enabled t1 a.at) λ _ t2 q.
            armed-Answered env fuel run prompt r 2 a.tries q.on_bus.discarded t1.pec_enabled
              (q.lo ∷ q.hi ∷ []) t2 (omega arith) refl a.few a.at.pec_is
              (ap (take 2) q.on_bus.at.ep0_is
                ∙ take_two s.ep0buf q.lo q.hi (omega (arith, v.ep0_size)))
              q.on_bus.at)
