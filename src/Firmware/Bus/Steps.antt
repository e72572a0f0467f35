-- ===== src/Firmware/Bus/Steps.antt =====
-- The steps of a request, by what they leave on the bus: its data arrive, it starts, bytes go out,
-- and its fail label stops the bus.
use smbusb.Prelude.{
  ℕ, ◌<◌, ◌≡◌, refl, sym, ap, ◌∙◌, ◌⊎◌, inl, inr, Bool, true, false, List, [], ◌∷◌, ◌++◌, arith, u8,
  overlay, length-overlay, Bool-cases,
}
use smbusb.Pec.{pec_from}
use smbusb.Firmware.State.{
  Env, Event, set_start, set_stop, put, Fw, Run, M, pure, and_then, or_else, ◌>>◌, ◌>>=◌, catch,
  require, when, gets, modify, ep0_receive,
}
use smbusb.Firmware.Keeps.{Post, post_ok, post_failed, Post-bind, Post-mono, Post-weaken}
use smbusb.Firmware.Timeout.{IsRunning, IsValid}
use smbusb.Firmware.I2c.{i2c_start, i2c_stop, out}
use smbusb.Firmware.Commands.{or_stop, start_or_fail}
use smbusb.Firmware.Commands.WriteBlock.{write_trailer}
use smbusb.Firmware.Bus.{
  logged, logged-append, puts, puts-append, check_code, write_transaction, retried, Carried,
  Outcome, finished, aborted,
}
use smbusb.Firmware.Bus.At.{
  At, Behind, At-self, At-eq, At-refl, Started, started, unstarted, ep0_waited-At, i2c_stop-At,
  i2c_byteout-At, start_tries-At,
}

-- The bytes have gone out behind START, which was set in vain a few times before.
pub record Sending (s : Fw) (bus : List Event) (bytes : List ℕ) (t : Fw) : Type 0 where
  pub tries : ℕ
  pub few : tries < 5
  pub at : At s (logged (puts bytes) (set_start ∷ retried tries bus)) t

-- The state before a request, with its data in the buffer.
abbrev pub received : List ℕ → Fw → Fw
received bytes s = record s { ep0buf = overlay bytes s.ep0buf }

module _ (env : Env) (fuel : ℕ) (run : IsRunning env fuel) {s : Fw} where
  -- A byte is put on the bus, or the code jumps to the fail label.
  pub out-At :
      (b : ℕ) {bus : List Event} (t : Fw)
      → At s bus t
      → Post (λ _ u. At s (put (u8 b) ∷ bus) u) (λ u. At s u.bus u) (out env fuel b t)
  unfolding out ◌>>=◌ require
  out-At b t at = Post-bind (i2c_byteout-At env fuel run b t at) λ acked u q.
      elim (Bool-cases acked) [ inl e ↦ rw e (post_ok (q.0 e)) | inr e ↦ rw e (post_failed q.1) ]

  -- The same, with the byte on the bus in either case.
  pub out-Behind :
      (b : ℕ) {bus : List Event} (t : Fw)
      → At s bus t
      → Post
          (λ _ u. At s (put (u8 b) ∷ bus) u)
          (λ u. IsValid u × Behind (put (u8 b) ∷ bus) u)
          (out env fuel b t)
  unfolding out ◌>>=◌ require
  out-Behind b t at = Post-bind (i2c_byteout-At env fuel run b t at) λ acked u q.
      elim (Bool-cases acked) [
        | inl e ↦ rw e (post_ok (q.0 e))
        | inr e ↦ rw e (post_failed (q.1.valid, q.2))
      ]

  pub start_or_fail-Sending :
      {bus : List Event} (t : Fw)
      → At s bus t
      → Post (λ _ u. Sending s bus [] u) (λ u. At s u.bus u) (start_or_fail env fuel t)
  unfolding start_or_fail i2c_start ◌>>=◌ require logged puts
  start_or_fail-Sending {bus} t at =
      Post-bind (start_tries-At env fuel run {F = λ u. At s u.bus u} 5 t at) λ b u q. judged b u q
    where
      judged :
          (b : Bool) (u : Fw)
          → Started s bus 5 b u
          → Post (λ _ u. Sending s bus [] u) (λ u. At s u.bus u) (require b u)
      judged true u (started k few q) = post_ok (record { tries = k; few = few; at = q })
      judged false u (unstarted q) = post_failed (At-self u q)

  -- A further byte of the message.
  pub out-Sending :
      (b c : ℕ) {bus : List Event} {bytes : List ℕ} (t : Fw)
      → u8 b ≡ u8 c
      → Sending s bus bytes t
      → Post (λ _ u. Sending s bus (bytes ++ (c ∷ [])) u) (λ u. At s u.bus u) (out env fuel b t)
  unfolding logged puts
  out-Sending b c {bus} {bytes} t e q =
      let start : List Event = set_start ∷ retried q.tries bus in
      let more : put (u8 b) ∷ logged (puts bytes) start ≡ logged (puts (bytes ++ (c ∷ []))) start =
        rw (puts-append bytes (c ∷ []), logged-append (puts bytes) (puts (c ∷ [])) start, e) refl in
      Post-mono (out-At b t q.at)
        λ _ u at. record { tries = q.tries; few = q.few; at = At-eq u at more }

  sent_code-At :
      (on : Bool) (pec : ℕ) (bytes : List ℕ) {bus : List Event} (t : Fw)
      → pec ≡ pec_from 0 bytes
      → At s bus t
      → Post
          (λ _ u. At s (logged (puts (check_code on bytes)) bus) u)
          (λ u. At s u.bus u)
          (when on (out env fuel pec) t)
  unfolding when check_code puts logged
  sent_code-At true pec bytes t e at = rw (sym e) (out-At pec t at)
  sent_code-At false pec bytes t e at = post_ok at

  -- The code of the message, where codes are on, and STOP.
  pub trailer-Carried :
      (pec : ℕ) (bytes : List ℕ) {bus : List Event} (t : Fw)
      → pec ≡ pec_from 0 bytes
      → Sending s bus bytes t
      → Post
          (λ _ u. Carried bus (write_transaction s.pec_enabled bytes) u)
          (λ u. At s u.bus u)
          (write_trailer env fuel pec t)
  unfolding write_trailer gets ◌>>=◌ ◌>>◌ logged write_transaction
  trailer-Carried pec bytes {bus} t e q =
      let code : Bool → List Event = λ on. puts (check_code on bytes) in
      Post-bind (sent_code-At t.pec_enabled pec bytes t e q.at) λ _ u at.
        Post-mono (i2c_stop-At env fuel run u at) λ _ w at_end. record {
          tries = q.tries;
          few = q.few;
          exact =
              at_end.bus_is
              ∙ sym (logged-append (code t.pec_enabled) (set_stop ∷ []) _)
              ∙ sym (logged-append (puts bytes) (code t.pec_enabled ++ (set_stop ∷ [])) _)
              ∙ ap
                  (λ on.
                    logged (puts bytes ++ (code on ++ (set_stop ∷ [])))
                      (set_start ∷ retried q.tries bus))
                  q.at.pec_is;
          valid = at_end.valid;
        }

-- The fail label stops the bus.
module _ (env : Env) (fuel : ℕ) (run : IsRunning env fuel) {Q : Fw → Type 0} where
  stopped-Outcome :
      (r : Run (Unit {0}))
      → Post (λ _ u. Q u) IsValid r
      → Post
          (Outcome Q)
          (λ _. ⊥)
          (or_else (and_then r (λ _. pure true)) (do i2c_stop env fuel; pure false))
  unfolding ◌>>◌ ◌>>=◌
  stopped-Outcome r (post_ok q) = post_ok (finished q)
  stopped-Outcome r (post_failed v) =
      Post-bind (i2c_stop-At env fuel run _ (At-refl _ v))
        λ _ u q. post_ok (aborted q.bus_is q.valid)

  pub or_stop-Outcome :
      (m : M (Unit {0})) (t : Fw)
      → Post (λ _ u. Q u) IsValid (m t)
      → Post (Outcome Q) (λ _. ⊥) (or_stop env fuel m t)
  unfolding or_stop catch ◌>>=◌ ◌>>◌
  or_stop-Outcome m t h = stopped-Outcome (m t) h

  pub or_stop-At :
      {s : Fw} (m : M (Unit {0})) (t : Fw)
      → Post (λ _ u. Q u) (λ u. At s u.bus u) (m t)
      → Post (Outcome Q) (λ _. ⊥) (or_stop env fuel m t)
  or_stop-At m t h = or_stop-Outcome m t (Post-weaken h (λ _ u q. q) λ u at. at.valid)

-- Some accesses behind `bus`, the last of which was STOP.
pub record Stopped (bus : List Event) (t : Fw) : Type 0 where
  pub more : List Event
  pub exact : t.bus ≡ set_stop ∷ logged more bus
  pub valid : IsValid t

-- A request that succeeds ends in `Q`; one that fails leaves some accesses behind `bus`, and STOP.
abbrev pub Ends : (Fw → Type 0) → List Event → Bool → Fw → Type 0
Ends Q bus b u = ((b ≡ true) × Q u) ⊎ ((b ≡ false) × Stopped bus u)

-- The fail label stops the bus behind what went over it.
module _ (env : Env) (fuel : ℕ) (run : IsRunning env fuel) {Q : Fw → Type 0} where
  stopped-Ends :
      {bus : List Event} (r : Run (Unit {0}))
      → Post (λ _ u. Q u) (λ u. IsValid u × Behind bus u) r
      → Post
          (Ends Q bus)
          (λ _. ⊥)
          (or_else (and_then r (λ _. pure true)) (do i2c_stop env fuel; pure false))
  unfolding ◌>>◌ ◌>>=◌
  stopped-Ends r (post_ok q) = post_ok (inl (refl, q))
  stopped-Ends r (post_failed v) = Post-bind (i2c_stop-At env fuel run _ (At-refl _ v.0)) λ _ u q.
      post_ok (
        inr (
          refl,
          record {
            more = v.1.more;
            exact = q.bus_is ∙ ap (◌∷◌ set_stop) v.1.grown;
            valid = q.valid;
          },
        ))

  pub or_stop-Ends :
      {bus : List Event} (m : M (Unit {0})) (t : Fw)
      → Post (λ _ u. Q u) (λ u. IsValid u × Behind bus u) (m t)
      → Post (Ends Q bus) (λ _. ⊥) (or_stop env fuel m t)
  unfolding or_stop catch ◌>>=◌ ◌>>◌
  or_stop-Ends m t h = stopped-Ends (m t) h

-- The data of a write arrive.
pub ep0_receive-At :
    (env : Env) (fuel : ℕ) (run : IsRunning env fuel) {F : Fw → Type 0} (bytes : List ℕ) (s : Fw)
    → IsValid s
    → Post (λ _ u. At (received bytes s) s.bus u) F (ep0_receive env fuel bytes s)
unfolding ep0_receive modify ◌>>=◌ ◌>>◌
ep0_receive-At env fuel run bytes s v =
    Post-bind
      (ep0_waited-At env fuel run {s = s} (record s { ep0bc = 0 })
        (record {
          bus_is = refl;
          ep0_is = refl;
          temp_is = refl;
          pec_is = refl;
          templen_is = refl;
          valid = ground (arith, v);
        }))
      λ _ u q. post_ok (record {
        bus_is = q.bus_is;
        ep0_is = rw q.ep0_is;
        temp_is = q.temp_is;
        pec_is = q.pec_is;
        templen_is = q.templen_is;
        valid = ground (arith, q.valid, length-overlay bytes u.ep0buf);
      })
