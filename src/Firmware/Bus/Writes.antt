-- ===== src/Firmware/Bus/Writes.antt =====
-- The requests that send one byte or one word put exactly one SMBus transaction on the bus.
use smbusb.Prelude.{
  ℕ, ◌<◌, ◌≡◌, refl, ap, ◌∙◌, Bool, true, false, List, [], ◌∷◌, not, inl, inr, some, arith, u8,
  get_elem?, get_elem?-overlay,
}
use smbusb.Firmware.State.{
  Env, Event, set_start, set_stop, put, Fw, Request, ok, M, ◌>>◌, ◌>>=◌, ep0_get, arm, pure,
  if◌then◌else◌,
}
use smbusb.Firmware.Keeps.{Post, post_ok, Post-bind, Post-mono, Post-weaken}
use smbusb.Firmware.Timeout.{IsRunning, IsValid}
use smbusb.Firmware.I2c.{i2c_stop, i2c_start, out}
use smbusb.Firmware.Commands.{or_stop, start_or_fail}
use smbusb.Firmware.Commands.WriteBlock.{write_trailer}
use smbusb.Firmware.Commands.Transfers.{send_byte, write_byte, write_word}
use smbusb.Firmware.Bus.{logged, puts, check_code, write_transaction, retried, Carried, Outcome}
use smbusb.Firmware.Bus.At.{
  At, Behind-earlier, At-refl, Started, started, unstarted, start_tries-At, ep0_waited-At,
  i2c_stop-At,
}
use smbusb.Firmware.Bus.Steps.{
  Sending, received, out-Sending, start_or_fail-Sending, trailer-Carried, or_stop-At, Stopped, Ends,
  or_stop-Ends, out-Behind, ep0_receive-At,
}

-- A send that started, put the address on the bus, and then failed and stopped the bus.
pub record Broken (r : Request) (s t : Fw) : Type 0 where
  pub tries : ℕ
  pub few : tries < 5
  pub stopped : Stopped (put (u8 r.value) ∷ set_start ∷ retried tries s.bus) t

-- What a send leaves: its transaction, or a broken one, or only the 5 vain attempts to start.
pub data SentByte (r : Request) (s : Fw) : Bool → Fw → Type 0 where
  sent :
      {t : Fw}
      → Carried s.bus (write_transaction false (u8 r.value ∷ u8 r.index ∷ [])) t
      → SentByte r s true t
  broken : {t : Fw} → Broken r s t → SentByte r s false t
  not_started : {t : Fw} → t.bus ≡ retried 5 s.bus → IsValid t → SentByte r s false t

u8_u8 : (n : ℕ) → u8 n ≡ u8 (u8 n)
u8_u8 n = omega arith

-- A byte of the request's data, after any accesses to the bus.
pub ep0_get-received :
    (bytes : List ℕ) {s : Fw} {bus : List Event} (i b : ℕ) (t : Fw)
    → IsValid s
    → i < 64
    → get_elem? bytes i ≡ some b
    → At (received bytes s) bus t
    → ep0_get i t ≡ ok b t
unfolding ep0_get
ep0_get-received bytes {s} i b t v h e at =
    rw (at.ep0_is, get_elem?-overlay bytes s.ep0buf i b (omega (arith, v.ep0_size)) e)

module _ (env : Env) (fuel : ℕ) (run : IsRunning env fuel) (r : Request) where
  -- The start, the address and the command, before what follows.
  pub address-Sending :
      {B : Type 0} {Q : B → Fw → Type 0} {k : M B} {bus : List Event} {s' : Fw} (t : Fw)
      → At s' bus t
      → ((u : Fw)
          → Sending s' bus (u8 r.value ∷ u8 r.index ∷ []) u
          → Post Q (λ u. At s' u.bus u) (k u))
      → Post Q
          (λ u. At s' u.bus u)
          ((do start_or_fail env fuel; out env fuel r.value; out env fuel r.index; k) t)
  unfolding ◌>>=◌ ◌>>◌
  address-Sending t at next = Post-bind (start_or_fail-Sending env fuel run t at) λ _ t0 q0.
      Post-bind (out-Sending env fuel run r.value (u8 r.value) t0 (u8_u8 r.value) q0) λ _ t1 q1.
        Post-bind (out-Sending env fuel run r.index (u8 r.index) t1 (u8_u8 r.index) q1)
          λ _ t2 q2. next t2 q2

module _ (env : Env) (fuel : ℕ) (run : IsRunning env fuel) (r : Request) (s : Fw)
    (v : IsValid s) where
  -- From a well-formed state, with a running timer and host, the write of a byte that is in the
  -- request ends, whatever the I2C controller reports: either it succeeds and exactly one
  -- transaction went over the bus, address, command, the byte and, where codes are on, their code,
  -- after fewer than 5 vain attempts to start; or it fails and STOP was the last access.
  pub write_byte-Carried :
      (d : ℕ) (rest : List ℕ)
      → r.payload ≡ d ∷ rest
      → Post
          (Outcome
            (Carried s.bus (write_transaction s.pec_enabled (u8 r.value ∷ u8 r.index ∷ d ∷ []))))
          (λ _. ⊥)
          (write_byte env fuel r s)
  unfolding write_byte ◌>>=◌ ◌>>◌ write_trailer
  write_byte-Carried d rest e = Post-bind (ep0_receive-At env fuel run r.payload s v) λ _ t at.
      or_stop-At env fuel run _ t (
        address-Sending env fuel run r t at λ t2 q2.
          rw (ep0_get-received r.payload 0 d t2 v (omega arith) (ap (λ p. get_elem? p 0) e) q2.at) (
            Post-bind (out-Sending env fuel run d d t2 refl q2)
              λ _ t3 q3. trailer-Carried env fuel run _ _ t3 refl q3))

  -- From a well-formed state, with a running timer and host, the write of a word whose data are in
  -- the request ends, whatever the I2C controller reports: either it succeeds and exactly one
  -- transaction went over the bus, address, command, low byte, high byte and, where codes are on,
  -- their code, after fewer than 5 vain attempts to start; or it fails and STOP was the last access.
  pub write_word-Carried :
      (lo hi : ℕ) (rest : List ℕ)
      → r.payload ≡ lo ∷ hi ∷ rest
      → Post
          (Outcome (
            Carried s.bus
              (write_transaction s.pec_enabled (u8 r.value ∷ u8 r.index ∷ lo ∷ hi ∷ []))))
          (λ _. ⊥)
          (write_word env fuel r s)
  unfolding write_word ◌>>=◌ ◌>>◌ write_trailer
  write_word-Carried lo hi rest e = Post-bind (ep0_receive-At env fuel run r.payload s v) λ _ t at.
      or_stop-At env fuel run _ t (
        address-Sending env fuel run r t at λ t2 q2.
          rw (ep0_get-received r.payload 0 lo t2 v (omega arith) (ap (λ p. get_elem? p 0) e) q2.at)
            (Post-bind (out-Sending env fuel run lo lo t2 refl q2) λ _ t3 q3.
              rw
                (ep0_get-received r.payload 1 hi t3 v (omega arith) (ap (λ p. get_elem? p 1) e)
                  q3.at)
                (Post-bind (out-Sending env fuel run hi hi t3 refl q3)
                  λ _ t4 q4. trailer-Carried env fuel run _ _ t4 refl q4)))

  -- The code of the send after its start.
  send_started-SentByte :
      (k : ℕ) (t : Fw)
      → k < 5
      → At s (set_start ∷ retried k s.bus) t
      → Post
          (SentByte r s)
          (λ _. ⊥)
          (or_stop env fuel
            (do out env fuel r.value; out env fuel r.index; i2c_stop env fuel; arm 0)
            t)
  unfolding ◌>>=◌ ◌>>◌ arm write_transaction logged puts check_code
  send_started-SentByte k t few q =
      Post-mono
        (or_stop-Ends env fuel run
          {Q = Carried s.bus (write_transaction false (u8 r.value ∷ u8 r.index ∷ []))}
          {bus = put (u8 r.value) ∷ set_start ∷ retried k s.bus} _ t
          (Post-bind (out-Behind env fuel run r.value t q) λ _ t1 q1.
            Post-bind
              (Post-weaken (out-Behind env fuel run r.index t1 q1) (λ _ u h. h)
                (λ u h. (h.0, Behind-earlier u h.1)))
              λ _ t2 q2. Post-bind (i2c_stop-At env fuel run t2 q2) λ _ t3 at. post_ok (record {
                tries = k;
                few = few;
                exact =
                    at.bus_is
                    ∙ ap (λ v. set_stop ∷ put v ∷ put (u8 r.value) ∷ set_start ∷ retried k s.bus)
                        (u8_u8 r.index)
                    ∙ ap
                        (λ v.
                          set_stop ∷ put (u8 (u8 r.index)) ∷ put v ∷ set_start ∷ retried k s.bus)
                        (u8_u8 r.value);
                valid = record {
                  ep0_size = at.valid.ep0_size;
                  temp_size = at.valid.temp_size;
                  ptr_in = at.valid.ptr_in;
                  len_in = at.valid.len_in;
                  count_in = at.valid.count_in;
                };
              })))
        λ b u o. judged b u o
    where
      judged :
          (b : Bool) (u : Fw)
          → Ends
              (Carried s.bus (write_transaction false (u8 r.value ∷ u8 r.index ∷ [])))
              (put (u8 r.value) ∷ set_start ∷ retried k s.bus)
              b
              u
          → SentByte r s b u
      judged b u (inl o) = rw o.0 (sent o.1)
      judged b u (inr o) = rw o.0 (broken (record { tries = k; few = few; stopped = o.1 }))

  -- From a well-formed state, with a running timer and host, a send of a byte ends, whatever the I2C
  -- controller reports, in one of three ways. It succeeds after exactly the transaction of address and
  -- byte, never with a code. Or it fails after START and the address, behind fewer than 5 vain attempts
  -- to start, and STOP was the last access. Or it fails after 5 vain attempts to start, and there was no
  -- access but these: no STOP follows them.
  pub send_byte-Carried : Post (SentByte r s) (λ _. ⊥) (send_byte env fuel r s)
  unfolding send_byte ◌>>=◌ ◌>>◌ i2c_start if◌then◌else◌ logged puts
  send_byte-Carried =
      Post-bind (ep0_waited-At env fuel run s (At-refl s v))
        λ _ t at. Post-bind (start_tries-At env fuel run 5 t at) λ b u q. judged b u q
    where
      judged :
          (b : Bool) (u : Fw)
          → Started s s.bus 5 b u
          → Post
              (SentByte r s)
              (λ _. ⊥)
              ((if not b
                  then pure false
                  else or_stop env fuel
                      (do out env fuel r.value; out env fuel r.index; i2c_stop env fuel; arm 0))
                u)
      judged true u (started k few q) = send_started-SentByte k u few q
      judged false u (unstarted q) = post_ok (not_started q.bus_is q.valid)
