-- ===== src/Firmware/Bus/Reads.antt =====
-- The requests that read one byte or one word: the transaction on the bus, and the data that the
-- host gets.
use smbusb.Prelude.{
  ℕ, ◌+◌, ◌<◌, ◌≤◌, ◌≡◌, refl, sym, ap, ◌∙◌, inl, inr, Bool, true, false, List, [], ◌∷◌, ◌++◌,
  arith, ltb, u8, length, length-set, set, take, ◌==◌, ==_iff, Bool-cases,
}
use smbusb.Pec.{pec_crc}
use smbusb.Firmware.State.{
  Env, Event, set_start, set_stop, set_lastrd, got, Fw, Request, pure, gets, ◌>>◌, ◌>>=◌,
  if◌then◌else◌, access, ep0_put, arm, modify,
}
use smbusb.Firmware.Keeps.{Post, post_ok, post_failed, Post-bind, Post-mono}
use smbusb.Firmware.Timeout.{IsRunning, IsValid}
use smbusb.Firmware.I2c.{i2c_bytein, i2c_restart}
use smbusb.Firmware.Commands.{read_header, header_pec, check_pec}
use smbusb.Firmware.Commands.Transfers.{read_byte}
use smbusb.Firmware.Bus.{
  logged, logged-append, puts, address_phase, read_head, check_code, receive, read_transaction,
  retried, Carried, Outcome,
}
use smbusb.Firmware.Bus.At.{At, At-self, At-eq, At-refl, access-At, ep0_waited-At}
use smbusb.Firmware.Bus.Steps.{out-At, start_or_fail-Sending, or_stop-At}
use smbusb.Firmware.Bus.Receive.{IsPrompt, bytein_events, i2c_bytein-At}

-- The address phase of a read is on the bus.
pub record Addressed (s : Fw) (bus : List Event) (r : Request) (t : Fw) : Type 0 where
  pub tries : ℕ
  pub few : tries < 5
  pub at : At s (logged (address_phase r.value r.index) (retried tries bus)) t

-- A read has been carried out, and the host gets the data that the device sent.
pub record Answered (s : Fw) (r : Request) (size : ℕ) (t : Fw) : Type 0 where
  pub discarded : ℕ
  pub bytes : List ℕ
  pub carried : Carried s.bus (read_transaction s.pec_enabled r.value r.index discarded bytes) t
  pub sized : length bytes ≡ size
  pub returned : take size t.ep0buf ≡ bytes
  pub armed : t.ep0bc ≡ size

pub ep0_put-At :
    {s : Fw} {bus : List Event} {F : Fw → Type 0} (i v : ℕ) (t : Fw)
    → i < 64
    → At s bus t
    → Post (λ _ u. At (record s { ep0buf = set s.ep0buf i v }) bus u) F (ep0_put i v t)
unfolding ep0_put
ep0_put-At {s} i v t h at =
    let inside : ltb i (length t.ep0buf) ≡ true = ground (arith, at.valid.ep0_size) in
    rw inside (
      post_ok (record {
        bus_is = at.bus_is;
        ep0_is = ap (λ xs. set xs i v) at.ep0_is;
        temp_is = at.temp_is;
        pec_is = at.pec_is;
        templen_is = at.templen_is;
        valid = record {
          ep0_size = length-set t.ep0buf i v ∙ at.valid.ep0_size;
          temp_size = at.valid.temp_size;
          ptr_in = at.valid.ptr_in;
          len_in = at.valid.len_in;
          count_in = at.valid.count_in;
        };
      }))

host-At :
    {s : Fw} {bus : List Event} (f : Bool) (n : ℕ) (t : Fw)
    → At s bus t
    → At s bus (record t { pec_failed = f; ep0bc = n })
host-At f n t at = record {
  bus_is = at.bus_is;
  ep0_is = at.ep0_is;
  temp_is = at.temp_is;
  pec_is = at.pec_is;
  templen_is = at.templen_is;
  valid = record {
    ep0_size = at.valid.ep0_size;
    temp_size = at.valid.temp_size;
    ptr_in = at.valid.ptr_in;
    len_in = at.valid.len_in;
    count_in = at.valid.count_in;
  };
}

module _ (env : Env) (fuel : ℕ) (run : IsRunning env fuel) (r : Request) {s : Fw}
    {bus : List Event} where
  pub read_header-Addressed :
      (t : Fw)
      → At s bus t
      → Post (λ _ u. Addressed s bus r u) (λ u. At s u.bus u) (read_header env fuel r t)
  unfolding read_header ◌>>=◌ ◌>>◌ i2c_restart access logged puts address_phase
  read_header-Addressed t at = Post-bind (start_or_fail-Sending env fuel run t at) λ _ t0 q.
      Post-bind (out-At env fuel run r.value t0 q.at) λ _ t1 at1.
        Post-bind (out-At env fuel run r.index t1 at1) λ _ t2 at2.
          Post-mono (out-At env fuel run (r.value + 1) _ (access-At set_start t2 at2))
            λ _ t3 at3. record { tries = q.tries; few = q.few; at = at3 }

  -- A code that differs from the computed one is a failure.
  pub check_pec-At :
      (rpec pec : ℕ) (t : Fw)
      → At s bus t
      → Post (λ _ u. (rpec ≡ pec) × At s bus u) (λ u. At s u.bus u) (check_pec env fuel rpec pec t)
  unfolding check_pec if◌then◌else◌ ◌>>◌ ◌>>=◌ arm modify
  check_pec-At rpec pec t at = elim (Bool-cases (rpec == pec)) [
    | inl e ↦ rw e (post_ok ((==_iff rpec pec).0 e, at))
    | inr e ↦ rw e (post_failed (host-At true 0 t (At-self t at)))
  ]

-- The data phase of a read, with its code.
pub record Received (s : Fw) (bus : List Event) (on : Bool) (r : Request) (bytes : List ℕ) (t : Fw)
    : Type 0 where
  pub discarded : ℕ
  pub at :
      At s
        (logged
          (receive (discarded ∷ (bytes ++ check_code on (read_head r.value r.index ++ bytes))))
          bus)
        t

module _ (env : Env) (fuel : ℕ) (run : IsRunning env fuel) (prompt : IsPrompt env fuel)
    (r : Request) {s : Fw} where
  byte-Received :
      (on : Bool) {bus : List Event} (t : Fw)
      → At s bus t
      → Post
          (λ b u. Received s bus on r (b ∷ []) u)
          (λ u. At s u.bus u)
          ((if on
              then (do
                b ← i2c_bytein env fuel true false true false
                rpec ← i2c_bytein env fuel false false false true
                check_pec env fuel rpec (pec_crc (header_pec env fuel r) b)
                pure b)
              else i2c_bytein env fuel true true false true)
            t)
  unfolding if◌then◌else◌ ◌>>=◌ ◌>>◌ logged receive check_code bytein_events
  byte-Received true {bus} t at =
      Post-bind (i2c_bytein-At env fuel run prompt true false true false t at) λ b t1 q1.
        Post-bind (i2c_bytein-At env fuel run prompt false false false true t1 q1.at) λ rpec t2 q2.
          Post-bind (check_pec-At env fuel run r rpec (pec_crc (header_pec env fuel r) b) t2 q2.at)
            λ _ t3 q3. post_ok (record {
              discarded = q1.discarded;
              at =
                  At-eq t3 q3.1
                    (ap (λ c. got c ∷ set_stop ∷ got b ∷ set_lastrd ∷ got q1.discarded ∷ bus) q3.0);
            })
  byte-Received false t at =
      Post-mono (i2c_bytein-At env fuel run prompt true true false true t at)
        λ b u q. record { discarded = q.discarded; at = q.at }

  -- The data go to the host.
  pub armed-Answered :
      {F : Fw → Type 0} {s' : Fw} (n tries d : ℕ) (on : Bool) (bytes : List ℕ) (t : Fw)
      → n < 256
      → length bytes ≡ n
      → tries < 5
      → on ≡ s.pec_enabled
      → take n t.ep0buf ≡ bytes
      → At s'
          (logged
            (receive (d ∷ (bytes ++ check_code on (read_head r.value r.index ++ bytes))))
            (logged (address_phase r.value r.index) (retried tries s.bus)))
          t
      → Post (λ _ u. Answered s r n u) F (arm n t)
  unfolding arm read_transaction
  armed-Answered n tries d on bytes t small sized few e returned at =
      let byte : u8 n ≡ n = omega arith in
      let reads : Bool → List Event =
        λ b. receive (d ∷ (bytes ++ check_code b (read_head r.value r.index ++ bytes))) in
      post_ok (record {
        discarded = d;
        bytes = bytes;
        carried = record {
          tries = tries;
          few = few;
          exact =
              at.bus_is
              ∙ sym (logged-append (address_phase r.value r.index) (reads on) (retried tries s.bus))
              ∙ ap (λ b. logged (address_phase r.value r.index ++ reads b) (retried tries s.bus)) e;
          valid = (host-At t.pec_failed (u8 n) t at).valid;
        };
        sized = sized;
        returned = returned;
        armed = byte;
      })

take_one : (xs : List ℕ) (v : ℕ) → 1 ≤ length xs → take 1 (set xs 0 v) ≡ v ∷ []
take_one [] v h = absurd (omega arith)
take_one (x ∷ xs) v h = refl

pub take_two : (xs : List ℕ) (v w : ℕ) → 2 ≤ length xs → take 2 (set (set xs 0 v) 1 w) ≡ v ∷ w ∷ []
take_two [] v w h = absurd (omega arith)
take_two (x ∷ []) v w h = absurd (omega arith)
take_two (x ∷ y ∷ xs) v w h = refl

module _ (env : Env) (fuel : ℕ) (run : IsRunning env fuel) (prompt : IsPrompt env fuel)
    (r : Request) (s : Fw) (v : IsValid s) where
  -- From a well-formed state, with a running timer and host, and where the waits of `i2c_bytein`
  -- end before they time out (`IsPrompt`), the read of a byte ends: either it succeeds, exactly
  -- one read transaction went over the bus, in which LASTRD and STOP were set where the
  -- controller asks for them, the host gets the byte that was read, and where codes are on the
  -- received code is that of the whole message; or it fails and STOP was the last access.
  pub read_byte-Answered : Post (Outcome (Answered s r 1)) (λ _. ⊥) (read_byte env fuel r s)
  unfolding read_byte ◌>>=◌ ◌>>◌ gets
  read_byte-Answered = Post-bind (ep0_waited-At env fuel run s (At-refl s v)) λ _ t at.
      or_stop-At env fuel run _ t (
        Post-bind (read_header-Addressed env fuel run r t at) λ _ t1 a.
          Post-bind (byte-Received env fuel run prompt r t1.pec_enabled t1 a.at) λ b t2 q.
            Post-bind (ep0_put-At 0 b t2 (omega arith) q.at) λ _ t3 at3.
              armed-Answered env fuel run prompt r 1 a.tries q.discarded t1.pec_enabled (b ∷ []) t3
                (omega arith) refl a.few a.at.pec_is
                (ap (take 1) at3.ep0_is ∙ take_one s.ep0buf b (omega (arith, v.ep0_size))) at3)
