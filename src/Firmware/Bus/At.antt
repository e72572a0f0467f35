-- ===== src/Firmware/Bus/At.antt =====
-- The I2C primitives, by what they leave on the bus.
use smbusb.Prelude.{
  ℕ, zero, suc, ◌+◌, ◌≤◌, ◌<◌, ◌≡◌, refl, ◌∙◌, inl, inr, Bool, true, false, not, List, [], ◌∷◌,
  arith, ltb, u8, Bool-cases,
}
use smbusb.Firmware.State.{
  I2cs, Env, Event, set_start, set_stop, put, Fw, pure, ◌>>◌, ◌>>=◌, modify, access, tick,
  read_i2cs, if◌then◌else◌, ep0_wait,
}
use smbusb.Firmware.Keeps.{Post, post_ok, Post-bind, Post-mono}
use smbusb.Firmware.Timeout.{IsRunning, IsValid, Ready, elapsed, tick_lem, tick-IsValid}
use smbusb.Firmware.I2c.{i2c_timeout, await, start_tries, wait_for, i2c_stop, i2c_byteout}
use smbusb.Firmware.Bus.{logged, retried}

-- The state `t` has come about from `s` by accesses to the bus, of which `bus` is the record.
pub record At (s : Fw) (bus : List Event) (t : Fw) : Type 0 where
  pub bus_is : t.bus ≡ bus
  pub ep0_is : t.ep0buf ≡ s.ep0buf
  pub temp_is : t.temp ≡ s.temp
  pub pec_is : t.pec_enabled ≡ s.pec_enabled
  pub templen_is : t.templen ≡ s.templen
  pub valid : IsValid t

pub At-refl : (s : Fw) → IsValid s → At s s.bus s
At-refl s v = record {
  bus_is = refl;
  ep0_is = refl;
  temp_is = refl;
  pec_is = refl;
  templen_is = refl;
  valid = v;
}

module _ {s : Fw} {bus : List Event} where
  -- The record of the bus by name, where it does not matter.
  pub At-self : (t : Fw) → At s bus t → At s t.bus t
  At-self t at = record {
    bus_is = refl;
    ep0_is = at.ep0_is;
    temp_is = at.temp_is;
    pec_is = at.pec_is;
    templen_is = at.templen_is;
    valid = at.valid;
  }

  pub At-eq : {bus' : List Event} (t : Fw) → At s bus t → bus ≡ bus' → At s bus' t
  At-eq t at e = record {
    bus_is = at.bus_is ∙ e;
    ep0_is = at.ep0_is;
    temp_is = at.temp_is;
    pec_is = at.pec_is;
    templen_is = at.templen_is;
    valid = at.valid;
  }

  pub tick-At : (env : Env) (t : Fw) → At s bus t → At s bus (tick env t)
  tick-At env t at =
      let v : IsValid (tick env t) = tick-IsValid env t at.valid in
      rw (tick_lem env t at.valid.count_in) (record {
        bus_is = at.bus_is;
        ep0_is = at.ep0_is;
        temp_is = at.temp_is;
        pec_is = at.pec_is;
        templen_is = at.templen_is;
        valid = ground arith;
      })

  -- `count=0`
  pub reset-At : (t : Fw) → At s bus t → At s bus (record t { count = 0 })
  reset-At t at = record {
    bus_is = at.bus_is;
    ep0_is = at.ep0_is;
    temp_is = at.temp_is;
    pec_is = at.pec_is;
    templen_is = at.templen_is;
    valid = ground (arith, at.valid);
  }

  pub access-At : (e : Event) (t : Fw) → At s bus t → At s (e ∷ bus) (record t { bus = e ∷ t.bus })
  access-At e t at = record {
    bus_is = rw at.bus_is;
    ep0_is = at.ep0_is;
    temp_is = at.temp_is;
    pec_is = at.pec_is;
    templen_is = at.templen_is;
    valid = ground (arith, at.valid);
  }

-- The record of the bus begins with the accesses `bus`.
pub record Behind (bus : List Event) (t : Fw) : Type 0 where
  pub more : List Event
  pub grown : t.bus ≡ logged more bus

pub Behind-refl : {s : Fw} {bus : List Event} (t : Fw) → At s bus t → Behind bus t
unfolding logged
Behind-refl t at = record { more = []; grown = at.bus_is }

pub Behind-earlier : {e : Event} {bus : List Event} (t : Fw) → Behind (e ∷ bus) t → Behind bus t
unfolding logged
Behind-earlier {e} t b = record { more = e ∷ b.more; grown = b.grown }

-- The outcome of `left` attempts to start.
pub data Started (s : Fw) (bus : List Event) (left : ℕ) : Bool → Fw → Type 0 where
  started :
      {u : Fw} (k : ℕ) → k < left → At s (set_start ∷ retried k bus) u → Started s bus left true u
  unstarted : {u : Fw} → At s (retried left bus) u → Started s bus left false u

later :
    {s : Fw} {bus : List Event} {left : ℕ} {b : Bool} {u : Fw}
    → Started s (set_start ∷ bus) left b u
    → Started s bus (suc left) b u
unfolding retried
later (started k h at) = started (suc k) (omega arith) at
later (unstarted at) = unstarted at

module _ (env : Env) (fuel : ℕ) (run : IsRunning env fuel) {s : Fw} {F : Fw → Type 0} where
  await-At :
      (seen : I2cs → Bool) (n : ℕ) {bus : List Event} (t : Fw)
      → At s bus t
      → t.count ≤ i2c_timeout
      → i2c_timeout < t.count + elapsed env t.time n
      → Post (λ _ u. At s bus u) F (await env seen n t)
  unfolding await
  await-At seen zero t at low h = absurd (omega arith)
  await-At seen (suc n) t at low h = elim (Bool-cases (seen (env.i2cs t.bus t.time))) [
    | inl e ↦ rw e (post_ok (tick-At env t at))
    | inr e ↦ rw e (elim (Bool-cases (ltb i2c_timeout (tick env t).count)) [
      | inl late ↦ rw late (post_ok (tick-At env t at))
      | inr early ↦ rw early (
          await-At seen n (tick env t) (tick-At env t at) (ground arith)
            (ground (arith, run.slow t.time, tick_lem env t at.valid.count_in)))
    ])
  ]

  pub wait_for-At :
      (seen : I2cs → Bool) {bus : List Event} (t : Fw)
      → At s bus t
      → Post (λ _ u. At s bus u) F (wait_for env fuel seen t)
  unfolding wait_for ◌>>◌ ◌>>=◌ modify
  wait_for-At seen t at =
      await-At seen fuel (record t { count = 0 }) (reset-At t at) (omega arith)
        (omega (arith, run.timer t.time))

  pub i2c_stop-At :
      {bus : List Event} (t : Fw)
      → At s bus t
      → Post (λ _ u. At s (set_stop ∷ bus) u) F (i2c_stop env fuel t)
  unfolding i2c_stop ◌>>◌ ◌>>=◌ access
  i2c_stop-At t at =
      Post-bind (wait_for-At (λ r. not r.stop) _ (access-At set_stop t at)) λ _ u q. post_ok q

  ep0_wait-At :
      (n : ℕ) {bus : List Event} (t : Fw)
      → At s bus t
      → Ready env t.time n
      → Post (λ _ u. At s bus u) F (ep0_wait env n t)
  unfolding ep0_wait
  ep0_wait-At zero t at h = absurd h
  ep0_wait-At (suc n) t at h = elim (Bool-cases (env.busy t.time)) [
    | inl e ↦ rw e (
        ep0_wait-At n (tick env t) (tick-At env t at)
          (rw (tick_lem env t at.valid.count_in) (ground arith)))
    | inr e ↦ rw e (post_ok (tick-At env t at))
  ]

  pub ep0_waited-At :
      {bus : List Event} (t : Fw) → At s bus t → Post (λ _ u. At s bus u) F (ep0_wait env fuel t)
  ep0_waited-At t at = ep0_wait-At fuel t at (run.host t.time)

  -- What `i2c_byteout` returns of the state in which its wait ended.
  answer_of-At :
      (done : Bool) {bus : List Event} (t : Fw)
      → At s bus t
      → Post
          (λ acked u. (acked ≡ true → At s bus u) × At s u.bus u × Behind bus u)
          F
          ((if done
              then (do
                r ← read_i2cs env
                if r.berr then pure false else (do r' ← read_i2cs env; pure r'.ack))
              else (do i2c_stop env fuel; pure false))
            t)
  unfolding if◌then◌else◌ ◌>>◌ ◌>>=◌ read_i2cs
  answer_of-At true t at = elim (Bool-cases (env.i2cs t.bus t.time).berr) [
    | inl e ↦ rw e (
        post_ok
          ((λ h. tick-At env t at), At-self _ (tick-At env t at), Behind-refl _ (tick-At env t at)))
    | inr e ↦ rw e (
        let next = tick-At env (tick env t) (tick-At env t at) in
        post_ok ((λ h. next), At-self _ next, Behind-refl _ next))
  ]
  answer_of-At false t at = Post-bind (i2c_stop-At t at) λ _ u q.
      post_ok ((λ h. absurd (ground arith)), At-self u q, Behind-earlier u (Behind-refl u q))

  pub i2c_byteout-At :
      (b : ℕ) {bus : List Event} (t : Fw)
      → At s bus t
      → Post
          (λ acked u.
            (acked ≡ true → At s (put (u8 b) ∷ bus) u) × At s u.bus u × Behind (put (u8 b) ∷ bus) u)
          F
          (i2c_byteout env fuel b t)
  unfolding i2c_byteout ◌>>◌ ◌>>=◌ access
  i2c_byteout-At b t at =
      Post-bind (wait_for-At (λ r. r.done) _ (access-At (put (u8 b)) t at))
        λ done u q. answer_of-At done u q

  pub start_tries-At :
      (left : ℕ) {bus : List Event} (t : Fw)
      → At s bus t
      → Post (Started s bus left) F (start_tries env left t)
  unfolding start_tries ◌>>◌ ◌>>=◌ access read_i2cs modify if◌then◌else◌ retried
  start_tries-At zero t at = post_ok (unstarted at)
  start_tries-At (suc left) {bus} t at =
      let t' : Fw = record t { bus = set_start ∷ t.bus } in
      let at' : At s (set_start ∷ bus) (tick env t') = tick-At env t' (access-At set_start t at) in
      elim (Bool-cases (env.i2cs (set_start ∷ t.bus) t.time).berr) [
        | inl e ↦ rw e (
            Post-mono (start_tries-At left (tick env (tick env t')) (tick-At env (tick env t') at'))
              λ b u q. later q)
        | inr e ↦ rw e (post_ok (started 0 (omega arith) at'))
      ]
