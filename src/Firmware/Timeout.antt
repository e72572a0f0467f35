-- ===== src/Firmware/Timeout.antt =====
-- The waits of the firmware end: what is assumed of the timer and the host, and that every I2C
-- primitive then returns. The state stays well formed on the way.
use smbusb.Prelude.{
  ℕ, zero, suc, ◌+◌, ◌≤◌, ◌<◌, ◌^◌, ◌≡◌, ◌⊎◌, inl, inr, Bool, false, arith, ltb, u16, length,
  Bool-cases,
}
use smbusb.Firmware.State.{
  I2cs, Env, Event, set_start, Fw, ◌>>◌, modify, access, timer0_isr, timer0_isr_times, tick,
  read_i2cs, read_i2dat, ep0_wait,
}
use smbusb.Firmware.Keeps.{Post, post_ok, Keeps, Keeps-modify, Keeps-pure, Keeps-catch, keeps_rules}
use smbusb.Firmware.I2c.{
  i2c_max_retries, i2c_timeout, await, start_tries, i2c_start, i2c_restart, i2c_stop, i2c_byteout,
  wait_for, wait_or_stop, bytein_body, i2c_bytein, out,
}

-- The interrupts of timer 0 in the `n` polls from number `t` on.
abbrev pub elapsed : Env → ℕ → ℕ → ℕ
elapsed env t zero = 0
elapsed env t (suc n) = env.ticks t + elapsed env (t + 1) n

-- Endpoint 0 is ready at one of the `n` polls from number `t` on.
abbrev pub Ready : Env → ℕ → ℕ → Type 0
Ready env t zero = ⊥
Ready env t (suc n) = (env.busy t ≡ false) ⊎ Ready env (t + 1) n

-- Timer 0 interrupts at most once a poll, and more than I2C_TIMEOUT times in any `fuel` polls; the
-- host never keeps endpoint 0 busy for `fuel` polls.
pub record IsRunning (env : Env) (fuel : ℕ) : Type 0 where
  pub slow : (t : ℕ) → env.ticks t ≤ 1
  pub timer : (t : ℕ) → i2c_timeout < elapsed env t fuel
  pub host : (t : ℕ) → Ready env t fuel

-- The arrays have their sizes, and the rest of a block lies within `temp`.
pub record IsValid (s : Fw) : Type 0 where
  pub ep0_size : length s.ep0buf ≡ 64
  pub temp_size : length s.temp ≡ 192
  pub ptr_in : s.tempptr ≤ s.templen
  pub len_in : s.templen ≤ 192
  pub count_in : s.count < 2 ^ 16

timer0_isr_times_lem :
    (n : ℕ) (s : Fw)
    → s.count < 2 ^ 16
    → timer0_isr_times n s ≡ record s { count = u16 (s.count + n) }
unfolding timer0_isr_times timer0_isr
timer0_isr_times_lem zero s h = ground arith
timer0_isr_times_lem (suc n) s h =
    rw (timer0_isr_times_lem n (record s { count = u16 (s.count + 1) }) (omega arith))
      (ground arith)

pub tick_lem :
    (env : Env) (s : Fw)
    → s.count < 2 ^ 16
    → tick env s ≡ record s { count = u16 (s.count + env.ticks s.time); time = s.time + 1 }
unfolding tick
tick_lem env s h = rw (timer0_isr_times_lem (env.ticks s.time) s h)

pub tick-IsValid : (env : Env) (s : Fw) → IsValid s → IsValid (tick env s)
tick-IsValid env s v = rw (tick_lem env s v.count_in) (ground arith)

-- A wait that starts at most I2C_TIMEOUT ticks after the last reset of `count` ends.
await-Post :
    (env : Env) (seen : I2cs → Bool) (n : ℕ) (s : Fw)
    → ((t : ℕ) → env.ticks t ≤ 1)
    → IsValid s
    → s.count ≤ i2c_timeout
    → i2c_timeout < s.count + elapsed env s.time n
    → Post (λ _ t. IsValid t) IsValid (await env seen n s)
unfolding await
await-Post env seen zero s slow v low h = absurd (omega arith)
await-Post env seen (suc n) s slow v low h = elim (Bool-cases (seen (env.i2cs s.bus s.time))) [
  | inl e ↦ rw e (post_ok (tick-IsValid env s v))
  | inr e ↦ rw e (elim (Bool-cases (ltb i2c_timeout (tick env s).count)) [
    | inl late ↦ rw late (post_ok (tick-IsValid env s v))
    | inr early ↦ rw early (
        await-Post env seen n (tick env s) slow (tick-IsValid env s v) (ground arith)
          (ground (arith, slow s.time, tick_lem env s v.count_in)))
  ])
]

ep0_wait-Post :
    (env : Env) (n : ℕ) (s : Fw)
    → IsValid s
    → Ready env s.time n
    → Post (λ _ t. IsValid t) IsValid (ep0_wait env n s)
unfolding ep0_wait
ep0_wait-Post env zero s v h = absurd h
ep0_wait-Post env (suc n) s v h = elim (Bool-cases (env.busy s.time)) [
  | inl e ↦ rw e (
      ep0_wait-Post env n (tick env s) (tick-IsValid env s v)
        (rw (tick_lem env s v.count_in) (ground arith)))
  | inr e ↦ rw e (post_ok (tick-IsValid env s v))
]

access-Keeps : (e : Event) → Keeps IsValid (access e)
unfolding access
access-Keeps e = record { at = λ s v. post_ok (ground arith) }

module _ (env : Env) where
  read_i2cs-Keeps : Keeps IsValid (read_i2cs env)
  unfolding read_i2cs
  read_i2cs-Keeps = record { at = λ s v. post_ok (tick-IsValid env s v) }

  read_i2dat-Keeps : Keeps IsValid (read_i2dat env)
  unfolding read_i2dat
  read_i2dat-Keeps = record { at = λ s v. post_ok (rw (tick_lem env s v.count_in) (ground arith)) }

  tick-Keeps : Keeps IsValid (modify (tick env))
  tick-Keeps = Keeps-modify (tick env) (tick-IsValid env)

  start_tries-Keeps : (left : ℕ) → Keeps IsValid (start_tries env left)
  unfolding start_tries
  start_tries-Keeps zero = search keeps_rules
  start_tries-Keeps (suc left) =
      let rest : Keeps IsValid (start_tries env left) = start_tries-Keeps left in
      search (keeps_rules, access-Keeps, read_i2cs-Keeps, tick-Keeps) depth 12

module _ (env : Env) (fuel : ℕ) (run : IsRunning env fuel) where
  wait_for-Keeps : (seen : I2cs → Bool) → Keeps IsValid (wait_for env fuel seen)
  unfolding wait_for ◌>>◌ modify
  wait_for-Keeps seen = record {
    at = λ s v.
        await-Post env seen fuel (record s { count = 0 }) run.slow (ground arith) (omega arith)
          (omega (arith, run.timer s.time));
  }

  pub ep0_wait-Keeps : Keeps IsValid (ep0_wait env fuel)
  ep0_wait-Keeps = record { at = λ s v. ep0_wait-Post env fuel s v (run.host s.time) }

  pub i2c_start-Keeps : Keeps IsValid (i2c_start env)
  unfolding i2c_start
  i2c_start-Keeps = start_tries-Keeps env i2c_max_retries

  pub i2c_restart-Keeps : Keeps IsValid (i2c_restart env)
  unfolding i2c_restart
  i2c_restart-Keeps = access-Keeps set_start

  pub i2c_stop-Keeps : Keeps IsValid (i2c_stop env fuel)
  unfolding i2c_stop
  i2c_stop-Keeps = search (keeps_rules, access-Keeps, wait_for-Keeps)

  pub i2c_byteout-Keeps : (b : ℕ) → Keeps IsValid (i2c_byteout env fuel b)
  unfolding i2c_byteout
  i2c_byteout-Keeps b =
      search (keeps_rules, access-Keeps, wait_for-Keeps, read_i2cs-Keeps, i2c_stop-Keeps) depth 14

  wait_or_stop-Keeps : (seen : I2cs → Bool) → Keeps IsValid (wait_or_stop env fuel seen)
  unfolding wait_or_stop
  wait_or_stop-Keeps seen = search (keeps_rules, wait_for-Keeps, i2c_stop-Keeps) depth 10

  bytein_body-Keeps : (a b c d : Bool) → Keeps IsValid (bytein_body env fuel a b c d)
  unfolding bytein_body
  bytein_body-Keeps a b c d =
      search (keeps_rules, access-Keeps, wait_or_stop-Keeps, read_i2dat-Keeps) depth 20

  pub i2c_bytein-Keeps : (a b c d : Bool) → Keeps IsValid (i2c_bytein env fuel a b c d)
  unfolding i2c_bytein
  i2c_bytein-Keeps a b c d = Keeps-catch _ _ (bytein_body-Keeps a b c d) (Keeps-pure 0)

  pub out-Keeps : (b : ℕ) → Keeps IsValid (out env fuel b)
  unfolding out
  out-Keeps b = search (keeps_rules, i2c_byteout-Keeps) depth 8
