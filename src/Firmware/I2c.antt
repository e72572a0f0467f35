-- ===== src/Firmware/I2c.antt =====
-- The I2C primitives of firmware/smbusb_firmware.c. A wait has at most `fuel` polls; that a timer
-- which ticks ends it sooner is shown in `Firmware.Timeout`.
use smbusb.Prelude.{ℕ, zero, suc, Bool, true, false, not, u8, ltb, cond}
use smbusb.Firmware.State.{
  I2cs, Env, set_start, set_stop, set_lastrd, put, ok, hang, M, pure, fail, catch, require, ◌>>=◌,
  ◌>>◌, modify, if◌then◌else◌, when, access, tick, read_i2cs, read_i2dat,
}

abbrev pub i2c_max_retries : ℕ
i2c_max_retries = 5

abbrev pub i2c_timeout : ℕ
i2c_timeout = 10

module _ (env : Env) where
  -- `while (!seen(I2CS)) if (count>I2C_TIMEOUT) return`: whether it ended by the register.
  unfoldable pub await : (I2cs → Bool) → ℕ → M Bool
  await seen zero s = hang
  await seen (suc n) s =
      let rest = await seen n (tick env s) in
      cond (seen (env.i2cs s.bus s.time)) (ok true (tick env s))
        (cond (ltb i2c_timeout (tick env s).count) (ok false (tick env s)) rest)

  -- `i2c_start` with `left` tries left. `delay(10)` is a poll's time, in which timer 0 may tick.
  unfoldable pub start_tries : ℕ → M Bool
  start_tries zero = pure false
  start_tries (suc left) = do
    access set_start
    r ← read_i2cs env
    if r.berr then (do modify (tick env); start_tries left) else pure true

  unfoldable pub i2c_start : M Bool
  i2c_start = start_tries i2c_max_retries

  unfoldable pub i2c_restart : M (Unit {0})
  i2c_restart = access set_start

module _ (env : Env) (fuel : ℕ) where
  -- `count=0` and the wait.
  unfoldable pub wait_for : (I2cs → Bool) → M Bool
  wait_for seen = do modify (λ s. record s { count = 0 }); await env seen fuel

  unfoldable pub i2c_stop : M (Unit {0})
  i2c_stop = do access set_stop; wait_for (λ r. not r.stop); pure tt

  unfoldable pub i2c_byteout : ℕ → M Bool
  i2c_byteout outb = do
    access (put (u8 outb))
    done ← wait_for (λ r. r.done)
    if done
        then (do
          r ← read_i2cs env
          if r.berr then pure false else (do r' ← read_i2cs env; pure r'.ack))
        else (do i2c_stop; pure false)

  -- A wait for `seen` that gives up by `i2c_stop` and a jump.
  unfoldable pub wait_or_stop : (I2cs → Bool) → M (Unit {0})
  wait_or_stop seen = do done ← wait_for seen; if done then pure tt else (do i2c_stop; fail)

  -- The body of `i2c_bytein`; where a wait times out the function returns FALSE, by a jump here.
  unfoldable pub bytein_body : Bool → Bool → Bool → Bool → M ℕ
  bytein_body is_first is_single is_before_last is_last = do
    when is_single (access set_lastrd)
    when is_first (do discard ← read_i2dat env; wait_or_stop (λ r. r.done))
    when is_last (access set_stop)
    when is_before_last (access set_lastrd)
    b ← read_i2dat env
    if is_last then wait_or_stop (λ r. r.stop) else wait_or_stop (λ r. r.done)
    pure b

  unfoldable pub i2c_bytein : Bool → Bool → Bool → Bool → M ℕ
  i2c_bytein is_first is_single is_before_last is_last =
      catch (bytein_body is_first is_single is_before_last is_last) (pure 0)

  -- `if (!i2c_byteout(outb)) goto fail`.
  unfoldable pub out : ℕ → M (Unit {0})
  out outb = do acked ← i2c_byteout outb; require acked
