-- ===== src/Firmware/Bus/Bench.antt =====
-- Hardware to test the requests on: a device that acknowledges everything and sends 7, at once.
use smbusb.Prelude.{ℕ, ◌≡◌, refl, inl, Bool, true, false, List, [], ◌∷◌, arith, cond}
use smbusb.Firmware.State.{
  I2cs, Env, Event, set_start, set_stop, set_lastrd, put, got, Fw, ok, ◌>>=◌, ◌>>◌, modify,
}
use smbusb.Firmware.Timeout.{IsRunning}
use smbusb.Firmware.I2c.{await, wait_for}
use smbusb.Firmware.Bus.{logged}
use smbusb.Firmware.Bus.Receive.{IsPrompt}

-- What I2CS shows after some accesses: DONE once I2DAT has been written or read, and STOP while a
-- STOP that was set before the last read is pending.
unfoldable pub quick : List Event → ℕ → I2cs
quick [] t = record { stop = false; berr = false; ack = false; done = false }
quick (put b ∷ bus) t = record { stop = false; berr = false; ack = true; done = true }
quick (got b ∷ set_stop ∷ bus) t = record { stop = true; berr = false; ack = true; done = true }
quick (got b ∷ set_lastrd ∷ set_stop ∷ bus) t = record {
  stop = true;
  berr = false;
  ack = true;
  done = true;
}
quick (got b ∷ bus) t = record { stop = false; berr = false; ack = true; done = true }
quick (e ∷ bus) t = record { stop = false; berr = false; ack = false; done = false }

abbrev pub bench : Env
bench = record { i2cs = quick; i2dat = λ bus t. 7; ticks = λ t. 1; busy = λ t. false }

pub bench-IsRunning : IsRunning bench 12
bench-IsRunning = record { slow = λ t. omega arith; timer = λ t. omega arith; host = λ t. inl refl }

done_after_read : (b : ℕ) (bus : List Event) (t : ℕ) → (quick (got b ∷ bus) t).done ≡ true
unfolding quick
done_after_read b [] t = refl
done_after_read b (set_start ∷ bus) t = refl
done_after_read b (set_stop ∷ bus) t = refl
done_after_read b (set_lastrd ∷ []) t = refl
done_after_read b (set_lastrd ∷ set_start ∷ bus) t = refl
done_after_read b (set_lastrd ∷ set_stop ∷ bus) t = refl
done_after_read b (set_lastrd ∷ set_lastrd ∷ bus) t = refl
done_after_read b (set_lastrd ∷ put c ∷ bus) t = refl
done_after_read b (set_lastrd ∷ got c ∷ bus) t = refl
done_after_read b (put c ∷ bus) t = refl
done_after_read b (got c ∷ bus) t = refl

stop_after_last :
    (b : ℕ) (before : Bool) (bus : List Event) (t : ℕ)
    → (quick (got b ∷ logged (cond before (set_lastrd ∷ []) []) (set_stop ∷ bus)) t).stop ≡ true
unfolding quick logged
stop_after_last b true bus t = refl
stop_after_last b false bus t = refl

-- A wait for what is there ends at once.
not_late :
    (seen : I2cs → Bool) (s u : Fw)
    → seen (quick s.bus s.time) ≡ true
    → ¬ (wait_for bench 12 seen s ≡ ok false u)
unfolding wait_for await ◌>>=◌ ◌>>◌ modify
not_late seen s u e = rw e (λ h. ground arith)

pub bench-IsPrompt : IsPrompt bench 12
bench-IsPrompt = record {
  done = λ b bus s u e. not_late (λ r. r.done) s u (rw e (done_after_read b bus s.time));
  stop =
      λ b before bus s u e. not_late (λ r. r.stop) s u (rw e (stop_after_last b before bus s.time));
}
