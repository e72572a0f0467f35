-- ===== src/Firmware/Reach.antt =====
-- The life of the firmware: from power-up, requests that fit the buffers and interrupts of timer 0, in
-- any order.
use smbusb.Prelude.{ℕ, ◌≡◌, Bool, true, false, List, [], length, arith}
use smbusb.Firmware.State.{Env, Fw, Request, ok, failed, timer0_isr}
use smbusb.Firmware.Keeps.{Post, post_ok, post_failed}
use smbusb.Firmware.Timeout.{IsRunning, IsValid}
use smbusb.Firmware.Commands.Dispatch.{decode, handle_vendorcommand}
use smbusb.Firmware.Safety.Served.{IsServed, handle_vendorcommand-Keeps}

-- The globals at power-up; the arrays may hold anything.
unfoldable pub power_up : List ℕ → List ℕ → Fw
power_up temp ep0buf = record {
  pec_enabled = true;
  pec_failed = false;
  temp = temp;
  tempptr = 0;
  templen = 0;
  mrq_pec = 0;
  rcv_pec = 0;
  count = 0;
  ep0buf = ep0buf;
  ep0bc = 0;
  time = 0;
  bus = [];
}

-- What happens to the firmware: a request is handled, or timer 0 interrupts in between.
pub data Step (env : Env) (fuel : ℕ) (s t : Fw) : Type 0 where
  handled :
      (cmd : ℕ) (r : Request) (b : Bool)
      → IsServed (decode cmd) r
      → handle_vendorcommand env fuel cmd r s ≡ ok b t
      → Step env fuel s t
  gave_up :
      (cmd : ℕ) (r : Request)
      → IsServed (decode cmd) r
      → handle_vendorcommand env fuel cmd r s ≡ failed t
      → Step env fuel s t
  ticked : t ≡ timer0_isr s → Step env fuel s t

pub data Reach (env : Env) (fuel : ℕ) (s : Fw) : Fw → Type 0 where
  here : Reach env fuel s s
  next : {t u : Fw} → Reach env fuel s t → Step env fuel t u → Reach env fuel s u

-- The state in which a run ends.
left : {F : Fw → Type 0} (b : Bool) (t : Fw) → Post (λ _ u. F u) F (ok b t) → F t
left b t (post_ok h) = h

left_failed : {F : Fw → Type 0} (t : Fw) → Post {A = Bool} (λ _ u. F u) F (failed t) → F t
left_failed t (post_failed h) = h

timer0_isr-IsValid : (s : Fw) → IsValid s → IsValid (timer0_isr s)
unfolding timer0_isr
timer0_isr-IsValid s v = ground arith

module _ (env : Env) (fuel : ℕ) (run : IsRunning env fuel) where
  Step-IsValid : (s t : Fw) → Step env fuel s t → IsValid s → IsValid t
  Step-IsValid s t (handled cmd r b served e) v =
      left {F = IsValid} b t
        (rw⁻¹ e ((handle_vendorcommand-Keeps env fuel run cmd r served).at s v))
  Step-IsValid s t (gave_up cmd r served e) v =
      left_failed {F = IsValid} t
        (rw⁻¹ e ((handle_vendorcommand-Keeps env fuel run cmd r served).at s v))
  Step-IsValid s t (ticked e) v = rw e (timer0_isr-IsValid s v)

  Reach-IsValid : {s t : Fw} → IsValid s → Reach env fuel s t → IsValid t
  Reach-IsValid h here = h
  Reach-IsValid h (next r st) = Step-IsValid _ _ st (Reach-IsValid h r)

  -- Whatever requests that fit the buffers were handled since power-up, and whenever timer 0
  -- interrupted in between, the state is well formed, where timer and host are as `IsRunning` says.
  pub power_up-IsValid :
      (temp ep0buf : List ℕ) {s : Fw}
      → length temp ≡ 192
      → length ep0buf ≡ 64
      → Reach env fuel (power_up temp ep0buf) s
      → IsValid s
  unfolding power_up
  power_up-IsValid temp ep0buf h k r = Reach-IsValid (ground arith) r
