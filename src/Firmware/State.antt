-- ===== src/Firmware/State.antt =====
-- The variables of firmware/smbusb_firmware.c, the registers it reads, and how its code runs.
-- The I2C controller, endpoint 0 and timer 0 are hardware: what their registers hold at each poll
-- is a parameter, and each access of the code to the I2C controller is recorded.
use smbusb.Prelude.{
  ℕ, zero, suc, ◌+◌, Bool, true, false, Option, none, some, List, ◌∷◌, u8, u16, ltb, cond, length,
  get_elem?, set, overlay,
}

-- The bits of I2CS that the code tests.
pub record I2cs : Type 0 where
  pub stop : Bool
  pub berr : Bool
  pub ack : Bool
  pub done : Bool

-- An access to the I2C controller: a bit set in I2CS, a byte written to or read from I2DAT.
pub data Event : Type 0 where
  set_start set_stop set_lastrd : Event
  put : ℕ → Event
  got : ℕ → Event

-- The hardware, by the number of the poll: what I2CS and I2DAT hold, which the accesses made so far
-- (the last one first) may bear on, how many interrupts of timer 0 came since the last poll, and
-- whether endpoint 0 is busy.
pub record Env : Type 0 where
  pub i2cs : List Event → ℕ → I2cs
  pub i2dat : List Event → ℕ → ℕ
  pub ticks : ℕ → ℕ
  pub busy : ℕ → Bool

-- The global variables, the buffer and byte count of endpoint 0, the number of polls made, and
-- the accesses to the I2C controller, the last one first.
pub record Fw : Type 0 where
  pub pec_enabled : Bool
  pub pec_failed : Bool
  pub temp : List ℕ
  pub tempptr : ℕ
  pub templen : ℕ
  pub mrq_pec : ℕ
  pub rcv_pec : ℕ
  pub count : ℕ
  pub ep0buf : List ℕ
  pub ep0bc : ℕ
  pub time : ℕ
  pub bus : List Event

-- A run ends normally, jumps to the fail label of its handler, waits for ever, or accesses an
-- array out of bounds.
pub data Run (A : Type 0) : Type 0 where
  ok : A → Fw → Run A
  failed : Fw → Run A
  hang fault : Run A

abbrev pub M : Type 0 → Type 0
M A = Fw → Run A

abbrev pub pure : {A : Type 0} → A → M A
pure a s = ok a s

-- `goto fail`.
abbrev pub fail : {A : Type 0} → M A
fail s = failed s

module _ {A B : Type 0} where
  abbrev pub and_then : Run A → (A → M B) → Run B
  and_then (ok a s) k = k a s
  and_then (failed s) k = failed s
  and_then hang k = hang
  and_then fault k = fault

  infixl 5 ◌>>=◌ ◌>>◌
  unfoldable pub ◌>>=◌ : M A → (A → M B) → M B
  ◌>>=◌ m k s = and_then (m s) k

  unfoldable pub ◌>>◌ : M A → M B → M B
  unfolding ◌>>=◌
  m >> n = m >>= λ _. n

-- The code at a fail label.
abbrev pub or_else : {A : Type 0} → Run A → M A → Run A
or_else (failed s) k = k s
or_else (ok a s) k = ok a s
or_else hang k = hang
or_else fault k = fault

unfoldable pub catch : {A : Type 0} → M A → M A → M A
catch m k s = or_else (m s) k

unfoldable pub gets : {A : Type 0} → (Fw → A) → M A
gets f s = ok (f s) s

unfoldable pub modify : (Fw → Fw) → M (Unit {0})
modify f s = ok tt (f s)

-- A branch of the code; that of a value is `cond`.
infix 1 if◌then◌else◌
unfoldable pub if◌then◌else◌ : {A : Type 0} → Bool → M A → M A → M A
if true then m else n = m
if false then m else n = n

unfoldable pub when : Bool → M (Unit {0}) → M (Unit {0})
when true m = m
when false m = pure tt

-- `if (!call) goto fail`.
unfoldable pub require : Bool → M (Unit {0})
require true = pure tt
require false = fail

unfoldable pub access : Event → M (Unit {0})
access e s = ok tt (record s { bus = e ∷ s.bus })

-- Arrays of bytes, into which only bytes are put; an index out of bounds is a fault.
abbrev pub or_fault : Option ℕ → M ℕ
or_fault none s = fault
or_fault (some v) s = ok v s

unfoldable pub ep0_get : ℕ → M ℕ
ep0_get i s = or_fault (get_elem? s.ep0buf i) s

unfoldable pub ep0_put : ℕ → ℕ → M (Unit {0})
ep0_put i v s =
    cond (ltb i (length s.ep0buf)) (ok tt (record s { ep0buf = set s.ep0buf i v })) fault

unfoldable pub temp_get : ℕ → M ℕ
temp_get i s = or_fault (get_elem? s.temp i) s

unfoldable pub temp_put : ℕ → ℕ → M (Unit {0})
temp_put i v s = cond (ltb i (length s.temp)) (ok tt (record s { temp = set s.temp i v })) fault

-- `EP0BCH=0; EP0BCL=n`.
unfoldable pub arm : ℕ → M (Unit {0})
arm n s = ok tt (record s { ep0bc = u8 n })

-- A request that the host sends: SETUP_VALUE, SETUP_INDEX, and the data of a write.
pub record Request : Type 0 where
  pub value : ℕ
  pub index : ℕ
  pub payload : List ℕ

-- `timer0_isr`, the handler of timer 0, which increments the 16 bits of `count`.
unfoldable pub timer0_isr : Fw → Fw
timer0_isr s = record s { count = u16 (s.count + 1) }

unfoldable pub timer0_isr_times : ℕ → Fw → Fw
timer0_isr_times zero s = s
timer0_isr_times (suc n) s = timer0_isr_times n (timer0_isr s)

-- Reading I2CS or I2DAT is a poll: it takes time, in which the timer may interrupt.
module _ (env : Env) where
  unfoldable pub tick : Fw → Fw
  tick s = record (timer0_isr_times (env.ticks s.time) s) { time = s.time + 1 }

  unfoldable pub read_i2cs : M I2cs
  read_i2cs s = ok (env.i2cs s.bus s.time) (tick s)

  unfoldable pub read_i2dat : M ℕ
  read_i2dat s =
      let v = u8 (env.i2dat s.bus s.time) in
      let t = tick s in ok v (record t { bus = got v ∷ t.bus })

  -- `while (EP0CS&bmEPBUSY);`, with at most `fuel` polls.
  unfoldable pub ep0_wait : ℕ → M (Unit {0})
  ep0_wait zero s = hang
  ep0_wait (suc fuel) s =
      let rest = ep0_wait fuel (tick s) in cond (env.busy s.time) rest (ok tt (tick s))

  -- `EP0BCL=0`, which asks the host for its data, and the wait for them.
  unfoldable pub ep0_receive : ℕ → List ℕ → M (Unit {0})
  ep0_receive fuel bytes = do
    modify (λ s. record s { ep0bc = 0 })
    ep0_wait fuel
    modify (λ s. record s { ep0buf = overlay bytes s.ep0buf })
