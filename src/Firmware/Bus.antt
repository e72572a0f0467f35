-- ===== src/Firmware/Bus.antt =====
-- What SMBus asks of a controller: the accesses of whole transactions, independent of the code that
-- makes them.
pub mod At
pub mod Steps
pub mod Writes
pub mod Blocks
pub mod Gathering
pub mod LastPiece
pub mod LongBlocks
pub mod Receive
pub mod Reads
pub mod WordReads
pub mod BlockRounds
pub mod BlockLoop
pub mod BlockReads
pub mod BlockAnswers
pub mod BlockFinish
pub mod BlockRequests
pub mod Bench
mod Tests
use smbusb.Prelude.{
  ℕ, zero, suc, ◌+◌, ◌<◌, ◌≡◌, refl, ap, ◌∙◌, Bool, true, false, List, [], ◌∷◌, ◌++◌, cond, u8,
}
use smbusb.Pec.{pec_from}
use smbusb.Firmware.State.{Event, set_start, set_stop, set_lastrd, put, got, Fw}
use smbusb.Firmware.Timeout.{IsValid}

-- The record of the bus, the last access first, after the further accesses, the first one first.
unfoldable pub logged : List Event → List Event → List Event
logged [] bus = bus
logged (e ∷ es) bus = logged es (e ∷ bus)

pub logged-append : (es fs bus : List Event) → logged (es ++ fs) bus ≡ logged fs (logged es bus)
unfolding logged
logged-append [] fs bus = refl
logged-append (e ∷ es) fs bus = logged-append es fs (e ∷ bus)

-- A byte goes to the 8 bits of I2DAT.
unfoldable pub puts : List ℕ → List Event
puts [] = []
puts (b ∷ bytes) = put (u8 b) ∷ puts bytes

pub puts-append : (xs ys : List ℕ) → puts (xs ++ ys) ≡ puts xs ++ puts ys
unfolding puts
puts-append [] ys = refl
puts-append (x ∷ xs) ys = ap (◌∷◌ (put (u8 x))) (puts-append xs ys)

unfoldable pub check_code : Bool → List ℕ → List ℕ
check_code true bytes = pec_from 0 bytes ∷ []
check_code false bytes = []

-- START, the bytes of the message from the address on, its code where codes are on, and STOP.
unfoldable pub write_transaction : Bool → List ℕ → List Event
write_transaction pec bytes =
    set_start ∷ (puts bytes ++ (puts (check_code pec bytes) ++ (set_stop ∷ [])))

-- The reads of I2DAT, the first of which starts the clock: LASTRD is set before the last but one,
-- STOP before the last.
unfoldable pub receive : List ℕ → List Event
receive [] = []
receive (x ∷ []) = set_stop ∷ got x ∷ []
receive (x ∷ y ∷ []) = set_lastrd ∷ got x ∷ set_stop ∷ got y ∷ []
receive (x ∷ y ∷ z ∷ zs) = got x ∷ receive (y ∷ z ∷ zs)

-- START, address and command, START again, and the address for reading.
unfoldable pub address_phase : ℕ → ℕ → List Event
address_phase addr command =
    set_start ∷ put (u8 addr) ∷ put (u8 command) ∷ set_start ∷ put (u8 (addr + 1)) ∷ []

-- The bytes of the message that a read consists of, before its data.
abbrev pub read_head : ℕ → ℕ → List ℕ
read_head addr command = u8 addr ∷ u8 command ∷ u8 (addr + 1) ∷ []

-- The whole of a read, whose first access to I2DAT returns `discarded`; the code that follows the
-- data is the right one.
unfoldable pub read_transaction : Bool → ℕ → ℕ → ℕ → List ℕ → List Event
read_transaction pec addr command discarded bytes =
    address_phase addr command
    ++ receive (discarded ∷ (bytes ++ check_code pec (read_head addr command ++ bytes)))

-- START was set `k` times in vain.
unfoldable pub retried : ℕ → List Event → List Event
retried zero bus = bus
retried (suc k) bus = retried k (set_start ∷ bus)

-- After fewer than 5 vain attempts to start, exactly the transaction went over the bus.
pub record Carried (bus transaction : List Event) (t : Fw) : Type 0 where
  pub tries : ℕ
  pub few : tries < 5
  pub exact : t.bus ≡ logged transaction (retried tries bus)
  pub valid : IsValid t

pub Carried-eq :
    {bus bus' transaction transaction' : List Event} {t : Fw}
    → bus ≡ bus'
    → transaction ≡ transaction'
    → Carried bus transaction t
    → Carried bus' transaction' t
Carried-eq {bus'} {transaction} e e' c = record {
  tries = c.tries;
  few = c.few;
  exact =
      c.exact
      ∙ ap (λ b. logged transaction (retried c.tries b)) e
      ∙ ap (λ es. logged es (retried c.tries bus')) e';
  valid = c.valid;
}

-- A request that succeeds ends in `Q`; one that fails leaves STOP as the last access.
pub data Outcome (Q : Fw → Type 0) : Bool → Fw → Type 0 where
  finished : {t : Fw} → Q t → Outcome Q true t
  aborted : {t : Fw} {bus : List Event} → t.bus ≡ set_stop ∷ bus → IsValid t → Outcome Q false t

pub Outcome-mono :
    {Q R : Fw → Type 0} {b : Bool} {t : Fw} → Outcome Q b t → ((u : Fw) → Q u → R u) → Outcome R b t
Outcome-mono (finished q) weaken = finished (weaken _ q)
Outcome-mono (aborted e v) weaken = aborted e v
