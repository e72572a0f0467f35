-- ===== src/Fx2lp/Flags.antt =====
-- The flags of the transfers of `FX2LP_SMBWrite`, and how many there are.
use smbusb.Prelude.{
  ℕ, zero, suc, ◌+◌, ◌-◌, ◌*◌, ◌/◌, ◌<◌, ◌≡◌, refl, ap, ◌∙◌, Bool, true, false, List, [], ◌∷◌, ◌++◌,
  arith, cond, u16,
}
use smbusb.Fx2lp.State.{Call, Transfer}
use smbusb.Fx2lp.Arbitrary.{set_flag, clear_flag, start_first, restart_first, stop_after}

-- The flags of the transfers, from the first one on.
abbrev pub sent_flags : List Call → List ℕ
sent_flags [] = []
sent_flags (Call.control t ∷ calls) = sent_flags calls ++ (t.index ∷ [])
sent_flags (c ∷ calls) = sent_flags calls

-- The flags that start a message: START is 1, a repeated START 2.
abbrev pub start_flags : Bool → Bool → ℕ
start_flags start restart = cond start 1 0 + cond restart 2 0

-- The flags of `n` transfers: the first one has `first`, and the last one STOP, which is 4.
abbrev pub flags_of : ℕ → Bool → ℕ → List ℕ
flags_of first stop zero = []
flags_of first stop (suc zero) = (first + cond stop 4 0) ∷ []
flags_of first stop (suc (suc n)) = first ∷ flags_of 0 stop (suc n)

pub initial : (a b : Bool) → set_flag b restart_first (set_flag a start_first 0) ≡ start_flags a b
initial true true = refl
initial true false = refl
initial false true = refl
initial false false = refl

pub cleared : (a b : Bool) → clear_flag restart_first (clear_flag start_first (start_flags a b)) ≡ 0
cleared true true = refl
cleared true false = refl
cleared false true = refl
cleared false false = refl

pub closing :
    (a b stop : Bool)
    → u16 (set_flag stop stop_after (start_flags a b)) ≡ start_flags a b + cond stop 4 0
closing true true true = refl
closing true true false = refl
closing true false true = refl
closing true false false = refl
closing false true true = refl
closing false true false = refl
closing false false true = refl
closing false false false = refl

pub going_on : (a b : Bool) → u16 (start_flags a b) ≡ start_flags a b
going_on a b = ground arith

abbrev pub raw_transfer : ℕ → List ℕ → ℕ → Transfer
raw_transfer rs bytes n = record {
  inward = false;
  request = 0x50;
  value = u16 n;
  index = u16 rs;
  sent = bytes;
  wanted = n;
}

-- The transfers that `left` rounds and a remainder take.
abbrev pub count_of : ℕ → ℕ → ℕ
count_of left zero = left
count_of left (suc n) = suc left

count_of_lem : (left rest : ℕ) → rest < 64 → count_of left rest ≡ (left * 64 + rest + 63) / 64
count_of_lem left zero h = omega arith
count_of_lem left (suc n) h = omega arith

pub transfers_of : (len : ℕ) → count_of (len / 64) (len - len / 64 * 64) ≡ (len + 63) / 64
transfers_of len =
    count_of_lem (len / 64) (len - len / 64 * 64) (omega arith) ∙ ap (λ n. n / 64) (omega arith)

pub flags_of-round :
    (f : ℕ) (stop : Bool) (left rest : ℕ)
    → 0 < left + rest
    → flags_of f stop (count_of (suc left) rest) ≡ f ∷ flags_of 0 stop (count_of left rest)
flags_of-round f stop zero zero more = absurd (omega arith)
flags_of-round f stop zero (suc n) more = refl
flags_of-round f stop (suc left) zero more = refl
flags_of-round f stop (suc left) (suc n) more = refl
