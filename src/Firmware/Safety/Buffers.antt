-- ===== src/Firmware/Safety/Buffers.antt =====
-- The accesses to the arrays of the firmware keep the state well formed where they are in bounds.
use smbusb.Prelude.{
  ℕ, ◌≡◌, true, List, arith, ltb, length, length-set, length-overlay, get_elem?-eq-get_or,
}
use smbusb.Firmware.State.{Env, ep0_get, ep0_put, temp_get, temp_put, arm, ep0_receive}
use smbusb.Firmware.Keeps.{post_ok, Keeps, Keeps-modify, Keeps-then}
use smbusb.Firmware.Timeout.{IsRunning, IsValid, ep0_wait-Keeps}

pub arm-Keeps : (n : ℕ) → Keeps IsValid (arm n)
unfolding arm
arm-Keeps n = record { at = λ s v. post_ok (ground arith) }

pub ep0_get-Keeps : (i : ℕ) → ltb i 64 ≡ true → Keeps IsValid (ep0_get i)
unfolding ep0_get
ep0_get-Keeps i h = record {
  at = λ s v. rw (get_elem?-eq-get_or s.ep0buf i 0 (ground arith)) (post_ok v);
}

pub temp_get-Keeps : (i : ℕ) → ltb i 192 ≡ true → Keeps IsValid (temp_get i)
unfolding temp_get
temp_get-Keeps i h = record {
  at = λ s v. rw (get_elem?-eq-get_or s.temp i 0 (ground arith)) (post_ok v);
}

pub ep0_put-Keeps : (i x : ℕ) → ltb i 64 ≡ true → Keeps IsValid (ep0_put i x)
unfolding ep0_put
ep0_put-Keeps i x h = record {
  at = λ s v.
      let inside : ltb i (length s.ep0buf) ≡ true = ground arith in
      rw inside (post_ok (ground (arith, length-set s.ep0buf i x)));
}

pub temp_put-Keeps : (i x : ℕ) → ltb i 192 ≡ true → Keeps IsValid (temp_put i x)
unfolding temp_put
temp_put-Keeps i x h = record {
  at = λ s v.
      let inside : ltb i (length s.temp) ≡ true = ground arith in
      rw inside (post_ok (ground (arith, length-set s.temp i x)));
}

pub ep0_receive-Keeps :
    (env : Env) (fuel : ℕ) (bytes : List ℕ)
    → IsRunning env fuel
    → Keeps IsValid (ep0_receive env fuel bytes)
unfolding ep0_receive
ep0_receive-Keeps env fuel bytes run = Keeps-then _ _ (Keeps-modify _ λ s v. ground arith) (
    Keeps-then _ _ (ep0_wait-Keeps env fuel run)
      (Keeps-modify _ λ s v. ground (arith, length-overlay bytes s.ep0buf)))
