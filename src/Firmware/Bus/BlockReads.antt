-- ===== src/Firmware/Bus/BlockReads.antt =====
-- The request that reads a block: the transaction on the bus, and where its data are kept.
use smbusb.Prelude.{
  ℕ, suc, ◌+◌, ◌≤◌, ◌≡◌, refl, ap, inl, inr, true, false, ◌||◌, List, [], ◌∷◌, arith, cond, ltb, u8,
  ◌==◌, ==_iff, Bool-cases,
}
use smbusb.Pec.{pec_crc}
use smbusb.Firmware.State.{
  Env, Event, set_start, got, Fw, Request, Run, gets, ◌>>◌, ◌>>=◌, when, if◌then◌else◌, and_then,
  access,
}
use smbusb.Firmware.Keeps.{Post, post_ok, post_failed, Post-bind, Post-mono, Post-weaken}
use smbusb.Firmware.Timeout.{IsRunning, IsValid}
use smbusb.Firmware.I2c.{i2c_restart}
use smbusb.Firmware.Commands.{header_pec}
use smbusb.Firmware.Commands.ReadBlock.{
  Locals, store_byte, take_byte, read_rounds, read_transaction,
}
use smbusb.Firmware.Bus.{logged, address_phase, retried}
use smbusb.Firmware.Bus.At.{At, At-eq, access-At}
use smbusb.Firmware.Bus.Steps.{out-At}
use smbusb.Firmware.Bus.Receive.{IsPrompt, bytein_events, i2c_bytein-At}
use smbusb.Firmware.Bus.BlockLoop.{locals_at, Completed, and_false, store-At, read_rounds-Completed}

small : (b : ℕ) → (ltb 254 b || b == 0) ≡ false → (b == 254) ≡ false → (1 ≤ b) × (b ≤ 253)
small b e e' = ground arith

valid_after :
    {A : Type 0} {Q : A → Fw → Type 0} {s : Fw} {r : Run A}
    → Post Q (λ u. At s u.bus u) r
    → Post Q IsValid r
valid_after h = Post-weaken h (λ a u q. q) λ u at. at.valid

-- What the loop leaves where it does not fail: the whole block, or nothing but its size, where that
-- is 254.
pub data BlockRead (s : Fw) (bus : List Event) (start : ℕ) (l : Locals) (t : Fw) : Type 0 where
  whole :
      (n discarded : ℕ)
      → 1 ≤ n
      → n ≤ 253
      → Completed s
          (got n ∷ got discarded ∷ bus)
          (n ∷ [])
          n
          (cond s.pec_enabled (pec_crc start n) start)
          0
          l
          t
      → BlockRead s bus start l t
  unread :
      (discarded : ℕ)
      → l ≡ locals_at 1 0 start 0
      → At s (got 254 ∷ got discarded ∷ bus) t
      → BlockRead s bus start l t

module _ (env : Env) (fuel : ℕ) (run : IsRunning env fuel) (prompt : IsPrompt env fuel) {s : Fw}
    (v : IsValid s) where
  unread_size :
      (start b discarded : ℕ) {bus : List Event} (u : Fw)
      → b ≡ 254
      → At s (got b ∷ got discarded ∷ bus) u
      → Post
          (BlockRead s bus start)
          IsValid
          (and_then (store_byte (locals_at 0 (u8 (b + 2)) start 0) b u) (read_rounds env fuel 255))
  unfolding store_byte gets when read_rounds if◌then◌else◌ ◌>>=◌ ◌>>◌
  unread_size start b discarded {bus} u e at =
      let none_left : u8 (b + 2) ≡ 0 = omega arith in
      rw (none_left, and_false u.pec_enabled)
        (post_ok (unread discarded refl (At-eq u at (ap (λ n. got n ∷ got discarded ∷ bus) e))))

  known_size :
      (start b discarded : ℕ) {bus : List Event} (u : Fw)
      → (1 ≤ b) × (b ≤ 253)
      → At s (got b ∷ got discarded ∷ bus) u
      → Post
          (BlockRead s bus start)
          IsValid
          (and_then (store_byte (locals_at 0 (u8 (b + 2)) start 0) b u) (read_rounds env fuel 255))
  known_size start b discarded {bus} u sized at =
      let announced : u8 (b + 2) ≡ 1 + suc b = omega arith in
      rw announced (
        Post-bind
          (store-At env fuel run prompt v [] (1 + suc b) start 0 b u (omega arith) (omega arith) at)
          λ l w q. rw q.0 (
            Post-mono
              (read_rounds-Completed env fuel run prompt v b 255 (b ∷ [])
                (cond s.pec_enabled (pec_crc start b) start) 0 w (omega arith) (omega arith)
                (omega arith) q.1)
              λ l' x c. whole b discarded sized.0 sized.1 c))

  first_byte-BlockRead :
      (start b discarded : ℕ) {bus : List Event} (u : Fw)
      → At s (got b ∷ got discarded ∷ bus) u
      → Post
          (BlockRead s bus start)
          IsValid
          (and_then (take_byte (locals_at 0 255 start 0) b u) (read_rounds env fuel 255))
  unfolding take_byte if◌then◌else◌
  first_byte-BlockRead start b discarded u at = elim (Bool-cases (ltb 254 b || b == 0)) [
    | inl e ↦ rw e (post_failed at.valid)
    | inr e ↦ rw e (elim (Bool-cases (b == 254)) [
      | inl e' ↦ unread_size start b discarded u ((==_iff b 254).0 e') at
      | inr e' ↦ known_size start b discarded u (small b e e') at
    ])
  ]

  first_round-BlockRead :
      (start code : ℕ) {bus : List Event} (t : Fw)
      → code ≡ start
      → At s bus t
      → Post (BlockRead s bus start) IsValid (read_rounds env fuel 256 (locals_at 0 255 code 0) t)
  unfolding read_rounds if◌then◌else◌ ◌>>=◌ bytein_events logged
  first_round-BlockRead start code t e at = rw e (
      Post-bind (i2c_bytein-At env fuel run prompt true false false false t at)
        λ b u q. first_byte-BlockRead start b q.discarded u q.at)

  -- The transaction after its first START.
  pub read_transaction-BlockRead :
      (r : Request) (k : ℕ) (t : Fw)
      → At s (set_start ∷ retried k s.bus) t
      → Post
          (BlockRead s
            (logged (address_phase r.value r.index) (retried k s.bus))
            (cond s.pec_enabled (header_pec env fuel r) 0))
          IsValid
          (read_transaction env fuel r t)
  unfolding read_transaction gets ◌>>=◌ ◌>>◌ i2c_restart access logged address_phase
  read_transaction-BlockRead r k t at =
      Post-bind (valid_after (out-At env fuel run r.value t at)) λ _ t1 at1.
        Post-bind (valid_after (out-At env fuel run r.index t1 at1)) λ _ t2 at2.
          Post-bind (valid_after (out-At env fuel run (r.value + 1) _ (access-At set_start t2 at2)))
            λ _ t3 at3.
              first_round-BlockRead _ _ t3 (ap (λ on. cond on (header_pec env fuel r) 0) at3.pec_is)
                at3
