-- ===== src/Firmware/Bus/BlockRequests.antt =====
-- The request that reads a block, from its start to its end.
use smbusb.Prelude.{
  ℕ, ◌≤◌, ◌≡◌, refl, ◌∙◌, ◌⊎◌, inl, inr, Bool, true, false, not, ◌&&◌, arith, sub16, ltb,
}
use smbusb.Firmware.State.{
  Env, Fw, Request, Run, pure, fail, gets, catch, or_else, ◌>>◌, ◌>>=◌, if◌then◌else◌, arm,
}
use smbusb.Firmware.Keeps.{Post, post_ok, post_failed, Post-bind}
use smbusb.Firmware.Timeout.{IsRunning, IsValid}
use smbusb.Firmware.I2c.{i2c_start, i2c_stop}
use smbusb.Firmware.Commands.ReadBlock.{
  Locals, read_transaction, finish_block, read_new_block, read_block, block_seq_timeout,
}
use smbusb.Firmware.Bus.At.{
  At, At-refl, ep0_waited-At, Started, started, unstarted, i2c_stop-At, start_tries-At,
}
use smbusb.Firmware.Bus.Receive.{IsPrompt}
use smbusb.Firmware.Bus.BlockReads.{read_transaction-BlockRead}
use smbusb.Firmware.Bus.BlockAnswers.{BlockAnswered, Unread, flagged-IsValid}
use smbusb.Firmware.Bus.BlockFinish.{finish-Answered}
use smbusb.Firmware.Bus.Blocks.{drop_stale-fresh}

-- How the request ends: with data; with nothing but the size, where that is 254; or with the length
-- 0 for the host.
abbrev pub BlockOutcome : Fw → Request → Bool → Fw → Type 0
BlockOutcome s r b t =
    ((b ≡ true) × (BlockAnswered s r t ⊎ Unread s r t)) ⊎ ((b ≡ false) × (t.ep0bc ≡ 0) × IsValid t)

not_stale : (t : Fw) → t.templen ≡ 0 → (ltb 0 t.templen && ltb block_seq_timeout t.count) ≡ false
not_stale t e = ground arith

at_rest :
    (t : Fw) → t.templen ≡ 0 → t.tempptr ≤ t.templen → ltb 0 (sub16 t.templen t.tempptr) ≡ false
at_rest t e h = ground arith

module _ (env : Env) (fuel : ℕ) (run : IsRunning env fuel) (prompt : IsPrompt env fuel)
    (r : Request) {s : Fw} (v : IsValid s) (idle : s.templen ≡ 0) where
  begun-Answered :
      (b : Bool) (t : Fw)
      → Started s s.bus 5 b t
      → Post
          (λ b u. (b ≡ true) × (BlockAnswered s r u ⊎ Unread s r u))
          IsValid
          ((do
            if not b then fail else pure tt
            l ← catch (read_transaction env fuel r) (do i2c_stop env fuel; fail)
            finish_block env fuel l)
            t)
  unfolding catch if◌then◌else◌ ◌>>=◌ ◌>>◌
  begun-Answered true t (started k few at) =
      Post-bind (stopped _ (read_transaction-BlockRead env fuel run prompt v r k t at))
        λ l u q. finish-Answered env fuel r v idle k l u few q
    where
      stopped :
          {Q : Locals → Fw → Type 0} (m : Run Locals)
          → Post Q IsValid m
          → Post Q IsValid (or_else m (do i2c_stop env fuel; fail))
      stopped m (post_ok q) = post_ok q
      stopped m (post_failed w) =
          Post-bind (i2c_stop-At env fuel run _ (At-refl _ w)) λ _ u q. post_failed q.valid
  begun-Answered false t (unstarted at) = post_failed at.valid

  refused :
      (m : Run Bool)
      → Post (λ b u. (b ≡ true) × (BlockAnswered s r u ⊎ Unread s r u)) IsValid m
      → Post (BlockOutcome s r) (λ _. ⊥) (or_else m (do arm 0; pure false))
  unfolding arm ◌>>=◌ ◌>>◌
  refused m (post_ok q) = post_ok (inl q)
  refused m (post_failed {s = u} w) = post_ok (inr (refl, refl, flagged-IsValid u.pec_failed 0 u w))

  new_block-Answered :
      (t : Fw) → At s s.bus t → Post (BlockOutcome s r) (λ _. ⊥) (read_new_block env fuel r t)
  unfolding read_new_block catch i2c_start ◌>>=◌ ◌>>◌
  new_block-Answered t at =
      refused _ (Post-bind (start_tries-At env fuel run 5 t at) λ b u q. begun-Answered b u q)

  -- From a well-formed state in which no block is outstanding, with a running timer and host, and
  -- where the waits of `i2c_bytein` end before they time out (`IsPrompt`), a request for a block
  -- ends in one of three ways. It fails, and announces no data to the host. Or it succeeds with a
  -- block of 1 to 253 bytes: exactly one block transaction went over the bus, after fewer than 5
  -- vain attempts to start, with LASTRD and STOP where the controller asks for them; where codes
  -- are on, the code that came last is that of the whole message; and what the host gets now and
  -- what is kept in `temp` for its next requests are, together, the size and the bytes in order.
  -- Or the device announced 254 bytes, and the request succeeds although none of them was read
  -- and the bus was not stopped.
  pub read_block-Answered : Post (BlockOutcome s r) (λ _. ⊥) (read_block env fuel r s)
  unfolding read_block gets if◌then◌else◌ ◌>>=◌ ◌>>◌
  read_block-Answered = Post-bind (ep0_waited-At env fuel run s (At-refl s v)) λ _ t at.
      let none : t.templen ≡ 0 = at.templen_is ∙ idle in
      let nothing_outstanding : ltb 0 (sub16 t.templen t.tempptr) ≡ false =
        at_rest t none at.valid.ptr_in in
      rw (drop_stale-fresh t (not_stale t none), nothing_outstanding) (new_block-Answered t at)
