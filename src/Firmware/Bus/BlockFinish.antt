-- ===== src/Firmware/Bus/BlockFinish.antt =====
-- The end of the request that reads a block: its code is checked, and its data are announced.
use smbusb.Prelude.{
  ℕ, suc, ◌+◌, ◌-◌, ◌<◌, ◌≤◌, ◌≡◌, refl, sym, ◌∙◌, ◌⊎◌, inl, inr, Bool, true, false, not, ◌&&◌,
  List, [], ◌∷◌, arith, cond, ltb, u8, ltb→ge, ◌==◌, Bool-cases,
}
use smbusb.Firmware.State.{
  Env, Event, got, Fw, Request, pure, fail, gets, modify, ◌>>◌, ◌>>=◌, when, if◌then◌else◌, arm,
}
use smbusb.Firmware.Keeps.{Post, post_ok, post_failed, Post-bind}
use smbusb.Firmware.Timeout.{IsValid}
use smbusb.Firmware.Commands.ReadBlock.{Locals, finish_block}
use smbusb.Firmware.Bus.{logged, logged-append, address_phase, retried}
use smbusb.Firmware.Bus.At.{At}
use smbusb.Firmware.Bus.BlockRounds.{holding}
use smbusb.Firmware.Bus.BlockLoop.{Completed}
use smbusb.Firmware.Bus.BlockReads.{BlockRead, whole, unread}
use smbusb.Firmware.Bus.BlockAnswers.{
  BlockAnswered, Unread, flagged-IsValid, answered, start_code, message_code,
}

module _ (env : Env) (fuel : ℕ) (r : Request) {s : Fw} (v : IsValid s) (idle : s.templen ≡ 0) where
  -- The check of the code, and the number of bytes for the host.
  checked-Answered :
      (k n discarded : ℕ) (l : Locals) (t u : Fw)
      → k < 5
      → 1 ≤ n
      → n ≤ 253
      → Completed s
          (got n ∷ got discarded ∷ logged (address_phase r.value r.index) (retried k s.bus))
          (n ∷ [])
          n
          (message_code env fuel r s n)
          0
          l
          t
      → (u.bus ≡ t.bus)
        × (u.ep0buf ≡ t.ep0buf)
        × (u.temp ≡ t.temp)
        × (u.pec_enabled ≡ t.pec_enabled)
      → (u.templen ≡ n - 63) × (u.tempptr ≡ 0) × ((u.templen ≡ 0) ⊎ (u.count ≡ 0))
      → IsValid u
      → Post
          (λ b w. (b ≡ true) × (BlockAnswered s r w ⊎ Unread s r w))
          IsValid
          ((do
            pec_enabled ← gets (λ s. s.pec_enabled)
            if pec_enabled && not (l.rpec == l.pec)
                then (do modify (λ s. record s { pec_failed = true }); fail)
                else pure tt
            arm (cond (ltb 65 l.blocklen) 64 (u8 (l.blocklen + 255)))
            pure true)
            u)
  unfolding gets modify arm if◌then◌else◌ ◌>>=◌ ◌>>◌
  checked-Answered k n discarded l t u few low high c same shape v' =
      elim (Bool-cases (u.pec_enabled && not (l.rpec == l.pec))) [
        | inl wrong ↦ rw wrong (post_failed (flagged-IsValid true u.ep0bc u v'))
        | inr right ↦ rw right (
            post_ok (
              refl,
              inl (
                  answered env fuel r v idle k n discarded l t u few low high c same shape right
                    v'),
            ))
      ]

  -- The rest of a long block is outstanding then.
  kept :
      {bus : List Event} (pre : List ℕ) (n blocklen : ℕ) (long : Bool) (t : Fw)
      → ltb 65 blocklen ≡ long
      → blocklen ≡ 1 + suc n
      → n ≤ 253
      → At (holding pre s) bus t
      → Post
          (λ _ u.
            ((u.bus ≡ t.bus)
              × (u.ep0buf ≡ t.ep0buf)
              × (u.temp ≡ t.temp)
              × (u.pec_enabled ≡ t.pec_enabled))
            × ((u.templen ≡ n - 63) × (u.tempptr ≡ 0) × ((u.templen ≡ 0) ⊎ (u.count ≡ 0)))
            × IsValid u)
          IsValid
          (when long (modify (λ s. record s { templen = blocklen - 65; tempptr = 0; count = 0 })) t)
  unfolding when modify
  kept pre n blocklen true t e is high at = post_ok (
    (refl, refl, refl, refl),
    (omega arith, refl, inr refl),
    record {
      ep0_size = at.valid.ep0_size;
      temp_size = at.valid.temp_size;
      ptr_in = omega arith;
      len_in = omega arith;
      count_in = omega arith;
    },
  )
  kept pre n blocklen false t e is high at =
      let short : blocklen ≤ 65 = ltb→ge 65 blocklen e in
      post_ok (
        (refl, refl, refl, refl),
        (
          omega (arith, at.templen_is),
          omega (arith, at.templen_is, at.valid.ptr_in),
          inl (at.templen_is ∙ idle),
        ),
        at.valid,
      )

  pub finish-Answered :
      (k : ℕ) (l : Locals) (t : Fw)
      → k < 5
      → BlockRead s
          (logged (address_phase r.value r.index) (retried k s.bus))
          (start_code env fuel r s)
          l
          t
      → Post
          (λ b u. (b ≡ true) × (BlockAnswered s r u ⊎ Unread s r u))
          IsValid
          (finish_block env fuel l t)
  unfolding finish_block gets arm if◌then◌else◌ when modify ◌>>=◌ ◌>>◌ logged
  finish-Answered k l t few (whole n discarded low high c) =
      Post-bind (kept (n ∷ c.bytes) n l.blocklen (ltb 65 l.blocklen) t refl c.blocklen_is high c.at)
        λ _ u q. checked-Answered k n discarded l t u few low high c q.0 q.1 q.2
  finish-Answered k l t few (unread discarded e at) =
      rw e (elim (Bool-cases (t.pec_enabled && not (0 == (start_code env fuel r s)))) [
        | inl wrong ↦ rw wrong (post_failed (flagged-IsValid true t.ep0bc t at.valid))
        | inr right ↦ rw right (
            post_ok (
              refl,
              inr (record {
                tries = k;
                few = few;
                discarded = discarded;
                exact =
                    at.bus_is
                    ∙ sym (
                        logged-append (address_phase r.value r.index) (got discarded ∷ got 254 ∷ [])
                          (retried k s.bus));
                valid = flagged-IsValid t.pec_failed 255 t at.valid;
              }),
            ))
      ])
