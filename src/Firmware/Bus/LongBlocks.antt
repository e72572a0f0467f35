-- ===== src/Firmware/Bus/LongBlocks.antt =====
-- A block write whose data come in several requests: the pieces are gathered, and the last request
-- puts the block on the bus.
use smbusb.Prelude.{
  ◌/◌, ◌-◌, min, ℕ, zero, suc, ◌+◌, ◌≤◌, ◌<◌, ◌≡◌, ◌≢◌, sym, ap, ◌∙◌, inl, inr, Bool, true, false,
  List, ◌∷◌, arith, ltb, ◌==◌, length, take, Bool-cases, take_of_length_le,
}
use smbusb.Firmware.State.{Env, Fw, Request, M, pure, ◌>>=◌, if◌then◌else◌}
use smbusb.Firmware.Keeps.{Post, post_ok, Post-bind, Post-mono}
use smbusb.Firmware.Timeout.{IsRunning, IsValid}
use smbusb.Firmware.WriteOn.{appended, gathered}
use smbusb.Firmware.Commands.WriteBlock.{write_block}
use smbusb.Firmware.Bus.{
  write_transaction, Carried, Carried-eq, Outcome, Outcome-mono, finished, aborted,
}
use smbusb.Firmware.Bus.Steps.{or_stop-At}
use smbusb.Firmware.Bus.Gathering.{
  Gathering, arrived_at, begin-Gathering, piece, appended-Gathering,
}
use smbusb.Firmware.Bus.Blocks.{block_message, write_short-Carried}
use smbusb.Firmware.Bus.LastPiece.{long-Carried, continued_lem}

module _ (env : Env) (fuel : ℕ) (r : Request) (block : List ℕ) where
  -- The host's requests for `left` more pieces, each of which must succeed.
  unfoldable pub continue_all : ℕ → ℕ → M Bool
  continue_all zero k = pure true
  continue_all (suc left) k = do
    b ← write_block env fuel (record r { payload = piece block k })
    if b then continue_all left (k + 64) else pure false

  -- The requests by which a host writes a block: its size and 63 bytes, then pieces of 64 bytes.
  unfoldable pub write_all : M Bool
  write_all = do
    b ← write_block env fuel (record r { payload = length block ∷ take 63 block })
    if b then continue_all (length block / 64) 63 else pure false

module _ (env : Env) (fuel : ℕ) (run : IsRunning env fuel) (ready : (n : ℕ) → env.busy n ≡ false)
    (r : Request) (s : Fw) (block : List ℕ) where
  all_sent :
      (left k : ℕ) {Q : Fw → Type 0} (b : Bool) (u : Fw)
      → left ≡ 0
      → Outcome Q b u
      → Post
          (Outcome Q)
          (λ _. ⊥)
          ((if b then continue_all env fuel r block left k else pure false) u)
  unfolding continue_all if◌then◌else◌
  all_sent zero k b u e (finished q) = post_ok (finished q)
  all_sent zero k b u e (aborted q v) = post_ok (aborted q v)
  all_sent (suc left) k b u e o = absurd (omega arith)

  -- The last request puts the block on the bus.
  complete-Carried :
      (k late : ℕ) (t : Fw)
      → k < length block
      → length block ≤ k + 64
      → late < 5
      → Gathering s block k late t
      → Post
          (Outcome (
            Carried s.bus (write_transaction s.pec_enabled (block_message r (length block) block))))
          (λ _. ⊥)
          (write_block env fuel (record r { payload = piece block k }) t)
  unfolding if◌then◌else◌
  complete-Carried k late t more last early g =
      rw (continued_lem env fuel run ready r s block k late t more early g, complete)
        (Post-mono
          (or_stop-At env fuel run {s = u} _ u
            (long-Carried env fuel run ready r s block u next.valid next.templen_is full whole))
          λ b w o. Outcome-mono o λ w' c.
            Carried-eq g.bus_is
              (ap (λ on. write_transaction on (block_message r (length block) block)) g.pec_is) c)
    where
      u : Fw
      u = appended (arrived_at env (piece block k) t)

      next : Gathering s block (min (length block) (k + 64)) (suc late) u
      next = appended-Gathering env fuel run ready r s block k late t more early g

      full : u.tempptr ≡ u.templen
      full = omega (arith, next.tempptr_is, next.templen_is)

      complete : (u.tempptr == t.templen) ≡ true
      complete = ground (arith, full)

      whole : gathered u ≡ block
      whole = next.arrived ∙ take_of_length_le (min (length block) (k + 64)) block (omega arith)

  continue_all-Carried :
      (left k late : ℕ) (t : Fw)
      → k < length block
      → left ≡ (length block - k + 63) / 64
      → late + left ≤ 5
      → Gathering s block k late t
      → Post
          (Outcome (
            Carried s.bus (write_transaction s.pec_enabled (block_message r (length block) block))))
          (λ _. ⊥)
          (continue_all env fuel r block left k t)
  unfolding continue_all ◌>>=◌ if◌then◌else◌
  continue_all-Carried zero k late t more n early g = absurd (omega arith)
  continue_all-Carried (suc left) k late t more n early g =
      elim (Bool-cases (ltb (k + 64) (length block))) [
        | inl e ↦
            let next_k : min (length block) (k + 64) ≡ k + 64 = ground arith in
            rw (continued_lem env fuel run ready r s block k late t more (omega arith) g, not_yet e)
              (continue_all-Carried left (k + 64) (suc late) u (ground arith) (ground arith)
                (omega arith) (rw (sym next_k) next))
        | inr e ↦
            Post-bind (complete-Carried k late t more (ground arith) (omega arith) g)
              λ b w o. all_sent left (k + 64) b w (ground arith) o
      ]
    where
      u : Fw
      u = appended (arrived_at env (piece block k) t)

      next : Gathering s block (min (length block) (k + 64)) (suc late) u
      next = appended-Gathering env fuel run ready r s block k late t more (omega arith) g

      not_yet : ltb (k + 64) (length block) ≡ true → (u.tempptr == t.templen) ≡ false
      not_yet e = ground (arith, next.tempptr_is, g.templen_is)

  short_sent :
      IsValid s
      → s.templen ≡ 0
      → length block < 64
      → Post
          (Outcome (
            Carried s.bus (write_transaction s.pec_enabled (block_message r (length block) block))))
          (λ _. ⊥)
          (write_block env fuel (record r { payload = length block ∷ take 63 block }) s)
  short_sent v idle h =
      write_short-Carried env fuel run (record r { payload = length block ∷ take 63 block }) s v
        block idle h (ap (λ xs. length block ∷ xs) (take_of_length_le 63 block (omega arith)))

  -- From a well-formed state in which no block is outstanding, with a running timer and an endpoint
  -- 0 that is ready at each poll, the requests by which a host sends a block of at most 192 bytes,
  -- but not of 64, end, whatever the I2C controller reports: either the last one succeeds and
  -- exactly one block transaction went over the bus, after fewer than 5 vain attempts to start, with
  -- the size, each byte in order, and the code of the whole where codes are on; or one fails and
  -- STOP was the last access.
  pub write_all-Carried :
      IsValid s
      → s.templen ≡ 0
      → length block ≢ 64
      → length block ≤ 192
      → Post
          (Outcome (
            Carried s.bus (write_transaction s.pec_enabled (block_message r (length block) block))))
          (λ _. ⊥)
          (write_all env fuel r block s)
  unfolding write_all ◌>>=◌ if◌then◌else◌
  write_all-Carried v idle odd fits = elim (Bool-cases (ltb (length block) 64)) [
    | inl e ↦
        Post-bind (short_sent v idle (ground arith))
          λ b w o. all_sent (length block / 64) 63 b w (ground arith) o
    | inr e ↦
        Post-bind (begin-Gathering env fuel run ready r s block v idle (ground arith) fits) λ b w g.
          rw g.0 (
            continue_all-Carried (length block / 64) 63 0 w (ground arith) (ground arith)
              (omega arith) g.1)
  ]
