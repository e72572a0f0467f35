-- ===== src/Firmware/Bus/LastPiece.antt =====
-- The request that brings the last bytes of a block.
use smbusb.Prelude.{
  ℕ, ◌<◌, ◌≡◌, refl, sym, ap, ◌∙◌, true, false, List, arith, ◌==◌, length, take,
  get_elem?-eq-get_or,
}
use smbusb.Firmware.State.{
  Env, Event, Fw, Request, pure, ◌>>◌, ◌>>=◌, modify, gets, ep0_get, temp_get, if◌then◌else◌,
}
use smbusb.Firmware.Keeps.{Post, post_ok, Post-bind}
use smbusb.Firmware.Timeout.{IsRunning, IsValid}
use smbusb.Firmware.WriteOn.{appended, continue_long_lem, gathered}
use smbusb.Firmware.Commands.{or_stop}
use smbusb.Firmware.Commands.WriteBlock.{write_header, send_long, write_received, write_block}
use smbusb.Firmware.Bus.{write_transaction, Carried, Carried-eq}
use smbusb.Firmware.Bus.At.{At, At-refl}
use smbusb.Firmware.Bus.Steps.{trailer-Carried}
use smbusb.Firmware.Bus.Gathering.{
  Gathering, arrived_at, ep0_receive_lem, arrived_at-IsValid, piece,
}
use smbusb.Firmware.Bus.Blocks.{Fetches, block_message, drop_stale-fresh, message-Post}

cleared :
    {bus es : List Event} {t : Fw}
    → Carried bus es t
    → Carried bus es (record t { tempptr = 0; templen = 0 })
cleared c = record {
  tries = c.tries;
  few = c.few;
  exact = c.exact;
  valid = record {
    ep0_size = c.valid.ep0_size;
    temp_size = c.valid.temp_size;
    ptr_in = omega arith;
    len_in = omega arith;
    count_in = c.valid.count_in;
  };
}

module _ (env : Env) (fuel : ℕ) (run : IsRunning env fuel) (ready : (n : ℕ) → env.busy n ≡ false)
    (r : Request) (s : Fw) (block : List ℕ) where
  -- The request that brings the last bytes.
  pub long-Carried :
      (t : Fw)
      → IsValid t
      → t.templen ≡ length block
      → t.tempptr ≡ t.templen
      → gathered t ≡ block
      → Post
          (λ _ u.
            Carried t.bus
              (write_transaction t.pec_enabled (block_message r (length block) block))
              u)
          (λ u. At t u.bus u)
          (send_long env fuel r t.templen t)
  unfolding send_long ◌>>=◌ ◌>>◌ modify temp_get
  long-Carried t v len full e =
      message-Post env fuel run r temp_get t.templen t.temp t fetched
        (omega (arith, v.len_in, v.temp_size)) (omega (arith, v.len_in)) (At-refl t v)
        λ p u e' q. Post-bind (trailer-Carried env fuel run p _ u e' q) λ _ w c.
          post_ok (Carried-eq refl (ap (write_transaction t.pec_enabled) message_is) (cleared c))
    where
      fetched : Fetches t temp_get t.temp
      fetched i b u bus at h = rw (at.temp_is, h) refl

      message_is :
          block_message r t.templen (take t.templen t.temp) ≡ block_message r (length block) block
      message_is =
          ap (block_message r t.templen) (ap (λ n. take n t.temp) (sym full) ∙ e)
          ∙ ap (λ n. block_message r n block) len

  -- A further request, up to the test whether the block is complete.
  pub continued_lem :
      (k late : ℕ) (t : Fw)
      → k < length block
      → late < 5
      → Gathering s block k late t
      → write_block env fuel (record r { payload = piece block k }) t
        ≡ (if (appended (arrived_at env (piece block k) t)).tempptr == t.templen
              then or_stop env fuel (send_long env fuel r t.templen)
              else pure true)
            (appended (arrived_at env (piece block k) t))
  unfolding write_block gets ◌>>=◌ ◌>>◌ write_received if◌then◌else◌ ep0_get send_long write_header
  continued_lem k late t more early g =
      rw
        (
          ep0_receive_lem env fuel (piece block k) t run g.valid (ready t.time),
          drop_stale-fresh t1 (ground (arith, g.in_time, run.slow t.time)),
          busy,
          get_elem?-eq-get_or t1.ep0buf 0 0 (omega (arith, v1.ep0_size)),
          continue_long_lem t1 v1 more1,
        )
        refl
    where
      t1 : Fw
      t1 = arrived_at env (piece block k) t

      v1 : IsValid t1
      v1 = arrived_at-IsValid env (piece block k) t g.valid

      more1 : t1.tempptr < t1.templen
      more1 = omega (arith, g.templen_is, g.tempptr_is)

      busy : (t.templen == 0) ≡ false
      busy = ground (arith, g.templen_is)
