-- ===== src/Firmware/Bus/Gathering.antt =====
-- A block write whose data come in several requests: each of them gathers its piece.
use smbusb.Prelude.{
  min, ℕ, zero, suc, ◌+◌, ◌≤◌, ◌<◌, ◌≡◌, refl, sym, ap, ◌∙◌, inl, inr, true, false, List, [], ◌∷◌,
  ◌++◌, arith, u16, ltb, ◌==◌, overlay, length, take, drop, Bool-cases, get_elem?-overlay,
  drop-take, take_of_length_le, length-overlay, length-take, length-drop, take-overlay, take_add,
}
use smbusb.Firmware.State.{
  Env, Fw, Request, ok, ◌>>◌, ◌>>=◌, modify, gets, ep0_get, if◌then◌else◌, tick, ep0_wait,
  ep0_receive,
}
use smbusb.Firmware.Keeps.{Post, post_ok}
use smbusb.Firmware.Timeout.{IsRunning, IsValid, Ready, tick_lem}
use smbusb.Firmware.ReadOn.{portion}
use smbusb.Firmware.WriteOn.{appended, gathered, gathered-appended, appended-IsValid}
use smbusb.Firmware.Copies.{copy_in_behind}
use smbusb.Firmware.Commands.WriteBlock.{copy_in, begin_long, write_received, write_block}
use smbusb.Firmware.Bus.Blocks.{drop_stale-fresh}

-- After `s`, the first `k` bytes of the block have arrived, with at most `late` ticks since the
-- first request.
pub record Gathering (s : Fw) (block : List ℕ) (k late : ℕ) (t : Fw) : Type 0 where
  pub valid : IsValid t
  pub bus_is : t.bus ≡ s.bus
  pub pec_is : t.pec_enabled ≡ s.pec_enabled
  pub templen_is : t.templen ≡ length block
  pub tempptr_is : t.tempptr ≡ k
  pub arrived : gathered t ≡ take k block
  pub in_time : t.count ≤ late

-- The bytes that the request after the first `k` bytes brings.
abbrev pub piece : List ℕ → ℕ → List ℕ
piece block k = take 64 (drop k block)

-- The state after the data arrive at once.
abbrev pub arrived_at : Env → List ℕ → Fw → Fw
arrived_at env bytes s = record s {
  ep0buf = overlay bytes s.ep0buf;
  ep0bc = 0;
  count = u16 (s.count + env.ticks s.time);
  time = s.time + 1;
}

pub ep0_wait_lem :
    (env : Env) (fuel : ℕ) (s : Fw)
    → Ready env s.time fuel
    → env.busy s.time ≡ false
    → ep0_wait env fuel s ≡ ok tt (tick env s)
unfolding ep0_wait
ep0_wait_lem env zero s h e = absurd h
ep0_wait_lem env (suc fuel) s h e = rw e refl

pub ep0_receive_lem :
    (env : Env) (fuel : ℕ) (bytes : List ℕ) (s : Fw)
    → IsRunning env fuel
    → IsValid s
    → env.busy s.time ≡ false
    → ep0_receive env fuel bytes s ≡ ok tt (arrived_at env bytes s)
unfolding ep0_receive modify ◌>>=◌ ◌>>◌
ep0_receive_lem env fuel bytes s run v e =
    rw
      (
        ep0_wait_lem env fuel (record s { ep0bc = 0 }) (run.host s.time) e,
        tick_lem env (record s { ep0bc = 0 }) v.count_in,
      )
      refl

pub arrived_at-IsValid :
    (env : Env) (bytes : List ℕ) (s : Fw) → IsValid s → IsValid (arrived_at env bytes s)
arrived_at-IsValid env bytes s v = record {
  ep0_size = length-overlay bytes s.ep0buf ∙ v.ep0_size;
  temp_size = v.temp_size;
  ptr_in = v.ptr_in;
  len_in = v.len_in;
  count_in = omega arith;
}

take-min : (n : ℕ) (xs : List ℕ) → take n xs ≡ take (min (length xs) n) xs
take-min n xs = elim (Bool-cases (ltb (length xs) n)) [
  | inl e ↦
      take_of_length_le n xs (ground arith)
      ∙ sym (take_of_length_le (min (length xs) n) xs (ground arith))
  | inr e ↦ ap (λ m. take m xs) (ground arith)
]

module _ (env : Env) (fuel : ℕ) (run : IsRunning env fuel) (ready : (n : ℕ) → env.busy n ≡ false)
    (r : Request) (s : Fw) (block : List ℕ) where
  -- The first request of a long block.
  pub begin-Gathering :
      IsValid s
      → s.templen ≡ 0
      → 64 < length block
      → length block ≤ 192
      → Post
          (λ b t. (b ≡ true) × Gathering s block 63 0 t)
          (λ _. ⊥)
          (write_block env fuel (record r { payload = length block ∷ take 63 block }) s)
  unfolding write_block gets ◌>>=◌ ◌>>◌ write_received if◌then◌else◌ begin_long modify ep0_get
  begin-Gathering v idle long fits =
      rw
        (
          ep0_receive_lem env fuel payload s run v (ready s.time),
          drop_stale-fresh t (ground (arith, idle)),
          ap (λ n. n == 0) idle,
          size_first,
          is_long,
          copied,
        )
        (post_ok (
          refl,
          record {
            valid = record {
              ep0_size = t_valid.ep0_size;
              temp_size = length-overlay first s.temp ∙ v.temp_size;
              ptr_in = omega arith;
              len_in = fits;
              count_in = omega arith;
            };
            bus_is = refl;
            pec_is = refl;
            templen_is = refl;
            tempptr_is = refl;
            arrived =
                take-overlay 63 first s.temp
                  (omega (
                    arith,
                    length-take 63 (drop 1 t.ep0buf),
                    length-drop 1 t.ep0buf,
                    t_valid.ep0_size,
                  ))
                  (omega (arith, v.temp_size))
                ∙ first_is;
            in_time = omega arith;
          },
        ))
    where
      payload : List ℕ
      payload = length block ∷ take 63 block

      t : Fw
      t = arrived_at env payload s

      t_valid : IsValid t
      t_valid = arrived_at-IsValid env payload s v

      first : List ℕ
      first = take 63 (drop 1 t.ep0buf)

      first_is : first ≡ take 63 block
      first_is =
          sym (drop-take 1 64 t.ep0buf)
          ∙ ap (drop 1) (
              take-overlay 64 payload s.ep0buf (omega (arith, length-take 63 block))
                (omega (arith, v.ep0_size)))

      size_first : ep0_get 0 t ≡ ok (length block) t
      size_first =
          rw (get_elem?-overlay payload s.ep0buf 0 (length block) (omega (arith, v.ep0_size)) refl)
            refl

      is_long : ltb 64 (length block) ≡ true
      is_long = ground arith

      copied : copy_in 63 1 0 t ≡ ok tt (record t { temp = overlay first s.temp })
      copied =
          copy_in_behind 63 1 [] s.temp t (omega (arith, t_valid.ep0_size)) (omega arith)
            (omega (arith, v.temp_size)) refl

  -- What a further request finds, and what it leaves: the next piece is gathered.
  pub appended-Gathering :
      (k late : ℕ) (t : Fw)
      → k < length block
      → late < 5
      → Gathering s block k late t
      → Gathering s block
          (min (length block) (k + 64))
          (suc late)
          (appended (arrived_at env (piece block k) t))
  appended-Gathering k late t more early g = record {
    valid = appended-IsValid t1 v1 more1;
    bus_is = g.bus_is;
    pec_is = g.pec_is;
    templen_is = g.templen_is;
    tempptr_is = omega (arith, g.templen_is, g.tempptr_is);
    arrived =
        gathered-appended t1 v1 more1
        ∙ ap (◌++◌ (gathered t)) bytes_is
        ∙ ap (λ xs. xs ++ piece block k) g.arrived
        ∙ take_add k 64 block
        ∙ take-min (k + 64) block;
    in_time = omega (arith, g.in_time, run.slow t.time);
  }
    where
      t1 : Fw
      t1 = arrived_at env (piece block k) t

      v1 : IsValid t1
      v1 = arrived_at-IsValid env (piece block k) t g.valid

      more1 : t1.tempptr < t1.templen
      more1 = omega (arith, g.templen_is, g.tempptr_is)

      bytes_is : take (portion t1) t1.ep0buf ≡ piece block k
      bytes_is =
          take-overlay (portion t1) (piece block k) t.ep0buf
            (omega (
              arith,
              length-take 64 (drop k block),
              length-drop k block,
              g.templen_is,
              g.tempptr_is,
            ))
            (omega (arith, g.valid.ep0_size))
