-- ===== src/EndToEnd/Drained.antt =====
-- The rounds of `FX2LP_SMBReadBlock` fetch what the firmware keeps of a block.
use smbusb.Prelude.{
  ℕ, ◌+◌, ◌-◌, ◌<◌, ◌≤◌, ◌≡◌, sym, ap, ◌∙◌, inl, inr, true, false, List, take, drop, length,
  length-take, length-drop, drop-drop, drop-take, arith, ltb, ◌==◌, Bool, zero, suc, refl, [], ◌∷◌,
  ◌++◌, ◌/◌, take-overlay, take-append-drop, sub16, u16, Bool-cases, ◌&&◌,
}
use smbusb.Firmware.State.{
  Env, Fw, Run, Request, ok, failed, hang, fault, ◌>>=◌, ◌>>◌, gets, if◌then◌else◌,
}
use smbusb.Firmware.Timeout.{IsRunning, IsValid, tick_lem}
use smbusb.Firmware.ReadOn.{portion, advanced, advanced-IsValid, read_outstanding_lem}
use smbusb.Firmware.Commands.ReadBlock.{read_block, block_seq_timeout}
use smbusb.Firmware.Bus.Gathering.{ep0_wait_lem}
use smbusb.Firmware.Bus.Blocks.{drop_stale-fresh}

-- What is outstanding of a block.
abbrev pub outstanding : Fw → List ℕ
outstanding s = take (s.templen - s.tempptr) (drop s.tempptr s.temp)

pub length-outstanding : (s : Fw) → IsValid s → length (outstanding s) ≡ s.templen - s.tempptr
length-outstanding s v = omega (
  arith,
  length-take (s.templen - s.tempptr) (drop s.tempptr s.temp),
  length-drop s.tempptr s.temp,
  v.temp_size,
  v.ptr_in,
  v.len_in,
)

none_left :
    (s : Fw) → (s.tempptr + portion s == s.templen) ≡ true → s.templen - s.tempptr - portion s ≡ 0
none_left s e = ground arith

-- A further request returns the front of it and leaves the rest.
pub outstanding-advanced :
    (s : Fw)
    → IsValid s
    → s.tempptr < s.templen
    → outstanding (advanced s) ≡ drop (portion s) (outstanding s)
outstanding-advanced s v more = elim (Bool-cases (s.tempptr + portion s == s.templen)) [
  | inl last ↦ rw last (
      sym (
        drop-take (portion s) (s.templen - s.tempptr) (drop s.tempptr s.temp)
        ∙ ap (λ k. take k (drop (portion s) (drop s.tempptr s.temp))) (none_left s last)))
  | inr rest ↦ rw rest (
      sym (
        drop-take (portion s) (s.templen - s.tempptr) (drop s.tempptr s.temp)
        ∙ ap (λ k. take k (drop (portion s) (drop s.tempptr s.temp))) (omega arith)
        ∙ ap (take (s.templen - (s.tempptr + portion s))) (drop-drop s.tempptr (portion s) s.temp)))
]

take-take : (p m : ℕ) (xs : List ℕ) → p ≤ m → take p (take m xs) ≡ take p xs
take-take zero m xs h = refl
take-take (suc p) zero xs h = absurd (omega arith)
take-take (suc p) (suc m) [] h = refl
take-take (suc p) (suc m) (x ∷ xs) h = ap (◌∷◌ x) (take-take p m xs (omega arith))

-- The bytes that a further request brings.
abbrev pub front : Fw → List ℕ
front s = take (portion s) (outstanding s)

pub length-front : (s : Fw) → IsValid s → s.tempptr < s.templen → length (front s) ≡ portion s
length-front s v more =
    omega (arith, length-take (portion s) (outstanding s), length-outstanding s v)

pub front-advanced :
    (s : Fw)
    → IsValid s
    → s.tempptr < s.templen
    → take (advanced s).ep0bc (advanced s).ep0buf ≡ front s
front-advanced s v more =
    let slice : List ℕ = drop s.tempptr s.temp in
    take-overlay (portion s) (take (portion s) slice) s.ep0buf
      (omega
        (arith, length-take (portion s) slice, length-drop s.tempptr s.temp, v.temp_size, v.len_in))
      (omega (arith, v.ep0_size))
    ∙ sym (take-take (portion s) (s.templen - s.tempptr) slice (omega arith))

-- The state after a poll.
abbrev pub polled : Env → Fw → Fw
polled env s = record s { count = u16 (s.count + env.ticks s.time); time = s.time + 1 }

pub polled-IsValid : (env : Env) (s : Fw) → IsValid s → IsValid (polled env s)
polled-IsValid env s v = record {
  ep0_size = v.ep0_size;
  temp_size = v.temp_size;
  ptr_in = v.ptr_in;
  len_in = v.len_in;
  count_in = omega arith;
}

module _ (env : Env) (fuel : ℕ) (run : IsRunning env fuel)
    (ready : (n : ℕ) → env.busy n ≡ false) where
  -- A request while bytes are outstanding, in time.
  pub read_block-advanced :
      (r : Request) (s : Fw)
      → IsValid s
      → s.count < 5
      → s.tempptr < s.templen
      → read_block env fuel r s ≡ ok true (advanced (polled env s))
  unfolding read_block gets if◌then◌else◌ ◌>>=◌ ◌>>◌
  read_block-advanced r s v early more =
      rw
        (
          ep0_wait_lem env fuel s (run.host s.time) (ready s.time),
          tick_lem env s v.count_in,
          drop_stale-fresh (polled env s) fresh,
          some_left,
        )
        (read_outstanding_lem (polled env s) (polled-IsValid env s v) more)
    where
      soon : u16 (s.count + env.ticks s.time) ≤ 5
      soon = omega (arith, run.slow s.time)

      fresh : (ltb 0 s.templen && ltb block_seq_timeout (polled env s).count) ≡ false
      fresh = ground (arith, soon)

      some_left : ltb 0 (sub16 s.templen s.tempptr) ≡ true
      some_left = ground (arith, v.len_in)

-- What the host gets by a request, in front of what it gets by those that follow.
abbrev reply : Run Bool → (Fw → List ℕ) → List ℕ
reply (ok true t) rest = take t.ep0bc t.ep0buf ++ rest t
reply (ok false t) rest = []
reply (failed t) rest = []
reply hang rest = []
reply fault rest = []

-- What the host gets by `n` requests for a block.
unfoldable pub replies : Env → ℕ → Request → ℕ → Fw → List ℕ
replies env fuel r zero s = []
replies env fuel r (suc n) s = reply (read_block env fuel r s) (replies env fuel r n)

-- From a well-formed state with bytes of a block outstanding or none, with a running timer and an
-- endpoint 0 that is ready at each poll, as many requests for a block as the outstanding bytes
-- have pieces of 64 bytes, where their number and `count` add up to at most BLOCK_SEQ_TIMEOUT,
-- return exactly the outstanding bytes, each once and in order.
pub replies-outstanding :
    (env : Env) (fuel : ℕ)
    → IsRunning env fuel
    → ((n : ℕ) → env.busy n ≡ false)
    → (r : Request) (n : ℕ) (s : Fw) → IsValid s
    → n ≡ (s.templen - s.tempptr + 63) / 64
    → s.count + n ≤ 5
    → replies env fuel r n s ≡ outstanding s
unfolding replies
replies-outstanding env fuel run ready r zero s v enough early =
    let none : s.templen - s.tempptr ≡ 0 = omega arith in rw none refl
replies-outstanding env fuel run ready r (suc n) s v enough early =
    rw (read_block-advanced env fuel run ready r s v (omega arith) more) (
      ap (λ xs. xs ++ replies env fuel r n (advanced s')) (front-advanced s' v' more)
      ∙ ap (◌++◌ (front s)) (
          replies-outstanding env fuel run ready r n (advanced s') (advanced-IsValid s' v' more)
            (ground arith) (omega (arith, run.slow s.time))
          ∙ outstanding-advanced s' v' more)
      ∙ take-append-drop (portion s) (outstanding s))
  where
    s' : Fw
    s' = polled env s

    v' : IsValid s'
    v' = polled-IsValid env s v

    more : s.tempptr < s.templen
    more = omega arith
