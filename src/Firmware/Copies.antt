-- ===== src/Firmware/Copies.antt =====
-- The loops that copy between `temp` and the buffer of endpoint 0 move whole slices.
use smbusb.Prelude.{
  ℕ, zero, suc, ◌+◌, ◌≤◌, ◌<◌, ◌≡◌, refl, ap, true, List, [], ◌∷◌, ◌++◌, append_assoc, arith, ltb,
  u8, length, get_or, take, drop, overlay, length-append, get_elem?-eq-get_or, drop-cons,
  set-append,
}
use smbusb.Firmware.State.{Fw, ok, ◌>>=◌, ◌>>◌, ep0_get, ep0_put, temp_get, temp_put}
use smbusb.Firmware.Commands.ReadBlock.{copy_out}
use smbusb.Firmware.Commands.WriteBlock.{copy_in}

ep0_put-append :
    (pre : List ℕ) (y v : ℕ) (rest : List ℕ) (s : Fw)
    → s.ep0buf ≡ pre ++ (y ∷ rest)
    → ep0_put (length pre) v s ≡ ok tt (record s { ep0buf = (pre ++ (v ∷ [])) ++ rest })
unfolding ep0_put
ep0_put-append pre y v rest s e = rw (inside, e, set-append pre y v rest)
  where
    inside : ltb (length pre) (length s.ep0buf) ≡ true
    inside = ground (arith, ap length e, length-append pre (y ∷ rest))

-- `n` bytes of `temp` from `i` on are copied over the buffer behind its first bytes `pre`.
copy_out_behind :
    (n i : ℕ) (pre rest : List ℕ) (s : Fw)
    → i + n ≤ length s.temp
    → i + n < 256
    → n ≤ length rest
    → s.ep0buf ≡ pre ++ rest
    → copy_out n i (length pre) s
      ≡ ok tt (record s { ep0buf = pre ++ overlay (take n (drop i s.temp)) rest })
unfolding copy_out temp_get ◌>>=◌ ◌>>◌
copy_out_behind zero i pre rest s h small room e = ap (λ b. ok tt (record s { ep0buf = b })) e
copy_out_behind (suc n) i pre [] s h small room e = absurd (omega arith)
copy_out_behind (suc n) i pre (y ∷ rest) s h small room e = rw (
  get_elem?-eq-get_or s.temp i 0 (omega arith),
  ep0_put-append pre y v rest s e,
  next_i,
  next_j,
  copy_out_behind n (suc i) (pre ++ (v ∷ [])) rest s' (omega arith) (omega arith) (omega arith)
      refl,
  drop-cons 0 i s.temp (omega arith),
  append_assoc pre (v ∷ []),
)
  where
    v : ℕ
    v = get_or s.temp i 0

    s' : Fw
    s' = record s { ep0buf = (pre ++ (v ∷ [])) ++ rest }

    next_i : u8 (i + 1) ≡ suc i
    next_i = omega arith

    next_j : length pre + 1 ≡ length (pre ++ (v ∷ []))
    next_j = omega (arith, length-append pre (v ∷ []))

-- The next `n` bytes of `temp` go to the front of the buffer.
pub copy_out_lem :
    (n i : ℕ) (s : Fw)
    → i + n ≤ length s.temp
    → i + n < 256
    → n ≤ length s.ep0buf
    → copy_out n i 0 s ≡ ok tt (record s { ep0buf = overlay (take n (drop i s.temp)) s.ep0buf })
copy_out_lem n i s h small room = copy_out_behind n i [] s.ep0buf s h small room refl

temp_put-append :
    (pre : List ℕ) (y v : ℕ) (rest : List ℕ) (s : Fw)
    → s.temp ≡ pre ++ (y ∷ rest)
    → temp_put (length pre) v s ≡ ok tt (record s { temp = (pre ++ (v ∷ [])) ++ rest })
unfolding temp_put
temp_put-append pre y v rest s e = rw (inside, e, set-append pre y v rest)
  where
    inside : ltb (length pre) (length s.temp) ≡ true
    inside = ground (arith, ap length e, length-append pre (y ∷ rest))

-- `n` bytes of the buffer from `i` on are copied into `temp` behind its first bytes `pre`.
pub copy_in_behind :
    (n i : ℕ) (pre rest : List ℕ) (s : Fw)
    → i + n ≤ length s.ep0buf
    → length pre + n < 256
    → n ≤ length rest
    → s.temp ≡ pre ++ rest
    → copy_in n i (length pre) s
      ≡ ok tt (record s { temp = pre ++ overlay (take n (drop i s.ep0buf)) rest })
unfolding copy_in ep0_get ◌>>=◌ ◌>>◌
copy_in_behind zero i pre rest s h small room e = ap (λ b. ok tt (record s { temp = b })) e
copy_in_behind (suc n) i pre [] s h small room e = absurd (omega arith)
copy_in_behind (suc n) i pre (y ∷ rest) s h small room e = rw (
  get_elem?-eq-get_or s.ep0buf i 0 (omega arith),
  temp_put-append pre y v rest s e,
  next_i,
  next_j,
  copy_in_behind n (suc i) (pre ++ (v ∷ [])) rest s' (omega arith)
      (omega (arith, length-append pre (v ∷ []))) (omega arith) refl,
  drop-cons 0 i s.ep0buf (omega arith),
  append_assoc pre (v ∷ []),
)
  where
    v : ℕ
    v = get_or s.ep0buf i 0

    s' : Fw
    s' = record s { temp = (pre ++ (v ∷ [])) ++ rest }

    next_i : i + 1 ≡ suc i
    next_i = omega arith

    next_j : u8 (length pre + 1) ≡ length (pre ++ (v ∷ []))
    next_j = omega (arith, length-append pre (v ∷ []))
