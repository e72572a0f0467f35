-- ===== src/Firmware/Safety/WriteBlock.antt =====
-- A block write ends within the bounds of both buffers, where its size fits them.
use Prim.Native.Nat.{min}
use smbusb.Prelude.{
  ℕ, zero, suc, ◌+◌, ◌-◌, ◌≤◌, ◌<◌, ◌≡◌, ◌≢◌, refl, Bool, true, List, ◌∷◌, arith, ltb, ◌==◌, u8,
  cond, sub16, ltb→lt, Bool-cases, inl, inr, length, length-set, get_elem?-eq-get_or, get_or,
  overlay, length-overlay, [],
}
use smbusb.Firmware.State.{
  Env, Request, Fw, M, ◌>>=◌, ◌>>◌, gets, modify, when, ep0_get, temp_get, temp_put, ep0_receive,
}
use smbusb.Firmware.Keeps.{
  Post, post_ok, Post-bind, Post-weaken, Keeps, Keeps-if, Keeps-gets, Keeps-Yields, Yields,
  Keeps-modify, Keeps-bind, Keeps-then, Keeps-pure,
}
use smbusb.Firmware.Timeout.{IsRunning, IsValid, out-Keeps, ep0_wait-Keeps}
use smbusb.Firmware.Safety.Buffers.{ep0_get-Keeps, temp_get-Keeps}
use smbusb.Firmware.Safety.Short.{call_rules, or_stop-Keeps, start_or_fail-Keeps}
use smbusb.Firmware.Commands.WriteBlock.{
  copy_in, begin_long, take_portion, continue_long, write_header, write_rounds, write_trailer,
  send_long, send_short, write_received, write_block,
}
use smbusb.Firmware.Commands.ReadBlock.{drop_stale}

-- The state is well formed, and `size` is the first byte of the buffer.
abbrev Front : ℕ → Fw → Type 0
Front size s = IsValid s × (get_or s.ep0buf 0 0 ≡ size)

drop_stale-Front : (size : ℕ) → Keeps (Front size) drop_stale
unfolding drop_stale
drop_stale-Front size = Keeps-modify _ λ s v. ground arith

-- The state is well formed, and the variables of the block are `l` and `p`.
abbrev Framed : ℕ → ℕ → Fw → Type 0
Framed l p s = IsValid s × (s.templen ≡ l) × (s.tempptr ≡ p)

ep0_get-Framed : (l p i : ℕ) → ltb i 64 ≡ true → Keeps (Framed l p) (ep0_get i)
unfolding ep0_get
ep0_get-Framed l p i h = record {
  at = λ s v. rw (get_elem?-eq-get_or s.ep0buf i 0 (ground arith)) (post_ok v);
}

temp_put-Framed : (l p i x : ℕ) → ltb i 192 ≡ true → Keeps (Framed l p) (temp_put i x)
unfolding temp_put
temp_put-Framed l p i x h = record {
  at = λ s v.
      let inside : ltb i (length s.temp) ≡ true = ground arith in
      rw inside (post_ok (ground (arith, length-set s.temp i x)));
}

copy_in-Framed : (l p n i j : ℕ) → i + n ≤ 64 → j + n ≤ 192 → Keeps (Framed l p) (copy_in n i j)
unfolding copy_in
copy_in-Framed l p zero i j h k = Keeps-pure tt
copy_in-Framed l p (suc n) i j h k = Keeps-bind _ _ (ep0_get-Framed l p i (ground arith)) λ b.
    Keeps-then _ _ (temp_put-Framed l p j b (ground arith))
      (copy_in-Framed l p n (i + 1) (u8 (j + 1)) (omega arith) (omega arith))

begin_long-Keeps : (size : ℕ) → 64 < size → size ≤ 192 → Keeps IsValid (begin_long size)
unfolding begin_long
begin_long-Keeps size h k =
    Keeps-then _ _ copied (Keeps-then _ _ (Keeps-modify _ λ s v. ground arith) (Keeps-pure true))
  where
    copied : Keeps IsValid (copy_in 63 1 0)
    copied = record {
      at = λ s v.
          Post-weaken
            ((copy_in-Framed s.templen s.tempptr 63 1 0 (omega arith) (omega arith)).at s
              (v, refl, refl))
            (λ a t q. q.0) λ t q. q.0;
    }

take_portion-Post :
    (n : ℕ) (s : Fw)
    → IsValid s
    → n ≤ 64
    → s.tempptr + n ≤ s.templen
    → Post (λ _ t. IsValid t) IsValid (take_portion n s.tempptr s)
unfolding take_portion modify ◌>>◌
take_portion-Post n s v small fits =
    Post-bind
      (Post-weaken
        ((copy_in-Framed s.templen s.tempptr n 0 (u8 s.tempptr) (omega arith) (omega arith)).at s
          (v, refl, refl))
        (λ a t q. q) λ t q. q.0)
      λ a t q. post_ok (ground arith)

continue_long-Keeps : Keeps IsValid continue_long
unfolding continue_long gets ◌>>=◌ when
continue_long-Keeps = record {
  at = λ s v. elim (Bool-cases (ltb s.tempptr s.templen)) [
    | inl more ↦ rw more (
        rw (portion s v (ltb→lt _ _ more)) (
          take_portion-Post (min 64 (s.templen - s.tempptr)) s v (omega arith)
            (omega (arith, ltb→lt _ _ more))))
    | inr all ↦ rw all (post_ok v)
  ];
}
  where
    portion :
        (s : Fw)
        → IsValid s
        → s.tempptr < s.templen
        → u8 (cond (ltb 64 (sub16 s.templen s.tempptr)) 64 (sub16 s.templen s.tempptr))
          ≡ min 64 (s.templen - s.tempptr)
    portion s v h = ground arith

module _ (env : Env) (fuel : ℕ) (run : IsRunning env fuel) where
  write_rounds-Keeps :
      (read : ℕ → M ℕ) (bound left i pec : ℕ)
      → ((k : ℕ) → k < bound → Keeps IsValid (read k))
      → i + left ≤ bound
      → Keeps IsValid (write_rounds env fuel read left i pec)
  unfolding write_rounds
  write_rounds-Keeps read bound zero i pec ok_read h = Keeps-pure pec
  write_rounds-Keeps read bound (suc left) i pec ok_read h =
      Keeps-bind _ _ (ok_read i (omega arith)) λ b.
        Keeps-then _ _ (out-Keeps env fuel run b)
          (write_rounds-Keeps read bound left (i + 1) _ ok_read (omega arith))

  write_header-Keeps : (r : Request) (size : ℕ) → Keeps IsValid (write_header env fuel r size)
  unfolding write_header
  write_header-Keeps r size = search (call_rules, start_or_fail-Keeps) depth 14

  write_trailer-Keeps : (pec : ℕ) → Keeps IsValid (write_trailer env fuel pec)
  unfolding write_trailer
  write_trailer-Keeps pec = search call_rules depth 14

  send_long-Keeps :
      (r : Request) (size : ℕ) → size ≤ 192 → Keeps IsValid (send_long env fuel r size)
  unfolding send_long
  send_long-Keeps r size h = Keeps-bind _ _ (write_header-Keeps r size) λ pec.
      Keeps-bind _ _
        (write_rounds-Keeps temp_get 192 size 0 pec (λ k q. temp_get-Keeps k (ground arith))
          (omega arith))
        λ pec. Keeps-then _ _ (write_trailer-Keeps pec) (Keeps-modify _ λ s v. ground arith)

  send_short-Keeps :
      (r : Request) (size : ℕ) → size < 64 → Keeps IsValid (send_short env fuel r size)
  unfolding send_short
  send_short-Keeps r size h = Keeps-bind _ _ (write_header-Keeps r size) λ pec.
      Keeps-bind _ _
        (write_rounds-Keeps _ 63 size 0 pec (λ k q. ep0_get-Keeps (1 + k) (ground arith))
          (omega arith))
        λ pec. write_trailer-Keeps pec

  -- The sizes that the two buffers can take.
  write_received-Keeps :
      (r : Request) (idle : Bool) (size : ℕ)
      → size ≢ 64
      → size ≤ 192
      → Keeps IsValid (write_received env fuel r idle size)
  unfolding write_received
  write_received-Keeps r idle size ne fits =
      Keeps-if _ _ _
        (λ fresh.
          Keeps-if _ _ _ (λ long. begin_long-Keeps size (ltb→lt _ _ long) fits)
            λ short. or_stop-Keeps env fuel run _ (send_short-Keeps r size (ground arith)))
        (λ more. Keeps-then _ _ continue_long-Keeps (
          Keeps-bind _ _ (Keeps-gets _) λ complete. Keeps-Yields _ _ size_fits λ templen q.
            Keeps-if _ _ _ (λ _. or_stop-Keeps env fuel run _ (send_long-Keeps r templen q))
              λ _. Keeps-pure true))
    where
      size_fits : Yields (λ n. n ≤ 192) IsValid (gets λ s. s.templen)
      size_fits = record { at = λ s v. unfold gets in post_ok (v.len_in, v) }

  -- The first byte received is in the buffer.
  received :
      (size : ℕ) (rest bytes : List ℕ) (s : Fw)
      → bytes ≡ size ∷ rest
      → IsValid s
      → Post (λ _ t. Front size t) IsValid (ep0_receive env fuel bytes s)
  unfolding ep0_receive ◌>>=◌ ◌>>◌ modify
  received size rest bytes s e v = rw e (
      Post-bind ((ep0_wait-Keeps env fuel run).at (record s { ep0bc = 0 }) (ground arith)) λ a t w.
        post_ok (ground (arith, length-overlay (size ∷ rest) t.ep0buf), front t.ep0buf w.ep0_size))
    where
      front : (buf : List ℕ) → length buf ≡ 64 → get_or (overlay (size ∷ rest) buf) 0 0 ≡ size
      front [] h = absurd (omega arith)
      front (x ∷ buf) h = refl

  -- A well-formed state in which the first byte of the buffer is `size`.
  serve-Post :
      (r : Request) (size : ℕ) (s : Fw)
      → size ≢ 64
      → size ≤ 192
      → IsValid s
      → get_or s.ep0buf 0 0 ≡ size
      → Post
          (λ _ t. IsValid t)
          IsValid
          ((gets (λ s. s.templen == 0) >>= λ idle.
              ep0_get 0 >>= λ size. write_received env fuel r idle size)
            s)
  unfolding ◌>>=◌ gets ep0_get
  serve-Post r size s ne fits v e =
      rw (get_elem?-eq-get_or s.ep0buf 0 0 (ground (arith, v.ep0_size)), e)
        ((write_received-Keeps r (s.templen == 0) size ne fits).at s v)

  -- The first byte that arrives is the size, or data of a block that has begun.
  pub write_block-Keeps :
      (r : Request) (size : ℕ) (rest : List ℕ)
      → r.payload ≡ size ∷ rest
      → size ≢ 64
      → size ≤ 192
      → Keeps IsValid (write_block env fuel r)
  unfolding write_block ◌>>=◌ ◌>>◌
  write_block-Keeps r size rest e ne fits = record {
    at = λ s v. Post-bind (received size rest r.payload s e v) λ a t q.
        Post-bind (Post-weaken ((drop_stale-Front size).at t q) (λ a u h. h) λ u h. h.0)
          λ a u h. serve-Post r size u ne fits h.0 h.1;
  }
