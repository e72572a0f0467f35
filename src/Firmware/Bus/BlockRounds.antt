-- ===== src/Firmware/Bus/BlockRounds.antt =====
-- The loop that reads a block: it reads the bytes and the code that the first byte announces, and
-- keeps the bytes in the buffer of endpoint 0 and behind it in `temp`.
use smbusb.Prelude.{
  ℕ, zero, suc, ◌-◌, ◌<◌, ◌≤◌, ◌≡◌, refl, sym, ap, ◌∙◌, inl, inr, true, List, [], ◌∷◌, ◌++◌, arith,
  ltb, length, length-append, length-set, length-drop, set, take, drop, overlay, ltb→lt, ltb→ge,
  Bool-cases, take_of_length_le,
}
use smbusb.Firmware.State.{Event, Fw, if◌then◌else◌, ep0_put, temp_put}
use smbusb.Firmware.Keeps.{Post, post_ok, Post-mono}
use smbusb.Firmware.Timeout.{IsValid}
use smbusb.Firmware.Bus.At.{At}
use smbusb.Firmware.Bus.Reads.{ep0_put-At}

-- The state `s` with the bytes at the front of the buffer and, from the one behind it on, of `temp`.
abbrev pub holding : List ℕ → Fw → Fw
holding bytes s = record s {
  ep0buf = overlay (take 64 bytes) s.ep0buf;
  temp = overlay (drop 64 bytes) s.temp;
}

module _ {ℓ} {A : Type ℓ} where
  set-overlay :
      (src dst : List A) (v : A)
      → length src < length dst
      → set (overlay src dst) (length src) v ≡ overlay (src ++ (v ∷ [])) dst
  set-overlay [] [] v h = absurd (omega arith)
  set-overlay [] (y ∷ dst) v h = refl
  set-overlay (x ∷ src) [] v h = absurd (omega arith)
  set-overlay (x ∷ src) (y ∷ dst) v h = ap (◌∷◌ x) (set-overlay src dst v (omega arith))

  take-append_le : (n : ℕ) (xs ys : List A) → n ≤ length xs → take n (xs ++ ys) ≡ take n xs
  take-append_le zero xs ys h = refl
  take-append_le (suc n) [] ys h = absurd (omega arith)
  take-append_le (suc n) (x ∷ xs) ys h = ap (◌∷◌ x) (take-append_le n xs ys (omega arith))

  drop-append_le : (n : ℕ) (xs ys : List A) → n ≤ length xs → drop n (xs ++ ys) ≡ drop n xs ++ ys
  drop-append_le zero xs ys h = refl
  drop-append_le (suc n) [] ys h = absurd (omega arith)
  drop-append_le (suc n) (x ∷ xs) ys h = drop-append_le n xs ys (omega arith)

  drop_of_length_le : (n : ℕ) (xs : List A) → length xs ≤ n → drop n xs ≡ []
  drop_of_length_le zero [] h = refl
  drop_of_length_le zero (x ∷ xs) h = absurd (omega arith)
  drop_of_length_le (suc n) [] h = refl
  drop_of_length_le (suc n) (x ∷ xs) h = drop_of_length_le n xs (omega arith)

pub At-memory :
    {s s' : Fw} {bus : List Event} (t : Fw)
    → At s bus t
    → s.ep0buf ≡ s'.ep0buf
    → s.temp ≡ s'.temp
    → s.pec_enabled ≡ s'.pec_enabled
    → s.templen ≡ s'.templen
    → At s' bus t
At-memory t at e e' p l = record {
  bus_is = at.bus_is;
  ep0_is = at.ep0_is ∙ e;
  temp_is = at.temp_is ∙ e';
  pec_is = at.pec_is ∙ p;
  templen_is = at.templen_is ∙ l;
  valid = at.valid;
}

temp_put-At :
    {s : Fw} {bus : List Event} {F : Fw → Type 0} (i v : ℕ) (t : Fw)
    → i < 192
    → At s bus t
    → Post (λ _ u. At (record s { temp = set s.temp i v }) bus u) F (temp_put i v t)
unfolding temp_put
temp_put-At {s} i v t h at =
    let inside : ltb i (length t.temp) ≡ true = ground (arith, at.valid.temp_size) in
    rw inside (
      post_ok (record {
        bus_is = at.bus_is;
        ep0_is = at.ep0_is;
        temp_is = ap (λ xs. set xs i v) at.temp_is;
        pec_is = at.pec_is;
        templen_is = at.templen_is;
        valid = record {
          ep0_size = at.valid.ep0_size;
          temp_size = length-set t.temp i v ∙ at.valid.temp_size;
          ptr_in = at.valid.ptr_in;
          len_in = at.valid.len_in;
          count_in = at.valid.count_in;
        };
      }))

pub keep_byte-At :
    {s : Fw} {bus : List Event} {F : Fw → Type 0} (pre : List ℕ) (b : ℕ) (t : Fw)
    → IsValid s
    → length pre < 256
    → At (holding pre s) bus t
    → Post
        (λ _ u. At (holding (pre ++ (b ∷ [])) s) bus u)
        F
        ((if ltb (length pre) 64 then ep0_put (length pre) b else temp_put (length pre - 64) b) t)
unfolding if◌then◌else◌
keep_byte-At {s} pre b t v h at = elim (Bool-cases (ltb (length pre) 64)) [
  | inl e ↦
      let room : length pre < 64 = ltb→lt (length pre) 64 e in
      rw e (
        Post-mono (ep0_put-At (length pre) b t room at) λ _ u q.
          At-memory u q (in_front room)
            (ap (λ xs. overlay xs s.temp)
              (drop_of_length_le 64 pre (omega arith)
                ∙ sym (
                    drop_of_length_le 64 (pre ++ (b ∷ []))
                      (omega (arith, length-append pre (b ∷ []))))))
            refl refl)
  | inr e ↦
      let full : 64 ≤ length pre = ltb→ge (length pre) 64 e in
      rw e (
        Post-mono (temp_put-At (length pre - 64) b t (omega arith) at) λ _ u q.
          At-memory u q (ap (λ xs. overlay xs s.ep0buf) (sym (take-append_le 64 pre (b ∷ []) full)))
            (behind full) refl refl)
]
  where
    in_front :
        length pre < 64
        → set (overlay (take 64 pre) s.ep0buf) (length pre) b
          ≡ overlay (take 64 (pre ++ (b ∷ []))) s.ep0buf
    in_front room =
        rw
          (
            take_of_length_le 64 pre (omega arith),
            take_of_length_le 64 (pre ++ (b ∷ [])) (omega (arith, length-append pre (b ∷ []))),
          )
          (set-overlay pre s.ep0buf b (omega (arith, v.ep0_size)))

    behind :
        64 ≤ length pre
        → set (overlay (drop 64 pre) s.temp) (length pre - 64) b
          ≡ overlay (drop 64 (pre ++ (b ∷ []))) s.temp
    behind full =
        rw (drop-append_le 64 pre (b ∷ []) full, sym (length-drop 64 pre))
          (set-overlay (drop 64 pre) s.temp b (omega (arith, v.temp_size, length-drop 64 pre)))
