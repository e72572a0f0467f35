-- ===== src/Firmware/Bus/BlockLoop.antt =====
-- The loop that reads a block, after its first byte: the bytes and the code that it announced.
use smbusb.Prelude.{
  ℕ, zero, suc, ◌+◌, ◌<◌, ◌≤◌, ◌≡◌, refl, sym, ap, ◌∙◌, Bool, true, false, ◌&&◌, List, [], ◌∷◌,
  ◌++◌, append-nil, append_assoc, arith, cond, ltb, length, length-append, take, drop, overlay,
  ◌==◌,
}
use smbusb.Pec.{pec_crc, pec_from}
use smbusb.Firmware.State.{Env, Event, set_lastrd, got, Fw, gets, ◌>>◌, ◌>>=◌, when, if◌then◌else◌}
use smbusb.Firmware.Keeps.{Post, post_ok, Post-bind, Post-mono}
use smbusb.Firmware.Timeout.{IsRunning, IsValid}
use smbusb.Firmware.Commands.ReadBlock.{Locals, store_byte, take_byte, read_rounds}
use smbusb.Firmware.Bus.{logged, logged-append, receive}
use smbusb.Firmware.Bus.At.{At, At-eq}
use smbusb.Firmware.Bus.Receive.{IsPrompt, bytein_events, i2c_bytein-At}
use smbusb.Firmware.Bus.BlockRounds.{holding, keep_byte-At, At-memory}

two_more : (n : ℕ) → (suc (suc n) == 0) ≡ false
two_more n = ground arith

-- The first of several bytes: LASTRD comes before the last but one.
receive-cons :
    (b code : ℕ) (bytes : List ℕ)
    → receive (b ∷ (bytes ++ (code ∷ [])))
      ≡ cond (length bytes == 0) (set_lastrd ∷ []) [] ++ (got b ∷ receive (bytes ++ (code ∷ [])))
unfolding receive
receive-cons b code [] = refl
receive-cons b code (x ∷ []) = refl
receive-cons b code (x ∷ y ∷ bytes) = rw (two_more (length bytes)) refl

abbrev pub locals_at : ℕ → ℕ → ℕ → ℕ → Locals
locals_at i blocklen pec rpec = record { i = i; blocklen = blocklen; pec = pec; rpec = rpec }

received_bus :
    (b code : ℕ) (bytes : List ℕ) (k : ℕ) (bus : List Event)
    → length bytes ≡ k
    → logged
        (receive (bytes ++ (code ∷ [])))
        (logged (cond (k == 0) (set_lastrd ∷ []) [] ++ (got b ∷ [])) bus)
      ≡ logged (receive (b ∷ (bytes ++ (code ∷ [])))) bus
unfolding logged
received_bus b code bytes k bus e =
    rw
      (
        sym e,
        receive-cons b code bytes,
        logged-append (cond (length bytes == 0) (set_lastrd ∷ []) []) (got b ∷ []) bus,
        logged-append (cond (length bytes == 0) (set_lastrd ∷ []) [])
            (got b ∷ receive (bytes ++ (code ∷ []))) bus,
      )
      refl

cond_same : (b : Bool) (n : ℕ) → cond b n n ≡ n
cond_same true n = refl
cond_same false n = refl

both_codes :
    (on : Bool) (pec b : ℕ) (bytes : List ℕ)
    → cond on (pec_from (cond on (pec_crc pec b) pec) bytes) (cond on (pec_crc pec b) pec)
      ≡ cond on (pec_from pec (b ∷ bytes)) pec
both_codes true pec b bytes = refl
both_codes false pec b bytes = refl

-- The local variables once `pre` has been read.
abbrev pub locals : List ℕ → ℕ → ℕ → ℕ → Locals
locals pre blocklen pec rpec = locals_at (length pre) blocklen pec rpec

Locals-eq :
    {i i' blocklen pec pec' rpec rpec' : ℕ}
    → i ≡ i'
    → pec ≡ pec'
    → rpec ≡ rpec'
    → locals_at i blocklen pec rpec ≡ locals_at i' blocklen pec' rpec'
Locals-eq {blocklen} e e' e'' =
    λ ī. record { i = e ī; blocklen = blocklen; pec = e' ī; rpec = e'' ī }

and_true : (b : Bool) → (b && true) ≡ b
and_true true = refl
and_true false = refl

pub and_false : (b : Bool) → (b && false) ≡ false
and_false true = refl
and_false false = refl

-- The bytes that were still to come, and their code.
pub record Completed (s : Fw) (bus : List Event) (pre : List ℕ) (k pec rpec : ℕ) (l : Locals)
    (t : Fw) : Type 0 where
  pub bytes : List ℕ
  pub code : ℕ
  pub sized : length bytes ≡ k
  pub at : At (holding (pre ++ bytes) s) (logged (receive (bytes ++ (code ∷ []))) bus) t
  pub blocklen_is : l.blocklen ≡ length pre + suc k
  pub pec_is : l.pec ≡ cond s.pec_enabled (pec_from pec bytes) pec
  pub rpec_is : l.rpec ≡ cond s.pec_enabled code rpec

module _ (env : Env) (fuel : ℕ) (run : IsRunning env fuel) (prompt : IsPrompt env fuel) {s : Fw}
    (v : IsValid s) {F : Fw → Type 0} where
  -- A round that stores its byte.
  pub store-At :
      (pre : List ℕ) (blocklen pec rpec b : ℕ) {bus : List Event} (t : Fw)
      → length pre + 1 < blocklen
      → blocklen < 256
      → At (holding pre s) bus t
      → Post
          (λ l u.
            (l ≡ locals (pre ++ (b ∷ [])) blocklen (cond s.pec_enabled (pec_crc pec b) pec) rpec)
            × At (holding (pre ++ (b ∷ [])) s) bus u)
          F
          (store_byte (locals pre blocklen pec rpec) b t)
  unfolding store_byte gets when ◌>>=◌ ◌>>◌
  store-At pre blocklen pec rpec b t more small at =
      rw (ltb_is, last_is)
        (Post-bind (keep_byte-At pre b t v (omega arith) at) λ _ u q. post_ok (
          Locals-eq (omega (arith, length-append pre (b ∷ [])))
              (ap (λ on. cond on (pec_crc pec b) pec) (and_true t.pec_enabled ∙ at.pec_is))
              (ap (λ on. cond on b rpec) (and_false t.pec_enabled)),
          q,
        ))
    where
      ltb_is : ltb (length pre + 1) blocklen ≡ true
      ltb_is = ground arith

      last_is : (length pre + 1 == blocklen) ≡ false
      last_is = ground arith

  -- The round that reads the code.
  last-At :
      (pre : List ℕ) (blocklen pec rpec b : ℕ) {bus : List Event} (t : Fw)
      → length pre + 1 ≡ blocklen
      → blocklen < 256
      → At (holding pre s) bus t
      → Post
          (λ l u.
            (l ≡ locals_at blocklen blocklen pec (cond s.pec_enabled b rpec))
            × At (holding pre s) bus u)
          F
          (store_byte (locals pre blocklen pec rpec) b t)
  unfolding store_byte gets when ◌>>=◌ ◌>>◌
  last-At pre blocklen pec rpec b t full small at =
      rw (ltb_is, last_is)
        (post_ok (
          Locals-eq (omega arith) (ap (λ on. cond on (pec_crc pec b) pec) (and_false t.pec_enabled))
              (ap (λ on. cond on b rpec) (and_true t.pec_enabled ∙ at.pec_is)),
          at,
        ))
    where
      ltb_is : ltb (length pre + 1) blocklen ≡ false
      ltb_is = ground arith

      last_is : (length pre + 1 == blocklen) ≡ true
      last_is = ground arith

  -- The loop from its second round on, with `k` bytes and the code to come.
  pub read_rounds-Completed :
      (k left : ℕ) (pre : List ℕ) (pec rpec : ℕ) {bus : List Event} (t : Fw)
      → suc k < left
      → 1 ≤ length pre
      → length pre + suc k < 256
      → At (holding pre s) bus t
      → Post
          (Completed s bus pre k pec rpec)
          F
          (read_rounds env fuel left (locals pre (length pre + suc k) pec rpec) t)
  unfolding read_rounds take_byte if◌then◌else◌ ◌>>=◌ ◌>>◌ bytein_events logged receive
  read_rounds-Completed k zero pre pec rpec t enough h small at = absurd (omega arith)
  read_rounds-Completed k (suc zero) pre pec rpec t enough h small at = absurd (omega arith)
  read_rounds-Completed zero (suc (suc left)) pre pec rpec t enough h small at =
      rw (more_is, first_is, before_is, last_is)
        (Post-bind (i2c_bytein-At env fuel run prompt false false false true t at) λ b u q.
          Post-bind (last-At pre (length pre + 1) pec rpec b u refl (omega arith) q.at) λ l w q'.
            rw (q'.0, over_is)
              (post_ok (record {
                bytes = [];
                code = b;
                sized = refl;
                at =
                    At-memory w q'.1
                      (ap (λ xs. overlay (take 64 xs) s.ep0buf) (sym (append-nil pre)))
                      (ap (λ xs. overlay (drop 64 xs) s.temp) (sym (append-nil pre))) refl refl;
                blocklen_is = refl;
                pec_is = sym (cond_same s.pec_enabled pec);
                rpec_is = refl;
              })))
    where
      more_is : ltb (length pre) (length pre + 1) ≡ true
      more_is = ground arith

      over_is : ltb (length pre + 1) (length pre + 1) ≡ false
      over_is = ground arith

      first_is : (length pre == 0) ≡ false
      first_is = ground arith

      before_is : (length pre + 2 == length pre + 1) ≡ false
      before_is = ground arith

      last_is : (length pre + 1 == length pre + 1) ≡ true
      last_is = ground arith
  read_rounds-Completed (suc k) (suc (suc left)) pre pec rpec t enough h small at =
      rw (more_is, first_is, before_is, last_is)
        (Post-bind (i2c_bytein-At env fuel run prompt false false (k == 0) false t at) λ b u q.
          Post-bind (store-At pre (length pre + suc (suc k)) pec rpec b u (omega arith) small q.at)
            λ l w q'.
              rw (q'.0, length_is b)
                (Post-mono
                  (read_rounds-Completed k (suc left) (pre ++ (b ∷ []))
                    (cond s.pec_enabled (pec_crc pec b) pec) rpec w (omega arith)
                    (omega (arith, length-append pre (b ∷ [])))
                    (omega (arith, length-append pre (b ∷ []))) q'.1)
                  λ l' x c. record {
                    bytes = b ∷ c.bytes;
                    code = c.code;
                    sized = ap suc c.sized;
                    at =
                        At-eq x
                          (At-memory x c.at
                            (ap (λ xs. overlay (take 64 xs) s.ep0buf)
                              (append_assoc pre (b ∷ []) c.bytes))
                            (ap (λ xs. overlay (drop 64 xs) s.temp)
                              (append_assoc pre (b ∷ []) c.bytes))
                            refl refl)
                          (received_bus b c.code c.bytes k _ c.sized);
                    blocklen_is = c.blocklen_is ∙ sym (length_is b);
                    pec_is = c.pec_is ∙ both_codes s.pec_enabled pec b c.bytes;
                    rpec_is = c.rpec_is;
                  }))
    where
      more_is : ltb (length pre) (length pre + suc (suc k)) ≡ true
      more_is = ground arith

      first_is : (length pre == 0) ≡ false
      first_is = ground arith

      before_is : (length pre + 2 == length pre + suc (suc k)) ≡ (k == 0)
      before_is = ground arith

      last_is : (length pre + 1 == length pre + suc (suc k)) ≡ false
      last_is = ground arith

      length_is : (b : ℕ) → length pre + suc (suc k) ≡ length (pre ++ (b ∷ [])) + suc k
      length_is b = omega (arith, length-append pre (b ∷ []))
