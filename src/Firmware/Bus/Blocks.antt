-- ===== src/Firmware/Bus/Blocks.antt =====
-- A block write puts exactly one SMBus block transaction on the bus, whether its data came in one
-- request or in several.
use smbusb.Prelude.{
  ℕ, zero, suc, ◌+◌, ◌≤◌, ◌<◌, ◌≡◌, refl, sym, ap, ◌∙◌, false, List, [], ◌∷◌, ◌++◌, append-nil,
  append_assoc, some, arith, cond, ◌&&◌, u8, ltb, ◌==◌, length, take, drop, get_elem?, get_or,
  take_of_length_le, get_elem?-lt, get_elem?-eq-get_or, drop-cons,
}
use smbusb.Pec.{pec_crc, pec_from}
use smbusb.Firmware.State.{
  Env, Event, Fw, Request, ok, M, ◌>>◌, ◌>>=◌, modify, gets, ep0_get, if◌then◌else◌,
}
use smbusb.Firmware.Keeps.{Post, post_ok, Post-bind}
use smbusb.Firmware.Timeout.{IsRunning, IsValid}
use smbusb.Firmware.Commands.ReadBlock.{block_seq_timeout, drop_stale}
use smbusb.Firmware.Commands.WriteBlock.{
  write_header, write_rounds, send_short, write_received, write_block,
}
use smbusb.Firmware.Bus.{write_transaction, Carried, Outcome}
use smbusb.Firmware.Bus.At.{At}
use smbusb.Firmware.Bus.Steps.{
  Sending, received, out-Sending, trailer-Carried, or_stop-At, ep0_receive-At,
}
use smbusb.Firmware.Bus.Writes.{ep0_get-received, address-Sending}

pec_from-append :
    (pec : ℕ) (xs ys : List ℕ) → pec_from pec (xs ++ ys) ≡ pec_from (pec_from pec xs) ys
pec_from-append pec [] ys = refl
pec_from-append pec (x ∷ xs) ys = pec_from-append (pec_crc pec x) xs ys

next : (i : ℕ) → 1 + i ≡ suc i
next i = omega arith

-- In each state after `s`, the action `read i` returns the element `i` of the list.
abbrev pub Fetches : Fw → (ℕ → M ℕ) → List ℕ → Type 0
Fetches s read src =
    (i b : ℕ) (t : Fw) (bus : List Event)
    → At s bus t
    → get_elem? src i ≡ some b
    → read i t ≡ ok b t

-- The bytes of a block write: address, command, size and bytes.
abbrev pub block_message : Request → ℕ → List ℕ → List ℕ
block_message r size bytes = u8 r.value ∷ u8 r.index ∷ size ∷ bytes

module _ (env : Env) (fuel : ℕ) (run : IsRunning env fuel) {s : Fw} {bus : List Event} where
  -- The rounds append the bytes to the message, and their code to its code.
  write_rounds-Sending :
      (read : ℕ → M ℕ) (src : List ℕ)
      → Fetches s read src
      → (left i pec : ℕ) (bytes : List ℕ) (t : Fw) → i + left ≤ length src
      → pec ≡ pec_from 0 bytes
      → Sending s bus bytes t
      → Post
          (λ p u.
            (p ≡ pec_from 0 (bytes ++ take left (drop i src)))
            × Sending s bus (bytes ++ take left (drop i src)) u)
          (λ u. At s u.bus u)
          (write_rounds env fuel read left i pec t)
  unfolding write_rounds ◌>>=◌ ◌>>◌
  write_rounds-Sending read src fetch zero i pec bytes t h e q =
      rw (append-nil bytes) (post_ok (e, q))
  write_rounds-Sending read src fetch (suc left) i pec bytes t h e q =
      let b : ℕ = get_or src i 0 in
      let next : i + 1 ≡ suc i = omega arith in
      rw
        (
          fetch i b t _ q.at (get_elem?-eq-get_or src i 0 (omega arith)),
          drop-cons 0 i src (omega arith),
          next,
        )
        (Post-bind (out-Sending env fuel run b b t refl q) λ _ u q'.
          rw⁻¹ (append_assoc bytes (b ∷ []) (take left (drop (suc i) src))) (
            write_rounds-Sending read src fetch left (suc i) (pec_crc pec b) (bytes ++ (b ∷ [])) u
              (omega arith) (ap (λ p. pec_crc p b) e ∙ sym (pec_from-append 0 bytes (b ∷ []))) q'))

  write_header-Sending :
      (r : Request) (size : ℕ) (t : Fw)
      → size < 256
      → At s bus t
      → Post
          (λ p u.
            (p ≡ pec_from 0 (u8 r.value ∷ u8 r.index ∷ size ∷ []))
            × Sending s bus (u8 r.value ∷ u8 r.index ∷ size ∷ []) u)
          (λ u. At s u.bus u)
          (write_header env fuel r size t)
  unfolding write_header ◌>>=◌ ◌>>◌
  write_header-Sending r size t h at =
      let small : u8 size ≡ size = omega arith in
      address-Sending env fuel run r t at λ t2 q2.
        Post-bind (out-Sending env fuel run size size t2 refl q2) λ _ u q.
          post_ok (ap (λ n. pec_crc (pec_crc (pec_crc 0 (u8 r.value)) (u8 r.index)) n) small, q)

  -- A block from its header to its last byte, and what follows.
  pub message-Post :
      {Q : Unit {0} → Fw → Type 0} {last : ℕ → M (Unit {0})} (r : Request) (read : ℕ → M ℕ) (n : ℕ)
      (src : List ℕ) (t : Fw)
      → Fetches s read src
      → n ≤ length src
      → n < 256
      → At s bus t
      → ((p : ℕ) (u : Fw)
          → p ≡ pec_from 0 (block_message r n (take n src))
          → Sending s bus (block_message r n (take n src)) u
          → Post Q (λ w. At s w.bus w) (last p u))
      → Post Q
          (λ w. At s w.bus w)
          ((do pec ← write_header env fuel r n; pec ← write_rounds env fuel read n 0 pec; last pec)
            t)
  unfolding ◌>>=◌
  message-Post r read n src t fetch h small at next =
      Post-bind (write_header-Sending r n t small at) λ p u q.
        Post-bind (write_rounds-Sending read src fetch n 0 p _ u (omega arith) q.0 q.1)
          λ p' w q'. next p' w q'.0 q'.1

-- A block is not forgotten before its time.
pub drop_stale-fresh :
    (t : Fw) → (ltb 0 t.templen && ltb block_seq_timeout t.count) ≡ false → drop_stale t ≡ ok tt t
unfolding drop_stale modify
drop_stale-fresh t e = ap (λ b. ok tt (cond b (record t { templen = 0; tempptr = 0 }) t)) e

module _ (env : Env) (fuel : ℕ) (run : IsRunning env fuel) (r : Request) (s : Fw)
    (v : IsValid s) where
  -- A block that comes in one request.
  pub write_short-Carried :
      (bytes : List ℕ)
      → s.templen ≡ 0
      → length bytes < 64
      → r.payload ≡ length bytes ∷ bytes
      → Post
          (Outcome (
            Carried s.bus (write_transaction s.pec_enabled (block_message r (length bytes) bytes))))
          (λ _. ⊥)
          (write_block env fuel r s)
  unfolding write_block gets ◌>>=◌ ◌>>◌ write_received if◌then◌else◌ send_short
  write_short-Carried bytes idle h e =
      Post-bind (ep0_receive-At env fuel run r.payload s v) λ _ t at.
        let is_idle : t.templen ≡ 0 = at.templen_is ∙ idle in
        rw
          (
            drop_stale-fresh t (ground arith),
            ap (λ n. n == 0) is_idle,
            ep0_get-received r.payload 0 (length bytes) t v (omega arith)
                (ap (λ p. get_elem? p 0) e) at,
            short,
          )
          (or_stop-At env fuel run {s = received r.payload s} _ t (
            rw⁻¹
              (ap (λ bs. write_transaction s.pec_enabled (block_message r (length bytes) bs))
                (take_of_length_le (length bytes) bytes (omega arith)))
              (message-Post env fuel run r (λ i. ep0_get (1 + i)) (length bytes) bytes t fetched
                (omega arith) (omega arith) at
                λ p u e' q. trailer-Carried env fuel run p _ u e' q)))
    where
      fetched : Fetches (received r.payload s) (λ i. ep0_get (1 + i)) bytes
      fetched i b u bus at e' =
          ep0_get-received r.payload (1 + i) b u v (omega (arith, get_elem?-lt bytes i b e'))
            (rw (e, next i) e') at

      short : ltb 64 (length bytes) ≡ false
      short = ground arith
