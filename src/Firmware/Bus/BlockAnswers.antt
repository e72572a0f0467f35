-- ===== src/Firmware/Bus/BlockAnswers.antt =====
-- What the request that reads a block leaves for the host.
use smbusb.Prelude.{
  ℕ, suc, ◌+◌, ◌-◌, min, ◌<◌, ◌≤◌, ◌≡◌, refl, sym, ap, ◌∙◌, ◌⊎◌, Bool, true, false, not, ◌&&◌, List,
  [], ◌∷◌, ◌++◌, arith, cond, ltb, u8, length, length-take, length-drop, take, drop, overlay,
  take-overlay, take-append-drop, ◌==◌,
}
use smbusb.Pec.{pec_crc, pec_from}
use smbusb.Firmware.State.{Env, Event, got, Fw, Request}
use smbusb.Firmware.Timeout.{IsValid}
use smbusb.Firmware.Commands.{header_pec}
use smbusb.Firmware.Commands.ReadBlock.{Locals}
use smbusb.Firmware.Bus.{logged, logged-append, receive, address_phase, read_head, retried}
use smbusb.Firmware.Bus.BlockLoop.{Completed}

-- A block has been read: the bytes are in the buffer and in `temp`, in the order in which they came,
-- and the code, where codes are on, is that of the whole message.
pub record BlockAnswered (s : Fw) (r : Request) (t : Fw) : Type 0 where
  pub tries : ℕ
  pub few : tries < 5
  pub discarded : ℕ
  pub bytes : List ℕ
  pub code : ℕ
  pub some_bytes : 1 ≤ length bytes
  pub room : length bytes ≤ 253
  pub exact :
      t.bus
      ≡ logged
          (address_phase r.value r.index
            ++ receive (discarded ∷ length bytes ∷ (bytes ++ (code ∷ []))))
          (retried tries s.bus)
  pub checked :
      s.pec_enabled ≡ true → code ≡ pec_from 0 (read_head r.value r.index ++ (length bytes ∷ bytes))
  pub returned : take t.ep0bc t.ep0buf ++ take t.templen t.temp ≡ length bytes ∷ bytes
  pub at_start : t.tempptr ≡ 0
  pub armed : t.ep0bc ≡ min 64 (suc (length bytes))
  pub in_time : (t.templen ≡ 0) ⊎ (t.count ≡ 0)
  pub valid : IsValid t

-- The device announced 254 bytes: none of them was read, and the bus was not stopped.
pub record Unread (s : Fw) (r : Request) (t : Fw) : Type 0 where
  pub tries : ℕ
  pub few : tries < 5
  pub discarded : ℕ
  pub exact :
      t.bus
      ≡ logged
          (address_phase r.value r.index ++ (got discarded ∷ got 254 ∷ []))
          (retried tries s.bus)
  pub valid : IsValid t

held :
    (bytes buf temp : List ℕ)
    → length buf ≡ 64
    → length temp ≡ 192
    → length bytes ≤ 254
    → take (min 64 (length bytes)) (overlay (take 64 bytes) buf)
        ++ take (length bytes - 64) (overlay (drop 64 bytes) temp)
      ≡ bytes
held bytes buf temp h h' room =
    rw
      (
        take-overlay (min 64 (length bytes)) (take 64 bytes) buf
            (omega (arith, length-take 64 bytes)) (omega arith),
        take-overlay (length bytes - 64) (drop 64 bytes) temp (omega (arith, length-drop 64 bytes))
            (omega arith),
      )
      (take-append-drop 64 bytes)

pub flagged-IsValid :
    (f : Bool) (n : ℕ) (t : Fw) → IsValid t → IsValid (record t { pec_failed = f; ep0bc = n })
flagged-IsValid f n t v = record {
  ep0_size = v.ep0_size;
  temp_size = v.temp_size;
  ptr_in = v.ptr_in;
  len_in = v.len_in;
  count_in = v.count_in;
}

receive_two :
    (d n code : ℕ) (bytes : List ℕ)
    → 1 ≤ length bytes
    → receive (d ∷ n ∷ (bytes ++ (code ∷ []))) ≡ got d ∷ got n ∷ receive (bytes ++ (code ∷ []))
unfolding receive
receive_two d n code [] h = absurd (omega arith)
receive_two d n code (x ∷ []) h = refl
receive_two d n code (x ∷ y ∷ bytes) h = refl

agreed : (on : Bool) (rpec pec : ℕ) → (on && not (rpec == pec)) ≡ false → on ≡ true → rpec ≡ pec
agreed on rpec pec h e = ground arith

block_bus :
    (d n code : ℕ) (bytes : List ℕ) (phase bus : List Event)
    → length bytes ≡ n
    → 1 ≤ n
    → logged (receive (bytes ++ (code ∷ []))) (got n ∷ got d ∷ logged phase bus)
      ≡ logged (phase ++ receive (d ∷ length bytes ∷ (bytes ++ (code ∷ [])))) bus
unfolding logged
block_bus d n code bytes phase bus e low =
    rw
      (
        receive_two d (length bytes) code bytes (omega arith),
        logged-append phase (got d ∷ got (length bytes) ∷ receive (bytes ++ (code ∷ []))) bus,
        e,
      )
      refl

block_code :
    (on on' : Bool) (start n code rpec pec : ℕ) (bytes : List ℕ)
    → rpec ≡ cond on code 0
    → pec
      ≡ cond on
          (pec_from (cond on (pec_crc (cond on start 0) n) (cond on start 0)) bytes)
          (cond on (pec_crc (cond on start 0) n) (cond on start 0))
    → (on' && not (rpec == pec)) ≡ false
    → on' ≡ on
    → on ≡ true
    → code ≡ pec_from start (n ∷ bytes)
block_code true on' start n code rpec pec bytes e e' right same on =
    sym e ∙ agreed on' rpec pec right same ∙ e'
block_code false on' start n code rpec pec bytes e e' right same on = absurd (ground arith)

-- The number of bytes for the host.
abbrev announced : ℕ → ℕ
announced blocklen = u8 (cond (ltb 65 blocklen) 64 (u8 (blocklen + 255)))

announced_lem : (n : ℕ) → n ≤ 253 → announced (1 + suc n) ≡ min 64 (suc n)
announced_lem n h = ground arith

-- The code of the address phase, where codes are on, and of the size, too.
abbrev pub start_code : Env → ℕ → Request → Fw → ℕ
start_code env fuel r s = cond s.pec_enabled (header_pec env fuel r) 0

abbrev pub message_code : Env → ℕ → Request → Fw → ℕ → ℕ
message_code env fuel r s n =
    cond s.pec_enabled (pec_crc (start_code env fuel r s) n) (start_code env fuel r s)

module _ (env : Env) (fuel : ℕ) (r : Request) {s : Fw} (v : IsValid s) (idle : s.templen ≡ 0) where
  -- The whole block is returned.
  pub answered :
      (k n discarded : ℕ) (l : Locals) (t u : Fw)
      → k < 5
      → 1 ≤ n
      → n ≤ 253
      → Completed s
          (got n ∷ got discarded ∷ logged (address_phase r.value r.index) (retried k s.bus))
          (n ∷ [])
          n
          (message_code env fuel r s n)
          0
          l
          t
      → (u.bus ≡ t.bus)
        × (u.ep0buf ≡ t.ep0buf)
        × (u.temp ≡ t.temp)
        × (u.pec_enabled ≡ t.pec_enabled)
      → (u.templen ≡ n - 63) × (u.tempptr ≡ 0) × ((u.templen ≡ 0) ⊎ (u.count ≡ 0))
      → (u.pec_enabled && not (l.rpec == l.pec)) ≡ false
      → IsValid u
      → BlockAnswered s r (record u { ep0bc = announced l.blocklen })
  answered k n discarded l t u few low high c same shape right v' = record {
    tries = k;
    few = few;
    discarded = discarded;
    bytes = c.bytes;
    code = c.code;
    some_bytes = omega (arith, c.sized);
    room = omega (arith, c.sized);
    exact = same.0 ∙ c.at.bus_is ∙ block_bus discarded n c.code c.bytes _ _ c.sized low;
    checked = λ on.
        block_code s.pec_enabled u.pec_enabled (header_pec env fuel r) n c.code l.rpec l.pec c.bytes
          c.rpec_is c.pec_is right (same.3 ∙ c.at.pec_is) on
        ∙ ap (λ m. pec_from (header_pec env fuel r) (m ∷ c.bytes)) (sym c.sized);
    returned =
        ap (λ m. take m u.ep0buf ++ take u.templen u.temp) ep0bc_is
        ∙ ap (λ m. take (min 64 (suc (length c.bytes))) u.ep0buf ++ take m u.temp) templen_is
        ∙ ap
            (λ xs.
              take (min 64 (suc (length c.bytes))) xs ++ take (suc (length c.bytes) - 64) u.temp)
            (same.1 ∙ c.at.ep0_is)
        ∙ ap
            (λ xs.
              take (min 64 (suc (length c.bytes))) (overlay (take 64 (n ∷ c.bytes)) s.ep0buf)
              ++ take (suc (length c.bytes) - 64) xs)
            (same.2 ∙ c.at.temp_is)
        ∙ held (n ∷ c.bytes) s.ep0buf s.temp v.ep0_size v.temp_size (omega (arith, c.sized))
        ∙ ap (λ m. m ∷ c.bytes) (sym c.sized);
    at_start = shape.1;
    armed = ep0bc_is;
    in_time = shape.2;
    valid = flagged-IsValid u.pec_failed (announced l.blocklen) u v';
  }
    where
      ep0bc_is : announced l.blocklen ≡ min 64 (suc (length c.bytes))
      ep0bc_is =
          ap announced c.blocklen_is ∙ announced_lem n high ∙ ap (λ m. min 64 (suc m)) (sym c.sized)

      templen_is : u.templen ≡ suc (length c.bytes) - 64
      templen_is = omega (arith, shape.0, c.sized)
