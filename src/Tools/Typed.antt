-- ===== src/Tools/Typed.antt =====
-- What tools/smbusb_comm.c writes for data that are given in hexadecimal.
use smbusb.Prelude.{
  ℕ, zero, suc, ◌+◌, ◌*◌, ◌/◌, ◌%◌, ◌^◌, ◌≤◌, ◌<◌, ◌≡◌, ◌∙◌, refl, ap, Bool, true, false, not, ◌&&◌,
  ◌||◌, none, some, List, [], ◌∷◌, map, arith, length, u8, u32, ltb, ◌==◌, cond, bit_or, ℤ, ==_iff,
  Bool-cases, inl, inr,
}
use smbusb.Pec.Crc.{AreBytes}
use smbusb.Facade.Device.{SmbDriver, Name, Library, smb_write_byte, smb_write_word, smb_write_block}
use smbusb.Loader.Encode.{digit, hex_bytes}
use smbusb.Loader.Parse.{length-hex_bytes}
use smbusb.Tools.State.{M, pure, ◌>>=◌}
use smbusb.Tools.Comm.{
  nibble, hex_decode, Outcome, Settings, without_prefix, is_hex, all_hex, write_bytes,
  write_checked, write_stripped, do_write,
}

-- What C says of `tolower` on digits and capital letters.
pub record IsToLower (tolower : ℕ → ℕ) : Type 0 where
  pub keeps : (c : ℕ) → 48 ≤ c → c ≤ 57 → tolower c ≡ c
  pub lowers : (c : ℕ) → 65 ≤ c → c ≤ 70 → tolower c ≡ c + 32

-- The lower-case digit.
abbrev low_digit : ℕ → ℕ
low_digit d = cond (ltb d 10) (48 + d) (87 + d)

nibble-low_digit : (d : ℕ) → d < 16 → nibble (low_digit d) ≡ d
nibble-low_digit d h = ground (arith, h)

is_hex-low_digit : (d : ℕ) → d < 16 → is_hex (low_digit d) ≡ true
is_hex-low_digit d h = ground (arith, h)

-- A test on the numbers below `n`.
abbrev all_below : ℕ → (ℕ → Bool) → Bool
all_below zero p = true
all_below (suc n) p = p n && all_below n p

and_true : (a b : Bool) → (a && b) ≡ true → (a ≡ true) × (b ≡ true)
and_true true b h = (refl, h)
and_true false b h = absurd (ground arith)

all_below_lem : (n : ℕ) (p : ℕ → Bool) (k : ℕ) → all_below n p ≡ true → k < n → p k ≡ true
all_below_lem zero p k h low = absurd (omega arith)
all_below_lem (suc n) p k h low = elim (Bool-cases (k == n)) [
  | inl e ↦ ap p ((==_iff k n).0 e) ∙ (and_true (p n) (all_below n p) h).0
  | inr e ↦ all_below_lem n p k (and_true (p n) (all_below n p) h).1 (ground arith)
]

bit_or-nibbles : (b : ℕ) → b < 256 → bit_or (b / 16 * 16) (b % 16) ≡ b
bit_or-nibbles b h =
    (==_iff (bit_or (b / 16 * 16) (b % 16)) b).0
      (all_below_lem 256 (λ k. bit_or (k / 16 * 16) (k % 16) == k) b refl h)

-- The text of bytes in lower case.
abbrev low_text : List ℕ → List ℕ
low_text [] = []
low_text (b ∷ bytes) = low_digit (b / 16) ∷ low_digit (b % 16) ∷ low_text bytes

hex_decode-low_text : (bytes : List ℕ) → AreBytes bytes → hex_decode (low_text bytes) ≡ bytes
unfolding hex_decode AreBytes
hex_decode-low_text [] all = refl
hex_decode-low_text (b ∷ bytes) all =
    let high : nibble (low_digit (b / 16)) ≡ b / 16 = nibble-low_digit (b / 16) (omega arith) in
    let low : nibble (low_digit (b % 16)) ≡ b % 16 = nibble-low_digit (b % 16) (omega arith) in
    let shifted : u32 (b / 16 * 2 ^ 4) ≡ b / 16 * 16 = omega arith in
    let byte : u8 b ≡ b = omega arith in
    rw (high, low, shifted, bit_or-nibbles b all.0, byte)
      (ap (◌∷◌ b) (hex_decode-low_text bytes all.1))

all_hex-low_text : (bytes : List ℕ) → AreBytes bytes → all_hex (low_text bytes) ≡ true
unfolding AreBytes
all_hex-low_text [] all = refl
all_hex-low_text (b ∷ bytes) all =
    rw (is_hex-low_digit (b / 16) (omega arith), is_hex-low_digit (b % 16) (omega arith))
      (all_hex-low_text bytes all.1)

-- A digit is no x.
digit_other : (d : ℕ) → d < 16 → ((digit d == 120) || (digit d == 88)) ≡ false
digit_other d h = ground (arith, h)

without_prefix-hex_bytes :
    (bytes : List ℕ) → AreBytes bytes → without_prefix (hex_bytes bytes) ≡ some (hex_bytes bytes)
unfolding AreBytes
without_prefix-hex_bytes [] all = refl
without_prefix-hex_bytes (b ∷ bytes) all =
    rw (digit_other (b % 16) (omega arith)) (by_zero (digit (b / 16) == 48))
  where
    by_zero :
        (z : Bool)
        → cond
            (z && false)
            (cond (ltb (length (hex_bytes bytes)) 254) (some (hex_bytes bytes)) none)
            (some (hex_bytes (b ∷ bytes)))
          ≡ some (hex_bytes (b ∷ bytes))
    by_zero true = refl
    by_zero false = refl

module _ (tolower : ℕ → ℕ) (lowering : IsToLower tolower) where
  tolower-digit : (d : ℕ) → d < 16 → tolower (digit d) ≡ low_digit d
  tolower-digit d h = elim (Bool-cases (ltb d 10)) [
    | inl e ↦ rw e (lowering.keeps (48 + d) (omega arith) (ground arith))
    | inr e ↦
        let shifted : 55 + d + 32 ≡ 87 + d = omega arith in
        rw e (lowering.lowers (55 + d) (ground arith) (omega arith) ∙ shifted)
  ]

  map-tolower-hex_bytes :
      (bytes : List ℕ) → AreBytes bytes → map tolower (hex_bytes bytes) ≡ low_text bytes
  unfolding AreBytes
  map-tolower-hex_bytes [] all = refl
  map-tolower-hex_bytes (b ∷ bytes) all =
      rw (tolower-digit (b / 16) (omega arith), tolower-digit (b % 16) (omega arith))
        (ap (λ s. low_digit (b / 16) ∷ low_digit (b % 16) ∷ s) (map-tolower-hex_bytes bytes all.1))

  module _ {D : Type 0} (table : Name → SmbDriver D) where
    -- The transaction that writes bytes.
    abbrev pub transaction : Settings → ℤ → List ℕ → M (Library D) ℤ
    transaction s status [] =
        cond s.force_block_write (smb_write_block table s.op_address (u8 s.op_command) [] 0)
          (pure status)
    transaction s status (b ∷ []) =
        cond s.force_block_write (smb_write_block table s.op_address (u8 s.op_command) (b ∷ []) 1)
          (smb_write_byte table s.op_address (u8 s.op_command) b)
    transaction s status (b ∷ c ∷ []) =
        cond s.force_block_write
          (smb_write_block table s.op_address (u8 s.op_command) (b ∷ c ∷ []) 2)
          (smb_write_word table s.op_address (u8 s.op_command) (256 * b + c))
    transaction s status (b ∷ c ∷ d ∷ bytes) =
        smb_write_block table s.op_address (u8 s.op_command) (b ∷ c ∷ d ∷ bytes)
          (length (b ∷ c ∷ d ∷ bytes))

    write_bytes-transaction :
        (s : Settings) (status : ℤ) (bytes : List ℕ)
        → length bytes ≤ 255
        → write_bytes table s status bytes ≡ transaction s status bytes
    unfolding write_bytes
    write_bytes-transaction s status [] few = by_force s.force_block_write
      where
        by_force :
            (force : Bool)
            → cond
                (false || force)
                (smb_write_block table s.op_address (u8 s.op_command) [] 0)
                (pure status)
              ≡ cond force (smb_write_block table s.op_address (u8 s.op_command) [] 0) (pure status)
        by_force true = refl
        by_force false = refl
    write_bytes-transaction s status (b ∷ []) few = refl
    write_bytes-transaction s status (b ∷ c ∷ []) few =
        let word : c + 2 ^ 8 * b ≡ 256 * b + c = omega arith in rw word refl
    write_bytes-transaction s status (b ∷ c ∷ d ∷ bytes) few =
        let long : ltb 2 (length (b ∷ c ∷ d ∷ bytes)) ≡ true = ground arith in
        let size : u8 (length (b ∷ c ∷ d ∷ bytes)) ≡ length (b ∷ c ∷ d ∷ bytes) = omega arith in
        rw (long, size) refl

    -- Given 1 to 255 bytes in hexadecimal with capital letters, --write sends just these bytes: three or more,
    -- or any number with --block-write, by a block write, two by a word write with the first one as the high
    -- byte, one by a byte write; and the program ends with the status of that transaction.
    pub do_write-hex_bytes :
        (bytes : List ℕ) (s : Settings) (status : ℤ) (library : Library D)
        → AreBytes bytes
        → 1 ≤ length bytes
        → length bytes ≤ 255
        → s.block ≡ hex_bytes bytes
        → do_write table tolower s status library
          ≡ (let sent = transaction s status bytes library in (Outcome.finished sent.0 [], sent.1))
    unfolding do_write write_checked ◌>>=◌
    do_write-hex_bytes bytes s status library all some_byte few block =
        ap
          (λ text.
            cond (length text == 0) (pure (Outcome.finished status []))
              (cond (not (length text % 2 == 0)) (pure Outcome.odd_length)
                (write_stripped table tolower s status (without_prefix text)))
              library)
          block
        ∙ rw
            (
              present,
              even,
              without_prefix-hex_bytes bytes all,
              map-tolower-hex_bytes bytes all,
              all_hex-low_text bytes all,
              hex_decode-low_text bytes all,
              fits,
              write_bytes-transaction s status bytes few,
            )
            refl
      where
        present : (length (hex_bytes bytes) == 0) ≡ false
        present = ground (arith, length-hex_bytes bytes)

        even : not (length (hex_bytes bytes) % 2 == 0) ≡ false
        even = ground (arith, length-hex_bytes bytes)

        fits : ltb 256 (length bytes) ≡ false
        fits = ground arith
