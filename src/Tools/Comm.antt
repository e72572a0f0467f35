-- ===== src/Tools/Comm.antt =====
-- tools/smbusb_comm.c, without its options and messages. `tolower` of the library of C is a parameter.
use smbusb.Prelude.{
  ℕ, ◌+◌, ◌-◌, ◌*◌, ◌%◌, ◌^◌, Bool, true, not, ◌&&◌, ◌||◌, Option, none, some, List, [], ◌∷◌, map,
  length, get_or, u8, u32, ltb, leb, ◌==◌, cond, bit_or, ℤ, below,
}
use smbusb.Facade.Device.{
  SmbDriver, Name, Library, smb_open_device, smb_enable_pec, smb_send_byte, smb_read_byte,
  smb_write_byte, smb_read_word, smb_write_word, smb_read_block, smb_write_block,
}
use smbusb.Tools.State.{M, pure, ◌>>=◌, run}

-- `in[i] > '9' ? in[i] - 'a' + 10 : in[i] - '0'`, as an unsigned number.
abbrev pub nibble : ℕ → ℕ
nibble c = cond (ltb 57 c) (u32 (c + 2 ^ 32 - 87)) (u32 (c + 2 ^ 32 - 48))

abbrev pub decoded_byte : ℕ → ℕ → ℕ
decoded_byte c d = u8 (bit_or (u32 (nibble c * 2 ^ 4)) (nibble d))

-- `hex_decode`; behind a string of odd length, the zero at its end is read.
unfoldable pub hex_decode : List ℕ → List ℕ
hex_decode [] = []
hex_decode (c ∷ []) = decoded_byte c 0 ∷ []
hex_decode (c ∷ d ∷ s) = decoded_byte c d ∷ hex_decode s

-- How the program ends: a message before anything was done, an access out of bounds, or the status of
-- the operation and the data that were read.
pub data Outcome : Type 0 where
  not_opened : ℤ → Outcome
  missing odd_length invalid fault : Outcome
  finished : ℤ → List ℕ → Outcome

-- What the last option asks for: `op`.
pub data Operation : Type 0 where
  no_operation write read null_write : Operation

-- The variables that the options set, -1 being 0xFFFFFFFF; `block` is the string of --write, or what
-- the array holds without it.
pub record Settings : Type 0 where
  pub op : Operation
  pub op_address : ℕ
  pub op_command : ℕ
  pub op_read_len : ℕ
  pub block : List ℕ
  pub force_block_write : Bool
  pub no_pec : Bool
  pub device : List ℕ

-- The string behind a leading "0x" or "0X"; `strncpy` of 254 characters or more leaves no zero at the end
-- of `block2`.
abbrev pub without_prefix : List ℕ → Option (List ℕ)
without_prefix [] = some []
without_prefix (c ∷ []) = some (c ∷ [])
without_prefix (c ∷ d ∷ s) =
    cond ((c == 48) && ((d == 120) || (d == 88))) (cond (ltb (length s) 254) (some s) none)
      (some (c ∷ d ∷ s))

abbrev pub is_hex : ℕ → Bool
is_hex c = (leb 48 c && leb c 57) || (leb 97 c && leb c 102)

-- The loop that checks the characters.
abbrev pub all_hex : List ℕ → Bool
all_hex [] = true
all_hex (c ∷ s) = is_hex c && all_hex s

-- `*((int*)buf) & 0xFFFF`, with the bytes swapped.
abbrev pub swapped : List ℕ → ℕ
swapped buf = get_or buf 1 0 + 2 ^ 8 * get_or buf 0 0

module _ {D : Type 0} (table : Name → SmbDriver D) where
  -- The choice of the transaction for the bytes, whose number is passed as an `unsigned char`; without any, `status` is that of opening the device.
  unfoldable pub write_bytes : Settings → ℤ → List ℕ → M (Library D) ℤ
  write_bytes s status buf =
      cond (ltb 2 (length buf) || s.force_block_write)
        (smb_write_block table s.op_address (u8 s.op_command) buf (u8 (length buf)))
        (cond (length buf == 1)
          (smb_write_byte table s.op_address (u8 s.op_command) (get_or buf 0 0))
          (cond (length buf == 2)
            (smb_write_word table s.op_address (u8 s.op_command) (swapped buf)) (pure status)))

  -- The characters are checked and decoded, to an array of 256 bytes.
  unfoldable pub write_checked : Settings → ℤ → List ℕ → M (Library D) Outcome
  write_checked s status text = cond (not (all_hex text)) (pure Outcome.invalid) (
      cond (ltb 256 (length (hex_decode text))) (pure Outcome.fault)
        (write_bytes s status (hex_decode text) >>= λ status. pure (Outcome.finished status [])))

  abbrev pub write_stripped : (ℕ → ℕ) → Settings → ℤ → Option (List ℕ) → M (Library D) Outcome
  write_stripped tolower s status none = pure Outcome.fault
  write_stripped tolower s status (some text) = write_checked s status (map tolower text)

  -- `if (op==1)`
  unfoldable pub do_write : (ℕ → ℕ) → Settings → ℤ → M (Library D) Outcome
  do_write tolower s status = cond (length s.block == 0) (pure (Outcome.finished status [])) (
      cond (not (length s.block % 2 == 0)) (pure Outcome.odd_length)
        (write_stripped tolower s status (without_prefix s.block)))

  -- `else if (op==2)`
  unfoldable pub do_read : Settings → M (Library D) Outcome
  do_read s =
      cond (s.op_read_len == 1)
        (smb_read_byte table s.op_address (u8 s.op_command) >>= λ status.
          pure (Outcome.finished status []))
        (cond (s.op_read_len == 2)
          (smb_read_word table s.op_address (u8 s.op_command) >>= λ status.
            pure (Outcome.finished status []))
          (smb_read_block table s.op_address (u8 s.op_command) >>= λ r.
            pure (Outcome.finished r.0 r.1)))

  abbrev pub operate : (ℕ → ℕ) → Settings → ℤ → Operation → M (Library D) Outcome
  operate tolower s status Operation.no_operation = pure (Outcome.finished status [])
  operate tolower s status Operation.write = do_write tolower s status
  operate tolower s status Operation.read = do_read s
  operate tolower s status Operation.null_write =
      smb_send_byte table s.op_address (u8 s.op_command) >>= λ ignored.
      pure (Outcome.finished status [])

  -- `main`, behind the options.
  unfoldable pub comm_main : (ℕ → ℕ) → Settings → M (Library D) Outcome
  comm_main tolower s = do
    status ← smb_open_device table s.device
    cond (below status 0) (pure (Outcome.not_opened status)) (do
      ignored ← run (smb_enable_pec table (cond s.no_pec 0 1))
      cond ((s.op_address == 0xFFFFFFFF) || (s.op_command == 0xFFFFFFFF)) (pure Outcome.missing) (
          cond ((s.op_read_len == 0) && (length s.block == 0)) (pure Outcome.missing)
            (operate tolower s status s.op)))
