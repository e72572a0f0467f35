-- ===== src/Loader/Hex.antt =====
-- `parse_hex_line` of lib/fxloader.c. `sscanf` of the library of C is a parameter; a string is the list
-- of its characters before the final zero.
use smbusb.Prelude.{
  ℕ, zero, suc, ◌+◌, ◌*◌, ◌/◌, ◌-◌, ◌^◌, Bool, false, not, List, [], ◌∷◌, ◌++◌, length, take, drop,
  overlay, get_or, u8, ltb, leb, ◌==◌, if◌then◌else◌,
}

-- What `sscanf` with one conversion does: it stores a number, finds none, or is at the end.
pub data Scan : Type 0 where
  matched : ℕ → Scan
  mismatch input_end : Scan

-- `sscanf(ptr, "%02x", ...)` and `sscanf(ptr, "%04x", ...)`, by the width.
abbrev pub Scanf : Type 0
Scanf = ℕ → List ℕ → Scan

-- The variables of the caller, to which `parse_hex_line` writes.
pub record Fields : Type 0 where
  pub bytes : List ℕ
  pub addr : ℕ
  pub num : ℕ
  pub code : ℕ

-- The result and the variables, or an access out of bounds.
pub data Parsed : Type 0 where
  returned : Bool → Fields → Parsed
  fault : Parsed

abbrev pub colon : ℕ
colon = 58

-- A conversion, which keeps the old value at the end of the input.
abbrev pub scanned : {A : Type 0} → Scan → ℕ → A → (ℕ → A) → A
scanned (Scan.matched n) old refused next = next n
scanned Scan.mismatch old refused next = refused
scanned Scan.input_end old refused next = next old

-- `strlen(theline) < (11 + (len * 2))`, where the right side is an `int` that becomes a `size_t`;
-- `len` is given as the unsigned number that was read.
abbrev pub too_short : ℕ → ℕ → Bool
too_short size len = if ltb len (2 ^ 31) then ltb size (11 + len * 2) else ltb len (2 ^ 32 - 5)

-- The 4 bytes of an `int`, the low byte first.
abbrev pub int_bytes : ℕ → List ℕ
int_bytes n = u8 n ∷ u8 (n / 2 ^ 8) ∷ u8 (n / 2 ^ 16) ∷ u8 (n / 2 ^ 24) ∷ []

-- `*(int *)&bytes[num] = n`, within the array.
abbrev pub store_int : ℕ → ℕ → List ℕ → List ℕ
store_int num n bytes = take num bytes ++ overlay (int_bytes n) (drop num bytes)

abbrev pub max_rounds : ℕ
max_rounds = 257

module _ (sscanf : Scanf) where
  -- The checksum at the end of the line.
  unfoldable pub check_sum : ℕ → ℕ → Fields → List ℕ → Parsed
  check_sum garbage sum f ptr =
      scanned (sscanf 2 ptr) garbage (Parsed.returned false f)
        λ cksum. Parsed.returned (u8 (u8 sum + u8 cksum) == 0) f

  -- `ptr += 2; sum += bytes[*num] & 255; (*num)++; if (*num >= 256) return 0;`, and the rounds after it.
  unfoldable pub added : (ℕ → Fields → List ℕ → Parsed) → ℕ → Fields → List ℕ → Parsed
  added next sum f [] = Parsed.fault
  added next sum f (c ∷ []) = Parsed.fault
  added next sum f (c ∷ d ∷ ptr) =
      if leb 256 (f.num + 1)
      then Parsed.returned false (record f { num = f.num + 1 })
      else next (sum + u8 (get_or f.bytes f.num 0)) (record f { num = f.num + 1 }) ptr

  -- One round: the byte at `ptr` goes to `bytes[num]`, as an `int`. An access behind the end of the line
  -- or of the array is a fault.
  unfoldable pub stored : (ℕ → Fields → List ℕ → Parsed) → ℕ → Fields → List ℕ → Scan → Parsed
  stored next sum f ptr Scan.mismatch = Parsed.returned false f
  stored next sum f ptr Scan.input_end = added next sum f ptr
  stored next sum f ptr (Scan.matched n) =
      if ltb (length f.bytes) (f.num + 4)
      then Parsed.fault
      else added next sum (record f { bytes = store_int f.num n f.bytes }) ptr

  -- `while(*num != len)`: `num` stops at 256, so that 256 rounds suffice.
  unfoldable pub scan_bytes : ℕ → ℕ → ℕ → ℕ → Fields → List ℕ → Parsed
  scan_bytes garbage len zero sum f ptr = Parsed.fault
  scan_bytes garbage len (suc left) sum f ptr =
      if f.num == len
      then check_sum garbage sum f ptr
      else stored (scan_bytes garbage len left) sum f ptr (sscanf 2 ptr)

  -- `garbage` is what the uninitialised locals hold. The guards before it make sure that the line has
  -- the 9 characters that are skipped.
  unfoldable pub parse_hex_line : ℕ → List ℕ → Fields → Parsed
  parse_hex_line garbage theline f =
      let f = record f { num = 0 } in
      if not (get_or theline 0 0 == colon)
      then Parsed.returned false f
      else if ltb (length theline) 11
      then Parsed.returned false f
      else scanned (sscanf 2 (drop 1 theline)) garbage (Parsed.returned false f) λ len.
        if too_short (length theline) len
        then Parsed.returned false f
        else scanned (sscanf 4 (drop 3 theline)) f.addr (Parsed.returned false f) λ addr.
          let f = record f { addr = addr } in
          scanned (sscanf 2 (drop 7 theline)) f.code (Parsed.returned false f) λ code.
            let f = record f { code = code } in
            scan_bytes garbage len max_rounds (u8 len + u8 (addr / 256) + u8 addr + u8 code) f
              (drop 9 theline)
