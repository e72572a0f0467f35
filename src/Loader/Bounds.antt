-- ===== src/Loader/Bounds.antt =====
-- No access out of bounds on a line, whatever its characters are.
use smbusb.Prelude.{
  ℕ, zero, suc, ◌+◌, ◌-◌, ◌*◌, ◌/◌, ◌≤◌, ◌<◌, ◌≡◌, ◌∙◌, refl, Bool, true, false, not, inl, inr,
  List, [], ◌∷◌, arith, length, drop, get_or, length-drop, u8, ltb, leb, ◌==◌, if◌then◌else◌,
  Bool-cases,
}
use smbusb.Loader.Hex.{
  Scan, Scanf, Fields, Parsed, colon, scanned, too_short, store_int, check_sum, added, stored,
  scan_bytes, parse_hex_line, max_rounds,
}
use smbusb.Loader.Parse.{length-store_int}

-- The function returned.
abbrev pub IsReturned : Parsed → Type 0
IsReturned (Parsed.returned accepted f) = Unit {0}
IsReturned Parsed.fault = ⊥

scanned-IsReturned :
    {A : Type 0} (r : Scan) (old : A) (f : Fields) (value : ℕ) (next : ℕ → Parsed)
    → ((n : ℕ) → IsReturned (next n))
    → IsReturned (scanned r value (Parsed.returned false f) next)
scanned-IsReturned (Scan.matched n) old f value next h = h n
scanned-IsReturned Scan.mismatch old f value next h = tt
scanned-IsReturned Scan.input_end old f value next h = h value

refused-IsReturned :
    (b : Bool) (f : Fields) (p : Parsed)
    → IsReturned p
    → IsReturned (if b then Parsed.returned false f else p)
refused-IsReturned true f p h = tt
refused-IsReturned false f p h = h

module _ (sscanf : Scanf) (len : ℕ) (small : len ≤ 252) where
  -- A state of the loop from which it goes on within bounds: the rest of the line has two characters for each
  -- byte that is missing.
  abbrev IsInside : ℕ → Fields → List ℕ → Type 0
  IsInside num f ptr = (f.num ≡ num) × (length f.bytes ≡ 256) × (2 * (len - num) ≤ length ptr)

  added-IsReturned :
      (next : ℕ → Fields → List ℕ → Parsed) (sum : ℕ) (f : Fields) (ptr : List ℕ)
      → f.num < len
      → IsInside f.num f ptr
      → ((sum : ℕ) (g : Fields) (rest : List ℕ)
          → IsInside (f.num + 1) g rest
          → IsReturned (next sum g rest))
      → IsReturned (added sscanf next sum f ptr)
  unfolding added
  added-IsReturned next sum f [] low inside h = absurd (omega (arith, inside.2))
  added-IsReturned next sum f (c ∷ []) low inside h = absurd (omega (arith, inside.2))
  added-IsReturned next sum f (c ∷ d ∷ ptr) low inside h =
      let within : leb 256 (f.num + 1) ≡ false = ground arith in
      rw within (
        h (sum + u8 (get_or f.bytes f.num 0)) (record f { num = f.num + 1 }) ptr
          (refl, inside.1, omega (arith, inside.2)))

  stored-IsReturned :
      (next : ℕ → Fields → List ℕ → Parsed) (sum : ℕ) (f : Fields) (ptr : List ℕ) (r : Scan)
      → f.num < len
      → IsInside f.num f ptr
      → ((sum : ℕ) (g : Fields) (rest : List ℕ)
          → IsInside (f.num + 1) g rest
          → IsReturned (next sum g rest))
      → IsReturned (stored sscanf next sum f ptr r)
  unfolding stored
  stored-IsReturned next sum f ptr Scan.mismatch low inside h = tt
  stored-IsReturned next sum f ptr Scan.input_end low inside h =
      added-IsReturned next sum f ptr low inside h
  stored-IsReturned next sum f ptr (Scan.matched n) low inside h =
      let room : ltb (length f.bytes) (f.num + 4) ≡ false = ground (arith, inside.1) in
      rw room (
        added-IsReturned next sum (record f { bytes = store_int f.num n f.bytes }) ptr low
          (refl, length-store_int f.num n f.bytes ∙ inside.1, inside.2) h)

  scan_bytes-IsReturned :
      (garbage left sum : ℕ) (f : Fields) (ptr : List ℕ)
      → f.num ≤ len
      → len < f.num + left
      → IsInside f.num f ptr
      → IsReturned (scan_bytes sscanf garbage len left sum f ptr)
  unfolding scan_bytes check_sum
  scan_bytes-IsReturned garbage zero sum f ptr low enough inside = absurd (omega arith)
  scan_bytes-IsReturned garbage (suc left) sum f ptr low enough inside =
      elim (Bool-cases (f.num == len)) [
        | inl e ↦ rw e (scanned-IsReturned (sscanf 2 ptr) tt f garbage _ λ cksum. tt)
        | inr e ↦
            let more : f.num < len = ground arith in
            rw e (
              stored-IsReturned (scan_bytes sscanf garbage len left) sum f ptr (sscanf 2 ptr) more
                inside
                λ sum g rest next.
                  scan_bytes-IsReturned garbage left sum g rest (omega (arith, next.0))
                    (omega (arith, next.0)) (refl, next.1, omega (arith, next.2, next.0)))
      ]

module _ (sscanf : Scanf) where
  -- A line of any characters, from which a length of at most 252 is read, is parsed or refused without an
  -- access out of bounds, whatever the conversions make of the rest of it.
  pub parse_hex_line-IsReturned :
      (garbage len : ℕ) (theline : List ℕ) (f : Fields)
      → sscanf 2 (drop 1 theline) ≡ Scan.matched len
      → len ≤ 252
      → length f.bytes ≡ 256
      → IsReturned (parse_hex_line sscanf garbage theline f)
  unfolding parse_hex_line
  parse_hex_line-IsReturned garbage len theline f e small size =
      refused-IsReturned (not (get_or theline 0 0 == colon)) start _ (
        refused-IsReturned (ltb (length theline) 11) start _
          (rw e (by_length (too_short (length theline) len) refl)))
    where
      start : Fields
      start = record f { num = 0 }

      from_address : ℕ → Fields
      from_address addr = record start { addr = addr }

      coded : ℕ → ℕ → Fields
      coded addr code = record (from_address addr) { code = code }

      scanning : ℕ → ℕ → Parsed
      scanning addr code =
          scan_bytes sscanf garbage len max_rounds (u8 len + u8 (addr / 256) + u8 addr + u8 code)
            (coded addr code) (drop 9 theline)

      header : Parsed
      header = scanned (sscanf 4 (drop 3 theline)) f.addr (Parsed.returned false start) λ addr.
          scanned (sscanf 2 (drop 7 theline)) f.code (Parsed.returned false (from_address addr))
            (scanning addr)

      long_enough : too_short (length theline) len ≡ false → 2 * len ≤ length (drop 9 theline)
      long_enough h =
          let long : 11 + len * 2 ≤ length theline = ground arith in
          omega (arith, length-drop 9 theline)

      by_length :
          (b : Bool)
          → too_short (length theline) len ≡ b
          → IsReturned (if b then Parsed.returned false start else header)
      by_length true h = tt
      by_length false h = scanned-IsReturned (sscanf 4 (drop 3 theline)) tt start f.addr _ λ addr.
          scanned-IsReturned (sscanf 2 (drop 7 theline)) tt (from_address addr) f.code
            (scanning addr)
            λ code.
              scan_bytes-IsReturned sscanf len small garbage max_rounds _ (coded addr code)
                (drop 9 theline) (omega arith) (omega arith)
                (refl, size, omega (arith, long_enough h))
