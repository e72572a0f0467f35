-- ===== src/Loader/Parse.antt =====
-- A line that encodes a record is parsed to that record.
use smbusb.Prelude.{
  ℕ, zero, suc, ◌+◌, ◌*◌, ◌/◌, ◌%◌, ◌^◌, ◌≤◌, ◌<◌, ◌≡◌, ◌∙◌, refl, sym, ap, true, false, List, [],
  ◌∷◌, ◌++◌, arith, length, take, drop, get_or, u8, ltb, leb, ◌==◌, append_assoc, append-nil,
  length-append, length-overlay, take-append-drop,
}
use smbusb.Pec.Crc.{AreBytes}
use smbusb.Loader.Hex.{
  Scan, Scanf, Fields, Parsed, int_bytes, store_int, check_sum, added, stored, scan_bytes,
  parse_hex_line, max_rounds, too_short,
}
use smbusb.Loader.Encode.{digit, hex_byte, hex_word, hex_bytes, sum_of, cksum_of, line_of}

-- What C says of `sscanf` with "%02x" and "%04x" on that many hexadecimal digits.
pub record IsScanf (sscanf : Scanf) : Type 0 where
  pub two :
      (a b : ℕ) (rest : List ℕ)
      → a < 16
      → b < 16
      → sscanf 2 (digit a ∷ digit b ∷ rest) ≡ Scan.matched (a * 16 + b)
  pub four :
      (a b c d : ℕ) (rest : List ℕ)
      → a < 16
      → b < 16
      → c < 16
      → d < 16
      → sscanf 4 (digit a ∷ digit b ∷ digit c ∷ digit d ∷ rest)
        ≡ Scan.matched (a * 4096 + b * 256 + c * 16 + d)

pub length-store_int : (num n : ℕ) (bytes : List ℕ) → length (store_int num n bytes) ≡ length bytes
length-store_int num n bytes =
    length-append (take num bytes) _
    ∙ ap (◌+◌ (length (take num bytes))) (length-overlay (int_bytes n) (drop num bytes))
    ∙ sym (length-append (take num bytes) (drop num bytes))
    ∙ ap length (take-append-drop num bytes)

-- What `bytes` holds after bytes were stored from `num` on.
abbrev pub stored_bytes : ℕ → List ℕ → List ℕ → List ℕ
stored_bytes num [] bytes = bytes
stored_bytes num (b ∷ bs) bytes = stored_bytes (num + 1) bs (store_int num b bytes)

-- The byte that was stored, behind the bytes before it.
store_int-split :
    (num n : ℕ) (bytes : List ℕ)
    → num < length bytes
    → take (num + 1) (store_int num n bytes) ≡ take num bytes ++ (u8 n ∷ [])
store_int-split zero n [] h = absurd (omega arith)
store_int-split zero n (b ∷ bytes) h = refl
store_int-split (suc num) n [] h = absurd (omega arith)
store_int-split (suc num) n (b ∷ bytes) h =
    let next : suc num + 1 ≡ suc (num + 1) = omega arith in
    rw next (ap (◌∷◌ b) (store_int-split num n bytes (omega arith)))

get_or-store_int :
    (num n : ℕ) (bytes : List ℕ) → num < length bytes → get_or (store_int num n bytes) num 0 ≡ u8 n
get_or-store_int zero n [] h = absurd (omega arith)
get_or-store_int zero n (b ∷ bytes) h = refl
get_or-store_int (suc num) n [] h = absurd (omega arith)
get_or-store_int (suc num) n (b ∷ bytes) h = get_or-store_int num n bytes (omega arith)

pub stored_bytes_lem :
    (num : ℕ) (new bytes : List ℕ)
    → num + length new ≤ length bytes
    → AreBytes new
    → take (num + length new) (stored_bytes num new bytes) ≡ take num bytes ++ new
unfolding AreBytes
stored_bytes_lem num [] bytes h all =
    let none_new : num + 0 ≡ num = omega arith in
    ap (λ n. take n bytes) none_new ∙ sym (append-nil (take num bytes))
stored_bytes_lem num (b ∷ new) bytes h all =
    let next : num + suc (length new) ≡ (num + 1) + length new = omega arith in
    let byte : u8 b ≡ b = omega arith in
    ap (λ n. take n (stored_bytes (num + 1) new (store_int num b bytes))) next
    ∙ stored_bytes_lem (num + 1) new (store_int num b bytes)
        (omega (arith, length-store_int num b bytes)) all.1
    ∙ ap (λ xs. xs ++ new)
        (store_int-split num b bytes (omega arith) ∙ ap (λ c. take num bytes ++ (c ∷ [])) byte)
    ∙ append_assoc (take num bytes) (b ∷ []) new

pub length-hex_bytes : (bytes : List ℕ) → length (hex_bytes bytes) ≡ 2 * length bytes
length-hex_bytes [] = refl
length-hex_bytes (b ∷ bytes) = omega (arith, length-hex_bytes bytes)

module _ (sscanf : Scanf) (scans : IsScanf sscanf) where
  scan_byte : (n : ℕ) (rest : List ℕ) → n < 256 → sscanf 2 (hex_byte n ++ rest) ≡ Scan.matched n
  scan_byte n rest h =
      scans.two (n / 16) (n % 16) rest (omega arith) (omega arith) ∙ ap Scan.matched (omega arith)

  scan_word : (n : ℕ) (rest : List ℕ) → n < 2 ^ 16 → sscanf 4 (hex_word n ++ rest) ≡ Scan.matched n
  scan_word n rest h =
      scans.four (n / 4096) (n / 256 % 16) (n / 16 % 16) (n % 16) rest (omega arith) (omega arith)
        (omega arith) (omega arith)
      ∙ ap Scan.matched (omega arith)

  scan_bytes_lem :
      (garbage len left sum : ℕ) (f : Fields) (bytes rest : List ℕ)
      → f.num + length bytes ≡ len
      → len ≤ 252
      → length bytes < left
      → length f.bytes ≡ 256
      → AreBytes bytes
      → scan_bytes sscanf garbage len left sum f (hex_bytes bytes ++ rest)
        ≡ check_sum sscanf garbage
            (sum + sum_of bytes)
            (record f { bytes = stored_bytes f.num bytes f.bytes; num = len })
            rest
  unfolding scan_bytes stored added AreBytes
  scan_bytes_lem garbage len zero sum f bytes rest e small enough size all = absurd (omega arith)
  scan_bytes_lem garbage len (suc left) sum f [] rest e small enough size all =
      let all_read : (f.num == len) ≡ true = ground arith in
      let here : f.num ≡ len = omega arith in
      rw all_read (
        ap (λ k. check_sum sscanf garbage k f rest) (omega arith)
        ∙ ap (λ n. check_sum sscanf garbage (sum + 0) (record f { num = n }) rest) here)
  scan_bytes_lem garbage len (suc left) sum f (b ∷ bytes) rest e small enough size all =
      let more : (f.num == len) ≡ false = ground arith in
      let room : ltb (length f.bytes) (f.num + 4) ≡ false = ground arith in
      let low : leb 256 (f.num + 1) ≡ false = ground arith in
      let byte : u8 (u8 b) ≡ b = omega arith in
      let same : u8 (get_or (store_int f.num b f.bytes) f.num 0) ≡ b =
        ap (λ k. u8 k) (get_or-store_int f.num b f.bytes (omega arith)) ∙ byte in
      rw (more, scan_byte b (hex_bytes bytes ++ rest) all.0, room, low, same)
        (scan_bytes_lem garbage len left (sum + b)
            (record f { bytes = store_int f.num b f.bytes; num = f.num + 1 }) bytes rest
            (omega arith) small (omega arith) (length-store_int f.num b f.bytes ∙ size) all.1
          ∙ ap
              (λ k.
                check_sum sscanf garbage k
                  (record f {
                    bytes = stored_bytes (f.num + 1) bytes (store_int f.num b f.bytes);
                    num = len;
                  })
                  rest)
              (omega arith))

  -- A line that encodes at most 252 bytes, by the state that it leaves.
  pub parse_hex_line_lem :
      (garbage code addr : ℕ) (bytes : List ℕ) (f : Fields)
      → length bytes ≤ 252
      → AreBytes bytes
      → code < 256
      → addr < 2 ^ 16
      → length f.bytes ≡ 256
      → parse_hex_line sscanf garbage (line_of code addr bytes) f
        ≡ Parsed.returned true (record {
          bytes = stored_bytes 0 bytes f.bytes;
          addr = addr;
          num = length bytes;
          code = code;
        })
  unfolding parse_hex_line check_sum
  parse_hex_line_lem garbage code addr bytes f few all c a size =
      rw
        (
          long_enough,
          scan_byte (length bytes) _ (omega arith),
          fits,
          scan_word addr _ a,
          scan_byte code _ c,
          scan_bytes_lem garbage (length bytes) max_rounds header
              (record { bytes = f.bytes; addr = addr; num = 0; code = code }) bytes (hex_byte cksum)
              (omega arith) few (omega arith) size all,
          scan_byte cksum [] (omega arith),
          balanced,
        )
        refl
    where
      cksum : ℕ
      cksum = cksum_of code addr bytes

      header : ℕ
      header = u8 (length bytes) + u8 (addr / 256) + u8 addr + u8 code

      size_of_line : length (hex_bytes bytes ++ hex_byte cksum) ≡ 2 * length bytes + 2
      size_of_line =
          omega (arith, length-append (hex_bytes bytes) (hex_byte cksum), length-hex_bytes bytes)

      long_enough : ltb (length (line_of code addr bytes)) 11 ≡ false
      long_enough = ground (arith, size_of_line)

      fits : too_short (length (line_of code addr bytes)) (length bytes) ≡ false
      fits = ground (arith, size_of_line)

      balanced : (u8 (u8 (header + sum_of bytes) + u8 cksum) == 0) ≡ true
      balanced = ground arith

  -- Where `sscanf` reads digits, the line of a record of at most 252 bytes is accepted, whatever the
  -- variables held before: the code, the address and the number of bytes are those of the record, and
  -- the array begins with its bytes, in order.
  pub parse_hex_line-line_of :
      (garbage code addr : ℕ) (bytes : List ℕ) (f : Fields)
      → length bytes ≤ 252
      → AreBytes bytes
      → code < 256
      → addr < 2 ^ 16
      → length f.bytes ≡ 256
      → (got : List ℕ) × (parse_hex_line sscanf garbage (line_of code addr bytes) f
          ≡ Parsed.returned true
              (record { bytes = got; addr = addr; num = length bytes; code = code }))
        × (take (length bytes) got ≡ bytes)
  parse_hex_line-line_of garbage code addr bytes f few all c a size =
      let from_zero : 0 + length bytes ≡ length bytes = omega arith in
      (
        stored_bytes 0 bytes f.bytes,
        parse_hex_line_lem garbage code addr bytes f few all c a size,
        ap (λ n. take n (stored_bytes 0 bytes f.bytes)) (sym from_zero)
            ∙ stored_bytes_lem 0 bytes f.bytes (omega arith) all,
      )
