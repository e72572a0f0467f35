-- ===== src/Loader/Encode.antt =====
-- A specification of Intel HEX: the line of a record, with capital digits.
use smbusb.Prelude.{ℕ, ◌+◌, ◌-◌, ◌/◌, ◌%◌, List, [], ◌∷◌, ◌++◌, length, ltb, if◌then◌else◌}

abbrev pub digit : ℕ → ℕ
digit d = if ltb d 10 then 48 + d else 55 + d

abbrev pub hex_byte : ℕ → List ℕ
hex_byte n = digit (n / 16) ∷ digit (n % 16) ∷ []

abbrev pub hex_word : ℕ → List ℕ
hex_word n = digit (n / 4096) ∷ digit (n / 256 % 16) ∷ digit (n / 16 % 16) ∷ digit (n % 16) ∷ []

abbrev pub hex_bytes : List ℕ → List ℕ
hex_bytes [] = []
hex_bytes (b ∷ bytes) = hex_byte b ++ hex_bytes bytes

abbrev pub sum_of : List ℕ → ℕ
sum_of [] = 0
sum_of (b ∷ bytes) = b + sum_of bytes

-- All the bytes of the line but the checksum.
abbrev pub header_sum : ℕ → ℕ → List ℕ → ℕ
header_sum code addr bytes = length bytes + addr / 256 + addr % 256 + code

-- The checksum makes the sum of all bytes a multiple of 256.
abbrev pub cksum_of : ℕ → ℕ → List ℕ → ℕ
cksum_of code addr bytes = (256 - (header_sum code addr bytes + sum_of bytes) % 256) % 256

abbrev pub line_of : ℕ → ℕ → List ℕ → List ℕ
line_of code addr bytes =
    58 ∷ hex_byte (length bytes)
    ++ hex_word addr
    ++ hex_byte code
    ++ hex_bytes bytes
    ++ hex_byte (cksum_of code addr bytes)
