-- ===== src/Loader/Image.antt =====
-- The upload of an image that encodes records writes just these, between two resets.
use smbusb.Prelude.{
  ℕ, ◌^◌, ◌≤◌, ◌<◌, ◌≡◌, ◌∙◌, refl, sym, ap, false, List, [], ◌∷◌, ◌++◌, arith, length, drop,
  append-nil, ◌==◌, append_assoc,
}
use smbusb.Facade.Options.{tokens}
use smbusb.Pec.Crc.{AreBytes}
use smbusb.Loader.Upload.{until_zero}
use smbusb.Loader.Encode.{hex_byte, hex_word, hex_bytes, cksum_of, line_of}

-- A record of data: where its bytes go.
pub record Chunk : Type 0 where
  pub addr : ℕ
  pub bytes : List ℕ

pub record IsChunk (c : Chunk) : Type 0 where
  pub few : length c.bytes ≤ 252
  pub low : c.addr < 2 ^ 16
  pub all : AreBytes c.bytes

pub data AreChunks : List Chunk → Type 0 where
  no_chunks : AreChunks []
  more_chunks :
      {c : Chunk} {chunks : List Chunk} → IsChunk c → AreChunks chunks → AreChunks (c ∷ chunks)

-- The lines of an image, the last of which has code 1, and the image.
abbrev pub lines_of : List Chunk → List (List ℕ)
lines_of [] = line_of 1 0 [] ∷ []
lines_of (c ∷ chunks) = line_of 0 c.addr c.bytes ∷ lines_of chunks

abbrev pub image_of : List Chunk → List ℕ
image_of [] = line_of 1 0 [] ++ (10 ∷ [])
image_of (c ∷ chunks) = line_of 0 c.addr c.bytes ++ (10 ∷ image_of chunks)

-- Characters that are neither the end of a line nor that of the string.
abbrev IsText : List ℕ → Type 0
IsText [] = Unit {0}
IsText (c ∷ s) = (10 < c) × IsText s

IsText-append : (s t : List ℕ) → IsText s → IsText t → IsText (s ++ t)
IsText-append [] t h k = k
IsText-append (c ∷ s) t h k = (h.0, IsText-append s t h.1 k)

hex_byte-IsText : (n : ℕ) → IsText (hex_byte n)
hex_byte-IsText n = (ground arith, (ground arith, tt))

hex_word-IsText : (n : ℕ) → IsText (hex_word n)
hex_word-IsText n = (ground arith, (ground arith, (ground arith, (ground arith, tt))))

hex_bytes-IsText : (bytes : List ℕ) → IsText (hex_bytes bytes)
hex_bytes-IsText [] = tt
hex_bytes-IsText (b ∷ bytes) =
    IsText-append (hex_byte b) _ (hex_byte-IsText b) (hex_bytes-IsText bytes)

line_of-IsText : (code addr : ℕ) (bytes : List ℕ) → IsText (line_of code addr bytes)
line_of-IsText code addr bytes = (
  omega arith,
  IsText-append (hex_byte (length bytes)) from_addr (hex_byte-IsText (length bytes)) (
      IsText-append (hex_word addr) from_code (hex_word-IsText addr) (
        IsText-append (hex_byte code) from_bytes (hex_byte-IsText code) (
          IsText-append (hex_bytes bytes) cksum (hex_bytes-IsText bytes)
            (hex_byte-IsText (cksum_of code addr bytes))))),
)
  where
    cksum : List ℕ
    cksum = hex_byte (cksum_of code addr bytes)

    from_bytes : List ℕ
    from_bytes = hex_bytes bytes ++ cksum

    from_code : List ℕ
    from_code = hex_byte code ++ from_bytes

    from_addr : List ℕ
    from_addr = hex_word addr ++ from_code

until_zero-text :
    (line rest : List ℕ)
    → IsText line
    → until_zero (line ++ (10 ∷ rest)) ≡ line ++ (10 ∷ until_zero rest)
until_zero-text [] rest h = refl
until_zero-text (c ∷ line) rest h =
    let some_char : (c == 0) ≡ false = ground (arith, h.0) in
    rw some_char (ap (◌∷◌ c) (until_zero-text line rest h.1))

tokens-text :
    (c : ℕ) (current line rest : List ℕ)
    → IsText line
    → tokens 10 (c ∷ current) (line ++ (10 ∷ rest)) ≡ (c ∷ (current ++ line)) ∷ tokens 10 [] rest
unfolding tokens
tokens-text c current [] rest h = ap (λ xs. (c ∷ xs) ∷ tokens 10 [] rest) (sym (append-nil current))
tokens-text c current (d ∷ line) rest h =
    let in_line : (d == 10) ≡ false = ground (arith, h.0) in
    rw in_line (
      tokens-text c (current ++ (d ∷ [])) line rest h.1
      ∙ ap (λ xs. (c ∷ xs) ∷ tokens 10 [] rest) (append_assoc current (d ∷ []) line))

-- The image has no zeros, and its tokens are its lines.
pub until_zero-image_of : (chunks : List Chunk) → until_zero (image_of chunks) ≡ image_of chunks
until_zero-image_of [] = until_zero-text (line_of 1 0 []) [] (line_of-IsText 1 0 [])
until_zero-image_of (c ∷ chunks) =
    until_zero-text (line_of 0 c.addr c.bytes) (image_of chunks) (line_of-IsText 0 c.addr c.bytes)
    ∙ ap (λ s. line_of 0 c.addr c.bytes ++ (10 ∷ s)) (until_zero-image_of chunks)

tokens-line :
    (code addr : ℕ) (bytes rest : List ℕ)
    → tokens 10 [] (line_of code addr bytes ++ (10 ∷ rest))
      ≡ line_of code addr bytes ∷ tokens 10 [] rest
unfolding tokens
tokens-line code addr bytes rest =
    tokens-text 58 [] (drop 1 (line_of code addr bytes)) rest (line_of-IsText code addr bytes).1

pub tokens-image_of : (chunks : List Chunk) → tokens 10 [] (image_of chunks) ≡ lines_of chunks
unfolding tokens
tokens-image_of [] = tokens-line 1 0 [] []
tokens-image_of (c ∷ chunks) =
    tokens-line 0 c.addr c.bytes (image_of chunks)
    ∙ ap (◌∷◌ (line_of 0 c.addr c.bytes)) (tokens-image_of chunks)
