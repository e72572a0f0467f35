-- ===== src/Loader/Tests.antt =====
-- Lines and images that the loader reads.
use smbusb.Prelude.{
  take, ℕ, ◌+◌, ◌-◌, ◌*◌, ◌<◌, ◌≡◌, refl, true, none, some, List, [], ◌∷◌, replicate, arith, ltb,
  ◌==◌, cond, if◌then◌else◌, ℤ,
}
use smbusb.Pec.Crc.{AreBytes}
use smbusb.Fx2lp.State.{Libusb, Driver, Call}
use smbusb.Loader.Hex.{Scan, Scanf, Fields, Parsed, parse_hex_line}
use smbusb.Loader.Bounds.{IsReturned, parse_hex_line-IsReturned}
use smbusb.Loader.Upload.{cypress_upload_ihx_firmware}
use smbusb.Loader.Encode.{digit, line_of}
use smbusb.Loader.Parse.{IsScanf, parse_hex_line-line_of}
use smbusb.Loader.Image.{Chunk, AreChunks, image_of}
use smbusb.Loader.Sent.{IsTaking, ram_transfer, with_chunks, cypress_upload_ihx_firmware-image_of}

-- The conversions, of capital digits.
abbrev digit_value : ℕ → ℕ
digit_value c = if ltb c 58 then c - 48 else c - 55

abbrev two_digits : List ℕ → Scan
two_digits [] = Scan.input_end
two_digits (a ∷ []) = Scan.matched (digit_value a)
two_digits (a ∷ b ∷ s) = Scan.matched (digit_value a * 16 + digit_value b)

abbrev four_digits : List ℕ → Scan
four_digits (a ∷ b ∷ c ∷ d ∷ s) =
    Scan.matched (digit_value a * 4096 + digit_value b * 256 + digit_value c * 16 + digit_value d)
four_digits s = Scan.input_end

abbrev pub scan_digits : Scanf
scan_digits width s = cond (width == 2) (two_digits s) (four_digits s)

digit_value-digit : (d : ℕ) → d < 16 → digit_value (digit d) ≡ d
digit_value-digit d h = ground (arith, h)

pub scan_digits-IsScanf : IsScanf scan_digits
scan_digits-IsScanf = record {
  two = λ a b rest ha hb. rw (digit_value-digit a ha, digit_value-digit b hb) refl;
  four = λ a b c d rest ha hb hc hd.
      rw
        (
          digit_value-digit a ha,
          digit_value-digit b hb,
          digit_value-digit c hc,
          digit_value-digit d hd,
        )
        refl;
}

abbrev pub blank : Fields
blank = record { bytes = replicate 256 0; addr = 0; num = 0; code = 9 }

abbrev two_bytes : List ℕ
two_bytes = 0xAB ∷ 0x0F ∷ []

two_bytes-AreBytes : AreBytes two_bytes
unfolding AreBytes
two_bytes-AreBytes = (omega arith, (omega arith, tt))

-- ":02123400AB0FFE"
line :
    line_of 0 0x1234 two_bytes
    ≡ 58 ∷ 48 ∷ 50 ∷ 49 ∷ 50 ∷ 51 ∷ 52 ∷ 48 ∷ 48 ∷ 65 ∷ 66 ∷ 48 ∷ 70 ∷ 70 ∷ 69 ∷ []
line = refl

parse_hex_line-line_of_example :
    (got : List ℕ) × (parse_hex_line scan_digits 5 (line_of 0 0x1234 two_bytes) blank
      ≡ Parsed.returned true (record { bytes = got; addr = 0x1234; num = 2; code = 0 }))
    × (take 2 got ≡ two_bytes)
parse_hex_line-line_of_example =
    parse_hex_line-line_of scan_digits scan_digits-IsScanf 5 0 0x1234 two_bytes blank (omega arith)
      two_bytes-AreBytes (omega arith) (omega arith) refl

abbrev pub image : List Chunk
image = record { addr = 0x1234; bytes = two_bytes } ∷ record { addr = 0xE000; bytes = 7 ∷ [] } ∷ []

pub image-AreChunks : AreChunks image
unfolding AreBytes
image-AreChunks =
    AreChunks.more_chunks
      (record { few = omega arith; low = omega arith; all = two_bytes-AreBytes })
      (AreChunks.more_chunks
        (record { few = omega arith; low = omega arith; all = (omega arith, tt) })
        AreChunks.no_chunks)

abbrev status_of : Call → ℤ
status_of (Call.control t) = ℤ.pos t.wanted
status_of c = ℤ.pos 0

abbrev board : Libusb
board = record {
  status = λ calls c. status_of c;
  data_in = λ calls c. [];
  opened = λ calls c. none;
  listed = λ calls. none;
}

board-IsTaking : IsTaking board
board-IsTaking = record { all = λ calls t out. refl }

abbrev ready : Driver
ready = record { device = some 1; calls = [] }

cypress_upload_ihx_firmware-image_of_example :
    cypress_upload_ihx_firmware scan_digits board 5 blank (image_of image) ready ≡ (
      some (ℤ.pos 1),
      record ready {
        calls =
            ram_transfer 0xE600 (0 ∷ []) ∷ with_chunks image (ram_transfer 0xE600 (1 ∷ []) ∷ []);
      },
    )
cypress_upload_ihx_firmware-image_of_example =
    cypress_upload_ihx_firmware-image_of board board-IsTaking scan_digits scan_digits-IsScanf 5
      image blank ready image-AreChunks refl (ground arith)

-- ":02ZZ3400AB0FFE", which is refused.
abbrev odd_line : List ℕ
odd_line = 58 ∷ 48 ∷ 50 ∷ 90 ∷ 90 ∷ 51 ∷ 52 ∷ 48 ∷ 48 ∷ 65 ∷ 66 ∷ 48 ∷ 70 ∷ 70 ∷ 69 ∷ []

parse_hex_line-IsReturned_example : IsReturned (parse_hex_line scan_digits 5 odd_line blank)
parse_hex_line-IsReturned_example =
    parse_hex_line-IsReturned scan_digits 5 2 odd_line blank refl (omega arith) refl
