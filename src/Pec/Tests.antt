-- ===== src/Pec/Tests.antt =====
-- Tests of the packet error code.
use smbusb.Prelude.{ℕ, ◌≡◌, ◌≢◌, ◌↔◌, refl, List, [], ◌∷◌, ◌++◌, arith}
use smbusb.Pec.{pec_crc, pec_from}
use smbusb.Pec.Crc.{AreBytes, pec_from_changed, pec_from_residue}

-- The check value of CRC-8 with the polynomial x^8 + x^2 + x + 1 over "123456789".
check_value : pec_from 0 (b'1' ∷ b'2' ∷ b'3' ∷ b'4' ∷ b'5' ∷ b'6' ∷ b'7' ∷ b'8' ∷ b'9' ∷ []) ≡ 0xf4
unfolding pec_crc
check_value = refl

-- The address phase of a read of the command 0x0D from the device 0x16.
abbrev header : List ℕ
header = 0x16 ∷ 0x0D ∷ 0x17 ∷ []

header-AreBytes : AreBytes header
unfolding AreBytes
header-AreBytes = (omega arith, (omega arith, (omega arith, tt)))

word-AreBytes : AreBytes (0x12 ∷ [])
unfolding AreBytes
word-AreBytes = (omega arith, tt)

pec_from_changed_example :
    pec_from 0 (header ++ (0x34 ∷ 0x12 ∷ [])) ≢ pec_from 0 (header ++ (0x35 ∷ 0x12 ∷ []))
pec_from_changed_example =
    pec_from_changed 0 header 0x34 0x35 (0x12 ∷ []) (omega arith) header-AreBytes (omega arith)
      (omega arith) word-AreBytes (ground arith)

pec_from_residue_example : (pec_from 0 (header ++ (0x80 ∷ [])) ≡ 0) ↔ (0x80 ≡ pec_from 0 header)
pec_from_residue_example =
    pec_from_residue 0 header 0x80 (omega arith) header-AreBytes (omega arith)
