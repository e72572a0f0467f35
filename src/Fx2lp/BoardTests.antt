-- ===== src/Fx2lp/BoardTests.antt =====
-- A board without firmware, and how it is opened.
use smbusb.Prelude.{ℕ, Bool, false, ◌&&◌, none, some, List, [], ◌∷◌, ◌==◌, cond, ℤ}
use smbusb.Fx2lp.State.{Libusb, Call}

abbrev is_release : List ℕ → Bool
is_release [] = false
is_release (b ∷ bytes) = b == 0

-- The firmware runs after CPUCS was set to 0.
abbrev runs : List Call → Bool
runs [] = false
runs (Call.control t ∷ calls) =
    let before = runs calls in
    cond (t.request == 0xA0) ((t.value == 0xE600) && is_release t.sent) before
runs (c ∷ calls) = runs calls

abbrev status_of : List Call → Call → ℤ
status_of calls (Call.control t) =
    cond t.inward (cond (runs calls) (ℤ.pos 3) (ℤ.negsuc 8)) (ℤ.pos t.wanted)
status_of calls c = ℤ.pos 0

abbrev data_of : Call → List ℕ
data_of (Call.control t) = cond (t.request == 0x99) (0x55 ∷ 0x53 ∷ 0x4D ∷ []) (1 ∷ 0 ∷ 2 ∷ [])
data_of c = []

abbrev board : Libusb
board = record {
  status = status_of;
  data_in = λ calls c. data_of c;
  opened = λ calls c. some 7;
  listed = λ calls. none;
}
