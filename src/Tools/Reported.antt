-- ===== src/Tools/Reported.antt =====
-- What the report of a battery says: of its date, and of data that could not be read.
use smbusb.Prelude.{ℕ, ◌+◌, ◌*◌, ◌/◌, ◌%◌, ◌<◌, ◌^◌, ◌≡◌, refl, false, [], ◌∷◌, arith, ltb, ℤ}
use smbusb.Facade.Device.{SmbDriver, Name, Library, smb_read_block}
use smbusb.Fx2lp.Transfers.{wrapped}
use smbusb.Tools.State.{◌>>=◌}
use smbusb.Tools.SbsReport.{
  cell, date, date_line, battery_address, lenovo_data_size, manufacturer_data,
}

-- A date as the Smart Battery specification packs it, from the years since 1980.
unfoldable pub packed_date : ℕ → ℕ → ℕ → ℕ
packed_date years month day = day + month * 32 + years * 512

-- A date that is packed as the Smart Battery specification says, with a year from 1980 to 2107, is
-- printed with its year, month and day.
pub date_line-packed_date :
    (command years month day : ℕ)
    → years < 128
    → month < 16
    → day < 32
    → date_line command (packed_date years month day) ≡ date command (1980 + years) month day
unfolding packed_date
date_line-packed_date command years month day small_years small_month small_day =
    rw (year_is, month_is, day_is) refl
  where
    word : ℕ
    word = day + month * 32 + years * 512

    year_is : word / 512 ≡ years
    year_is = omega arith

    month_is : word / 32 % 16 ≡ month
    month_is = omega arith

    day_is : word % 32 ≡ day
    day_is = omega arith

-- Where `SMBReadBlock` fails with a negative number, an `int`, and writes nothing, the report has
-- the four voltages of a battery, each of 0 mV, as if the read had succeeded.
pub manufacturer_data-failed :
    {D : Type 0} (table : Name → SmbDriver D) (s : Library D) (n : ℕ)
    → n < 2 ^ 31
    → (smb_read_block table battery_address 0x23 s).0 ≡ (ℤ.negsuc n, [])
    → (manufacturer_data table s).0 ≡ cell 0 0 ∷ cell 1 0 ∷ cell 2 0 ∷ cell 3 0 ∷ []
unfolding manufacturer_data ◌>>=◌
manufacturer_data-failed table s n small e = rw (e, is_large) refl
  where
    is_large : ltb (wrapped 64 (ℤ.negsuc n)) lenovo_data_size ≡ false
    is_large = ground arith
