-- ===== src/Tools/SbsReport.antt =====
-- tools/smbusb_sbsreport.c, behind its options: the lines that it prints, by the SBS command that
-- each is about, with the numbers and characters that `printf` formats.
use smbusb.Prelude.{
  ℕ, ◌+◌, ◌-◌, ◌*◌, ◌/◌, ◌%◌, ◌^◌, List, [], ◌∷◌, ◌++◌, take, get_or, overlay, replicate, ltb, ◌==◌,
  cond, ℤ, minus, below,
}
use smbusb.Facade.Device.{
  SmbDriver, Name, Library, smb_open_device, smb_enable_pec, smb_read_block, smb_read_word,
}
use smbusb.Fx2lp.Transfers.{wrapped}
use smbusb.Tools.State.{M, pure, run, ◌>>=◌, ◌>>◌}

-- A line of the report.
pub data Line : Type 0 where
  version : ℕ → ℕ → ℕ → Line
  open_failed : ℤ → Line
  text : ℕ → List ℕ → Line
  unsigned hexadecimal : ℕ → ℕ → Line
  signed kelvin : ℕ → ℤ → Line
  date : ℕ → ℕ → ℕ → ℕ → Line
  dump : List ℕ → Line
  cell : ℕ → ℕ → Line

-- A string up to its NUL.
abbrev pub string_of : List ℕ → List ℕ
string_of [] = []
string_of (c ∷ s) = cond (c == 0) [] (c ∷ string_of s)

-- "ERROR"
abbrev pub error_text : List ℕ
error_text = 69 ∷ 82 ∷ 82 ∷ 79 ∷ 82 ∷ []

-- `(int16_t)`
abbrev pub int16_of : ℤ → ℤ
int16_of z =
    cond (ltb (wrapped 16 z) (2 ^ 15)) (ℤ.pos (wrapped 16 z)) (minus (2 ^ 16 - wrapped 16 z))

-- `1980+(tempWord>>9)`, `tempWord>>5&0xF` and `tempWord&0x1F`.
abbrev pub date_line : ℕ → ℕ → Line
date_line command word = date command (1980 + word / 512) (word / 32 % 16) (word % 32)

-- How a word is printed.
pub data Format : Type 0 where
  as_text as_unsigned as_hexadecimal as_int as_int16 as_kelvin as_date : Format

-- `sizeof(lenovo_data_t)`
abbrev pub lenovo_data_size : ℕ
lenovo_data_size = 14

-- `lenovo_data->cell_voltage[j]`
abbrev pub cell_voltage : List ℕ → ℕ → ℕ
cell_voltage block j = get_or block (4 + 2 * j) 0 + 256 * get_or block (5 + 2 * j) 0

-- What is printed of the manufacturer data: `size` is compared as a `size_t`.
abbrev pub manufacturer_lines : ℤ → List ℕ → List Line
manufacturer_lines size block =
    cond (ltb (wrapped 64 size) lenovo_data_size) (dump (take (wrapped 64 size) block) ∷ []) (
      cell 0 (cell_voltage block 3)
      ∷ cell 1 (cell_voltage block 2)
      ∷ cell 2 (cell_voltage block 1)
      ∷ cell 3 (cell_voltage block 0)
      ∷ [])

abbrev pub battery_address : ℕ
battery_address = 0x16

-- A command, and how its answer is printed.
pub record Item : Type 0 where
  pub command : ℕ
  pub format : Format

abbrev item : ℕ → Format → Item
item command format = record { command = command; format = format }

-- The lines from the manufacturer's name to the cycle count.
abbrev pub items : List Item
items =
    item 0x20 as_text
    ∷ item 0x21 as_text
    ∷ item 0x22 as_text
    ∷ item 0x1C as_unsigned
    ∷ item 0x1B as_date
    ∷ item 0x00 as_hexadecimal
    ∷ item 0x01 as_unsigned
    ∷ item 0x02 as_unsigned
    ∷ item 0x03 as_hexadecimal
    ∷ item 0x04 as_int
    ∷ item 0x05 as_unsigned
    ∷ item 0x06 as_unsigned
    ∷ item 0x07 as_unsigned
    ∷ item 0x08 as_kelvin
    ∷ item 0x09 as_unsigned
    ∷ item 0x0A as_int16
    ∷ item 0x0B as_int16
    ∷ item 0x0C as_unsigned
    ∷ item 0x0D as_unsigned
    ∷ item 0x0E as_unsigned
    ∷ item 0x0F as_unsigned
    ∷ item 0x10 as_unsigned
    ∷ item 0x11 as_unsigned
    ∷ item 0x12 as_unsigned
    ∷ item 0x13 as_unsigned
    ∷ item 0x14 as_unsigned
    ∷ item 0x15 as_unsigned
    ∷ item 0x17 as_unsigned
    ∷ []

-- The line for a word. The temperature is computed from it in floating point.
abbrev pub word_line : Format → ℕ → ℤ → Line
word_line as_text command z = text command []
word_line as_unsigned command z = unsigned command (wrapped 32 z)
word_line as_hexadecimal command z = hexadecimal command (wrapped 32 z)
word_line as_int command z = signed command z
word_line as_int16 command z = signed command (int16_of z)
word_line as_kelvin command z = kelvin command z
word_line as_date command z = date_line command (wrapped 32 z)

module _ {D : Type 0} (table : Name → SmbDriver D) where
  -- `memset(tempStr,0,256); if (SMBReadBlock(0x16,command,tempStr) <=0) strcpy(tempStr,"ERROR");`
  unfoldable pub text_line : ℕ → M (Library D) Line
  text_line command = do
    r ← smb_read_block table battery_address command
    pure (text command (cond (below r.0 1) error_text (string_of (overlay r.1 (replicate 256 0)))))

  unfoldable pub number_line : Format → ℕ → M (Library D) Line
  number_line format command = do
    z ← smb_read_word table battery_address command
    pure (word_line format command z)

  unfoldable pub item_line : Format → ℕ → M (Library D) Line
  item_line as_text command = text_line command
  item_line format command = number_line format command

  unfoldable pub item_lines : List Item → M (Library D) (List Line)
  item_lines [] = pure []
  item_lines (i ∷ more) = do
    line ← item_line i.format i.command
    lines ← item_lines more
    pure (line ∷ lines)

  unfoldable pub manufacturer_data : M (Library D) (List Line)
  manufacturer_data = do
    r ← smb_read_block table battery_address 0x23
    pure (manufacturer_lines r.0 (overlay r.1 (replicate 256 0)))

  -- What follows the opening of the device.
  unfoldable pub report_battery : M (Library D) (List Line)
  report_battery = do
    run (smb_enable_pec table 1)
    lines ← item_lines items
    last ← manufacturer_data
    pure (lines ++ last)

  -- The version of the firmware, a byte each.
  abbrev pub version_line : ℕ → Line
  version_line status = version (status % 256) (status / 256 % 256) (status / 65536 % 256)

  unfoldable pub report_opened : ℤ → M (Library D) (List Line)
  report_opened (ℤ.negsuc n) = pure (open_failed (ℤ.negsuc n) ∷ [])
  report_opened (ℤ.pos n) = do lines ← report_battery; pure (version_line n ∷ lines)

  -- `main`, behind the options.
  unfoldable pub sbsreport_main : List ℕ → M (Library D) (List Line)
  sbsreport_main device_uri = do status ← smb_open_device table device_uri; report_opened status
