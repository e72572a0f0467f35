-- ===== src/Tools/Tests.antt =====
-- Runs of the tools.
use smbusb.Prelude.{
  ℕ, ◌+◌, ◌-◌, ◌*◌, ◌/◌, ◌%◌, ◌^◌, ◌<◌, ◌≡◌, ◌≢◌, ◌⊎◌, refl, true, false, some, List, [], ◌∷◌,
  replicate, arith, get_or, leb, ◌&&◌, cond, ℤ,
}
use smbusb.Pec.Crc.{AreBytes}
use smbusb.Facade.Device.{smb_read_block, dispatch, SmbDriver, Name, Library, smb_test_address_ack}
use smbusb.Loader.Encode.{hex_bytes}
use smbusb.Tools.SbsReport.{Line, date_line, manufacturer_data}
use smbusb.Tools.Reported.{packed_date, date_line-packed_date, manufacturer_data-failed}
use smbusb.Tools.Scan.{Settings, ScanMode, report_ack, initial, scan_addresses}
use smbusb.Tools.Scanned.{filter, range, wanted, ask_each, scan_addresses-ask_each}
use smbusb.Tools.R2j240.{fix_lgc_static_checksum, checksum_rounds}
use smbusb.Tools.Checksum.{sum_words, fix_lgc_static_checksum_lem}
use smbusb.Tools.Comm
use smbusb.Tools.Comm.{Outcome, Operation, do_write}
use smbusb.Tools.Typed.{IsToLower, transaction, do_write-hex_bytes}
use smbusb.Tools.Bq8030.{Flashed, flash_eeprom}
use smbusb.Tools.Verified.{flash_eeprom-verify_failed}

-- A driver that counts its calls and acknowledges everything.
abbrev counting : SmbDriver ℕ
counting = record {
  smb_open = λ ops d. (ℤ.pos 0, d);
  smb_close = λ d. d;
  smb_read_byte = λ a c d. (ℤ.pos 0, d + 1);
  smb_send_byte = λ a c d. (ℤ.pos 0, d + 1);
  smb_write_byte = λ a c b d. (ℤ.pos 0, d + 1);
  smb_read_word = λ a c d. (ℤ.pos 0, d + 1);
  smb_write_word = λ a c w d. (ℤ.pos 0, d + 1);
  smb_read_block = λ a c d. ((ℤ.pos 0, []), d + 1);
  smb_write_block = λ a c bytes len d. (ℤ.pos len, d + 1);
  smb_get_last_read_pec_fail = λ d. (0, d);
  smb_enable_pec = λ state d. d;
  smb_write = λ start restart stop bytes len d. (ℤ.pos 0, d);
  smb_read = λ len buf last d. ((ℤ.pos 0, buf), d);
  smb_transfer = λ msgs count d. ((ℤ.pos 0, []), d);
  smb_get_arb_pec = λ d. (0, d);
  smb_test_address_ack = λ a d. (ℤ.pos 0xFF, d + 1);
  smb_test_command_ack = λ a c d. (ℤ.pos 0xFF, d + 1);
  smb_test_command_write = λ a c d. (ℤ.pos 3, d + 1);
  smb_set_debug_log_func = λ f d. d;
}

abbrev table : Name → SmbDriver ℕ
table name = counting

abbrev opened : Library ℕ
opened = record { s_drv = some Name.fx2lp; drivers = 0 }

-- Around the addresses of the EEPROM.
abbrev around : Settings
around = record initial { scan_mode = some ScanMode.scan_address; start = 0x9E; stop = 0xA3 }

asked :
    filter (wanted around.skip_map) (range around.start (around.stop + 1 - around.start))
    ≡ 0x9E ∷ 0x9F ∷ 0xA2 ∷ 0xA3 ∷ []
asked = refl

scan_addresses-ask_each_example : scan_addresses table around opened ≡ (
    let asked =
      ask_each
        (smb_test_address_ack table)
        report_ack
        (filter (wanted around.skip_map) (range around.start (around.stop + 1 - around.start)))
        opened in
    (some asked.0, asked.1))
scan_addresses-ask_each_example =
    scan_addresses-ask_each table around opened refl (omega arith) (omega arith)

abbrev words : List ℕ
words = 1 ∷ 2 ∷ 3 ∷ 4 ∷ 5 ∷ 6 ∷ 7 ∷ 8 ∷ 0 ∷ 0 ∷ 0 ∷ 0 ∷ 9 ∷ []

words-AreBytes : AreBytes words
unfolding AreBytes
words-AreBytes = ground arith

fixed :
    fix_lgc_static_checksum 12 words
    ≡ 1 ∷ 2 ∷ 3 ∷ 4 ∷ 5 ∷ 6 ∷ 7 ∷ 8 ∷ 250 ∷ 247 ∷ 245 ∷ 243 ∷ 9 ∷ []
unfolding fix_lgc_static_checksum checksum_rounds
fixed = refl

fix_lgc_static_checksum_example :
    (sum_words (fix_lgc_static_checksum 12 words) 0 (12 / 4) % 2 ^ 32 ≡ 0)
    × ((k : ℕ)
        → (k < 4 * (12 / 4 - 1)) ⊎ (4 * (12 / 4 - 1) + 3 < k)
        → get_or (fix_lgc_static_checksum 12 words) k 0 ≡ get_or words k 0)
fix_lgc_static_checksum_example =
    fix_lgc_static_checksum_lem 12 words (omega arith) (omega arith) words-AreBytes

-- Capital letters become small ones.
abbrev tolower : ℕ → ℕ
tolower c = cond (leb 65 c && leb c 90) (c + 32) c

tolower-IsToLower : IsToLower tolower
tolower-IsToLower = record { keeps = λ c h k. ground arith; lowers = λ c h k. ground arith }

abbrev three : List ℕ
three = 0x41 ∷ 0xEF ∷ 1 ∷ []

three-AreBytes : AreBytes three
unfolding AreBytes
three-AreBytes = ground arith

-- `smbusb_comm -a 0x16 -c F -w 41EF01`
abbrev typed : Comm.Settings
typed = record {
  op = Operation.write;
  op_address = 0x16;
  op_command = 0xF;
  op_read_len = 0;
  block = hex_bytes three;
  force_block_write = false;
  no_pec = false;
  device = [];
}

do_write-hex_bytes_example : do_write table tolower typed (ℤ.pos 0) opened ≡ (
    let sent = transaction tolower tolower-IsToLower table typed (ℤ.pos 0) three opened in
    (Outcome.finished sent.0 [], sent.1))
do_write-hex_bytes_example =
    do_write-hex_bytes tolower tolower-IsToLower table three typed (ℤ.pos 0) opened three-AreBytes
      (omega arith) (omega arith) refl

flash_eeprom-verify_failed_example :
    (flash_eeprom table true false (replicate 256 0) (some (replicate 2048 7)) opened).0
    ≢ Flashed.verify_failed 5
flash_eeprom-verify_failed_example =
    flash_eeprom-verify_failed table true false (replicate 256 0) (some (replicate 2048 7)) opened 5

date_line-packed_date_example : date_line 0x1B (packed_date 33 7 12) ≡ Line.date 0x1B 2013 7 12
date_line-packed_date_example =
    date_line-packed_date 0x1B 33 7 12 (omega arith) (omega arith) (omega arith)

-- A driver whose block reads fail.
abbrev stalling : Name → SmbDriver ℕ
stalling name = record counting { smb_read_block = λ a c d. ((ℤ.negsuc 8, []), d) }

manufacturer_data-failed_example :
    (manufacturer_data stalling opened).0
    ≡ Line.cell 0 0 ∷ Line.cell 1 0 ∷ Line.cell 2 0 ∷ Line.cell 3 0 ∷ []
unfolding smb_read_block dispatch
manufacturer_data-failed_example = manufacturer_data-failed stalling opened 8 (omega arith) refl
