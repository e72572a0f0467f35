-- ===== src/Tools/Scan.antt =====
-- tools/smbusb_scan.c, without its messages.
use smbusb.Prelude.{
  ℕ, zero, suc, ◌+◌, ◌-◌, Option, none, some, List, [], ◌∷◌, ◌++◌, map, replicate, get_or, set, ltb,
  leb, ◌==◌, cond, ℤ, is, below,
}
use smbusb.Facade.Device.{
  SmbDriver, Name, Library, smb_open_device, smb_test_address_ack, smb_test_command_ack,
  smb_test_command_write,
}
use smbusb.Tools.State.{M, pure, ◌>>=◌}

pub data ScanMode : Type 0 where
  scan_address scan_command scan_command_write : ScanMode

-- The variables that the options set.
pub record Settings : Type 0 where
  pub skip_map : List ℕ
  pub address : ℕ
  pub scan_mode : Option ScanMode
  pub start : ℕ
  pub stop : ℕ
  pub device : List ℕ

-- An option as `getopt_long` gives it, with its argument.
pub data Choice : Type 0 where
  device command command_write skip begin finish : List ℕ → Choice
  address : Choice

abbrev pub comma : ℕ
comma = 44

-- `strsep(&optarg, ",")` until it is NULL: also what is empty is a token.
abbrev pub strsep_tokens : List ℕ → List ℕ → List (List ℕ)
strsep_tokens current [] = current ∷ []
strsep_tokens current (c ∷ s) =
    cond (c == comma) (current ∷ strsep_tokens [] s) (strsep_tokens (current ++ (c ∷ [])) s)

-- `skipMap[n] = 0xFF`; `none` is a write out of bounds.
abbrev pub mark_skipped : ℕ → List ℕ → Option (List ℕ)
mark_skipped n skip_map = cond (ltb n 256) (some (set skip_map n 0xFF)) none

abbrev pub mark_all : List ℕ → List ℕ → Option (List ℕ)
mark_all [] skip_map = some skip_map
mark_all (n ∷ ns) skip_map = elim (mark_skipped n skip_map) [
  | none ↦ none
  | some next ↦ mark_all ns next
]

-- What is found at an address or command; `writable` with the status, which says up to which size.
pub data Report : Type 0 where
  error : ℕ → ℤ → Report
  ack : ℕ → Report
  writable : ℕ → ℕ → Report

-- What is printed after `SMBTestAddressACK` and `SMBTestCommandACK`.
abbrev pub report_ack : ℕ → ℤ → List Report
report_ack i status =
    cond (below status 0) (error i status ∷ []) (cond (is status 0xFF) (ack i ∷ []) [])

-- What is printed after `SMBTestCommandWrite`.
abbrev pub report_write : ℕ → ℤ → List Report
report_write i (ℤ.negsuc n) = error i (ℤ.negsuc n) ∷ []
report_write i (ℤ.pos n) = cond (ltb 0 n) (writable i n ∷ []) []

-- The loops `for(i=start;i<=end;i++)`, with the rounds that are left; `none` is an access to the skip map
-- out of bounds.
module _ {S : Type 0} (probe : ℕ → M S ℤ) (report : ℕ → ℤ → List Report) (skip_map : List ℕ) where
  abbrev pub probed : ℕ → M S (List Report)
  probed i s = (report i (probe i s).0, (probe i s).1)

  abbrev pub and_more : List Report → Option (List Report) → Option (List Report)
  and_more found none = none
  and_more found (some more) = some (found ++ more)

  unfoldable pub scan_rounds : ℕ → ℕ → M S (Option (List Report))
  scan_rounds zero i = pure (some [])
  scan_rounds (suc left) i =
      let rest = scan_rounds left (i + 1) in
      cond (leb 256 i) (pure none) (
        cond (get_or skip_map i 0 == 0xFF) rest
          (do found ← probed i; more ← rest; pure (and_more found more)))

  unfoldable pub scan : ℕ → ℕ → M S (Option (List Report))
  scan start stop = scan_rounds (stop + 1 - start) start

-- The reserved addresses of the EEPROM of the FX2.
abbrev pub reserved : List ℕ → List ℕ
reserved skip_map = set (set skip_map 0xA0 0xFF) 0xA1 0xFF

-- The end of the program.
pub data Outcome : Type 0 where
  not_opened : ℤ → Outcome
  usage : Outcome
  reported : Option (List Report) → Outcome

-- Numbers of options are in base 16; a negative one is left out.
module _ (strtol : List ℕ → ℕ) where
  unfoldable pub set_choice : Choice → Settings → Option Settings
  set_choice (Choice.device uri) s = some (record s { device = uri })
  set_choice Choice.address s = some (record s { scan_mode = some ScanMode.scan_address })
  set_choice (Choice.command arg) s =
      some (record s { scan_mode = some ScanMode.scan_command; address = strtol arg })
  set_choice (Choice.command_write arg) s =
      some (record s { scan_mode = some ScanMode.scan_command_write; address = strtol arg })
  set_choice (Choice.skip arg) s = elim (mark_all (map strtol (strsep_tokens [] arg)) s.skip_map) [
    | none ↦ none
    | some skip_map ↦ some (record s { skip_map = skip_map })
  ]
  set_choice (Choice.begin arg) s = some (record s { start = strtol arg })
  set_choice (Choice.finish arg) s = some (record s { stop = strtol arg })

  unfoldable pub set_choices : List Choice → Settings → Option Settings
  set_choices [] s = some s
  set_choices (c ∷ cs) s = elim (set_choice c s) [ none ↦ none | some next ↦ set_choices cs next ]

module _ {D : Type 0} (table : Name → SmbDriver D) where
  unfoldable pub scan_addresses : Settings → M (Library D) (Option (List Report))
  scan_addresses s =
      scan (smb_test_address_ack table) report_ack (reserved s.skip_map) s.start s.stop

  unfoldable pub scan_commands : Settings → M (Library D) (Option (List Report))
  scan_commands s = scan (smb_test_command_ack table s.address) report_ack s.skip_map s.start s.stop

  unfoldable pub scan_writes : Settings → M (Library D) (Option (List Report))
  scan_writes s =
      scan (smb_test_command_write table s.address) report_write s.skip_map s.start s.stop

  abbrev pub scan_by : Option ScanMode → Settings → M (Library D) Outcome
  scan_by none s = pure Outcome.usage
  scan_by (some ScanMode.scan_address) s =
      scan_addresses s >>= λ found. pure (Outcome.reported found)
  scan_by (some ScanMode.scan_command) s =
      scan_commands s >>= λ found. pure (Outcome.reported found)
  scan_by (some ScanMode.scan_command_write) s =
      scan_writes s >>= λ found. pure (Outcome.reported found)

  -- `main`, behind the options.
  unfoldable pub scan_main : Settings → M (Library D) Outcome
  scan_main s = do
    status ← smb_open_device table s.device
    cond (below status 0) (pure (Outcome.not_opened status)) (scan_by s.scan_mode s)

-- The variables before the options; "fx2lp://vid=0x04b4,pid=0x8613".
abbrev pub default_uri : List ℕ
default_uri =
    b'f' ∷ b'x' ∷ b'2' ∷ b'l' ∷ b'p' ∷ 58 ∷ 47 ∷ 47 ∷ b'v' ∷ b'i' ∷ b'd' ∷ 61 ∷ b'0' ∷ b'x' ∷ b'0'
    ∷ b'4' ∷ b'b' ∷ b'4' ∷ comma ∷ b'p' ∷ b'i' ∷ b'd' ∷ 61 ∷ b'0' ∷ b'x' ∷ b'8' ∷ b'6' ∷ b'1' ∷ b'3'
    ∷ []

abbrev pub initial : Settings
initial = record {
  skip_map = replicate 256 0;
  address = 0;
  scan_mode = none;
  start = 0;
  stop = 0xFF;
  device = default_uri;
}
