-- ===== src/Tools/Chips.antt =====
-- A chip that does what the documentation of the flashed ones says, as a driver.
use smbusb.Prelude.{
  ℕ, ◌+◌, ◌*◌, ◌^◌, ◌≡◌, refl, Option, none, some, List, [], ◌∷◌, drop, arith, get_or, ltb, leb,
  ◌==◌, ◌&&◌, cond, ℤ,
}
use smbusb.Facade.Device.{
  SmbDriver, SmbMsg, Name, Library, dispatch, smb_transfer, smb_read_byte, smb_read_word,
  smb_read_block, smb_write_block,
}
use smbusb.Tools.Memory.{Memory, store, contents}

-- A memory, and the address from which a block read begins.
pub record Chip : Type 0 where
  pub memory : Memory
  pub pointer : ℕ

abbrev pub ram_address : List ℕ → ℕ
ram_address buf = get_or buf 1 0 + 2 ^ 8 * get_or buf 2 0 + 2 ^ 16 * get_or buf 3 0

-- A message of data behind a header, or a header and a message to be read.
abbrev pub chip_transfer : List SmbMsg → Chip → (ℤ × List ℕ) × Chip
chip_transfer [] c = ((ℤ.pos 0, []), c)
chip_transfer (w ∷ []) c =
    ((ℤ.pos 1, []), record c { memory = store c.memory (ram_address w.buf) (drop 6 w.buf) })
chip_transfer (w ∷ r ∷ more) c = ((ℤ.pos 2, contents c.memory (ram_address w.buf) r.len), c)

abbrev pub low_high : List ℕ → ℕ
low_high bytes = get_or bytes 0 0 + 2 ^ 8 * get_or bytes 1 0

abbrev pub high_low : List ℕ → ℕ
high_low bytes = get_or bytes 1 0 + 2 ^ 8 * get_or bytes 0 0

abbrev pub flash_block : ℕ
flash_block = 0x800

abbrev pub clear : Memory → ℕ → Memory
clear memory a k = cond (leb a k && ltb k (a + flash_block)) 0xFF (memory k)

-- The commands of the M37512.
abbrev pub chip_write : ℕ → List ℕ → ℕ → Chip → ℤ × Chip
chip_write command bytes len c =
    cond (command == 0x20) (ℤ.pos len, record c { memory = clear c.memory (high_low bytes) })
      (cond (command == 0xFF) (ℤ.pos len, record c { pointer = low_high bytes })
        (cond (command == 0x40)
          (ℤ.pos len, record c { memory = store c.memory (low_high bytes) (drop 2 bytes) })
          (ℤ.negsuc 0, c)))

abbrev pub chip_driver : SmbDriver Chip
chip_driver = record {
  smb_open = λ ops d. (ℤ.pos 0, d);
  smb_close = λ d. d;
  smb_read_byte = λ a c d. (ℤ.pos 0, d);
  smb_send_byte = λ a c d. (ℤ.pos 0, d);
  smb_write_byte = λ a c b d. (ℤ.pos 0, d);
  smb_read_word = λ a c d. (ℤ.negsuc 0, d);
  smb_write_word = λ a c w d. (ℤ.pos 0, d);
  smb_read_block = λ a c d. ((ℤ.pos 16, contents d.memory d.pointer 16), d);
  smb_write_block = λ a c bytes len d. chip_write c bytes len d;
  smb_get_last_read_pec_fail = λ d. (0, d);
  smb_enable_pec = λ state d. d;
  smb_write = λ start restart stop bytes len d. (ℤ.pos 0, d);
  smb_read = λ len buf last d. ((ℤ.pos 0, buf), d);
  smb_transfer = λ msgs count d. chip_transfer msgs d;
  smb_get_arb_pec = λ d. (0, d);
  smb_test_address_ack = λ a d. (ℤ.pos 0, d);
  smb_test_command_ack = λ a c d. (ℤ.pos 0, d);
  smb_test_command_write = λ a c d. (ℤ.pos 0, d);
  smb_set_debug_log_func = λ f d. d;
}

abbrev pub chip_table : Name → SmbDriver Chip
chip_table name = chip_driver

abbrev pub memory_of : Library Chip → Memory
memory_of s = s.drivers.memory

-- A call that reaches the driver.
dispatch_open :
    {A : Type 0} (value : A) (f : SmbDriver Chip → Chip → A × Chip) (drv : Option Name)
    (drivers : Chip)
    → drv ≡ some Name.fx2lp
    → dispatch chip_table value f (record { s_drv = drv; drivers = drivers })
      ≡ ((f chip_driver drivers).0, record { s_drv = drv; drivers = (f chip_driver drivers).1 })
unfolding dispatch
dispatch_open value f none drivers e = absurd (ground arith)
dispatch_open value f (some d) drivers e = refl

pub transfer_open :
    (msgs : List SmbMsg) (count : ℕ) (s : Library Chip)
    → s.s_drv ≡ some Name.fx2lp
    → smb_transfer chip_table msgs count s ≡ (
      (chip_transfer msgs s.drivers).0,
      record { s_drv = s.s_drv; drivers = (chip_transfer msgs s.drivers).1 },
    )
unfolding smb_transfer
transfer_open msgs count s o =
    dispatch_open (ℤ.negsuc 0, []) (λ d. d.smb_transfer msgs count) s.s_drv s.drivers o

abbrev pub powered : Library Chip
powered = record { s_drv = some Name.fx2lp; drivers = record { memory = λ k. 0; pointer = 0 } }

pub read_byte_open :
    (command : ℕ) (s : Library Chip)
    → s.s_drv ≡ some Name.fx2lp
    → smb_read_byte chip_table 0x16 command s ≡ (ℤ.pos 0, s)
unfolding smb_read_byte
read_byte_open command s o =
    dispatch_open (ℤ.negsuc 0) (λ d. d.smb_read_byte 0x16 command) s.s_drv s.drivers o

pub read_word_open :
    (command : ℕ) (s : Library Chip)
    → s.s_drv ≡ some Name.fx2lp
    → smb_read_word chip_table 0x16 command s ≡ (ℤ.negsuc 0, s)
unfolding smb_read_word
read_word_open command s o =
    dispatch_open (ℤ.negsuc 0) (λ d. d.smb_read_word 0x16 command) s.s_drv s.drivers o

pub read_block_open :
    (s : Library Chip)
    → s.s_drv ≡ some Name.fx2lp
    → smb_read_block chip_table 0x16 0xFE s
      ≡ ((ℤ.pos 16, contents s.drivers.memory s.drivers.pointer 16), s)
unfolding smb_read_block
read_block_open s o =
    dispatch_open (ℤ.negsuc 0, []) (λ d. d.smb_read_block 0x16 0xFE) s.s_drv s.drivers o

pub write_block_open :
    (command : ℕ) (bytes : List ℕ) (len : ℕ) (s : Library Chip)
    → s.s_drv ≡ some Name.fx2lp
    → smb_write_block chip_table 0x16 command bytes len s ≡ (
      (chip_write command bytes len s.drivers).0,
      record { s_drv = s.s_drv; drivers = (chip_write command bytes len s.drivers).1 },
    )
unfolding smb_write_block
write_block_open command bytes len s o =
    dispatch_open (ℤ.negsuc 0) (λ d. d.smb_write_block 0x16 command bytes len) s.s_drv s.drivers o
