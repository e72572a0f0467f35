-- ===== src/Facade/Tests.antt =====
-- Runs of lib/smbusb.c.
use smbusb.Prelude.{
  ℕ, ◌-◌, ◌≡◌, refl, false, ◌&&◌, none, some, List, [], ◌∷◌, arith, length, get_or, leb, ◌==◌, cond,
  ℤ, minus, below,
}
use smbusb.Facade.Options.{item_of, get_num_base, opt_dict_process, tokens}
use smbusb.Facade.Device.{
  SmbDriver, Name, Library, driver_of, smb_open_device, smb_close_device, open_named,
}
use smbusb.Facade.Laws.{IsCString, get_num_base_lem, smb_open_device-smb_close_device}

-- "a=b=c,d" is two options, and the value of the first one is "b=c".
options :
    opt_dict_process (b'a' ∷ 61 ∷ b'b' ∷ 61 ∷ b'c' ∷ 44 ∷ b'd' ∷ [])
    ≡ record { key = some (b'a' ∷ []); val = some (b'b' ∷ 61 ∷ b'c' ∷ []) }
      ∷ record { key = some (b'd' ∷ []); val = none }
      ∷ []
unfolding opt_dict_process tokens item_of
options = refl

-- "0x04b4"
abbrev hexadecimal : List ℕ
hexadecimal = b'0' ∷ b'x' ∷ b'0' ∷ b'4' ∷ b'b' ∷ b'4' ∷ []

hexadecimal-IsCString : IsCString hexadecimal
unfolding IsCString
hexadecimal-IsCString = (
  ground arith,
  (ground arith, (ground arith, (ground arith, (ground arith, (ground arith, tt))))),
)

get_num_base_example :
    get_num_base hexadecimal
    ≡ cond
        (leb 2 (length hexadecimal) && (get_or hexadecimal (length hexadecimal - 1) 0 == 104))
        16
        10
get_num_base_example = get_num_base_lem hexadecimal hexadecimal-IsCString

-- A driver that always opens, on a state that it does not use.
abbrev willing : SmbDriver ℕ
willing = record {
  smb_open = λ ops d. (ℤ.pos 0, d);
  smb_close = λ d. d;
  smb_read_byte = λ a c d. (ℤ.pos 0, d);
  smb_send_byte = λ a c d. (ℤ.pos 0, d);
  smb_write_byte = λ a c b d. (ℤ.pos 0, d);
  smb_read_word = λ a c d. (ℤ.pos 0, d);
  smb_write_word = λ a c w d. (ℤ.pos 0, d);
  smb_read_block = λ a c d. ((ℤ.pos 0, []), d);
  smb_write_block = λ a c bytes len d. (ℤ.pos 0, d);
  smb_get_last_read_pec_fail = λ d. (0, d);
  smb_enable_pec = λ state d. d;
  smb_write = λ start restart stop bytes len d. (ℤ.pos 0, d);
  smb_read = λ len buf last d. ((ℤ.pos 0, buf), d);
  smb_transfer = λ msgs count d. ((ℤ.pos 0, []), d);
  smb_get_arb_pec = λ d. (0, d);
  smb_test_address_ack = λ a d. (ℤ.pos 0, d);
  smb_test_command_ack = λ a c d. (ℤ.pos 0, d);
  smb_test_command_write = λ a c d. (ℤ.pos 0, d);
  smb_set_debug_log_func = λ f d. d;
}

abbrev table : Name → SmbDriver ℕ
table name = willing

abbrev closed : Library ℕ
closed = record { s_drv = none; drivers = 0 }

-- "i2c:///"
abbrev uri : List ℕ
uri = b'i' ∷ b'2' ∷ b'c' ∷ 58 ∷ 47 ∷ 47 ∷ 47 ∷ []

opens : below (smb_open_device table uri closed).0 0 ≡ false
unfolding smb_open_device open_named driver_of
opens = refl

smb_open_device-smb_close_device_example :
    let after = smb_close_device table (smb_open_device table uri closed).1 in
    smb_open_device table uri after ≡ (minus 1, after)
smb_open_device-smb_close_device_example =
    smb_open_device-smb_close_device table uri uri closed refl opens
