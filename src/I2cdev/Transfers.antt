-- ===== src/I2cdev/Transfers.antt =====
-- The operations of lib/smbusb-i2cdev.c on the open device.
use smbusb.Prelude.{
  ℕ, ◌+◌, ◌*◌, ◌/◌, Bool, not, List, [], ◌∷◌, map, take, drop, replicate, overlay, get_or, u8, u16,
  bit_and, bit_or, ltb, ◌==◌, cond, ℤ, minus, below, is,
}
use smbusb.Facade.Device.{SmbMsg}
use smbusb.I2cdev.State.{I2cMsg, Size, Request, Kernel, Reply, M, pure, ◌>>=◌, ◌>>◌, modify, xioctl}

-- The flags of messages.
abbrev pub smb_m_rd : ℕ
smb_m_rd = 0x0001

abbrev pub smb_m_nostart : ℕ
smb_m_nostart = 0x4000

abbrev pub smb_m_stop : ℕ
smb_m_stop = 0x8000

-- The data of an access as a number, the low byte first.
abbrev word_of : List ℕ → ℕ
word_of bytes = u8 (get_or bytes 0 0) + 256 * u8 (get_or bytes 1 0)

module _ (kernel : Kernel) (fuel : ℕ) where
  -- `smbus_access`; 1 is I2C_SMBUS_READ, 0 I2C_SMBUS_WRITE.
  unfoldable pub smbus_access : ℕ → ℕ → Size → ℕ → M Reply
  smbus_access read_write command size value =
      xioctl kernel fuel (Request.i2c_smbus read_write command size value)

  unfoldable pub smbus_pec : Bool → M ℤ
  smbus_pec enable = do
    modify (λ s. cond s.sw_pec (record s { pec_enabled = enable }) s)
    r ← xioctl kernel fuel (Request.i2c_pec enable)
    pure (cond (is r.status 0) (ℤ.pos 0) (minus 1))

  unfoldable pub i2c_enable_pec : ℕ → M ℤ
  i2c_enable_pec state = smbus_pec (ltb 0 state)

  unfoldable pub smbus_address : ℕ → M ℤ
  smbus_address address = do
    r ← xioctl kernel fuel (Request.i2c_slave (u16 address / 2))
    pure r.status

  -- `if (ret < 0) return ret;` behind `smbus_address`
  unfoldable pub addressed : ℕ → M ℤ → M ℤ
  addressed address m = do ret ← smbus_address address; cond (below ret 0) (pure ret) m

  unfoldable pub i2c_read_byte : ℕ → ℕ → M ℤ
  i2c_read_byte address command = addressed address (do
    r ← smbus_access 1 command Size.byte_data 0
    pure (cond (below r.status 0) r.status (ℤ.pos (u8 (get_or r.bytes 0 0)))))

  unfoldable pub i2c_send_byte : ℕ → ℕ → M ℤ
  i2c_send_byte address command =
      addressed address (do r ← smbus_access 0 command Size.byte 0; pure r.status)

  unfoldable pub i2c_write_byte : ℕ → ℕ → ℕ → M ℤ
  i2c_write_byte address command byte =
      addressed address (do r ← smbus_access 0 command Size.byte_data (u8 byte); pure r.status)

  unfoldable pub i2c_read_word : ℕ → ℕ → M ℤ
  i2c_read_word address command = addressed address (do
    r ← smbus_access 1 command Size.word_data 0
    pure (cond (below r.status 0) r.status (ℤ.pos (word_of r.bytes))))

  unfoldable pub i2c_write_word : ℕ → ℕ → ℕ → M ℤ
  i2c_write_word address command word =
      addressed address (do r ← smbus_access 0 command Size.word_data (u16 word); pure r.status)

  -- `smbus_read_block_data_relax`: the command is written, and 65 bytes are read into a buffer of
  -- zeros; the result, and what is written to `values`.
  unfoldable pub read_block_data_relax : ℕ → ℕ → M (ℤ × List ℕ)
  read_block_data_relax address command = do
    r ← xioctl kernel fuel (
        Request.i2c_rdwr (
          record { addr = u8 address / 2; flags = 0; len = 1; buf = command ∷ [] }
          ∷ record { addr = u8 address / 2; flags = 1; len = 65; buf = [] }
          ∷ []))
    let buffer = overlay (take 65 r.bytes) (replicate 258 0)
    let size = get_or buffer 0 0
    pure (cond (below r.status 0) (minus 1, []) (ℤ.pos size, take size (drop 1 buffer)))

  -- `smbus_write_block_data_relax`
  unfoldable pub write_block_data_relax : ℕ → ℕ → List ℕ → ℕ → M ℤ
  write_block_data_relax address command values length = do
    r ← xioctl kernel fuel (
        Request.i2c_rdwr (
          record {
            addr = u8 address / 2;
            flags = 0;
            len = length + 2;
            buf = command ∷ length ∷ take length values;
          }
          ∷ []))
    pure (cond (below r.status 0) (minus 1) (ℤ.pos 0))

  -- `i2c_msgs[i].flags`
  abbrev flags_of : ℕ → ℕ
  flags_of flags = bit_or (cond (bit_and flags smb_m_rd == 0) 0 0x0001) (
      bit_or (cond (bit_and flags smb_m_nostart == 0) 0 0x4000)
        (cond (bit_and flags smb_m_stop == 0) 0 0x8000))

  abbrev message : SmbMsg → I2cMsg
  message m = record { addr = m.addr / 2; flags = flags_of m.flags; len = m.len; buf = m.buf }

  -- `I2CDEV_SMBTransfer` of the `count` first messages, where the memory suffices.
  unfoldable pub transfer : List SmbMsg → ℕ → M Reply
  transfer msgs count = xioctl kernel fuel (Request.i2c_rdwr (map message (take count msgs)))

  -- `if (ret) return ret;` behind `smbus_address`
  unfoldable pub i2c_test_address_ack : ℕ → M ℤ
  i2c_test_address_ack address = do
    ret ← smbus_address address
    cond (not (is ret 0)) (pure ret) (do r ← smbus_access 0 0 Size.quick 0; pure r.status)

  unfoldable pub i2c_test_command_ack : ℕ → ℕ → M ℤ
  i2c_test_command_ack address command = do
    ret ← smbus_address address
    cond (not (is ret 0)) (pure ret) (do r ← smbus_access 0 command Size.byte 0; pure r.status)

  -- The loop over `size_checks`, with the sizes that are left.
  unfoldable pub size_checks : ℕ → ℕ → List ℕ → ℕ → M ℕ
  size_checks address command [] result = pure result
  size_checks address command (size ∷ sizes) result = do
    r ← xioctl kernel fuel (
        Request.i2c_rdwr (
          record {
            addr = u16 (address / 2);
            flags = 0;
            len = size;
            buf = command ∷ 3 ∷ 0 ∷ 0 ∷ 0 ∷ 0 ∷ [];
          }
          ∷ []))
    cond (below r.status 0) (pure result) (size_checks address command sizes (result + 1))

  unfoldable pub i2c_test_command_write : ℕ → ℕ → M ℕ
  i2c_test_command_write address command = size_checks address command (1 ∷ 2 ∷ 3 ∷ 5 ∷ 6 ∷ []) 0
