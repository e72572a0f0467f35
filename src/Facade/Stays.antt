-- ===== src/Facade/Stays.antt =====
-- The operations of the library leave the driver open that is open.
use smbusb.Prelude.{ℕ, ◌≡◌, refl, Option, none, some, List}
use smbusb.Facade.Device.{
  SmbDriver, SmbMsg, Name, Library, dispatch, smb_transfer, smb_read_byte, smb_read_word,
  smb_read_block, smb_write_block,
}

module _ {D : Type 0} (table : Name → SmbDriver D) where
  dispatch-s_drv :
      {A : Type 0} (value : A) (f : SmbDriver D → D → A × D) (drv : Option Name) (drivers : D)
      → (dispatch table value f (record { s_drv = drv; drivers = drivers })).1.s_drv ≡ drv
  unfolding dispatch
  dispatch-s_drv value f none drivers = refl
  dispatch-s_drv value f (some d) drivers = refl

  pub smb_transfer-s_drv :
      (msgs : List SmbMsg) (count : ℕ) (s : Library D)
      → (smb_transfer table msgs count s).1.s_drv ≡ s.s_drv
  unfolding smb_transfer
  smb_transfer-s_drv msgs count s =
      dispatch-s_drv _ (λ d. d.smb_transfer msgs count) s.s_drv s.drivers

  pub smb_read_byte-s_drv :
      (address command : ℕ) (s : Library D)
      → (smb_read_byte table address command s).1.s_drv ≡ s.s_drv
  unfolding smb_read_byte
  smb_read_byte-s_drv address command s =
      dispatch-s_drv _ (λ d. d.smb_read_byte address command) s.s_drv s.drivers

  pub smb_read_block-s_drv :
      (address command : ℕ) (s : Library D)
      → (smb_read_block table address command s).1.s_drv ≡ s.s_drv
  unfolding smb_read_block
  smb_read_block-s_drv address command s =
      dispatch-s_drv _ (λ d. d.smb_read_block address command) s.s_drv s.drivers

  pub smb_write_block-s_drv :
      (address command : ℕ) (bytes : List ℕ) (len : ℕ) (s : Library D)
      → (smb_write_block table address command bytes len s).1.s_drv ≡ s.s_drv
  unfolding smb_write_block
  smb_write_block-s_drv address command bytes len s =
      dispatch-s_drv _ (λ d. d.smb_write_block address command bytes len) s.s_drv s.drivers

  pub smb_read_word-s_drv :
      (address command : ℕ) (s : Library D)
      → (smb_read_word table address command s).1.s_drv ≡ s.s_drv
  unfolding smb_read_word
  smb_read_word-s_drv address command s =
      dispatch-s_drv _ (λ d. d.smb_read_word address command) s.s_drv s.drivers
