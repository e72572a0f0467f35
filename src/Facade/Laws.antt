-- ===== src/Facade/Laws.antt =====
-- What the functions of lib/smbusb.c do with the driver, and with the base of a number.
use smbusb.Prelude.{
  ℕ, ◌-◌, ◌≡◌, ◌≢◌, refl, false, ◌&&◌, Option, none, some, List, [], ◌∷◌, arith, length, get_or,
  leb, ap, ◌∙◌, ◌==◌, cond, minus, below,
}
use smbusb.Facade.Options.{get_num_base}
use smbusb.Facade.Device.{
  SmbDriver, Name, Library, driver_of, smb_open_device, smb_close_device, open_named, open_unless,
  close_named,
}

-- No character of a string of C is zero.
unfoldable pub IsCString : List ℕ → Type 0
IsCString [] = Unit {0}
IsCString (c ∷ s) = (c ≢ 0) × IsCString s

-- The base of a number is 16 where it has two characters at least and ends in `h`, and 10 otherwise:
-- no prefix is ever recognised.
pub get_num_base_lem :
    (s : List ℕ)
    → IsCString s
    → get_num_base s ≡ cond (leb 2 (length s) && (get_or s (length s - 1) 0 == 104)) 16 10
unfolding get_num_base IsCString
get_num_base_lem [] h = refl
get_num_base_lem (c ∷ s) h = ground (arith, h.0)

module _ {D : Type 0} (table : Name → SmbDriver D) where
  smb_open_device-none :
      (uri : List ℕ) (s : Library D)
      → s.s_drv ≡ none
      → smb_open_device table uri s ≡ open_named table (driver_of uri) s
  unfolding smb_open_device
  smb_open_device-none uri s e = ap (λ o. open_unless table o uri s) e

  close_named_lem : (o : Option Name) (s : Library D) → (close_named table o s).s_drv ≡ s.s_drv
  close_named_lem none s = refl
  close_named_lem (some d) s = refl

  refused :
      (uri : List ℕ) (s : Library D) (d : Name)
      → s.s_drv ≡ some d
      → smb_open_device table uri s ≡ (minus 1, s)
  unfolding smb_open_device
  refused uri s d e = ap (λ o. open_unless table o uri s) e

  opened :
      (o : Option (Name × List ℕ)) (s : Library D)
      → below (open_named table o s).0 0 ≡ false
      → (d : Name) × ((open_named table o s).1.s_drv ≡ some d)
  unfolding open_named
  opened none s h = absurd (ground arith)
  opened (some named) s h = (named.0, rw h refl)

  -- A library that has opened a driver refuses every other URI, also after it was closed, and the
  -- refusal changes nothing.
  pub smb_open_device-smb_close_device :
      (uri other : List ℕ) (s : Library D)
      → s.s_drv ≡ none
      → below (smb_open_device table uri s).0 0 ≡ false
      → let closed = smb_close_device table (smb_open_device table uri s).1 in
        smb_open_device table other closed ≡ (minus 1, closed)
  unfolding smb_close_device
  smb_open_device-smb_close_device uri other s e h =
      let now = opened (driver_of uri) s (rw⁻¹ (smb_open_device-none uri s e) h) in
      refused other _ now.0
        (close_named_lem _ _ ∙ ap (λ x. x.1.s_drv) (smb_open_device-none uri s e) ∙ now.1)
