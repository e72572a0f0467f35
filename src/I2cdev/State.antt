-- ===== src/I2cdev/State.antt =====
-- `s_ctx` of lib/smbusb-i2cdev.c, and the calls of the kernel, which is a parameter: what `ioctl`
-- returns is a function of the requests before it.
use smbusb.Prelude.{
  ℕ, zero, suc, Bool, true, ◌&&◌, Option, none, some, List, ◌∷◌, ℤ, minus, below, is, cond, bit_and,
  not, ◌==◌,
}

-- `struct i2c_msg`
pub record I2cMsg : Type 0 where
  pub addr : ℕ
  pub flags : ℕ
  pub len : ℕ
  pub buf : List ℕ

-- The sizes of an access, I2C_SMBUS_QUICK to I2C_SMBUS_WORD_DATA.
pub data Size : Type 0 where
  quick byte byte_data word_data : Size

-- The requests of `ioctl`, and the opening of the device file.
pub data Request : Type 0 where
  open_file : List ℕ → Request
  close_file i2c_funcs : Request
  i2c_slave : ℕ → Request
  i2c_pec : Bool → Request
  i2c_smbus : ℕ → ℕ → Size → ℕ → Request
  i2c_rdwr : List I2cMsg → Request

-- The kernel: what a request returns, whether `errno` is EAGAIN or EINTR then, the data that came
-- back, and the functions of the adapter.
pub record Kernel : Type 0 where
  pub status : List Request → Request → ℤ
  pub again : List Request → Request → Bool
  pub answer : List Request → Request → List ℕ
  pub funcs : List Request → ℕ

-- `s_ctx`, and the requests made so far, the last one first.
pub record I2cCtx : Type 0 where
  pub fd : ℤ
  pub pec_enabled : Bool
  pub sw_pec : Bool
  pub requests : List Request

-- Out of fuel a run is `none`.
abbrev pub M : Type 0 → Type 0
M A = I2cCtx → Option (A × I2cCtx)

abbrev pub pure : {A : Type 0} → A → M A
pure a s = some (a, s)

module _ {A B : Type 0} where
  abbrev pub and_then : Option (A × I2cCtx) → (A → M B) → Option (B × I2cCtx)
  and_then none k = none
  and_then (some r) k = k r.0 r.1

  infixl 5 ◌>>=◌ ◌>>◌
  unfoldable pub ◌>>=◌ : M A → (A → M B) → M B
  ◌>>=◌ m k s = and_then (m s) k

  unfoldable pub ◌>>◌ : M A → M B → M B
  unfolding ◌>>=◌
  m >> n = m >>= λ _. n

unfoldable pub modify : (I2cCtx → I2cCtx) → M (Unit {0})
modify f s = some (tt, f s)

-- What `ioctl` returned, and the data.
pub record Reply : Type 0 where
  pub status : ℤ
  pub bytes : List ℕ

module _ (kernel : Kernel) where
  -- `xioctl`: a call that was interrupted is made again, on fuel.
  unfoldable pub xioctl : ℕ → Request → M Reply
  xioctl zero req s = none
  xioctl (suc fuel) req s =
      let status = kernel.status s.requests req in
      let next = record s { requests = req ∷ s.requests } in
      cond (below status 0 && kernel.again s.requests req) (xioctl fuel req next)
        (some (record { status = status; bytes = kernel.answer s.requests req }, next))

  -- A call that is not made again.
  unfoldable pub request : Request → M ℤ
  request req s = some (kernel.status s.requests req, record s { requests = req ∷ s.requests })

  abbrev i2c_func_smbus_pec : ℕ
  i2c_func_smbus_pec = 0x8

  -- `s_ctx.sw_pec = !(funcs & I2C_FUNC_SMBUS_PEC)`
  unfoldable pub note_functions : M (Unit {0})
  note_functions s =
      some (tt, record s { sw_pec = bit_and (kernel.funcs s.requests) i2c_func_smbus_pec == 0 })

  -- `I2CDEV_SMBOpenDeviceI2c`
  unfoldable pub open_device_i2c : ℕ → List ℕ → M ℤ
  open_device_i2c fuel dev_name = do
    fd ← request (Request.open_file dev_name)
    modify (λ s. record s { fd = fd })
    cond (below fd 0) (pure (minus 1)) (do
      r ← xioctl fuel Request.i2c_funcs
      cond (not (is r.status 0)) (pure r.status) (do note_functions; pure (ℤ.pos 0)))

  -- `I2CDEV_SMBCloseDevice`
  unfoldable pub close_device : M (Unit {0})
  close_device = do
    status ← request Request.close_file
    modify (λ s. record s { fd = minus 1; pec_enabled = true })
