-- ===== src/I2cdev/Laws.antt =====
-- A block read by lib/smbusb-i2cdev.c returns, and is cut after 64 bytes.
use smbusb.Prelude.{
  ℕ, zero, suc, ◌-◌, ◌<◌, ◌≡◌, ◌⊎◌, false, Option, none, some, List, [], ◌∷◌, length, drop,
  replicate, get_or, ℤ,
}
use smbusb.I2cdev.State.{I2cCtx, Request, Kernel}

-- One of the next `n` tries of a request is not interrupted.
abbrev pub Settles : Kernel → List Request → Request → ℕ → Type 0
Settles kernel calls req zero = ⊥
Settles kernel calls req (suc n) =
    (kernel.again calls req ≡ false) ⊎ Settles kernel (req ∷ calls) req n

-- No request is interrupted `fuel` times in a row, and the first byte of an answer is a byte.
pub record IsSettling (kernel : Kernel) (fuel : ℕ) : Type 0 where
  pub settles : (calls : List Request) (req : Request) → Settles kernel calls req fuel
  pub is_byte : (calls : List Request) (req : Request) → get_or (kernel.answer calls req) 0 0 < 256

-- The run ends, with a result in `Q`.
unfoldable pub Returns : {A : Type 0} → (A → Type 0) → Option (A × I2cCtx) → Type 0
Returns Q none = ⊥
Returns Q (some r) = Q r.0

-- As many bytes as the result says, with zeros behind the first 64.
unfoldable pub IsCut : ℤ × List ℕ → Type 0
IsCut (ℤ.pos n, bytes) = (length bytes ≡ n) × (drop 64 bytes ≡ replicate (n - 64) 0)
IsCut (ℤ.negsuc n, bytes) = bytes ≡ []
