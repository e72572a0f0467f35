-- ===== src/Fx2lp/ReadBlock.antt =====
-- `FX2LP_SMBReadBlock` ends, and returns no more bytes than it wrote.
use Prim.Native.Nat.{min}
use smbusb.Prelude.{
  ℕ, zero, suc, ◌+◌, ◌-◌, ◌≤◌, ◌<◌, ◌≡◌, ◌∙◌, true, false, Option, none, some, List, [], ◌∷◌, ◌++◌,
  arith, length, take, overlay, get_or, length-append, length-overlay, length-take, ltb, ltb→lt, ℤ,
  cond, is, below, nat_of, u16, Bool-cases, inl, inr,
}
use smbusb.Fx2lp.State.{Libusb, Driver, Call, Transfer, M, pure, ◌>>=◌, vendor_in, control_transfer}
use smbusb.Fx2lp.Blocks.{read_block_rounds, read_block}

-- A transfer that asks for data never ends without any.
pub record IsProgressing (usb : Libusb) : Type 0 where
  pub some_data :
      (calls : List Call) (t : Transfer) → is (usb.status calls (Call.control t)) 0 ≡ false

-- The function returned, and a number of bytes that it returns is written to the buffer.
unfoldable pub IsAnswer : Option (ℤ × List ℕ) → Type 0
IsAnswer none = ⊥
IsAnswer (some (ℤ.pos n, bytes)) = n ≤ length bytes
IsAnswer (some (ℤ.negsuc n, bytes)) = Unit {0}

abbrev pub block_request : ℕ → ℕ → Transfer
block_request address command = record {
  inward = true;
  request = 0x30;
  value = u16 address;
  index = u16 command;
  sent = [];
  wanted = 64;
}

-- After a transfer with the status `st`: it failed, or brought some bytes.
on_status :
    (st : ℤ) (bytes : List ℕ) (k : ℕ → M (Option (ℤ × List ℕ))) (s : Driver)
    → is st 0 ≡ false
    → ((n : ℕ) → 0 < n → IsAnswer (k n s).0)
    → IsAnswer (cond (below st 0) (pure (some (st, bytes))) (k (nat_of st)) s).0
unfolding IsAnswer
on_status (ℤ.pos n) bytes k s h next =
    let none_negative : ltb n 0 ≡ false = ground arith in rw none_negative (next n (ground arith))
on_status (ℤ.negsuc n) bytes k s h next = tt

nothing : (st : ℤ) → below st 1 ≡ true → IsAnswer (some (st, []))
unfolding IsAnswer
nothing (ℤ.pos n) h = ground arith
nothing (ℤ.negsuc n) h = tt

module _ (usb : Libusb) (progressing : IsProgressing usb) where
  rounds-IsAnswer :
      (address command fuel total : ℕ) (tmp bytes : List ℕ) (s : Driver)
      → length tmp ≡ 64
      → total - length bytes < fuel
      → IsAnswer (read_block_rounds usb address command fuel total tmp bytes s).0
  unfolding read_block_rounds ◌>>=◌ vendor_in control_transfer IsAnswer
  rounds-IsAnswer address command zero total tmp bytes s e h = absurd (omega arith)
  rounds-IsAnswer address command (suc fuel) total tmp bytes s e h =
      elim (Bool-cases (ltb (length bytes) total)) [
        | inr all ↦ rw all (ground arith)
        | inl more ↦ rw more (
            on_status (usb.status s.calls (Call.control (block_request address command))) bytes
              (λ n.
                read_block_rounds usb address command fuel total (buffer s)
                  (bytes ++ take n (buffer s)))
              (next s) (progressing.some_data s.calls (block_request address command))
              λ n some_bytes.
                rounds-IsAnswer address command fuel total (buffer s) (bytes ++ take n (buffer s))
                  (next s) (omega (arith, full s)) (omega (arith, longer s n, ltb→lt _ _ more)))
      ]
    where
      buffer : Driver → List ℕ
      buffer s =
          overlay (take 64 (usb.data_in s.calls (Call.control (block_request address command)))) tmp

      next : Driver → Driver
      next s = record s { calls = Call.control (block_request address command) ∷ s.calls }

      full : (s : Driver) → length (buffer s) ≡ 64
      full s =
          length-overlay
            (take 64 (usb.data_in s.calls (Call.control (block_request address command)))) tmp
          ∙ e

      longer : (s : Driver) (n : ℕ) → length (bytes ++ take n (buffer s)) ≡ length bytes + min n 64
      longer s n =
          omega (arith, length-append bytes (take n (buffer s)), length-take n (buffer s), full s)

  -- Where no transfer ends without data, a block read returns, if its fuel is more than the size that
  -- the first transfer brings, and if it returns a number of bytes, as many were written to the
  -- caller's buffer.
  pub read_block-IsAnswer :
      (address command fuel : ℕ) (garbage : List ℕ) (s : Driver)
      → length garbage ≡ 64
      → get_or
          (overlay
            (take 64 (usb.data_in s.calls (Call.control (block_request address command))))
            garbage)
          0
          0
        < fuel
      → IsAnswer (read_block usb fuel garbage address command s).0
  unfolding read_block ◌>>=◌ vendor_in control_transfer
  read_block-IsAnswer address command fuel garbage s e h =
      elim (Bool-cases
        (below (usb.status s.calls (Call.control (block_request address command))) 1)) [
          | inl none_read ↦ rw none_read (nothing _ none_read)
          | inr some_read ↦ rw some_read (
              rounds-IsAnswer address command fuel _ _ _ _ (length-overlay _ garbage ∙ e)
                (omega arith))
        ]
