-- ===== src/Fx2lp/Accepted.antt =====
-- What the driver has sent, where libusb sends all that it is given.
use smbusb.Prelude.{
  ℕ, suc, ◌+◌, ◌*◌, ◌≤◌, ◌≡◌, sym, ap, ◌∙◌, List, [], ◌∷◌, ◌++◌, length, take, drop, drop-drop,
  take_add, arith, ℤ,
}
use smbusb.Fx2lp.State.{Transfer, Call, Libusb}

-- A transfer that succeeds returns the number of bytes it was given.
pub record IsAccepting (usb : Libusb) : Type 0 where
  pub all : (calls : List Call) (t : Transfer) → usb.status calls (Call.control t) ≡ ℤ.pos t.wanted

-- The data of the transfers, from the first one on.
abbrev pub sent_data : List Call → List ℕ
sent_data [] = []
sent_data (Call.control t ∷ calls) = sent_data calls ++ t.sent
sent_data (c ∷ calls) = sent_data calls

-- The buffer of a transfer fits endpoint 0, and an outward one has as many bytes as it announces.
abbrev pub IsSizedCall : Call → Type 0
IsSizedCall (Call.control t) = (length t.sent ≤ t.wanted) × (t.wanted ≤ 64)
IsSizedCall c = Unit {0}

abbrev pub AreSized : List Call → Type 0
AreSized [] = Unit {0}
AreSized (c ∷ calls) = IsSizedCall c × AreSized calls

-- A round sends the next 64 bytes.
pub split_rounds :
    (left i : ℕ) (tmp : List ℕ)
    → take 64 (drop (i * 64) tmp) ++ take (left * 64) (drop ((i + 1) * 64) tmp)
      ≡ take (suc left * 64) (drop (i * 64) tmp)
split_rounds left i tmp =
    ap (λ ys. take 64 (drop (i * 64) tmp) ++ take (left * 64) ys)
      (rw next (sym (drop-drop (i * 64) 64 tmp)))
    ∙ take_add 64 (left * 64) (drop (i * 64) tmp)
    ∙ ap (λ n. take n (drop (i * 64) tmp)) (omega arith)
  where
    next : (i + 1) * 64 ≡ i * 64 + 64
    next = omega arith
