-- ===== src/Pec/Crc.antt =====
-- The packet error code detects errors: what the code of a message says about the message.
use smbusb.Prelude.{
  ◌↔◌, ℕ, zero, suc, ◌+◌, ◌/◌, ◌<◌, ◌≡◌, ◌≢◌, refl, sym, ap, ◌∙◌, Bool, true, false, ◌&&◌, List, [],
  ◌∷◌, ◌++◌, arith, bit_and, bit_xor, ltb, ◌==◌, ==_iff, if◌then◌else◌, cond,
}
use smbusb.Pec.{shift_bit, rounds, pec_crc, pec_from}

-- A test of each of the numbers below the second argument.
unfoldable passes_each : (ℕ → Bool) → ℕ → Bool
passes_each test zero = true
passes_each test (suc bound) = cond (test bound) (passes_each test bound) false

passes_each_lem :
    (test : ℕ → Bool) (bound b : ℕ) → passes_each test bound ≡ true → b < bound → test b ≡ true
unfolding passes_each
passes_each_lem test zero b h below = absurd (omega arith)
passes_each_lem test (suc bound) b h below = ground (arith, passes_each_lem test bound b)

abbrev xor_table : ℕ → Bool
xor_table a =
    passes_each
      (λ b. (bit_xor (bit_xor a b) b == a) && ltb (bit_xor a b) 256 && (bit_xor a b == bit_xor b a))
      256

xor_table_holds : passes_each xor_table 256 ≡ true
unfolding passes_each
xor_table_holds = refl

-- The inverse of a round.
unfoldable unshift_bit : ℕ → ℕ
unshift_bit d = if bit_and d 1 == 0 then d / 2 else bit_xor d 0x07 / 2 + 0x80

abbrev shift_table : ℕ → Bool
shift_table d = (unshift_bit (shift_bit d) == d) && ltb (shift_bit d) 256

shift_table_holds : passes_each shift_table 256 ≡ true
unfolding passes_each unshift_bit shift_bit
shift_table_holds = refl

xor_laws :
    (a b : ℕ)
    → a < 256
    → b < 256
    → (bit_xor (bit_xor a b) b ≡ a) × (bit_xor a b < 256) × (bit_xor a b ≡ bit_xor b a)
xor_laws a b h k =
    let at_b : (bit_xor (bit_xor a b) b == a)
          && ltb (bit_xor a b) 256
          && (bit_xor a b == bit_xor b a)
        ≡ true =
      passes_each_lem _ 256 b (passes_each_lem xor_table 256 a xor_table_holds h) k in
    ground arith

shift_laws : (d : ℕ) → d < 256 → (unshift_bit (shift_bit d) ≡ d) × (shift_bit d < 256)
shift_laws d h =
    let at_d : shift_table d ≡ true = passes_each_lem shift_table 256 d shift_table_holds h in
    ground arith

rounds_lt : (n d : ℕ) → d < 256 → rounds n d < 256
unfolding rounds
rounds_lt zero d h = h
rounds_lt (suc n) d h = rounds_lt n (shift_bit d) (shift_laws d h).1

rounds-injective : (n c d : ℕ) → c < 256 → d < 256 → rounds n c ≡ rounds n d → c ≡ d
unfolding rounds
rounds-injective zero c d h k e = e
rounds-injective (suc n) c d h k e =
    sym (shift_laws c h).0
    ∙ ap unshift_bit
        (rounds-injective n (shift_bit c) (shift_bit d) (shift_laws c h).1 (shift_laws d k).1 e)
    ∙ (shift_laws d k).0

pub pec_crc_lt : (crc d : ℕ) → crc < 256 → d < 256 → pec_crc crc d < 256
unfolding pec_crc
pec_crc_lt crc d h k = rounds_lt 8 (bit_xor crc d) (xor_laws crc d h k).1

xor-injective : (a b c : ℕ) → a < 256 → b < 256 → c < 256 → bit_xor a c ≡ bit_xor b c → a ≡ b
xor-injective a b c h k l e =
    sym (xor_laws a c h l).0 ∙ ap (λ x. bit_xor x c) e ∙ (xor_laws b c k l).0

-- The code so far can be recovered from the code after a byte.
pec_crc-injective : (b c d : ℕ) → b < 256 → c < 256 → d < 256 → pec_crc b d ≡ pec_crc c d → b ≡ c
unfolding pec_crc
pec_crc-injective b c d h k l e =
    xor-injective b c d h k l (rounds-injective 8 _ _ (xor_laws b d h l).1 (xor_laws c d k l).1 e)

pec_crc_comm : (c d : ℕ) → c < 256 → d < 256 → pec_crc c d ≡ pec_crc d c
unfolding pec_crc
pec_crc_comm c d h k = ap (rounds 8) (xor_laws c d h k).2

-- Bytes.
unfoldable pub AreBytes : List ℕ → Type 0
AreBytes [] = Unit {0}
AreBytes (b ∷ bytes) = (b < 256) × AreBytes bytes

pub pec_from_lt : (crc : ℕ) (bytes : List ℕ) → crc < 256 → AreBytes bytes → pec_from crc bytes < 256
unfolding AreBytes
pec_from_lt crc [] h all = h
pec_from_lt crc (b ∷ bytes) h all =
    pec_from_lt (pec_crc crc b) bytes (pec_crc_lt crc b h all.0) all.1

pec_from-injective :
    (b c : ℕ) (bytes : List ℕ)
    → b < 256
    → c < 256
    → AreBytes bytes
    → pec_from b bytes ≡ pec_from c bytes
    → b ≡ c
unfolding AreBytes
pec_from-injective b c [] h k all e = e
pec_from-injective b c (d ∷ bytes) h k all e = pec_crc-injective b c d h k all.0 (
    pec_from-injective (pec_crc b d) (pec_crc c d) bytes (pec_crc_lt b d h all.0)
      (pec_crc_lt c d k all.0) all.1 e)

pec_from-append :
    (crc : ℕ) (xs ys : List ℕ) → pec_from crc (xs ++ ys) ≡ pec_from (pec_from crc xs) ys
pec_from-append crc [] ys = refl
pec_from-append crc (x ∷ xs) ys = pec_from-append (pec_crc crc x) xs ys

-- A message in which exactly one byte is changed, at any place and in any way, has another code.
pub pec_from_changed :
    (crc : ℕ) (pre : List ℕ) (x y : ℕ) (post : List ℕ)
    → crc < 256
    → AreBytes pre
    → x < 256
    → y < 256
    → AreBytes post
    → x ≢ y
    → pec_from crc (pre ++ (x ∷ post)) ≢ pec_from crc (pre ++ (y ∷ post))
pec_from_changed crc pre x y post h all k l all_post ne e = ne same
  where
    c : ℕ
    c = pec_from crc pre

    low : c < 256
    low = pec_from_lt crc pre h all

    after : pec_crc c x ≡ pec_crc c y
    after =
        pec_from-injective (pec_crc c x) (pec_crc c y) post (pec_crc_lt c x low k)
          (pec_crc_lt c y low l) all_post
          (sym (pec_from-append crc pre (x ∷ post)) ∙ e ∙ pec_from-append crc pre (y ∷ post))

    same : x ≡ y
    same = pec_crc-injective x y c k l low (pec_crc_comm x c k low ∙ after ∙ pec_crc_comm c y low l)

own_table_holds : passes_each (λ c. pec_crc c c == 0) 256 ≡ true
unfolding passes_each pec_crc rounds shift_bit
own_table_holds = refl

-- The receiver's code of a message with its code behind it is zero, and is not zero with any other
-- byte behind it.
pub pec_from_residue :
    (crc : ℕ) (bytes : List ℕ) (rpec : ℕ)
    → crc < 256
    → AreBytes bytes
    → rpec < 256
    → (pec_from crc (bytes ++ (rpec ∷ [])) ≡ 0) ↔ (rpec ≡ pec_from crc bytes)
pec_from_residue crc bytes rpec h all k = (only, correct)
  where
    c : ℕ
    c = pec_from crc bytes

    low : c < 256
    low = pec_from_lt crc bytes h all

    own : pec_crc c c ≡ 0
    own = (==_iff _ 0).0 (passes_each_lem _ 256 c own_table_holds low)

    correct : rpec ≡ c → pec_from crc (bytes ++ (rpec ∷ [])) ≡ 0
    correct e = pec_from-append crc bytes (rpec ∷ []) ∙ ap (pec_crc c) e ∙ own

    only : pec_from crc (bytes ++ (rpec ∷ [])) ≡ 0 → rpec ≡ c
    only e =
        pec_crc-injective rpec c c k low low
          (pec_crc_comm rpec c k low ∙ sym (pec_from-append crc bytes (rpec ∷ [])) ∙ e ∙ sym own)
