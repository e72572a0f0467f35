-- ===== src/Tools/Checksum.antt =====
-- What the checksum of tools/smbusb_r2j240flasher.c makes of a block.
use smbusb.Prelude.{
  ℕ, zero, suc, ◌+◌, ◌-◌, ◌*◌, ◌/◌, ◌%◌, ◌^◌, ◌≤◌, ◌<◌, ◌≡◌, ◌≢◌, ◌∙◌, refl, ap, ◌⊎◌, inl, List, [],
  ◌∷◌, arith, length, get_or, set, length-set, u8, u32,
}
use smbusb.Pec.Crc.{AreBytes}
use smbusb.Tools.R2j240.{word_at, put_word, checksum_rounds, fix_lgc_static_checksum}

-- The sum of the words from `j` on, `n` of them.
abbrev pub sum_words : List ℕ → ℕ → ℕ → ℕ
sum_words block j zero = 0
sum_words block j (suc n) = word_at block j + sum_words block (j + 1) n

get_or-set_same : (xs : List ℕ) (i v : ℕ) → i < length xs → get_or (set xs i v) i 0 ≡ v
get_or-set_same [] i v h = absurd (omega arith)
get_or-set_same (x ∷ xs) zero v h = refl
get_or-set_same (x ∷ xs) (suc i) v h = get_or-set_same xs i v (omega arith)

get_or-set_other : (xs : List ℕ) (i k v : ℕ) → k ≢ i → get_or (set xs i v) k 0 ≡ get_or xs k 0
get_or-set_other [] i k v h = refl
get_or-set_other (x ∷ xs) zero zero v h = absurd (h refl)
get_or-set_other (x ∷ xs) zero (suc k) v h = refl
get_or-set_other (x ∷ xs) (suc i) zero v h = refl
get_or-set_other (x ∷ xs) (suc i) (suc k) v h = get_or-set_other xs i k v (omega arith)

-- A byte outside the word that was put.
get_or-put_word :
    (block : List ℕ) (j v k : ℕ)
    → (k < 4 * j) ⊎ (4 * j + 3 < k)
    → get_or (put_word block j v) k 0 ≡ get_or block k 0
get_or-put_word block j v k h =
    get_or-set_other _ (4 * j + 3) k _ (omega arith)
    ∙ get_or-set_other _ (4 * j + 2) k _ (omega arith)
    ∙ get_or-set_other _ (4 * j + 1) k _ (omega arith)
    ∙ get_or-set_other block (4 * j) k _ (omega arith)

word_at-put_word_before :
    (block : List ℕ) (j v i : ℕ) → i < j → word_at (put_word block j v) i ≡ word_at block i
word_at-put_word_before block j v i h =
    rw
      (
        get_or-put_word block j v (4 * i) (inl (omega arith)),
        get_or-put_word block j v (4 * i + 1) (inl (omega arith)),
        get_or-put_word block j v (4 * i + 2) (inl (omega arith)),
        get_or-put_word block j v (4 * i + 3) (inl (omega arith)),
      )
      refl

word_at-put_word :
    (block : List ℕ) (j v : ℕ)
    → 4 * j + 3 < length block
    → v < 2 ^ 32
    → word_at (put_word block j v) j ≡ v
word_at-put_word block j v room low = rw (byte0, byte1, byte2, byte3) (omega arith)
  where
    one : List ℕ
    one = set block (4 * j) (u8 v)

    two : List ℕ
    two = set one (4 * j + 1) (u8 (v / 2 ^ 8))

    three : List ℕ
    three = set two (4 * j + 2) (u8 (v / 2 ^ 16))

    size1 : length one ≡ length block
    size1 = length-set block (4 * j) (u8 v)

    size2 : length two ≡ length block
    size2 = length-set one (4 * j + 1) (u8 (v / 2 ^ 8)) ∙ size1

    size3 : length three ≡ length block
    size3 = length-set two (4 * j + 2) (u8 (v / 2 ^ 16)) ∙ size2

    byte3 : get_or (put_word block j v) (4 * j + 3) 0 ≡ u8 (v / 2 ^ 24)
    byte3 = get_or-set_same three (4 * j + 3) _ (omega (arith, size3))

    byte2 : get_or (put_word block j v) (4 * j + 2) 0 ≡ u8 (v / 2 ^ 16)
    byte2 =
        get_or-set_other three (4 * j + 3) (4 * j + 2) _ (omega arith)
        ∙ get_or-set_same two (4 * j + 2) _ (omega (arith, size2))

    byte1 : get_or (put_word block j v) (4 * j + 1) 0 ≡ u8 (v / 2 ^ 8)
    byte1 =
        get_or-set_other three (4 * j + 3) (4 * j + 1) _ (omega arith)
        ∙ get_or-set_other two (4 * j + 2) (4 * j + 1) _ (omega arith)
        ∙ get_or-set_same one (4 * j + 1) _ (omega (arith, size1))

    byte0 : get_or (put_word block j v) (4 * j) 0 ≡ u8 v
    byte0 =
        get_or-set_other three (4 * j + 3) (4 * j) _ (omega arith)
        ∙ get_or-set_other two (4 * j + 2) (4 * j) _ (omega arith)
        ∙ get_or-set_other one (4 * j + 1) (4 * j) _ (omega arith)
        ∙ get_or-set_same block (4 * j) _ (omega arith)

sum_words-put_word :
    (block : List ℕ) (last v j n : ℕ)
    → j + n ≤ last
    → sum_words (put_word block last v) j n ≡ sum_words block j n
sum_words-put_word block last v j zero h = refl
sum_words-put_word block last v j (suc n) h =
    rw
      (
        word_at-put_word_before block last v j (omega arith),
        sum_words-put_word block last v (j + 1) n (omega arith),
      )
      refl

-- The bytes of a word are below 256, so that it fits 32 bits.
get_or-byte : (xs : List ℕ) (i : ℕ) → AreBytes xs → get_or xs i 0 < 256
unfolding AreBytes
get_or-byte [] i all = omega arith
get_or-byte (x ∷ xs) zero all = all.0
get_or-byte (x ∷ xs) (suc i) all = get_or-byte xs i all.1

word_at_low : (block : List ℕ) (j : ℕ) → AreBytes block → word_at block j < 2 ^ 32
word_at_low block j all =
    let byte0 : get_or block (4 * j) 0 < 256 = get_or-byte block (4 * j) all in
    let byte1 : get_or block (4 * j + 1) 0 < 256 = get_or-byte block (4 * j + 1) all in
    let byte2 : get_or block (4 * j + 2) 0 < 256 = get_or-byte block (4 * j + 2) all in
    let byte3 : get_or block (4 * j + 3) 0 < 256 = get_or-byte block (4 * j + 3) all in omega arith

checksum_rounds_lem :
    (n j chk : ℕ) (block : List ℕ)
    → AreBytes block
    → chk < 2 ^ 32
    → (checksum_rounds n j chk block + sum_words block j n) % 2 ^ 32 ≡ chk
unfolding checksum_rounds
checksum_rounds_lem zero j chk block all low = omega arith
checksum_rounds_lem (suc n) j chk block all low =
    let word : word_at block j < 2 ^ 32 = word_at_low block j all in
    let rest : (checksum_rounds n (j + 1) (u32 (chk + 2 ^ 32 - word_at block j)) block
            + sum_words block (j + 1) n)
          % 2 ^ 32
        ≡ u32 (chk + 2 ^ 32 - word_at block j) =
      checksum_rounds_lem n (j + 1) (u32 (chk + 2 ^ 32 - word_at block j)) block all
        (omega arith) in
    from_rest (word_at block j)
      (checksum_rounds n (j + 1) (u32 (chk + 2 ^ 32 - word_at block j)) block)
      (sum_words block (j + 1) n) word rest
  where
    from_rest :
        (w c t : ℕ)
        → w < 2 ^ 32
        → (c + t) % 2 ^ 32 ≡ u32 (chk + 2 ^ 32 - w)
        → (c + (w + t)) % 2 ^ 32 ≡ chk
    from_rest w c t hw h = omega arith

checksum_rounds_low :
    (n j chk : ℕ) (block : List ℕ) → chk < 2 ^ 32 → checksum_rounds n j chk block < 2 ^ 32
unfolding checksum_rounds
checksum_rounds_low zero j chk block h = h
checksum_rounds_low (suc n) j chk block h = checksum_rounds_low n (j + 1) _ block (omega arith)

sum_words_add :
    (block : List ℕ) (j n : ℕ)
    → sum_words block j (n + 1) ≡ sum_words block j n + word_at block (j + n)
sum_words_add block j zero = let here : j + 0 ≡ j = omega arith in rw here (omega arith)
sum_words_add block j (suc n) =
    let more : suc n + 1 ≡ suc (n + 1) = omega arith in
    let there : j + suc n ≡ j + 1 + n = omega arith in
    rw (more, there) (omega (arith, sum_words_add block (j + 1) n))

-- In a block of bytes, of a size of 4 at least, the words of 32 bits add up to 0 modulo 2^32 after the
-- checksum was fixed, and all bytes but the 4 of the last word are as they were.
pub fix_lgc_static_checksum_lem :
    (size : ℕ) (block : List ℕ)
    → 4 ≤ size
    → size ≤ length block
    → AreBytes block
    → (sum_words (fix_lgc_static_checksum size block) 0 (size / 4) % 2 ^ 32 ≡ 0)
      × ((k : ℕ)
          → (k < 4 * (size / 4 - 1)) ⊎ (4 * (size / 4 - 1) + 3 < k)
          → get_or (fix_lgc_static_checksum size block) k 0 ≡ get_or block k 0)
unfolding fix_lgc_static_checksum
fix_lgc_static_checksum_lem size block some_word room all =
    (sum, λ k h. get_or-put_word block last chk k h)
  where
    last : ℕ
    last = size / 4 - 1

    chk : ℕ
    chk = checksum_rounds last 0 0 block

    low : chk < 2 ^ 32
    low = checksum_rounds_low last 0 0 block (omega arith)

    count : size / 4 ≡ last + 1
    count = omega arith

    total : sum_words (put_word block last chk) 0 (size / 4) ≡ sum_words block 0 last + chk
    total =
        ap (sum_words (put_word block last chk) 0) count
        ∙ sum_words_add (put_word block last chk) 0 last
        ∙ ap (λ k. sum_words (put_word block last chk) 0 last + word_at (put_word block last chk) k)
            (omega arith)
        ∙ ap (◌+◌ (sum_words (put_word block last chk) 0 last))
            (word_at-put_word block last chk (omega arith) low)
        ∙ ap (λ k. k + chk) (sum_words-put_word block last chk 0 last (omega arith))

    sum : sum_words (put_word block last chk) 0 (size / 4) % 2 ^ 32 ≡ 0
    sum = rw total (omega (arith, checksum_rounds_lem last 0 0 block all (omega arith)))
