-- ===== src/Tools/Memory.antt =====
-- The memory of a chip, as its documentation describes it: a byte at each address.
use smbusb.Prelude.{
  ℕ, zero, suc, ◌+◌, ◌≤◌, ◌<◌, ◌≡◌, ◌∙◌, refl, ap, true, false, List, [], ◌∷◌, ◌++◌, arith, length,
  ◌==◌, cond,
}

abbrev pub Memory : Type 0
Memory = ℕ → ℕ

abbrev pub update : Memory → ℕ → ℕ → Memory
update memory a v k = cond (k == a) v (memory k)

-- The bytes stored from `a` on.
abbrev pub store : Memory → ℕ → List ℕ → Memory
store memory a [] = memory
store memory a (b ∷ bytes) = store (update memory a b) (a + 1) bytes

-- The `n` bytes from `a` on.
abbrev pub contents : Memory → ℕ → ℕ → List ℕ
contents memory a zero = []
contents memory a (suc n) = memory a ∷ contents memory (a + 1) n

pub length-contents : (memory : Memory) (a n : ℕ) → length (contents memory a n) ≡ n
length-contents memory a zero = refl
length-contents memory a (suc n) = ap suc (length-contents memory (a + 1) n)

pub contents_add :
    (memory : Memory) (a m n : ℕ)
    → contents memory a (m + n) ≡ contents memory a m ++ contents memory (a + m) n
contents_add memory a zero n =
    let none : 0 + n ≡ n = omega arith in
    let here : a ≡ a + 0 = omega arith in
    ap (contents memory a) none ∙ ap (λ k. contents memory k n) here
contents_add memory a (suc m) n =
    let more : suc m + n ≡ suc (m + n) = omega arith in
    let there : a + 1 + m ≡ a + suc m = omega arith in
    rw more (
      ap (◌∷◌ (memory a)) (
        contents_add memory (a + 1) m n
        ∙ ap (λ k. contents memory (a + 1) m ++ contents memory k n) there))

pub store-append :
    (memory : Memory) (a : ℕ) (xs ys : List ℕ)
    → store (store memory a xs) (a + length xs) ys ≡ store memory a (xs ++ ys)
store-append memory a [] ys = let here : a + 0 ≡ a = omega arith in ap (λ k. store memory k ys) here
store-append memory a (x ∷ xs) ys =
    let there : a + suc (length xs) ≡ a + 1 + length xs = omega arith in
    rw there (store-append (update memory a x) (a + 1) xs ys)

store_below : (memory : Memory) (a k : ℕ) (xs : List ℕ) → k < a → store memory a xs k ≡ memory k
store_below memory a k [] h = refl
store_below memory a k (x ∷ xs) h =
    let other : (k == a) ≡ false = ground (arith, h) in
    store_below (update memory a x) (a + 1) k xs (omega arith) ∙ ap (λ b. cond b x (memory k)) other

-- What was stored is there.
pub contents-store :
    (memory : Memory) (a : ℕ) (xs : List ℕ) → contents (store memory a xs) a (length xs) ≡ xs
contents-store memory a [] = refl
contents-store memory a (x ∷ xs) =
    let here : (a == a) ≡ true = ground arith in
    let first : store (update memory a x) (a + 1) xs a ≡ x =
      store_below (update memory a x) (a + 1) a xs (omega arith)
      ∙ ap (λ b. cond b x (memory a)) here in
    rw first (ap (◌∷◌ x) (contents-store (update memory a x) (a + 1) xs))

store_above :
    (memory : Memory) (a k : ℕ) (xs : List ℕ) → a + length xs ≤ k → store memory a xs k ≡ memory k
store_above memory a k [] h = refl
store_above memory a k (x ∷ xs) h =
    let other : (k == a) ≡ false = ground (arith, h) in
    store_above (update memory a x) (a + 1) k xs (omega arith) ∙ ap (λ b. cond b x (memory k)) other

-- Behind what was stored, nothing has changed.
pub contents-store_above :
    (memory : Memory) (a k n : ℕ) (xs : List ℕ)
    → a + length xs ≤ k
    → contents (store memory a xs) k n ≡ contents memory k n
contents-store_above memory a k zero xs h = refl
contents-store_above memory a k (suc n) xs h =
    rw (store_above memory a k xs h)
      (ap (◌∷◌ (memory k)) (contents-store_above memory a (k + 1) n xs (omega arith)))

-- Erased memory: the `n` bytes from `a` on are 0xFF.
abbrev pub IsErased : Memory → ℕ → ℕ → Type 0
IsErased memory a n = (k : ℕ) → a ≤ k → k < a + n → memory k ≡ 0xFF

pub IsErased-store :
    (memory : Memory) (a k n : ℕ) (xs : List ℕ)
    → a + length xs ≤ k
    → IsErased memory k n
    → IsErased (store memory a xs) k n
IsErased-store memory a k n xs h e i from to = store_above memory a i xs (omega arith) ∙ e i from to
