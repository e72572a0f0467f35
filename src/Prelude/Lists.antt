-- ===== src/Prelude/Lists.antt =====
-- C arrays as lists with native indices, under the names of the library.
use Prim.Native.Nat.{ℕ, zero, suc, ◌+◌, ◌-◌, ◌≤◌, ◌<◌, min}
use mathlib.Core.Path.{◌≡◌, refl, sym, ap, ◌∙◌}
use mathlib.Core.List.{List, [], ◌∷◌, ◌++◌}
use mathlib.Core.Option.{Option, none, some}
use native.Mathlib.Omega.{arith}

module _ {ℓ} {A : Type ℓ} where
  abbrev pub length : List A → ℕ
  length [] = 0
  length (x ∷ xs) = suc (length xs)

  abbrev pub get_elem? : List A → ℕ → Option A
  get_elem? [] i = none
  get_elem? (x ∷ xs) zero = some x
  get_elem? (x ∷ xs) (suc i) = get_elem? xs i

  abbrev pub get_or : List A → ℕ → A → A
  get_or [] i d = d
  get_or (x ∷ xs) zero d = x
  get_or (x ∷ xs) (suc i) d = get_or xs i d

  -- A write out of bounds changes nothing.
  abbrev pub set : List A → ℕ → A → List A
  set [] i v = []
  set (x ∷ xs) zero v = v ∷ xs
  set (x ∷ xs) (suc i) v = x ∷ set xs i v

  abbrev pub take : ℕ → List A → List A
  take zero xs = []
  take (suc n) [] = []
  take (suc n) (x ∷ xs) = x ∷ take n xs

  abbrev pub drop : ℕ → List A → List A
  drop zero xs = xs
  drop (suc n) [] = []
  drop (suc n) (x ∷ xs) = drop n xs

  abbrev pub replicate : ℕ → A → List A
  replicate zero a = []
  replicate (suc n) a = a ∷ replicate n a

  -- The bytes `src` copied over the front of the buffer `dst`.
  abbrev pub overlay : List A → List A → List A
  overlay [] dst = dst
  overlay (x ∷ src) [] = []
  overlay (x ∷ src) (y ∷ dst) = x ∷ overlay src dst

  pub length-append : (xs ys : List A) → length (xs ++ ys) ≡ length xs + length ys
  length-append [] ys = omega arith
  length-append (x ∷ xs) ys = omega (arith, length-append xs ys)

suc-add : (m n : ℕ) → suc m + n ≡ suc (m + n)
suc-add m n = omega arith

module _ {ℓ} {A : Type ℓ} where
  pub length-set : (xs : List A) (i : ℕ) (v : A) → length (set xs i v) ≡ length xs
  length-set [] i v = refl
  length-set (x ∷ xs) zero v = refl
  length-set (x ∷ xs) (suc i) v = ap suc (length-set xs i v)

  pub length-overlay : (src dst : List A) → length (overlay src dst) ≡ length dst
  length-overlay [] dst = refl
  length-overlay (x ∷ src) [] = refl
  length-overlay (x ∷ src) (y ∷ dst) = ap suc (length-overlay src dst)

  pub get_elem?-eq-get_or :
      (xs : List A) (i : ℕ) (d : A) → i < length xs → get_elem? xs i ≡ some (get_or xs i d)
  get_elem?-eq-get_or [] i d h = absurd (omega arith)
  get_elem?-eq-get_or (x ∷ xs) zero d h = refl
  get_elem?-eq-get_or (x ∷ xs) (suc i) d h = get_elem?-eq-get_or xs i d (omega arith)

  pub take-append-drop : (n : ℕ) (xs : List A) → take n xs ++ drop n xs ≡ xs
  take-append-drop zero xs = refl
  take-append-drop (suc n) [] = refl
  take-append-drop (suc n) (x ∷ xs) = ap (◌∷◌ x) (take-append-drop n xs)

  pub length-take : (n : ℕ) (xs : List A) → length (take n xs) ≡ min n (length xs)
  length-take zero xs = omega arith
  length-take (suc n) [] = omega arith
  length-take (suc n) (x ∷ xs) = omega (arith, length-take n xs)

  pub length-drop : (n : ℕ) (xs : List A) → length (drop n xs) ≡ length xs - n
  length-drop zero xs = omega arith
  length-drop (suc n) [] = omega arith
  length-drop (suc n) (x ∷ xs) = omega (arith, length-drop n xs)

  -- The elements from `i` on, where there is one.
  pub drop-cons :
      (d : A) (i : ℕ) (xs : List A) → i < length xs → drop i xs ≡ get_or xs i d ∷ drop (suc i) xs
  drop-cons d i [] h = absurd (omega arith)
  drop-cons d zero (x ∷ xs) h = refl
  drop-cons d (suc i) (x ∷ xs) h = drop-cons d i xs (omega arith)

  -- A write just behind a prefix.
  pub set-append :
      (pre : List A) (y v : A) (rest : List A)
      → set (pre ++ (y ∷ rest)) (length pre) v ≡ (pre ++ (v ∷ [])) ++ rest
  set-append [] y v rest = refl
  set-append (x ∷ pre) y v rest = ap (◌∷◌ x) (set-append pre y v rest)

  pub take-overlay :
      (n : ℕ) (src dst : List A) → length src ≡ n → n ≤ length dst → take n (overlay src dst) ≡ src
  take-overlay zero [] dst e h = refl
  take-overlay (suc n) [] dst e h = absurd (omega arith)
  take-overlay n (x ∷ src) [] e h = absurd (omega arith)
  take-overlay zero (x ∷ src) (y ∷ dst) e h = absurd (omega arith)
  take-overlay (suc n) (x ∷ src) (y ∷ dst) e h =
      ap (◌∷◌ x) (take-overlay n src dst (omega arith) (omega arith))

  drop-nil : (n : ℕ) → drop {A = A} n [] ≡ []
  drop-nil zero = refl
  drop-nil (suc n) = refl

  take-nil : (n : ℕ) → take {A = A} n [] ≡ []
  take-nil zero = refl
  take-nil (suc n) = refl

  pub drop-drop : (m n : ℕ) (xs : List A) → drop n (drop m xs) ≡ drop (m + n) xs
  drop-drop zero n xs = ap (λ k. drop k xs) (omega arith)
  drop-drop (suc m) n [] = drop-nil n ∙ sym (drop-nil (suc m + n))
  drop-drop (suc m) n (x ∷ xs) = rw (suc-add m n) (drop-drop m n xs)

  pub take_add : (m n : ℕ) (xs : List A) → take m xs ++ take n (drop m xs) ≡ take (m + n) xs
  take_add zero n xs = ap (λ k. take k xs) (omega arith)
  take_add (suc m) n [] = take-nil n ∙ sym (take-nil (suc m + n))
  take_add (suc m) n (x ∷ xs) = rw (suc-add m n) (ap (◌∷◌ x) (take_add m n xs))

  pub take_of_length_le : (n : ℕ) (xs : List A) → length xs ≤ n → take n xs ≡ xs
  take_of_length_le zero [] h = refl
  take_of_length_le zero (x ∷ xs) h = absurd (omega arith)
  take_of_length_le (suc n) [] h = refl
  take_of_length_le (suc n) (x ∷ xs) h = ap (◌∷◌ x) (take_of_length_le n xs (omega arith))

  pub drop-take : (m n : ℕ) (xs : List A) → drop m (take n xs) ≡ take (n - m) (drop m xs)
  drop-take zero n xs = ap (λ k. take k xs) (omega arith)
  drop-take (suc m) zero xs =
      let none_left : 0 - suc m ≡ 0 = omega arith in
      sym (ap (λ k. take k (drop (suc m) xs)) none_left)
  drop-take (suc m) (suc n) [] = sym (take-nil (suc n - suc m))
  drop-take (suc m) (suc n) (x ∷ xs) =
      let fewer : n - m ≡ suc n - suc m = omega arith in
      drop-take m n xs ∙ ap (λ k. take k (drop m xs)) fewer

  -- Behind the source, the destination is as it was.
  pub drop-overlay :
      (m : ℕ) (src dst : List A) → length src ≤ m → drop m (overlay src dst) ≡ drop m dst
  drop-overlay m [] dst h = refl
  drop-overlay zero (x ∷ src) dst h = absurd (omega arith)
  drop-overlay (suc m) (x ∷ src) [] h = refl
  drop-overlay (suc m) (x ∷ src) (y ∷ dst) h = drop-overlay m src dst (omega arith)

  pub take-replicate : (m n : ℕ) (a : A) → m ≤ n → take m (replicate n a) ≡ replicate m a
  take-replicate zero n a h = refl
  take-replicate (suc m) zero a h = absurd (omega arith)
  take-replicate (suc m) (suc n) a h = ap (◌∷◌ a) (take-replicate m n a (omega arith))

  pub take-append : (k : ℕ) (xs ys : List A) → take (length xs + k) (xs ++ ys) ≡ xs ++ take k ys
  take-append k [] ys = ap (λ n. take n ys) (omega arith)
  take-append k (x ∷ xs) ys = rw (suc-add (length xs) k) (ap (◌∷◌ x) (take-append k xs ys))

  pub get_elem?-overlay :
      (src dst : List A) (i : ℕ) (v : A)
      → i < length dst
      → get_elem? src i ≡ some v
      → get_elem? (overlay src dst) i ≡ some v
  get_elem?-overlay [] dst i v h e = absurd (ground (arith, e))
  get_elem?-overlay (x ∷ src) [] i v h e = absurd (omega arith)
  get_elem?-overlay (x ∷ src) (y ∷ dst) zero v h e = e
  get_elem?-overlay (x ∷ src) (y ∷ dst) (suc i) v h e =
      get_elem?-overlay src dst i v (omega arith) e

  pub get_elem?-lt : (xs : List A) (i : ℕ) (v : A) → get_elem? xs i ≡ some v → i < length xs
  get_elem?-lt [] i v e = absurd (ground (arith, e))
  get_elem?-lt (x ∷ xs) zero v e = omega arith
  get_elem?-lt (x ∷ xs) (suc i) v e = omega (arith, get_elem?-lt xs i v e)
