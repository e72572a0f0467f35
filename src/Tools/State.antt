-- ===== src/Tools/State.antt =====
-- What the tools share: programs on the state of the library, and the open device.

abbrev pub M : Type 0 → Type 0 → Type 0
M S A = S → A × S

module _ {S A : Type 0} where
  abbrev pub pure : A → M S A
  pure a s = (a, s)

module _ {S A B : Type 0} where
  infixl 5 ◌>>=◌ ◌>>◌
  unfoldable pub ◌>>=◌ : M S A → (A → M S B) → M S B
  ◌>>=◌ m k s = k (m s).0 (m s).1

  unfoldable pub ◌>>◌ : M S A → M S B → M S B
  unfolding ◌>>=◌
  m >> n = m >>= λ _. n

-- A function of the library without a result.
abbrev pub run : {S : Type 0} → (S → S) → M S (Unit {0})
run f s = (tt, f s)
