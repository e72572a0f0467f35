-- ===== src/Firmware/Keeps.antt =====
-- Total correctness of runs, and the rules for actions that keep a predicate.
use smbusb.Prelude.{Bool, true, false, ◌≡◌, refl}
use smbusb.Firmware.State
use smbusb.Firmware.State.{
  Fw, Run, ok, failed, M, pure, fail, catch, require, ◌>>=◌, ◌>>◌, gets, modify, if◌then◌else◌,
  when,
}

-- The run ends, normally in `Q` or by a jump in `F`; it neither hangs nor faults.
pub data Post {A : Type 0} (Q : A → Fw → Type 0) (F : Fw → Type 0) : Run A → Type 0 where
  post_ok : {a : A} {s : Fw} → Q a s → Post Q F (ok a s)
  post_failed : {s : Fw} → F s → Post Q F (failed s)

module _ {A B : Type 0} {Q : A → Fw → Type 0} {F : Fw → Type 0} where
  pub Post-bind :
      {R : B → Fw → Type 0} {r : Run A} {k : A → M B}
      → Post Q F r
      → ((a : A) (s : Fw) → Q a s → Post R F (k a s))
      → Post R F (State.and_then r k)
  Post-bind (post_ok h) next = next _ _ h
  Post-bind (post_failed h) next = post_failed h

module _ {A : Type 0} {Q : A → Fw → Type 0} {F : Fw → Type 0} where
  pub Post-mono :
      {R : A → Fw → Type 0} {r : Run A}
      → Post Q F r
      → ((a : A) (s : Fw) → Q a s → R a s)
      → Post R F r
  Post-mono (post_ok h) weaken = post_ok (weaken _ _ h)
  Post-mono (post_failed h) weaken = post_failed h

-- The postcondition at the fail label, too.
pub Post-weaken :
    {A : Type 0} {Q R : A → Fw → Type 0} {F G : Fw → Type 0} {r : Run A}
    → Post Q F r
    → ((a : A) (s : Fw) → Q a s → R a s)
    → ((s : Fw) → F s → G s)
    → Post R G r
Post-weaken (post_ok h) weaken after = post_ok (weaken _ _ h)
Post-weaken (post_failed h) weaken after = post_failed (after _ h)

-- From every state in `P`, the action ends, and in `P` again.
pub record Keeps {A : Type 0} (P : Fw → Type 0) (m : M A) : Type 0 where
  pub at : (s : Fw) → P s → Post (λ _ t. P t) P (m s)

module _ {P : Fw → Type 0} where
  pub Keeps-pure : {A : Type 0} (a : A) → Keeps P (pure a)
  Keeps-pure a = record { at = λ s h. post_ok h }

  pub Keeps-fail : {A : Type 0} → Keeps P (fail {A = A})
  Keeps-fail = record { at = λ s h. post_failed h }

  pub Keeps-gets : {A : Type 0} (f : Fw → A) → Keeps P (gets f)
  unfolding gets
  Keeps-gets f = record { at = λ s h. post_ok h }

  pub Keeps-modify : (f : Fw → Fw) → ((s : Fw) → P s → P (f s)) → Keeps P (modify f)
  unfolding modify
  Keeps-modify f kf = record { at = λ s h. post_ok (kf s h) }

  pub Keeps-if :
      {A : Type 0} (b : Bool) (m n : M A)
      → (b ≡ true → Keeps P m)
      → (b ≡ false → Keeps P n)
      → Keeps P (if b then m else n)
  unfolding if◌then◌else◌
  Keeps-if true m n km kn = km refl
  Keeps-if false m n km kn = kn refl

  pub Keeps-require : (b : Bool) → Keeps P (require b)
  unfolding require
  Keeps-require true = Keeps-pure tt
  Keeps-require false = Keeps-fail

  pub Keeps-when : (b : Bool) (m : M (Unit {0})) → (b ≡ true → Keeps P m) → Keeps P (when b m)
  unfolding when
  Keeps-when true m km = km refl
  Keeps-when false m km = Keeps-pure tt

module _ {A B : Type 0} {P : Fw → Type 0} where
  bind-Post :
      {r : Run A} (k : A → M B)
      → Post (λ _ t. P t) P r
      → ((a : A) → Keeps P (k a))
      → Post (λ _ t. P t) P (State.and_then r k)
  bind-Post k (post_ok {a} {s} h) kk = (kk a).at s h
  bind-Post k (post_failed h) kk = post_failed h

  pub Keeps-bind :
      (m : M A) (k : A → M B) → Keeps P m → ((a : A) → Keeps P (k a)) → Keeps P (m >>= k)
  unfolding ◌>>=◌
  Keeps-bind m k km kk = record { at = λ s h. bind-Post k (km.at s h) kk }

  pub Keeps-then : (m : M A) (n : M B) → Keeps P m → Keeps P n → Keeps P (m >> n)
  unfolding ◌>>◌
  Keeps-then m n km kn = Keeps-bind m (λ _. n) km (λ _. kn)

module _ {A : Type 0} {P : Fw → Type 0} where
  catch-Post :
      {r : Run A} (k : M A)
      → Post (λ _ t. P t) P r
      → Keeps P k
      → Post (λ _ t. P t) P (State.or_else r k)
  catch-Post k (post_ok h) kk = post_ok h
  catch-Post k (post_failed {s} h) kk = kk.at s h

  pub Keeps-catch : (m k : M A) → Keeps P m → Keeps P k → Keeps P (catch m k)
  unfolding catch
  Keeps-catch m k km kk = record { at = λ s h. catch-Post k (km.at s h) kk }

pub ruleset keeps_rules = (
  Keeps-pure, Keeps-fail, Keeps-gets, Keeps-modify, Keeps-if, Keeps-require, Keeps-when, Keeps-bind,
  Keeps-then, Keeps-catch,
)

-- `Keeps`, with a property of the value that the action returns.
pub record Yields {A : Type 0} (Q : A → Type 0) (P : Fw → Type 0) (m : M A) : Type 0 where
  pub at : (s : Fw) → P s → Post (λ a t. Q a × P t) P (m s)

module _ {A : Type 0} {Q : A → Type 0} {P : Fw → Type 0} where
  pub Yields-pure : (a : A) → Q a → Yields Q P (pure a)
  Yields-pure a q = record { at = λ s h. post_ok (q, h) }

  pub Yields-fail : Yields Q P (fail {A = A})
  Yields-fail = record { at = λ s h. post_failed h }

  pub Yields-if :
      (b : Bool) (m n : M A)
      → (b ≡ true → Yields Q P m)
      → (b ≡ false → Yields Q P n)
      → Yields Q P (if b then m else n)
  unfolding if◌then◌else◌
  Yields-if true m n km kn = km refl
  Yields-if false m n km kn = kn refl

  pub Yields-mono : {R : A → Type 0} {m : M A} → Yields Q P m → ((a : A) → Q a → R a) → Yields R P m
  Yields-mono y weaken = record { at = λ s h. Post-mono (y.at s h) λ a t q. (weaken a q.0, q.1) }

module _ {A B : Type 0} {Q : B → Type 0} {P : Fw → Type 0} where
  pub Yields-bind :
      (m : M A) (k : A → M B) → Keeps P m → ((a : A) → Yields Q P (k a)) → Yields Q P (m >>= k)
  unfolding ◌>>=◌
  Yields-bind m k km kk = record { at = λ s h. Post-bind (km.at s h) λ a t q. (kk a).at t q }

  pub Yields-then : (m : M A) (n : M B) → Keeps P m → Yields Q P n → Yields Q P (m >> n)
  unfolding ◌>>◌
  Yields-then m n km kn = Yields-bind m (λ _. n) km (λ _. kn)

  pub Yields-Yields :
      {R : A → Type 0} (m : M A) (k : A → M B)
      → Yields R P m
      → ((a : A) → R a → Yields Q P (k a))
      → Yields Q P (m >>= k)
  unfolding ◌>>=◌
  Yields-Yields m k km kk = record {
    at = λ s h. Post-bind (km.at s h) λ a t q. (kk a q.0).at t q.1;
  }

module _ {A : Type 0} {Q : A → Type 0} {P : Fw → Type 0} where
  catch-Yields :
      {r : Run A} {k : M A}
      → Post (λ a t. Q a × P t) P r
      → Yields Q P k
      → Post (λ a t. Q a × P t) P (State.or_else r k)
  catch-Yields (post_ok h) kk = post_ok h
  catch-Yields (post_failed {s} h) kk = kk.at s h

  pub Yields-catch : (m k : M A) → Yields Q P m → Yields Q P k → Yields Q P (catch m k)
  unfolding catch
  Yields-catch m k km kk = record { at = λ s h. catch-Yields (km.at s h) kk }

  pub Keeps-Yields :
      {B : Type 0} (m : M A) (k : A → M B)
      → Yields Q P m
      → ((a : A) → Q a → Keeps P (k a))
      → Keeps P (m >>= k)
  unfolding ◌>>=◌
  Keeps-Yields m k km kk = record { at = λ s h. Post-bind (km.at s h) λ a t q. (kk a q.0).at t q.1 }

pub ruleset yields_rules = (Yields-pure, Yields-fail, Yields-if, Yields-bind, Yields-then)
