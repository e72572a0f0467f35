-- ===== src/Firmware/Bus/Receive.antt =====
-- `i2c_bytein` by what it leaves on the bus, where its waits do not time out, and the address phase of a
-- read.
use smbusb.Prelude.{
  ℕ, ◌≡◌, refl, Bool, true, false, List, [], ◌∷◌, ◌++◌, cond, u8, ap, Bool-cases, inl, inr, ◌∙◌,
}
use smbusb.Firmware.State.{
  I2cs, Env, Event, set_stop, set_lastrd, got, Fw, Run, ok, M, or_else, ◌>>◌, ◌>>=◌, catch, when,
  if◌then◌else◌, access, read_i2dat,
}
use smbusb.Firmware.Keeps.{Post, post_ok, post_failed, Post-bind, Post-mono}
use smbusb.Firmware.Timeout.{IsRunning}
use smbusb.Firmware.I2c.{wait_for, wait_or_stop, bytein_body, i2c_bytein}
use smbusb.Firmware.Bus.{logged, logged-append}
use smbusb.Firmware.Bus.At.{At, At-eq, tick-At, access-At, wait_for-At}

-- The waits of `i2c_bytein` end before they time out: that for DONE once I2DAT has been read, and
-- that for STOP once the last byte has been read with STOP set.
pub record IsPrompt (env : Env) (fuel : ℕ) : Type 0 where
  pub done :
      (b : ℕ) (bus : List Event) (s u : Fw)
      → s.bus ≡ got b ∷ bus
      → ¬ (wait_for env fuel (λ r. r.done) s ≡ ok false u)
  pub stop :
      (b : ℕ) (before : Bool) (bus : List Event) (s u : Fw)
      → s.bus ≡ got b ∷ logged (cond before (set_lastrd ∷ []) []) (set_stop ∷ bus)
      → ¬ (wait_for env fuel (λ r. r.stop) s ≡ ok false u)

-- The accesses of one `i2c_bytein`.
unfoldable pub bytein_events : Bool → Bool → Bool → Bool → ℕ → ℕ → List Event
bytein_events is_first is_single is_before_last is_last discarded b =
    cond is_single (set_lastrd ∷ []) []
    ++ (cond is_first (got discarded ∷ []) []
        ++ (cond is_last (set_stop ∷ []) []
            ++ (cond is_before_last (set_lastrd ∷ []) [] ++ (got b ∷ []))))

-- A byte has been read.
pub record HasRead (s : Fw) (bus : List Event) (first single before last : Bool) (b : ℕ) (t : Fw)
    : Type 0 where
  pub discarded : ℕ
  pub at : At s (logged (bytein_events first single before last discarded b) bus) t

-- The first access to I2DAT of a read has been made, where it was to be made.
pub record Discarded (s : Fw) (bus : List Event) (first : Bool) (t : Fw) : Type 0 where
  pub discarded : ℕ
  pub at : At s (logged (cond first (got discarded ∷ []) []) bus) t

read_i2dat-At :
    (env : Env) {s : Fw} {bus : List Event} {F : Fw → Type 0} (t : Fw)
    → At s bus t
    → Post (λ b u. At s (got b ∷ bus) u) F (read_i2dat env t)
unfolding read_i2dat
read_i2dat-At env t at =
    post_ok (access-At (got (u8 (env.i2dat t.bus t.time))) _ (tick-At env t at))

when-At :
    {s : Fw} {bus : List Event} {F : Fw → Type 0} (b : Bool) (e : Event) (t : Fw)
    → At s bus t
    → Post (λ _ u. At s (logged (cond b (e ∷ []) []) bus) u) F (when b (access e) t)
unfolding when access logged
when-At true e t at = post_ok (access-At e t at)
when-At false e t at = post_ok at

logged_four :
    (xs bs cs ds es bus : List Event)
    → logged es (logged ds (logged cs (logged bs (logged xs bus))))
      ≡ logged (xs ++ (bs ++ (cs ++ (ds ++ es)))) bus
logged_four xs bs cs ds es bus =
    rw
      (
        logged-append xs (bs ++ (cs ++ (ds ++ es))) bus,
        logged-append bs (cs ++ (ds ++ es)) (logged xs bus),
        logged-append cs (ds ++ es) (logged bs (logged xs bus)),
        logged-append ds es (logged cs (logged bs (logged xs bus))),
      )
      refl

caught :
    {A : Type 0} {Q : A → Fw → Type 0} {F : Fw → Type 0} {r : Run A} (k : M A)
    → Post Q (λ _. ⊥) r
    → Post Q F (or_else r k)
caught k (post_ok q) = post_ok q
caught k (post_failed q) = absurd q

-- A run is known by how it ended.
Post-eq :
    {A : Type 0} {Q : A → Fw → Type 0} {F : Fw → Type 0} {r : Run A}
    → Post Q F r
    → Post (λ a u. Q a u × (r ≡ ok a u)) F r
Post-eq (post_ok q) = post_ok (q, refl)
Post-eq (post_failed q) = post_failed q

module _ (env : Env) (fuel : ℕ) (run : IsRunning env fuel) (prompt : IsPrompt env fuel) {s : Fw}
    {F : Fw → Type 0} where
  wait_or_stop-At :
      (seen : I2cs → Bool) {bus : List Event} (t : Fw)
      → ((u : Fw) → ¬ (wait_for env fuel seen t ≡ ok false u))
      → At s bus t
      → Post (λ _ u. At s bus u) F (wait_or_stop env fuel seen t)
  unfolding wait_or_stop ◌>>=◌ if◌then◌else◌
  wait_or_stop-At seen t h at = Post-bind (Post-eq (wait_for-At env fuel run seen t at)) λ done u q.
      elim (Bool-cases done) [
        | inl e ↦ rw e (post_ok q.0)
        | inr e ↦ absurd (h u (q.1 ∙ ap (λ d. ok d u) e))
      ]

  -- The first access to I2DAT, whose value is thrown away.
  discard-At :
      (first : Bool) {bus : List Event} (t : Fw)
      → At s bus t
      → Post
          (λ _ u. Discarded s bus first u)
          F
          (when first (do discard ← read_i2dat env; wait_or_stop env fuel (λ r. r.done)) t)
  unfolding when ◌>>=◌ logged
  discard-At true t at = Post-bind (read_i2dat-At env t at) λ d u q.
      Post-mono (wait_or_stop-At (λ r. r.done) u (λ w. prompt.done d _ u w q.bus_is) q)
        λ _ w q'. record { discarded = d; at = q' }
  discard-At false t at = post_ok (record { discarded = 0; at = at })

  -- The wait after the byte `b` has been read.
  last_wait-At :
      (b : ℕ) (last before : Bool) (bus : List Event) (t : Fw)
      → At s
          (got b
            ∷ logged (cond before (set_lastrd ∷ []) []) (logged (cond last (set_stop ∷ []) []) bus))
          t
      → Post
          (λ _ u.
            At s
              (got b
                ∷ logged
                    (cond before (set_lastrd ∷ []) [])
                    (logged (cond last (set_stop ∷ []) []) bus))
              u)
          F
          ((if last
              then wait_or_stop env fuel (λ r. r.stop)
              else wait_or_stop env fuel (λ r. r.done))
            t)
  unfolding if◌then◌else◌ logged
  last_wait-At b true before bus t at =
      wait_or_stop-At (λ r. r.stop) t (λ u. prompt.stop b before _ t u at.bus_is) at
  last_wait-At b false before bus t at =
      wait_or_stop-At (λ r. r.done) t (λ u. prompt.done b _ t u at.bus_is) at

  body-At :
      (first single before last : Bool) {bus : List Event} (t : Fw)
      → At s bus t
      → Post
          (λ b u. HasRead s bus first single before last b u)
          F
          (bytein_body env fuel first single before last t)
  unfolding bytein_body ◌>>=◌ ◌>>◌ bytein_events logged
  body-At first single before last {bus} t at =
      let singles : List Event = cond single (set_lastrd ∷ []) [] in
      let lasts : List Event = cond last (set_stop ∷ []) [] in
      let befores : List Event = cond before (set_lastrd ∷ []) [] in
      Post-bind (when-At single set_lastrd t at) λ _ t1 at1.
        Post-bind (discard-At first t1 at1) λ _ t2 q2.
          Post-bind (when-At last set_stop t2 q2.at) λ _ t3 at3.
            Post-bind (when-At before set_lastrd t3 at3) λ _ t4 at4.
              Post-bind (read_i2dat-At env t4 at4) λ b t5 at5.
                Post-bind (last_wait-At b last before _ t5 at5) λ _ t6 at6. post_ok (record {
                  discarded = q2.discarded;
                  at = At-eq t6 at6 (
                      logged_four singles (cond first (got q2.discarded ∷ []) []) lasts befores
                        (got b ∷ []) bus);
                })

module _ (env : Env) (fuel : ℕ) (run : IsRunning env fuel) (prompt : IsPrompt env fuel) {s : Fw}
    {F : Fw → Type 0} where
  -- Where none of its waits times out, `i2c_bytein` returns a byte that it has read.
  pub i2c_bytein-At :
      (first single before last : Bool) {bus : List Event} (t : Fw)
      → At s bus t
      → Post
          (λ b u. HasRead s bus first single before last b u)
          F
          (i2c_bytein env fuel first single before last t)
  unfolding i2c_bytein catch
  i2c_bytein-At first single before last t at =
      caught _ (body-At env fuel run prompt {F = λ _. ⊥} first single before last t at)
