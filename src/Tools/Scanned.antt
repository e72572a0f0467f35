-- ===== src/Tools/Scanned.antt =====
-- Which addresses a scan of addresses probes.
use smbusb.Prelude.{
  ℕ, zero, suc, ◌+◌, ◌-◌, ◌≤◌, ◌<◌, ◌≡◌, ◌∙◌, refl, ap, Bool, true, false, not, ◌&&◌, Option, some,
  List, [], ◌∷◌, ◌++◌, arith, length, get_or, set, length-set, leb, ◌==◌, cond, ℤ,
}
use smbusb.Facade.Device.{SmbDriver, Name, Library, smb_test_address_ack}
use smbusb.Tools.State.{M, pure, ◌>>=◌}
use smbusb.Tools.Scan.{
  Report, Settings, scan_rounds, scan, probed, and_more, report_ack, reserved, scan_addresses,
}

-- The numbers from `i` on, `n` of them, that satisfy a test.
abbrev pub filter : (ℕ → Bool) → List ℕ → List ℕ
filter p [] = []
filter p (x ∷ xs) = cond (p x) (x ∷ filter p xs) (filter p xs)

abbrev pub range : ℕ → ℕ → List ℕ
range i zero = []
range i (suc n) = i ∷ range (i + 1) n

-- A driver that is asked about each of these, one after the other.
module _ {S : Type 0} (probe : ℕ → M S ℤ) (report : ℕ → ℤ → List Report) where
  abbrev pub ask_each : List ℕ → M S (List Report)
  ask_each [] s = ([], s)
  ask_each (i ∷ is) s =
      let rest = ask_each is (probe i s).1 in (report i (probe i s).0 ++ rest.0, rest.1)

  -- A round, by whether the entry is to be skipped.
  round-ask_each :
      (skip_map : List ℕ) (loop : M S (Option (List Report))) (kept : List ℕ) (i : ℕ) (s : S)
      (b : Bool)
      → ((t : S) → loop t ≡ (some (ask_each kept t).0, (ask_each kept t).1))
      → cond b loop
          (probed probe report skip_map i >>= λ found.
            loop >>= λ more. pure (and_more probe report skip_map found more))
          s
        ≡ (
          some (ask_each (cond (not b) (i ∷ kept) kept) s).0,
          (ask_each (cond (not b) (i ∷ kept) kept) s).1,
        )
  unfolding ◌>>=◌
  round-ask_each skip_map loop kept i s true ih = ih s
  round-ask_each skip_map loop kept i s false ih = rw (ih (probe i s).1) refl

  scan_rounds-ask_each :
      (skip_map : List ℕ) (left i : ℕ) (s : S)
      → i + left ≤ 256
      → scan_rounds probe report skip_map left i s ≡ (
          let asked = ask_each (filter (λ k. not (get_or skip_map k 0 == 0xFF)) (range i left)) s in
          (some asked.0, asked.1))
  unfolding scan_rounds
  scan_rounds-ask_each skip_map zero i s h = refl
  scan_rounds-ask_each skip_map (suc left) i s h =
      let low : leb 256 i ≡ false = ground arith in
      rw low (
        round-ask_each skip_map (scan_rounds probe report skip_map left (i + 1))
          (filter (λ k. not (get_or skip_map k 0 == 0xFF)) (range (i + 1) left)) i s
          (get_or skip_map i 0 == 0xFF)
          λ t. scan_rounds-ask_each skip_map left (i + 1) t (omega arith))

get_or-set :
    (xs : List ℕ) (i k v : ℕ)
    → i < length xs
    → get_or (set xs i v) k 0 ≡ cond (k == i) v (get_or xs k 0)
get_or-set [] i k v h = absurd (omega arith)
get_or-set (x ∷ xs) zero zero v h = refl
get_or-set (x ∷ xs) zero (suc k) v h = ground arith
get_or-set (x ∷ xs) (suc i) zero v h = ground arith
get_or-set (x ∷ xs) (suc i) (suc k) v h =
    let same : (suc k == suc i) ≡ (k == i) = ground arith in
    rw same (get_or-set xs i k v (omega arith))

-- What the user did not ask to skip, but for the EEPROM of the FX2.
abbrev pub wanted : List ℕ → ℕ → Bool
wanted skip_map k = not (get_or skip_map k 0 == 0xFF) && not (k == 0xA0) && not (k == 0xA1)

reserved-wanted :
    (skip_map : List ℕ) (k : ℕ)
    → length skip_map ≡ 256
    → not (get_or (reserved skip_map) k 0 == 0xFF) ≡ wanted skip_map k
reserved-wanted skip_map k size =
    let room : 0xA1 < length (set skip_map 0xA0 0xFF) =
      omega (arith, length-set skip_map 0xA0 0xFF) in
    let room0 : 0xA0 < length skip_map = omega arith in
    rw (get_or-set (set skip_map 0xA0 0xFF) 0xA1 k 0xFF room, get_or-set skip_map 0xA0 k 0xFF room0)
      (ground arith)

filter_congr : (p q : ℕ → Bool) → ((k : ℕ) → p k ≡ q k) → (xs : List ℕ) → filter p xs ≡ filter q xs
filter_congr p q h [] = refl
filter_congr p q h (x ∷ xs) = rw (h x, filter_congr p q h xs) refl

module _ {D : Type 0} (table : Name → SmbDriver D) where
  -- A scan of addresses up to 0xFF asks the library for an ACK at each address from `start` to `stop` once,
  -- in order, but for those to be skipped and 0xA0 and 0xA1, and reports what it is told.
  pub scan_addresses-ask_each :
      (settings : Settings) (s : Library D)
      → length settings.skip_map ≡ 256
      → settings.start ≤ settings.stop
      → settings.stop ≤ 0xFF
      → scan_addresses table settings s ≡ (
          let asked =
            ask_each
              (smb_test_address_ack table)
              report_ack
              (filter
                (wanted settings.skip_map)
                (range settings.start (settings.stop + 1 - settings.start)))
              s in
          (some asked.0, asked.1))
  unfolding scan_addresses scan
  scan_addresses-ask_each settings s size order low =
      scan_rounds-ask_each (smb_test_address_ack table) report_ack (reserved settings.skip_map)
        count settings.start s (omega arith)
      ∙ ap
          (λ asked. (
            some (ask_each (smb_test_address_ack table) report_ack asked s).0,
            (ask_each (smb_test_address_ack table) report_ack asked s).1,
          ))
          (filter_congr (λ k. not (get_or (reserved settings.skip_map) k 0 == 0xFF))
            (wanted settings.skip_map) (λ k. reserved-wanted settings.skip_map k size)
            (range settings.start count))
    where
      count : ℕ
      count = settings.stop + 1 - settings.start
