-- ===== src/Rtc/Reading/Settled.antt =====
-- When the reading of the clock in student-distrib/rtc.c comes to an end, and with which time.
use linux_base_operating_sys.Prelude.{
  ℕ, ◌≡◌, ◌⊎◌, inl, inr, Bool, true, false, ◌||◌, ◌==◌, Option, some, List, [], ◌∷◌, refl, sym, ap,
  ◌∙◌, arith, Bool-cases, either,
}
use linux_base_operating_sys.Rtc.{Rtc, Time, convert_time}
use linux_base_operating_sys.Rtc.Reading.{
  Sample, get_rtc_reg, get_update_flag, wait_update, update_time, same_time, take_sample, settle,
  binary_to_real_time,
}

-- Whether a wait finds the flag clear.
abbrev pub ends_wait : List ℕ → Bool
ends_wait [] = false
ends_wait (a ∷ looks) = get_update_flag a == 0 || ends_wait looks

-- All the waits end.
abbrev pub AllEnd : List Sample → Type 0
AllEnd [] = Unit
AllEnd (s ∷ more) = (ends_wait s.busy ≡ true) × AllEnd more

-- Whether two readings in a row agree.
abbrev pub repeats : List Time → Bool
repeats [] = false
repeats (a ∷ []) = false
repeats (a ∷ b ∷ rest) = same_time a b || repeats (b ∷ rest)

-- The time is the second of two readings in a row that agree.
abbrev pub ReadTwice : Time → List Time → Type 0
ReadTwice t [] = ⊥
ReadTwice t (a ∷ []) = ⊥
ReadTwice t (a ∷ b ∷ rest) = ((same_time a b ≡ true) × (b ≡ t)) ⊎ ReadTwice t (b ∷ rest)

abbrev pub readings : List Sample → List Time
readings [] = []
readings (s ∷ more) = s.registers ∷ readings more

or_true : (a : Bool) {b : Bool} → b ≡ true → a || b ≡ true
or_true true e = refl
or_true false e = e

or_false : (a : Bool) → a ≡ (a || false)
or_false true = refl
or_false false = refl

wait_update-some :
    (looks : List ℕ) (r : Rtc)
    → ends_wait looks ≡ true
    → (r' : Rtc) × (wait_update looks r ≡ some r')
unfolding wait_update
wait_update-some [] r e = absurd (ground (arith, e))
wait_update-some (a ∷ looks) r e =
    either {A = Option Rtc} (λ o. (r' : Rtc) × (o ≡ some r')) (get_update_flag a == 0)
      (λ clear. (get_rtc_reg 0x0A r, refl))
      (λ busy.
        wait_update-some looks (get_rtc_reg 0x0A r) (sym (ap (λ b. b || ends_wait looks) busy) ∙ e))

take_sample-some :
    (s : Sample) (r : Rtc) → ends_wait s.busy ≡ true → (r' : Rtc) × (take_sample s r ≡ some r')
unfolding take_sample
take_sample-some s r e =
    let (r1, w) = wait_update-some s.busy r e in (update_time r1, rw (w, take_sample) refl)

settle-ReadTwice :
    (last now : Time) (more : List Sample) (r : Rtc)
    → AllEnd more
    → repeats (last ∷ now ∷ readings more) ≡ true
    → (t : Time) × (r' : Rtc) × (settle last now more r ≡ some (t, r'))
      × ReadTwice t (last ∷ now ∷ readings more)
unfolding settle
settle-ReadTwice last now [] r ends again =
    let e : same_time last now ≡ true = or_false (same_time last now) ∙ again in
    (now, r, rw (e, settle) refl, inl (e, refl))
settle-ReadTwice last now (s ∷ more) r ends again = elim (Bool-cases (same_time last now)) [
  | inl e ↦ (now, r, rw (e, settle) refl, inl (e, refl))
  | inr e ↦
      let (r1, taken) = take_sample-some s r ends.0 in
      let (t, r', found, twice) =
        settle-ReadTwice now s.registers more r1 ends.1
          (sym (ap (λ b. b || repeats (now ∷ readings (s ∷ more))) e) ∙ again) in
      (t, r', rw (e, taken, settle) found, inr twice)
]

-- If every wait for the end of an update ends and two readings in a row agree, the time is read and
-- converted: it is a time that was read twice in a row, or the first reading if that agrees with
-- what the local variables happen to hold.
pub binary_to_real_time-ReadTwice :
    (garbage : Time) (register_b : ℕ) (s : Sample) (more : List Sample) (r : Rtc)
    → AllEnd (s ∷ more)
    → repeats (readings (s ∷ more)) ≡ true
    → (t : Time) × (r' : Rtc) × (binary_to_real_time garbage register_b (s ∷ more) r
        ≡ some (convert_time register_b t, r'))
      × ReadTwice t (garbage ∷ readings (s ∷ more))
unfolding binary_to_real_time
binary_to_real_time-ReadTwice garbage register_b s more r ends again =
    let (r1, taken) = take_sample-some s r ends.0 in
    let (t, r2, found, twice) =
      settle-ReadTwice garbage s.registers more r1 ends.1
        (or_true (same_time garbage s.registers) again) in
    (t, get_rtc_reg 0x0B r2, rw (taken, found, binary_to_real_time) refl, twice)
