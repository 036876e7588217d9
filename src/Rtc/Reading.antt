-- ===== src/Rtc/Reading.antt =====
-- How the time is read from the clock and shown: `binary_to_real_time` and `print_time` of
-- student-distrib/rtc.c.
pub mod Settled
use linux_base_operating_sys.Prelude.{
  ℕ, zero, suc, ◌+◌, ◌^◌, ◌<◌, ◌≡◌, Bool, true, false, ◌&&◌, ◌==◌, ◌!=◌, if◌then◌else◌, Option,
  some, none, List, [], ◌∷◌, ◌++◌, bit_and, refl, sym, ap, ◌∙◌, arith, Bool-cases, inl, inr, either,
}
use linux_base_operating_sys.Printf
use linux_base_operating_sys.Printf.{word}
use linux_base_operating_sys.Screen.{Screen}
use linux_base_operating_sys.Kernel.{codes}
use linux_base_operating_sys.Rtc.{Rtc, Time, convert_time, select_reg}

-- What the chip answers: the status of register A at each look of a wait, until one without an
-- update in progress, and the registers of the time that are read after it.
pub record Sample : Type 0 where
  pub busy : List ℕ
  pub registers : Time

-- outb(reg, SELECT_REG); the value of `inb` is an argument of what uses it.
pub get_rtc_reg : ℕ → Rtc → Rtc
get_rtc_reg reg r = record r { outb = r.outb ++ ((select_reg, reg) ∷ []) }

-- `get_update_flag` of a register A.
unfoldable pub get_update_flag : ℕ → ℕ
get_update_flag reg_a = bit_and reg_a 0x80

-- while(get_update_flag()); `none` while no look has found the flag clear.
pub wait_update : List ℕ → Rtc → Option Rtc
unfolding get_rtc_reg get_update_flag
wait_update [] r = none
wait_update (a ∷ looks) r =
    let r1 : Rtc = get_rtc_reg 0x0A r in
    let again = wait_update looks r1 in if get_update_flag a == 0 then some r1 else again

-- `update_time` selects the six registers.
pub update_time : Rtc → Rtc
unfolding get_rtc_reg
update_time r =
    get_rtc_reg 0x09 (
      get_rtc_reg 0x08
        (get_rtc_reg 0x07 (get_rtc_reg 0x04 (get_rtc_reg 0x02 (get_rtc_reg 0x00 r)))))

unfoldable pub same_time : Time → Time → Bool
same_time a b =
    a.second == b.second
    && a.minute == b.minute
    && a.hour == b.hour
    && a.day == b.day
    && a.month == b.month
    && a.year == b.year

-- A wait and a reading.
pub take_sample : Sample → Rtc → Option Rtc
unfolding wait_update update_time
take_sample s r = elim (wait_update s.busy r) [ none ↦ none | some r1 ↦ some (update_time r1) ]

-- The loop: `last` is the reading before `now`.
pub settle : Time → Time → List Sample → Rtc → Option (Time × Rtc)
unfolding same_time take_sample
settle last now [] r = if same_time last now then some (now, r) else none
settle last now (s ∷ more) r = elim (same_time last now) [
  | true ↦ some (now, r)
  | false ↦ elim (take_sample s r) [ none ↦ none | some r1 ↦ settle now s.registers more r1 ]
]

-- `garbage` is what the local variables `last_second` to `last_year` hold before they are written,
-- and `register_b` what register B holds.
pub binary_to_real_time : Time → ℕ → List Sample → Rtc → Option (Time × Rtc)
unfolding settle
binary_to_real_time garbage register_b [] r = none
binary_to_real_time garbage register_b (s ∷ more) r = elim (take_sample s r) [
  | none ↦ none
  | some r1 ↦ elim (settle garbage s.registers more r1) [
    | none ↦ none
    | some (t, r2) ↦ some (convert_time register_b t, get_rtc_reg 0x0B r2)
  ]
]

-- The six lines that `print_time` prints of the time that it reads; `stack` is what the buffers of
-- `printf` hold.
abbrev time_formats : Time → List (List ℕ × ℕ)
time_formats t =
    (codes "second: %d ", t.second)
    ∷ (codes "minute: %d ", t.minute)
    ∷ (codes "hour: %d ", t.hour)
    ∷ (codes "day: %d ", t.day)
    ∷ (codes "month: %d ", t.month)
    ∷ (codes "year: %d\n", t.year)
    ∷ []

pub print_each : (ℕ → ℕ) → ℕ → List (List ℕ × ℕ) → Screen → Option Screen
print_each stack t [] s = some s
print_each stack t ((format, v) ∷ rest) s = elim (Printf.printf stack t format (word v ∷ []) s) [
  | none ↦ none
  | some (n, s') ↦ print_each stack t rest s'
]

pub print_time : (ℕ → ℕ) → ℕ → Time → ℕ → List Sample → Rtc × Screen → Option (Rtc × Screen)
unfolding print_each
print_time stack term garbage register_b samples (r, s) =
    elim (binary_to_real_time garbage register_b samples r) [
      | none ↦ none
      | some (now, r1) ↦ elim (print_each stack term (time_formats now) s) [
        | none ↦ none
        | some s1 ↦ some (r1, s1)
      ]
    ]
