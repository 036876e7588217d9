-- ===== src/Rtc/Rate.antt =====
-- The rate that `set_frequency` programs.
use linux_base_operating_sys.Prelude.{
  ℕ, ◌+◌, ◌-◌, ◌*◌, ◌/◌, ◌^◌, ◌≤◌, ◌<◌, ◌≡◌, ◌≢◌, refl, Bool, true, false, ltb, ◌==◌, if◌then◌else◌,
  ◌||◌, List, [], ◌∷◌, ◌++◌, some, none, bit_and, bit_or, arith, every_below, every_below_at,
  ==_iff,
}
use linux_base_operating_sys.Rtc.{
  Rtc, set_frequency, find_rate, clamp_rate, frequencies, cmos_rtc_port, select_reg, get_elem?,
  rtc_read, rtc_spin, rtc_handler,
}

-- Interrupts per second at a rate, by the chip's divider.
abbrev pub interrupts : ℕ → ℕ
interrupts rate = 32768 / 2 ^ (rate - 1)

-- Whether a frequency is in the table.
abbrev offered : List ℕ → ℕ → Bool
offered [] f = false
offered (x ∷ xs) f = f == x || offered xs f

-- What the driver should choose: an offered frequency up to 1024 as it is, a higher one as 1024,
-- and 2 for all else.
abbrev pub chosen : ℕ → ℕ
chosen f = if offered frequencies f then (if ltb 1024 f then 1024 else f) else 2

rate_chosen :
    (f : ℕ)
    → let rate = clamp_rate (find_rate frequencies f 0 + 1) in
      (interrupts rate ≡ chosen f) × (6 ≤ rate) × (rate ≤ 15)
unfolding clamp_rate find_rate
rate_chosen f = ground arith

abbrev same_high_half : ℕ → ℕ → Bool
same_high_half prev rate = bit_or (bit_and prev 0xF0) rate == prev / 16 * 16 + rate

high_half_table : every_below 256 (λ p. every_below 16 (λ r. same_high_half p r)) ≡ true
unfolding every_below
high_half_table = refl

keeps_high_half :
    (prev rate : ℕ)
    → prev < 256
    → rate < 16
    → bit_or (bit_and prev 0xF0) rate ≡ prev / 16 * 16 + rate
keeps_high_half prev rate h l = (==_iff _ _).0 (
    every_below_at 16 (same_high_half prev) rate
      (every_below_at 256 (λ p. every_below 16 (λ r. same_high_half p r)) prev high_half_table h) l)

-- `set_frequency` selects register A with NMI off, twice, and then writes back the high half that
-- the register held with a rate from 6 to 15 in its low half; at that rate the chip interrupts at
-- the frequency asked for if it is offered and at most 1024, at 1024 if it is higher, and else at 2.
pub set_frequency_lem :
    (prev_data f : ℕ) (r : Rtc)
    → prev_data < 256
    → let r' = set_frequency prev_data f r in
      (interrupts r'.curr_rate ≡ chosen f)
      × (6 ≤ r'.curr_rate)
      × (r'.curr_rate ≤ 15)
      × (r'.outb
          ≡ r.outb
            ++ ((select_reg, 0x8A)
                ∷ (select_reg, 0x8A)
                ∷ (cmos_rtc_port, prev_data / 16 * 16 + r'.curr_rate)
                ∷ []))
      × (r'.interrupt_flag ≡ r.interrupt_flag)
unfolding set_frequency
set_frequency_lem prev_data f r h =
    let c = rate_chosen f in
    let rate : ℕ = clamp_rate (find_rate frequencies f 0 + 1) in
    (c.0, c.1, c.2, rw (keeps_high_half prev_data rate h (omega (arith, c.2))), refl)

curr_frequency_of_rate :
    (rate : ℕ) → 6 ≤ rate → rate ≤ 15 → get_elem? frequencies rate ≢ some (interrupts rate)
curr_frequency_of_rate rate a b = ground arith

-- The frequency that the driver remembers is never the one at which the chip interrupts: the code
-- indexes the table by the rate, which is one too far.
pub curr_frequency_wrong :
    (prev_data f : ℕ) (r : Rtc)
    → let r' = set_frequency prev_data f r in r'.curr_frequency ≢ some (interrupts r'.curr_rate)
unfolding set_frequency
curr_frequency_wrong prev_data f r = let c = rate_chosen f in curr_frequency_of_rate _ c.1 c.2

-- Whether the interrupt comes at one of the looks.
abbrev pub comes : List Bool → Bool
comes [] = false
comes (w ∷ ws) = w || comes ws

spin_waits :
    (waits : List Bool) (r : Rtc)
    → r.interrupt_flag ≡ 0
    → comes waits ≡ false
    → rtc_spin waits r ≡ none
unfolding rtc_spin
spin_waits [] r z c = refl
spin_waits (w ∷ ws) r z c = ground (arith, spin_waits ws r)

spin_ends :
    (waits : List Bool) (r : Rtc)
    → r.interrupt_flag ≡ 0
    → comes waits ≡ true
    → (r' : Rtc) × (rtc_spin waits r ≡ some r') × (r'.interrupt_flag ≡ 1)
unfolding rtc_spin rtc_handler
spin_ends [] r z c = cc
spin_ends (true ∷ ws) r z c = (rtc_handler r, ground arith, ground arith)
spin_ends (false ∷ ws) r z c = let (r', e, one) = spin_ends ws r z c in (r', ground (arith, e), one)

-- `rtc_read` returns exactly when an interrupt comes after the call: a flag that an earlier
-- interrupt set does not count.
pub rtc_read_waits :
    (waits : List Bool) (r : Rtc)
    → (comes waits ≡ false → rtc_read waits r ≡ none)
      × (comes waits ≡ true → (r' : Rtc) × (rtc_read waits r ≡ some r') × (r'.interrupt_flag ≡ 1))
unfolding rtc_read
rtc_read_waits waits r = (
  spin_waits waits (record r { interrupt_flag = 0 }) refl,
  spin_ends waits (record r { interrupt_flag = 0 }) refl,
)
