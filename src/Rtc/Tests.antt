-- ===== src/Rtc/Tests.antt =====
-- The theorems on the clock at a setting, a wait and two times.
use linux_base_operating_sys.Prelude.{◌≡◌, true, false, arith, refl, List, [], ◌∷◌, some, none}
use linux_base_operating_sys.Rtc.{Rtc, Time, rtc_read, convert_time}
use linux_base_operating_sys.Rtc.Rate.{comes, rtc_read_waits}
use linux_base_operating_sys.Rtc.Clock.{
  packed24, to_bcd12, hour12_read, IsTime, convert_time-packed12,
}
use linux_base_operating_sys.Rtc.Reading.{Sample, get_update_flag, same_time, binary_to_real_time}
use linux_base_operating_sys.Rtc.Reading.Settled.{
  AllEnd, repeats, readings, ReadTwice, binary_to_real_time-ReadTwice,
}

abbrev idle : Rtc
idle = record { interrupt_flag = 1; curr_rate = 6; curr_frequency = none; outb = [] }

abbrev noon : Time
noon = record { second = 59; minute = 30; hour = 12; day = 31; month = 12; year = 2026 }

noon-IsTime : IsTime noon
noon-IsTime =
    (omega arith, omega arith, omega arith, omega arith, omega arith, omega arith, omega arith)

rtc_read_waits_example :
    (comes (false ∷ true ∷ []) ≡ false → rtc_read (false ∷ true ∷ []) idle ≡ none)
    × (comes (false ∷ true ∷ []) ≡ true
        → (r' : Rtc) × (rtc_read (false ∷ true ∷ []) idle ≡ some r') × (r'.interrupt_flag ≡ 1))
rtc_read_waits_example = rtc_read_waits (false ∷ true ∷ []) idle

convert_time-packed12_example :
    convert_time 0x40 (record (packed24 noon) { hour = to_bcd12 noon.hour })
    ≡ record noon { hour = hour12_read noon.hour }
convert_time-packed12_example = convert_time-packed12 0x40 noon refl refl noon-IsTime

-- One look that sees an update in progress, then readings of which the last two agree.
abbrev first_sample : Sample
first_sample = record { busy = 0x80 ∷ 0x26 ∷ []; registers = record noon { second = 58 } }

abbrev later_samples : List Sample
later_samples =
    record { busy = 0x26 ∷ []; registers = noon }
    ∷ record { busy = 0x26 ∷ []; registers = noon }
    ∷ []

later-AllEnd : AllEnd (first_sample ∷ later_samples)
unfolding get_update_flag
later-AllEnd = (refl, (refl, (refl, tt)))

later-repeats : repeats (readings (first_sample ∷ later_samples)) ≡ true
unfolding same_time
later-repeats = refl

binary_to_real_time-ReadTwice_example :
    (t : Time) × (r' : Rtc) × (binary_to_real_time noon 6 (first_sample ∷ later_samples) idle
      ≡ some (convert_time 6 t, r'))
    × ReadTwice t (noon ∷ readings (first_sample ∷ later_samples))
binary_to_real_time-ReadTwice_example =
    binary_to_real_time-ReadTwice noon 6 first_sample later_samples idle later-AllEnd later-repeats
