-- ===== src/Rtc/Clock.antt =====
-- The time of day after its conversion.
use linux_base_operating_sys.Prelude.{
  ℕ, ◌+◌, ◌*◌, ◌/◌, ◌%◌, ◌≤◌, ◌<◌, ◌≡◌, ◌∙◌, refl, true, ltb, ◌==◌, if◌then◌else◌, bit_and, arith,
  every_below, every_below_at, ==_iff,
}
use linux_base_operating_sys.Rtc.{Time, convert_time, bcd_hour, to_24_hours, from_bcd}

-- Two decimal digits as the chip packs them.
abbrev to_bcd : ℕ → ℕ
to_bcd n = n / 10 * 16 + n % 10

bcd_table : every_below 100 (λ n. from_bcd (to_bcd n) == n) ≡ true
unfolding every_below
bcd_table = refl

from_bcd-to_bcd : (n : ℕ) → n < 100 → from_bcd (to_bcd n) ≡ n
from_bcd-to_bcd n h =
    (==_iff _ _).0 (every_below_at 100 (λ n. from_bcd (to_bcd n) == n) n bcd_table h)

year_table : every_below 100 (λ n. bit_and (to_bcd n) 0x0F + to_bcd n / 16 * 10 == n) ≡ true
unfolding every_below
year_table = refl

-- The register of an hour in 12-hour format: bit 7 tells the afternoon.
abbrev pub to_bcd12 : ℕ → ℕ
to_bcd12 h =
    let hour12 : ℕ = (if h % 12 == 0 then 12 else h % 12) in
    if ltb h 12 then to_bcd hour12 else to_bcd hour12 + 128

hour_table : every_below 60 (λ n. bcd_hour (to_bcd n) == n) ≡ true
unfolding every_below bcd_hour
hour_table = refl

hour12_table :
    every_below 24 (λ h.
      to_24_hours 0 (bcd_hour (to_bcd12 h)) == (if h == 0 then 12 else if h == 12 then 0 else h))
    ≡ true
unfolding every_below bcd_hour to_24_hours
hour12_table = refl

-- The registers of a time in 24-hour BCD format.
abbrev pub packed24 : Time → Time
packed24 t = record {
  second = to_bcd t.second;
  minute = to_bcd t.minute;
  hour = to_bcd t.hour;
  day = to_bcd t.day;
  month = to_bcd t.month;
  year = to_bcd (t.year % 100);
}

abbrev pub IsTime : Time → Type 0
IsTime t =
    (t.second < 60)
    × (t.minute < 60)
    × (t.hour < 24)
    × (t.day < 32)
    × (t.month < 13)
    × (2017 ≤ t.year)
    × (t.year < 2117)

-- Registers in 24-hour BCD format (register B with the 24-hour bit alone) are converted to the time
-- that they encode, for the hundred years from 2017 on.
pub convert_time-packed24 : (t : Time) → IsTime t → convert_time 2 (packed24 t) ≡ t
unfolding convert_time
convert_time-packed24 t h = ground (
  arith,
  from_bcd-to_bcd t.second,
  from_bcd-to_bcd t.minute,
  from_bcd-to_bcd t.day,
  from_bcd-to_bcd t.month,
  hour_of t.hour,
  year_of t.year,
)
  where
    hour_of : (n : ℕ) → n < 24 → bcd_hour (to_bcd n) ≡ n
    hour_of n h =
        (==_iff _ _).0
          (every_below_at 60 (λ n. bcd_hour (to_bcd n) == n) n hour_table (omega arith))

    year_of : (y : ℕ) → bit_and (to_bcd (y % 100)) 0x0F + to_bcd (y % 100) / 16 * 10 ≡ y % 100
    year_of y = (==_iff _ _).0 (
        every_below_at 100 (λ n. bit_and (to_bcd n) 0x0F + to_bcd n / 16 * 10 == n) (y % 100)
          year_table (omega arith))

-- The hour that the code makes of an hour in 12-hour format: right but for noon, which becomes 0,
-- and midnight, which becomes 12.
abbrev pub hour12_read : ℕ → ℕ
hour12_read h = if h == 0 then 12 else if h == 12 then 0 else h

-- Only bits 1 and 2 of register B count.
convert_time-format :
    (b : ℕ) (t : Time) → bit_and b 2 ≡ 0 → bit_and b 4 ≡ 0 → convert_time b t ≡ convert_time 0 t
unfolding convert_time to_24_hours
convert_time-format b t hours binary = rw (hours, binary) refl

convert_12 :
    (t : Time)
    → IsTime t
    → convert_time 0 (record (packed24 t) { hour = to_bcd12 t.hour })
      ≡ record t { hour = hour12_read t.hour }
unfolding convert_time
convert_12 t h = ground (
  arith,
  from_bcd-to_bcd t.second,
  from_bcd-to_bcd t.minute,
  from_bcd-to_bcd t.day,
  from_bcd-to_bcd t.month,
  hour_of t.hour,
  year_of t.year,
)
  where
    hour_of : (n : ℕ) → n < 24 → to_24_hours 0 (bcd_hour (to_bcd12 n)) ≡ hour12_read n
    hour_of n h = (==_iff _ _).0 (
        every_below_at 24 (λ n. to_24_hours 0 (bcd_hour (to_bcd12 n)) == hour12_read n) n
          hour12_table h)

    year_of : (y : ℕ) → bit_and (to_bcd (y % 100)) 0x0F + to_bcd (y % 100) / 16 * 10 ≡ y % 100
    year_of y = (==_iff _ _).0 (
        every_below_at 100 (λ n. bit_and (to_bcd n) 0x0F + to_bcd n / 16 * 10 == n) (y % 100)
          year_table (omega arith))

-- Registers in 12-hour BCD format (any register B with neither the 24-hour bit nor the binary bit)
-- of a time from 2017 to 2116 give the minutes, the seconds and the date that they encode, and the
-- hour except at noon and at midnight, which are swapped.
pub convert_time-packed12 :
    (register_b : ℕ) (t : Time)
    → bit_and register_b 2 ≡ 0
    → bit_and register_b 4 ≡ 0
    → IsTime t
    → convert_time register_b (record (packed24 t) { hour = to_bcd12 t.hour })
      ≡ record t { hour = hour12_read t.hour }
convert_time-packed12 register_b t hours binary h =
    convert_time-format register_b (record (packed24 t) { hour = to_bcd12 t.hour }) hours binary
    ∙ convert_12 t h
