-- ===== src/Rtc.antt =====
-- The real-time clock driver of student-distrib/rtc.c. `inb` results are arguments; the `outb` calls
-- are kept in the order in which they are made, each as (port, value).
mod Tests
pub mod Rate
pub mod Clock
pub mod Reading
use linux_base_operating_sys.Prelude.{
  ℕ, zero, suc, ◌+◌, ◌-◌, ◌*◌, ◌/◌, ◌%◌, ◌<◌, Bool, true, false, ◌&&◌, ◌||◌, not, ltb, leb, ◌==◌,
  ◌!=◌, if◌then◌else◌, List, [], ◌∷◌, ◌++◌, Option, some, none, bit_and, bit_or, add32,
}

abbrev num_freq : ℕ
num_freq = 14

abbrev max_rate : ℕ
max_rate = 6

abbrev min_rate : ℕ
min_rate = 15

abbrev pub frequencies : List ℕ
frequencies =
    32768 ∷ 16384 ∷ 8192 ∷ 4096 ∷ 2048 ∷ 1024 ∷ 512 ∷ 256 ∷ 128 ∷ 64 ∷ 32 ∷ 16 ∷ 8 ∷ 4 ∷ []

abbrev pub select_reg : ℕ
select_reg = 0x70

abbrev pub cmos_rtc_port : ℕ
cmos_rtc_port = 0x71

abbrev reg_a : ℕ
reg_a = 0x0A

abbrev reg_c : ℕ
reg_c = 0x0C

abbrev disable_nmi : ℕ
disable_nmi = 0x80

-- `curr_frequency` is `none` after a read outside the array of frequencies.
pub record Rtc : Type 0 where
  pub interrupt_flag : ℕ
  pub curr_rate : ℕ
  pub curr_frequency : Option ℕ
  pub outb : List (ℕ × ℕ)

abbrev pub get_elem? {ℓ} : {A : Type ℓ} → List A → ℕ → Option A
get_elem? [] i = none
get_elem? (x ∷ xs) zero = some x
get_elem? (x ∷ xs) (suc i) = get_elem? xs i

-- The index at which the search loop stops: the table's size if the frequency is not there.
find_rate : List ℕ → ℕ → ℕ → ℕ
find_rate [] frequency i = i
find_rate (x ∷ xs) frequency i = if frequency == x then i else find_rate xs frequency (i + 1)

clamp_rate : ℕ → ℕ
clamp_rate rate =
    let low : ℕ = (if ltb min_rate rate then min_rate else rate) in
    if ltb low max_rate then max_rate else low

-- `prev_data` is what register A holds.
pub set_frequency : ℕ → ℕ → Rtc → Rtc
unfolding find_rate clamp_rate
set_frequency prev_data frequency r =
    let rate : ℕ = clamp_rate (find_rate frequencies frequency 0 + 1) in
    record r {
      curr_rate = rate;
      curr_frequency = get_elem? frequencies rate;
      outb =
          r.outb
          ++ ((select_reg, bit_or disable_nmi reg_a)
              ∷ (select_reg, bit_or disable_nmi reg_a)
              ∷ (cmos_rtc_port, bit_or (bit_and prev_data 0xF0) rate)
              ∷ []);
    }

-- The handler's effect on the driver; `Pic.send_eoi` comes first.
pub rtc_handler : Rtc → Rtc
rtc_handler r = record r { interrupt_flag = 1; outb = r.outb ++ ((select_reg, reg_c) ∷ []) }

-- The busy wait of `rtc_read`: `waits` tells for each look at the flag whether the interrupt came
-- before it; `none` when it has not come by the last look.
rtc_spin : List Bool → Rtc → Option Rtc
rtc_spin [] r = none
rtc_spin (came ∷ waits) r =
    let now : Rtc = (if came then rtc_handler r else r) in
    let rest = rtc_spin waits now in if now.interrupt_flag == 0 then rest else some now

pub rtc_read : List Bool → Rtc → Option Rtc
unfolding rtc_spin
rtc_read waits r = rtc_spin waits (record r { interrupt_flag = 0 })

-- The time of day, as the registers give it and as `binary_to_real_time` converts it.
pub record Time : Type 0 where
  pub second : ℕ
  pub minute : ℕ
  pub hour : ℕ
  pub day : ℕ
  pub month : ℕ
  pub year : ℕ

-- (x & NIBBLE_MASK) + ((x / SHIFT4) * TENS), as a uint8_t.
abbrev pub from_bcd : ℕ → ℕ
from_bcd x = (bit_and x 0x0F + x / 16 * 10) % 256

bcd_hour : ℕ → ℕ
bcd_hour h = bit_or ((bit_and h 0x0F + bit_and h 0x70 / 16 * 10) % 256) (bit_and h 0x80)

-- `year` is a uint32_t.
from_bcd_time : Time → Time
from_bcd_time t = record {
  second = from_bcd t.second;
  minute = from_bcd t.minute;
  hour = bcd_hour t.hour;
  day = from_bcd t.day;
  month = from_bcd t.month;
  year = bit_and t.year 0x0F + t.year / 16 * 10;
}

to_24_hours : ℕ → ℕ → ℕ
to_24_hours register_b h =
    if bit_and register_b 0x02 == 0 && bit_and h 0x80 != 0 then (bit_and h 0x7F + 12) % 24 else h

full_year : ℕ → ℕ
full_year y = let sum = add32 y (2017 / 100 * 100) in if ltb sum 2017 then add32 sum 100 else sum

-- The conversion of the last registers read, `register_b` telling their format.
pub convert_time : ℕ → Time → Time
unfolding from_bcd_time bcd_hour to_24_hours full_year
convert_time register_b t =
    let binary : Time = (if bit_and register_b 0x04 == 0 then from_bcd_time t else t) in
    record binary { hour = to_24_hours register_b binary.hour; year = full_year binary.year }
