-- ===== src/Screen/Fuel.antt =====
-- The calls between `putc` and `scroll` end: more fuel changes nothing.
use linux_base_operating_sys.Prelude.{ℕ, suc, ◌≡◌, arith}
use linux_base_operating_sys.Screen.{Screen, putc_fuel, scroll_fuel, putc, scroll, next_row}

putc_fuel_enough : (f t : ℕ) (s : Screen) (c : ℕ) → putc_fuel (suc (suc f)) t s c ≡ putc t s c
unfolding putc_fuel scroll_fuel putc next_row
putc_fuel_enough f t s c = ground arith

scroll_fuel_enough : (f t : ℕ) (s : Screen) → scroll_fuel (suc (suc f)) t s ≡ scroll t s
unfolding putc_fuel scroll_fuel scroll next_row
scroll_fuel_enough f t s = ground arith
