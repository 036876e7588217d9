-- ===== src/Screen/Tests.antt =====
-- A screen that scrolls, and the theorems on it.
use linux_base_operating_sys.Prelude.{
  ◌+◌, ◌-◌, ◌*◌, ◌/◌, ◌%◌, ◌≡◌, refl, ltb, ◌==◌, if◌then◌else◌, arith, [], ◌∷◌, inl,
}
use linux_base_operating_sys.Screen.{Screen, putc, puts, num_cols, attrib}
use linux_base_operating_sys.Screen.Bounds.{OnScreen, Keeps, puts-Keeps}
use linux_base_operating_sys.Screen.Print.{CursorAt, putc_shows, putc_breaks}

-- Terminal 0 stands behind the last cell of the last row.
abbrev full_screen : Screen
full_screen = record {
  video_mem = λ i. i % 256;
  screen_x = λ t. 80;
  screen_y = λ t. 24;
  cursor_low = 0;
  cursor_high = 0;
}

full_screen-OnScreen : OnScreen 0 full_screen
full_screen-OnScreen = record { column = omega arith; row = omega arith }

abbrev fresh_screen : Screen
fresh_screen = record {
  video_mem = λ i. 0;
  screen_x = λ t. 3;
  screen_y = λ t. 1;
  cursor_low = 0;
  cursor_high = 0;
}

fresh_screen-OnScreen : OnScreen 0 fresh_screen
fresh_screen-OnScreen = record { column = omega arith; row = omega arith }

putc_shows_example :
    let r = putc 0 full_screen 65 in
    (r.screen_x 0 ≡ 1)
    × (r.screen_y 0 ≡ 24)
    × CursorAt 0 r
    × (r.video_mem 7
        ≡ (if 7 / 2 == num_cols * r.screen_y 0 + r.screen_x 0 - 1 then attrib else 167))
putc_shows_example =
    putc_shows 0 65 7 full_screen full_screen-OnScreen (omega arith) (omega arith) (omega arith)

putc_breaks_example :
    let r = putc 0 full_screen 10 in
    (r.screen_x 0 ≡ 0)
    × CursorAt 0 r
    × (if ltb (full_screen.screen_y 0) 24
        then (r.screen_y 0 ≡ full_screen.screen_y 0 + 1) × (r.video_mem 7 ≡ full_screen.video_mem 7)
        else (r.screen_y 0 ≡ 24)
          × (r.video_mem 7 ≡ (
              if ltb 7 3840
              then full_screen.video_mem (7 + 160)
              else if 7 % 2 == 0
              then 32
              else attrib)))
putc_breaks_example = putc_breaks 0 10 7 full_screen full_screen-OnScreen (inl refl) (omega arith)

puts-Keeps_example : Keeps 0 full_screen (puts 0 full_screen (72 ∷ 105 ∷ 10 ∷ []))
puts-Keeps_example = puts-Keeps 0 (72 ∷ 105 ∷ 10 ∷ []) full_screen-OnScreen
