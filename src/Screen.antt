-- ===== src/Screen.antt =====
-- The text console of student-distrib/lib.c: video memory, the position of each terminal, the cursor.
mod Tests
pub mod Fuel
pub mod Print
pub mod Bounds
pub mod Rows
use linux_base_operating_sys.Prelude.{
  ℕ, zero, suc, ◌+◌, ◌-◌, ◌*◌, ◌/◌, ◌%◌, ◌^◌, Bool, ◌&&◌, ◌||◌, ltb, leb, ◌==◌, if◌then◌else◌,
  update, for_range, List, [], ◌∷◌,
}

abbrev pub num_cols : ℕ
num_cols = 80

abbrev pub num_rows : ℕ
num_rows = 25

abbrev pub attrib : ℕ
attrib = 0x7

abbrev blue : ℕ
blue = 0x16

-- `video_mem` by bytes, `screen_x` and `screen_y` by terminal, and the two cursor registers of the
-- VGA controller.
pub record Screen : Type 0 where
  pub video_mem : ℕ → ℕ
  pub screen_x : ℕ → ℕ
  pub screen_y : ℕ → ℕ
  pub cursor_low : ℕ
  pub cursor_high : ℕ

abbrev set_x : Screen → ℕ → ℕ → Screen
set_x s t x = record s { screen_x = update s.screen_x t x }

abbrev set_y : Screen → ℕ → ℕ → Screen
set_y s t y = record s { screen_y = update s.screen_y t y }

-- The two bytes of cell `i`.
abbrev pub write_cell : (ℕ → ℕ) → ℕ → ℕ → ℕ → ℕ → ℕ
write_cell v i c a = update (update v (i * 2) c) (i * 2 + 1) a

-- `position` is an unsigned short.
unfoldable pub update_cursor : ℕ → Screen → Screen
update_cursor t s =
    let position : ℕ = (s.screen_y t * num_cols + s.screen_x t) % 2 ^ 16 in
    record s { cursor_low = position % 256; cursor_high = position / 256 % 256 }

pub clear : ℕ → Screen → Screen
clear t s =
    let blank : Screen = record s {
      video_mem = for_range (num_rows * num_cols) (λ i v. write_cell v i 32 attrib) s.video_mem;
    } in
    update_cursor t (set_y (set_x blank t 0) t 0)

-- The cell of row `j` and column `i` takes the two bytes of the cell below it.
pub copy_up : ℕ → ℕ → (ℕ → ℕ) → ℕ → ℕ
copy_up i j v =
    let first = update v ((num_cols * j + i) * 2) (v ((num_cols * (j + 1) + i) * 2)) in
    update first ((num_cols * j + i) * 2 + 1) (first ((num_cols * (j + 1) + i) * 2 + 1))

pub scroll_rows : (ℕ → ℕ) → ℕ → ℕ
scroll_rows v =
    for_range num_cols (λ i w. write_cell w (num_cols * (num_rows - 1) + i) 32 attrib)
      (for_range num_cols (λ i w. for_range (num_rows - 1) (copy_up i) w) v)

scroll_up : ℕ → Screen → Screen
scroll_up t s = update_cursor t (set_x (record s { video_mem = scroll_rows s.video_mem }) t 0)

-- What `putc` does to start a row; `scroll` is passed in.
next_row : (Screen → Screen) → ℕ → Screen → Screen
next_row scroll t s =
    let down : Screen = set_x (set_y s t (s.screen_y t + 1)) t 0 in
    if leb num_rows (down.screen_y t) then scroll (set_y down t (down.screen_y t - 1)) else down

put_cell : ℕ → Screen → ℕ → Screen
put_cell t s c =
    set_x
      (record s {
        video_mem = write_cell s.video_mem (num_cols * s.screen_y t + s.screen_x t) c attrib;
      })
      t (s.screen_x t + 1)

-- `putc` and `scroll` call each other, so both take fuel; two calls are the most there are.
mutual
  putc_fuel : ℕ → ℕ → Screen → ℕ → Screen
  putc_fuel zero t s c = s
  putc_fuel (suc f) t s c =
      let scroll : Screen → Screen = λ r. scroll_fuel f t r in
      update_cursor t (
        if c == 10 || c == 13
        then next_row scroll t s
        else put_cell t (if leb num_cols (s.screen_x t) then next_row scroll t s else s) c)

  scroll_fuel : ℕ → ℕ → Screen → Screen
  scroll_fuel zero t s = s
  scroll_fuel (suc f) t s =
      let newline : Screen = putc_fuel f t s 10 in
      if leb (num_rows - 1) (s.screen_y t) then scroll_up t s else update_cursor t newline

pub putc : ℕ → Screen → ℕ → Screen
putc t s c = putc_fuel 2 t s c

pub scroll : ℕ → Screen → Screen
scroll t s = scroll_fuel 2 t s

blank_cell : ℕ → Screen → Screen
blank_cell t s = update_cursor t (record s {
  video_mem = write_cell s.video_mem (num_cols * s.screen_y t + s.screen_x t) 32 attrib;
})

pub backspace : ℕ → Screen → Screen
unfolding blank_cell
backspace t s =
    if s.screen_x t == 0 && ltb 0 (s.screen_y t)
    then blank_cell t (set_x (set_y s t (s.screen_y t - 1)) t (num_cols - 1))
    else if s.screen_x t == 0 && s.screen_y t == 0
    then s
    else blank_cell t (set_x s t (s.screen_x t - 1))

-- `puts` over the characters before the terminating NUL.
unfoldable pub puts : ℕ → Screen → List ℕ → Screen
puts t s [] = s
puts t s (c ∷ cs) = puts t (putc t s c) cs

test_interrupts : Screen → Screen
test_interrupts s = record s {
  video_mem =
      for_range (num_rows * num_cols) (λ i v. update v (i * 2) ((v (i * 2) + 1) % 256)) s.video_mem;
}

show_blue_screen : Screen → Screen
show_blue_screen s = record s {
  video_mem = for_range (num_rows * num_cols) (λ i v. update v (i * 2 + 1) blue) s.video_mem;
}
