-- ===== src/Screen/Print.antt =====
-- What `putc` and `backspace` show.
use linux_base_operating_sys.Prelude.{
  ℕ, ◌+◌, ◌-◌, ◌*◌, ◌/◌, ◌%◌, ◌<◌, ◌≡◌, ◌≢◌, ◌⊎◌, arith, leb, ltb, ◌&&◌, ◌==◌, if◌then◌else◌,
  ==-false, refl, ◌∙◌,
}
use linux_base_operating_sys.Screen.{
  Screen, putc, backspace, putc_fuel, scroll_fuel, next_row, put_cell, update_cursor, scroll_up,
  attrib, num_cols,
}
use linux_base_operating_sys.Screen.Rows.{scroll_rows_lem}
use linux_base_operating_sys.Screen.Bounds.{OnScreen}

-- The cursor registers hold the position of terminal `t`.
abbrev pub CursorAt : ℕ → Screen → Type 0
CursorAt t s = s.cursor_high * 256 + s.cursor_low ≡ num_cols * s.screen_y t + s.screen_x t

-- The screen before the character is put: a row is begun where there is no room.
row_begun : ℕ → Screen → Screen
unfolding next_row scroll_fuel
row_begun t s = if leb num_cols (s.screen_x t) then next_row (λ r. scroll_fuel 1 t r) t s else s

putc-row_begun :
    (t c : ℕ) (s : Screen)
    → c ≢ 10
    → c ≢ 13
    → putc t s c ≡ update_cursor t (put_cell t (row_begun t s) c)
unfolding putc putc_fuel row_begun
putc-row_begun t c s n r = rw (==-false c 10 n, ==-false c 13 r) refl

row_begun_lem :
    (t k : ℕ) (s : Screen)
    → OnScreen t s
    → k < 4000
    → let full = leb 80 (s.screen_x t) in
      let b = row_begun t s in
      (b.screen_x t ≡ (if full then 0 else s.screen_x t))
      × (b.screen_y t ≡ (if full && ltb (s.screen_y t) 24 then s.screen_y t + 1 else s.screen_y t))
      × (b.video_mem k ≡ (
          if full && leb 24 (s.screen_y t)
          then (if ltb k 3840 then s.video_mem (k + 160) else if k % 2 == 0 then 32 else attrib)
          else s.video_mem k))
unfolding row_begun next_row scroll_fuel update_cursor scroll_up
row_begun_lem t k s on h =
    (ground arith, ground arith, ground (arith, scroll_rows_lem s.video_mem k))

-- A cell that is put.
put_cell_lem :
    (t c k : ℕ) (b : Screen)
    → b.screen_x t < 80
    → b.screen_y t < 25
    → let r = update_cursor t (put_cell t b c) in
      (r.screen_x t ≡ b.screen_x t + 1)
      × (r.screen_y t ≡ b.screen_y t)
      × CursorAt t r
      × (r.video_mem k ≡ (
          if k / 2 == num_cols * r.screen_y t + r.screen_x t - 1
          then (if k % 2 == 0 then c else attrib)
          else b.video_mem k))
unfolding put_cell update_cursor
put_cell_lem t c k b x y = (ground arith, ground arith, ground arith, ground arith)

-- A character other than a line break stands at the position where there is room in the row, and at
-- the beginning of the next row otherwise: below, or in the last row, with every row moved up, where
-- there is none below. The new position is behind it, with the cursor there, and no other cell of the
-- screen has changed.
pub putc_shows :
    (t c k : ℕ) (s : Screen)
    → OnScreen t s
    → c ≢ 10
    → c ≢ 13
    → k < 4000
    → let r = putc t s c in
      let full = leb 80 (s.screen_x t) in
      (r.screen_x t ≡ (if full then 1 else s.screen_x t + 1))
      × (r.screen_y t ≡ (if full && ltb (s.screen_y t) 24 then s.screen_y t + 1 else s.screen_y t))
      × CursorAt t r
      × (r.video_mem k ≡ (
          if k / 2 == num_cols * r.screen_y t + r.screen_x t - 1
          then (if k % 2 == 0 then c else attrib)
          else if full && leb 24 (s.screen_y t)
          then (if ltb k 3840 then s.video_mem (k + 160) else if k % 2 == 0 then 32 else attrib)
          else s.video_mem k))
putc_shows t c k s on n r h =
    let (bx, by, memory) = row_begun_lem t k s on h in
    let (x, y, cursor, put) =
      put_cell_lem t c k (row_begun t s) (ground (arith, bx, on.column))
        (ground (arith, by, on.row)) in
    rw (putc-row_begun t c s n r) (ground (arith, x, bx), y ∙ by, cursor, rw (← memory) put)

-- A line break goes to column 0: of the next row, with the screen as it was, or of the last row,
-- with every row moved up.
pub putc_breaks :
    (t c k : ℕ) (s : Screen)
    → OnScreen t s
    → (c ≡ 10) ⊎ (c ≡ 13)
    → k < 4000
    → let r = putc t s c in
      (r.screen_x t ≡ 0)
      × CursorAt t r
      × (if ltb (s.screen_y t) 24
          then (r.screen_y t ≡ s.screen_y t + 1) × (r.video_mem k ≡ s.video_mem k)
          else (r.screen_y t ≡ 24)
            × (r.video_mem k ≡ (
                if ltb k 3840 then s.video_mem (k + 160) else if k % 2 == 0 then 32 else attrib)))
unfolding putc putc_fuel scroll_fuel next_row put_cell update_cursor scroll_up
putc_breaks t c k s on nl h = ground (arith, scroll_rows_lem s.video_mem k)

putc_room :
    (t c : ℕ) (s : Screen)
    → c ≢ 10
    → c ≢ 13
    → s.screen_x t < 80
    → putc t s c ≡ update_cursor t (put_cell t s c)
unfolding putc putc_fuel
putc_room t c s n r h = ground arith

backspace_byte :
    (t c k : ℕ) (s : Screen)
    → s.screen_x t < 80
    → (backspace t (update_cursor t (put_cell t s c))).video_mem k ≡ (
        if k / 2 == num_cols * s.screen_y t + s.screen_x t
        then (if k % 2 == 0 then 32 else attrib)
        else s.video_mem k)
unfolding backspace put_cell update_cursor
backspace_byte t c k s h = ground arith

-- `backspace` undoes `putc` where the row has room: the position is the old one, the cell is blank,
-- and no other byte has changed.
pub backspace-putc :
    (t c k : ℕ) (s : Screen)
    → OnScreen t s
    → c ≢ 10
    → c ≢ 13
    → s.screen_x t < 80
    → let r = backspace t (putc t s c) in
      (r.screen_x t ≡ s.screen_x t)
      × (r.screen_y t ≡ s.screen_y t)
      × CursorAt t r
      × (r.video_mem k ≡ (
          if k / 2 == num_cols * s.screen_y t + s.screen_x t
          then (if k % 2 == 0 then 32 else attrib)
          else s.video_mem k))
unfolding backspace put_cell update_cursor
backspace-putc t c k s on n r h =
    rw (putc_room t c s n r h) (ground arith, ground arith, ground arith, backspace_byte t c k s h)
