-- ===== src/Screen/Bounds.antt =====
-- The screen position stays on the screen, and only the bytes of the screen are written.
use linux_base_operating_sys.Prelude.{
  subst, sym, ==_iff, ℕ, ◌*◌, ◌%◌, ◌≤◌, ◌<◌, ◌≡◌, ◌≢◌, refl, ◌∙◌, arith, ltb, ◌==◌, if◌then◌else◌,
  for_range, for_range_inv, Bool-cases, inl, inr, List, [], ◌∷◌,
}
use linux_base_operating_sys.Screen.{
  Screen, putc, scroll, backspace, clear, puts, putc_fuel, scroll_fuel, next_row, put_cell,
  update_cursor, scroll_up, write_cell, attrib, num_cols, num_rows,
}
use linux_base_operating_sys.Screen.Rows.{scroll_rows_lem}

-- The position of terminal `t`: column 80 stands for a full row.
pub record OnScreen (t : ℕ) (s : Screen) : Type 0 where
  pub column : s.screen_x t ≤ 80
  pub row : s.screen_y t < 25

-- `r` differs from `s` at most on the screen and in what terminal `t` keeps.
pub record Frame (t : ℕ) (s r : Screen) : Type 0 where
  pub memory : (k : ℕ) → 4000 ≤ k → r.video_mem k ≡ s.video_mem k
  pub other_x : (u : ℕ) → u ≢ t → r.screen_x u ≡ s.screen_x u
  pub other_y : (u : ℕ) → u ≢ t → r.screen_y u ≡ s.screen_y u

-- The position stays on the screen, and nothing else is touched.
abbrev pub Keeps : ℕ → Screen → Screen → Type 0
Keeps t s r = OnScreen t r × Frame t s r

-- `putc` of any character keeps the position on the screen, writes no byte behind the 4000 of the
-- screen, and leaves the positions of the other terminals alone.
pub putc-Keeps : (t c : ℕ) {s : Screen} → OnScreen t s → Keeps t s (putc t s c)
unfolding putc putc_fuel scroll_fuel next_row put_cell update_cursor scroll_up
putc-Keeps t c {s} on = (
  ground arith,
  record {
    memory = λ k h. ground (arith, scroll_rows_lem s.video_mem k);
    other_x = λ u h. ground arith;
    other_y = λ u h. ground arith;
  },
)

pub scroll-Keeps : (t : ℕ) {s : Screen} → OnScreen t s → Keeps t s (scroll t s)
unfolding scroll putc_fuel scroll_fuel next_row put_cell update_cursor scroll_up
scroll-Keeps t {s} on = (
  ground arith,
  record {
    memory = λ k h. ground (arith, scroll_rows_lem s.video_mem k);
    other_x = λ u h. ground arith;
    other_y = λ u h. ground arith;
  },
)

pub backspace-Keeps : (t : ℕ) {s : Screen} → OnScreen t s → Keeps t s (backspace t s)
unfolding backspace update_cursor
backspace-Keeps t {s} on = (
  ground arith,
  record {
    memory = λ k h. ground arith;
    other_x = λ u h. ground arith;
    other_y = λ u h. ground arith;
  },
)

-- The bytes after the first `n` cells are blanked.
blanked :
    (n : ℕ) (v : ℕ → ℕ) (k : ℕ)
    → for_range n (λ i w. write_cell w i 32 attrib) v k
      ≡ (if ltb k (n * 2) then (if k % 2 == 0 then 32 else attrib) else v k)
blanked n v =
    for_range_inv
      (λ n w. (k : ℕ) → w k ≡ (if ltb k (n * 2) then (if k % 2 == 0 then 32 else attrib) else v k))
      (λ i w. write_cell w i 32 attrib) n v (λ k. ground arith) (λ i w hi h k. ground (arith, h k))

-- `clear` blanks all 4000 bytes of the screen and none behind it, goes to the corner, and leaves
-- the positions of the other terminals alone.
pub clear_lem :
    (t : ℕ) (s : Screen)
    → ((k : ℕ)
        → (clear t s).video_mem k
          ≡ (if ltb k 4000 then (if k % 2 == 0 then 32 else attrib) else s.video_mem k))
      × ((clear t s).screen_x t ≡ 0)
      × ((clear t s).screen_y t ≡ 0)
      × Keeps t s (clear t s)
unfolding clear update_cursor
clear_lem t s = (
  λ k. blanked (num_rows * num_cols) s.video_mem k,
  ground arith,
  ground arith,
  (
    ground arith,
    record {
      memory = λ k h. ground (arith, blanked (num_rows * num_cols) s.video_mem k);
      other_x = λ u h. ground arith;
      other_y = λ u h. ground arith;
    },
  ),
)

Frame-trans : {t : ℕ} {s r q : Screen} → Frame t s r → Frame t r q → Frame t s q
Frame-trans f g = record {
  memory = λ k h. g.memory k h ∙ f.memory k h;
  other_x = λ u h. g.other_x u h ∙ f.other_x u h;
  other_y = λ u h. g.other_y u h ∙ f.other_y u h;
}

-- `puts` of any string keeps the position on the screen, writes no byte behind the 4000 of the screen,
-- and leaves the positions of the other terminals alone.
pub puts-Keeps : (t : ℕ) (cs : List ℕ) {s : Screen} → OnScreen t s → Keeps t s (puts t s cs)
unfolding puts
puts-Keeps t [] on =
    (on, record { memory = λ k h. refl; other_x = λ u h. refl; other_y = λ u h. refl })
puts-Keeps t (c ∷ cs) on =
    let first = putc-Keeps t c on in
    let rest = puts-Keeps t cs first.0 in (rest.0, Frame-trans first.1 rest.1)

-- Every terminal's position stays on the screen.
pub Keeps-all :
    {t : ℕ} {s r : Screen} → ((u : ℕ) → OnScreen u s) → Keeps t s r → (u : ℕ) → OnScreen u r
Keeps-all {t} {r = r} all (here, frame) u = elim (Bool-cases (u == t)) [
  | inl e ↦ subst (λ v. OnScreen v r) (sym ((==_iff u t).0 e)) here
  | inr e ↦
      let ne : u ≢ t = ground (arith, e) in
      record {
        column = rw (frame.other_x u ne) (all u).column;
        row = rw (frame.other_y u ne) (all u).row;
      }
]
