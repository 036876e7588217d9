-- ===== src/User/Pingpong.antt =====
-- `main` of syscalls/ece391pingpong.c: a letter that moves between two walls.
pub mod Rows
use linux_base_operating_sys.Prelude.{
  ℕ, zero, suc, ◌+◌, ◌-◌, ◌%◌, ◌==◌, if◌then◌else◌, update, fill, Option, some, none, List, [], ◌∷◌,
}
use linux_base_operating_sys.Prelude.Int.{ℤ, pos}
use linux_base_operating_sys.Kernel.{codes}
use linux_base_operating_sys.User.{Sys, stdout, literal}
use linux_base_operating_sys.User.Support.{ece391_fdputs}

abbrev pub buf_max : ℕ
buf_max = 81

abbrev pub start_loop : ℕ
start_loop = 2

abbrev pub loop_max : ℕ
loop_max = 78

-- The row of blanks with the two walls, a line break and a NUL.
pub walls : (ℕ → ℕ) → ℕ → ℕ
walls buf =
    update
      (update (update (update (fill buf_max (λ i. 32) buf) (buf_max - 1) 0) (buf_max - 2) 10)
        (buf_max - 3) b'|')
      1 b'|'

-- for(i = STARTLOOP; i < LOOPMAX; i++) buf[i] = ' ', with `n` rounds left
clear_from : ℕ → ℕ → (ℕ → ℕ) → ℕ → ℕ
clear_from zero i buf = buf
clear_from (suc n) i buf = clear_from n (i + 1) (update buf i 32)

-- The inner part cleared and the letter put at `j`.
pub place : ℕ → ℕ → (ℕ → ℕ) → ℕ → ℕ
place letter j buf = update (clear_from (loop_max - start_loop) start_loop buf) j letter

-- The frequency, as four bytes in memory.
abbrev word_32 : ℕ → ℕ
word_32 zero = 32
word_32 (suc j) = 0

module _ {W : Type 0} (sys : Sys W) (rtc_fd : ℤ) (garbage : ℕ → ℕ) where
  -- The row is drawn, and a tick is waited for.
  draw : ℕ → ℕ → (ℕ → ℕ) → W → Option ((ℕ → ℕ) × W)
  unfolding place
  draw letter j buf w = elim (ece391_fdputs sys buf_max stdout (place letter j buf) w) [
    | none ↦ none
    | some w1 ↦ some (place letter j buf, (sys.read rtc_fd garbage 4 w1).2)
  ]

  -- The loop outwards, with `n` rounds left.
  move_out : ℕ → ℕ → ℕ → (ℕ → ℕ) → W → Option ((ℕ → ℕ) × W)
  unfolding draw
  move_out zero letter j buf w = some (buf, w)
  move_out (suc n) letter j buf w = elim (draw letter j buf w) [
    | none ↦ none
    | some (buf', w') ↦ move_out n letter (j + 1) buf' w'
  ]

  -- The loop back, at `j - 1`.
  bounce_back : ℕ → ℕ → ℕ → (ℕ → ℕ) → W → Option ((ℕ → ℕ) × W)
  unfolding draw
  bounce_back zero letter j buf w = some (buf, w)
  bounce_back (suc n) letter j buf w = elim (draw letter (j - 1) buf w) [
    | none ↦ none
    | some (buf', w') ↦ bounce_back n letter (j - 1) buf' w'
  ]

  next_letter : ℕ → ℕ
  next_letter letter = if letter == b'Z' then b'A' else (letter + 1) % 256

  -- `rounds` rounds of the loop that does not end, from a letter on.
  pub rounds : ℕ → ℕ → (ℕ → ℕ) → W → Option (ℕ × (ℕ → ℕ) × W)
  unfolding move_out bounce_back next_letter
  rounds zero letter buf w = some (letter, buf, w)
  rounds (suc n) letter buf w = elim (move_out (loop_max - start_loop) letter start_loop buf w) [
    | none ↦ none
    | some (buf1, w1) ↦ elim (bounce_back (loop_max - start_loop) letter loop_max buf1 w1) [
      | none ↦ none
      | some (buf2, w2) ↦ rounds n (next_letter letter) buf2 w2
    ]
  ]

-- The program after `n` rounds.
pub pingpong : {W : Type 0} → Sys W → (ℕ → ℕ) → (ℕ → ℕ) → ℕ → W → Option (ℕ × (ℕ → ℕ) × W)
unfolding rounds walls
pingpong sys garbage buf n w =
    let (rtc_fd, w1) = sys.open_file (literal (codes "rtc")) w in
    let (r, w2) = sys.write rtc_fd word_32 4 w1 in rounds sys rtc_fd garbage n b'A' (walls buf) w2
