-- ===== src/Printf/Tests.antt =====
-- `printf` at small formats.
use linux_base_operating_sys.Prelude.{ℕ, ◌≡◌, List, [], ◌∷◌, length, some, arith}
use linux_base_operating_sys.Screen.{Screen, puts}
use linux_base_operating_sys.Printf.{Arg, word, plain, printf}
use linux_base_operating_sys.Printf.Meaning.{x_word, d_word}
use linux_base_operating_sys.Printf.Text.{ended, percent, alternate, arg, Shows, printf-Shows}

abbrev black : Screen
black = record {
  video_mem = λ i. 0;
  screen_x = λ t. 0;
  screen_y = λ t. 0;
  cursor_low = 0;
  cursor_high = 0;
}

abbrev garbage : ℕ → ℕ
garbage j = 0xCC

-- "%#x%d"
abbrev format : List ℕ
format = b'%' ∷ b'#' ∷ b'x' ∷ b'%' ∷ b'd' ∷ []

abbrev esp : List Arg
esp = word 0xE ∷ word 0xFFFFFFFF ∷ []

abbrev hi : List ℕ
hi = 72 ∷ 105 ∷ []

printf-Shows_example :
    (text : List ℕ) × (printf garbage 0 format esp black ≡ some (length format, puts 0 black text))
    × Shows plain format esp text
printf-Shows_example =
    printf-Shows garbage 0 format esp black (
      percent (alternate (arg (x_word (omega arith)) (percent (arg (d_word (omega arith)) ended)))))
