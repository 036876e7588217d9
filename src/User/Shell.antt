-- ===== src/User/Shell.antt =====
-- `main` of syscalls/ece391shell.c.
pub mod Lines
pub mod Runs
use linux_base_operating_sys.Prelude.{
  ℕ, zero, suc, ◌+◌, ◌-◌, ◌≤◌, ◌<◌, ◌==◌, ◌≡◌, ◌≢◌, ◌↔◌, Bool, true, false, ◌&&◌, ◌||◌, ltb,
  if◌then◌else◌, update, Option, some, none, List, [], ◌∷◌, ◌++◌, length, refl, sym, ap, ◌∙◌, arith,
  ltb→lt, lt→ltb, either, ==_iff, Bool-cases, inl, inr, subst,
}
use mathlib.Core.List.{append-nil, append_assoc}
use linux_base_operating_sys.Prelude.Int.{ℤ, pos, negsuc, is_zero, is_minus_one, uint32}
use linux_base_operating_sys.Kernel.{codes}
use linux_base_operating_sys.User.{Sys, stdin, stdout, literal}
use linux_base_operating_sys.User.Support.{fdputs_text, ece391_strcmp}
use linux_base_operating_sys.User.Compare.{Same, ece391_strcmp_iff}

abbrev pub exit_word : List ℕ
exit_word = codes "exit"

-- The line without its line break, ended by a NUL, and the index of that.
abbrev pub line_end : (ℕ → ℕ) → ℕ → ℕ
line_end buf cnt = if ltb 0 cnt && buf (cnt - 1) == 10 then cnt - 1 else cnt

module _ {W : Type 0} (sys : Sys W) where
  abbrev pub puts : List ℕ → W → W
  puts text w = fdputs_text sys stdout text w

  -- What is said of a command's status.
  pub answer : ℤ → W → W
  answer rval w =
      if is_minus_one rval
      then puts (codes "no such command\n") w
      else if is_zero rval
      then w
      else if uint32 rval == 256
      then puts (codes "program terminated by exception\n") w
      else puts (codes "program terminated abnormally\n") w

  pub after_execute : ((ℕ → ℕ) → W → Option (ℕ × W)) → (ℕ → ℕ) → ℤ × W → Option (ℕ × W)
  unfolding answer
  after_execute again buf (rval, w) = again buf (answer rval w)

  -- The command in `buf`: "exit", nothing, or one to execute.
  pub run_command : ((ℕ → ℕ) → W → Option (ℕ × W)) → (ℕ → ℕ) → W → Option (ℕ × W)
  unfolding after_execute
  run_command again buf w = elim (ece391_strcmp 1024 buf (literal exit_word)) [
    | none ↦ none
    | some c ↦ elim (is_zero c) [
      | true ↦ some (0, w)
      | false ↦ elim (buf 0 == 0) [
        | true ↦ again buf w
        | false ↦ after_execute again buf (sys.execute buf w)
      ]
    ]
  ]

  pub after_line : ((ℕ → ℕ) → W → Option (ℕ × W)) → ℤ × (ℕ → ℕ) × W → Option (ℕ × W)
  unfolding run_command
  after_line again (cnt, buf, w) = elim (is_minus_one cnt) [
    | true ↦ some (3, puts (codes "read from keyboard failed\n") w)
    | false ↦ run_command again (update buf (line_end buf (uint32 cnt)) 0) w
  ]

  pub shell_loop : ℕ → (ℕ → ℕ) → W → Option (ℕ × W)
  unfolding after_line
  shell_loop zero buf w = none
  shell_loop (suc f) buf w =
      after_line (shell_loop f) (sys.read stdin buf 1023 (puts (codes "391OS> ") w))

  pub shell : ℕ → (ℕ → ℕ) → W → Option (ℕ × W)
  unfolding shell_loop
  shell fuel buf w = shell_loop fuel buf (puts (codes "Starting 391 Shell\n") w)
