-- ===== src/Kernel/Command.antt =====
-- `parse_cmd_args` of student-distrib/syscall.c: the command line split at its first spaces.
pub mod Split
use linux_base_operating_sys.Prelude.{
  ℕ, ◌+◌, ◌-◌, Bool, ◌||◌, not, ◌==◌, if◌then◌else◌, update, fill, scan,
}

abbrev pub ends_word : ℕ → Bool
ends_word c = c == 32 || c == 0

abbrev pub not_space : ℕ → Bool
not_space c = not (c == 32)

abbrev pub ends_line : ℕ → Bool
ends_line c = c == 0

-- The end of the command, the start of the arguments and their end, each at most 128.
unfoldable pub word_end : (ℕ → ℕ) → ℕ
word_end comm = scan ends_word 128 comm 0

unfoldable pub args_start : (ℕ → ℕ) → ℕ
args_start comm = scan not_space (128 - word_end comm) comm (word_end comm)

unfoldable pub args_end : (ℕ → ℕ) → ℕ
args_end comm = scan ends_line (128 - args_start comm) comm (args_start comm)

-- `buf` and `cmd_args[curr_terminal]` after the call.
unfoldable pub parse_cmd_args : (ℕ → ℕ) → (ℕ → ℕ) → (ℕ → ℕ) → (ℕ → ℕ) × (ℕ → ℕ)
parse_cmd_args buf comm args = (
  update (fill (word_end comm) comm buf) (word_end comm) 0,
  update (fill (args_end comm - args_start comm) (λ j. comm (args_start comm + j)) args)
      (args_end comm - args_start comm) 0,
)
