-- ===== src/User.antt =====
-- The user programs in syscalls, as clients of the system calls. The calls are those of
-- syscalls/ece391syscall.h; a program is a function of the state `W` behind them.
pub mod Support
pub mod Compare
pub mod Shell
pub mod Cat
pub mod Counter
pub mod Ls
pub mod Grep
pub mod Syserr
pub mod Pingpong
pub mod Fish
mod Tests
use linux_base_operating_sys.Prelude.{
  ℕ, zero, suc, ◌+◌, ◌-◌, ◌*◌, ◌/◌, ◌%◌, Bool, true, false, ◌&&◌, ◌||◌, not, ltb, leb, ◌==◌, ◌!=◌,
  if◌then◌else◌, update, Option, some, none, List, [], ◌∷◌, length, get_or,
}
use linux_base_operating_sys.Prelude.Int.{ℤ, pos, is_zero, is_minus_one, uint32}

-- A buffer that a call fills comes back changed.
pub record Sys (W : Type 0) : Type 0 where
  pub execute : (ℕ → ℕ) → W → ℤ × W
  pub read : ℤ → (ℕ → ℕ) → ℕ → W → ℤ × (ℕ → ℕ) × W
  pub write : ℤ → (ℕ → ℕ) → ℕ → W → ℤ × W
  pub open_file : (ℕ → ℕ) → W → ℤ × W
  pub close : ℤ → W → ℤ × W
  pub getargs : (ℕ → ℕ) → ℕ → W → ℤ × (ℕ → ℕ) × W

-- A string literal.
abbrev pub literal : List ℕ → ℕ → ℕ
literal text j = get_or text j 0

abbrev pub stdout : ℤ
stdout = pos 1

abbrev pub stdin : ℤ
stdin = pos 0
