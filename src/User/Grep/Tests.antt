-- ===== src/User/Grep/Tests.antt =====
-- The search through a directory with one file of three lines, read in pieces of seven bytes.
use linux_base_operating_sys.Prelude.{
  ℕ, ◌+◌, ◌-◌, ltb, ◌==◌, ◌≡◌, if◌then◌else◌, Option, some, none, List, [], ◌++◌, prefix, refl,
}
use linux_base_operating_sys.Prelude.Int.{ℤ, pos, negsuc}
use linux_base_operating_sys.Kernel.{codes}
use linux_base_operating_sys.User.{Sys, literal}
use linux_base_operating_sys.User.Support.{
  ece391_strlen, ece391_strncmp, ece391_fdputs, fdputs_text, ece391_strcpy,
}
use linux_base_operating_sys.User.Grep.{grep}

-- The names read, the position in the file, and what is written.
abbrev World : Type 0
World = ℕ × ℕ × List ℕ

read_name : ℕ × ℕ × List ℕ → ℤ × (ℕ → ℕ) × World
read_name (n, p, out) = (pos (if n == 0 then 4 else 0), literal (codes "file"), (n + 1, p, out))

read_piece : ℕ → World → ℤ × (ℕ → ℕ) × World
read_piece size (n, p, out) =
    let count = if ltb (17 - p) 7 then 17 - p else 7 in
    (pos count, (λ j. literal (codes "one\ntwo\nwon eight") (p + j)), (n, p + count, out))

abbrev library : Sys World
library = record {
  execute = λ buf w. (negsuc 0, w);
  read = λ fd buf size w. elim fd [
    | pos k ↦ if k == 2 then read_name w else read_piece size w
    | negsuc k ↦ (negsuc 0, buf, w)
  ];
  write = λ fd buf n w. (pos n, (w.0, w.1, w.2 ++ prefix n buf));
  open_file = λ name w. (pos (if name 0 == b'.' then 2 else 3), w);
  close = λ fd w. (pos 0, w);
  getargs = λ buf n w. (pos 0, literal (codes "on"), w);
}

abbrev printed : Option (ℕ × World) → List ℕ
printed none = []
printed (some (r, (n, p, out))) = out

grep-lines :
    printed (grep library 3 5 (literal []) (literal []) (literal []) (0, 0, []))
    ≡ codes "file:one\nfile:won eight\n"
unfolding grep read_name read_piece ece391_strlen ece391_strncmp ece391_fdputs fdputs_text
    ece391_strcpy
grep-lines = refl
