-- ===== src/Kernel/Command/Split.antt =====
-- A command line is a word, spaces, and the arguments.
use linux_base_operating_sys.Prelude.{
  ℕ, ◌+◌, ◌-◌, ◌≤◌, ◌<◌, ◌≡◌, ◌≢◌, ap, ltb, ◌==◌, if◌then◌else◌, fill, fill_lem, scan_unique,
  scan-Scanned, update_self, refl, arith,
}
use linux_base_operating_sys.Kernel.Command.{
  parse_cmd_args, ends_word, not_space, ends_line, word_end, args_start, args_end,
}

-- `comm` is a word of `w` characters, spaces up to `s`, and arguments up to a NUL at `e`, within
-- the 128 bytes of a line.
pub record IsCommand (comm : ℕ → ℕ) (w s e : ℕ) : Type 0 where
  pub word : (j : ℕ) → j < w → (comm j ≢ 32) × (comm j ≢ 0)
  pub spaces : (j : ℕ) → w ≤ j → j < s → comm j ≡ 32
  pub after_word : w ≤ s
  pub begins : comm s ≢ 32
  pub arguments : (j : ℕ) → s ≤ j → j < e → comm j ≢ 0
  pub after_spaces : s ≤ e
  pub nul : comm e ≡ 0
  pub fits : e < 128
  pub separated : (w ≡ s) → (s ≡ e)

word_end_lem : (comm : ℕ → ℕ) (w s e : ℕ) → IsCommand comm w s e → word_end comm ≡ w
unfolding word_end
word_end_lem comm w s e c =
    scan_unique ends_word 128 comm 0 w (omega arith) (omega arith)
      (λ j a b. ground (arith, c.word j)) (ground (arith, c.spaces w, c.separated, c.nul, at_end))
  where
    at_end : w ≡ e → comm w ≡ comm e
    at_end q = ap comm q

args_start_lem : (comm : ℕ → ℕ) (w s e : ℕ) → IsCommand comm w s e → args_start comm ≡ s
unfolding args_start
args_start_lem comm w s e c = rw (word_end_lem comm w s e c) (
    scan_unique not_space (128 - w) comm w s c.after_word (omega arith)
      (λ j a b. ground (arith, c.spaces j)) (ground (arith, c.begins)))

args_end_lem : (comm : ℕ → ℕ) (w s e : ℕ) → IsCommand comm w s e → args_end comm ≡ e
unfolding args_end
args_end_lem comm w s e c = rw (args_start_lem comm w s e c) (
    scan_unique ends_line (128 - s) comm s e c.after_spaces (omega arith)
      (λ j a b. ground (arith, c.arguments j)) (ground (arith, c.nul)))

-- Of such a line the word and a NUL go to the command's buffer, the arguments and a NUL to the
-- terminal's argument buffer, and no other byte of either changes.
pub parse_cmd_args_lem :
    (comm buf args : ℕ → ℕ) (w s e j : ℕ)
    → IsCommand comm w s e
    → let (buf', args') = parse_cmd_args buf comm args in
      (buf' j ≡ (if ltb j w then comm j else if j == w then 0 else buf j))
      × (args' j ≡ (if ltb j (e - s) then comm (s + j) else if j == e - s then 0 else args j))
unfolding parse_cmd_args
parse_cmd_args_lem comm buf args w s e j c =
    rw (word_end_lem comm w s e c, args_start_lem comm w s e c, args_end_lem comm w s e c)
      (
        ground (arith, fill_lem w comm buf j),
        ground (arith, fill_lem (e - s) (λ i. comm (s + i)) args j),
      )

-- The arguments fit the 129 bytes that the process's block has for them.
pub parse_cmd_args-fits :
    (comm buf args : ℕ → ℕ)
    → let line = (parse_cmd_args buf comm args).1 in
      let n = args_end comm - args_start comm in (line n ≡ 0) × (n < 129)
unfolding parse_cmd_args word_end args_start args_end
parse_cmd_args-fits comm buf args =
    let w = scan-Scanned ends_word 128 comm 0 in
    let s = scan-Scanned not_space (128 - word_end comm) comm (word_end comm) in
    let e = scan-Scanned ends_line (128 - args_start comm) comm (args_start comm) in
    let n = args_end comm - args_start comm in
    (
      update_self (fill n (λ j. comm (args_start comm + j)) args) n n 0 refl,
      omega (arith, w.to, s.to, e.to),
    )
