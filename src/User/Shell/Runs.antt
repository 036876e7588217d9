-- ===== src/User/Shell/Runs.antt =====
-- What the shell of syscalls/ece391shell.c executes of the lines that are typed.
use linux_base_operating_sys.Prelude.{
  ℕ, zero, suc, ◌≤◌, ◌<◌, ◌≢◌, ◌==◌, ◌≡◌, true, false, update, some, List, [], ◌∷◌, ◌++◌, length,
  refl, sym, ap, ◌∙◌, arith, either, Bool-cases, inl, inr, subst,
}
use mathlib.Core.List.{append-nil, append_assoc}
use linux_base_operating_sys.Prelude.Int.{ℤ, is_zero, is_minus_one, uint32}
use linux_base_operating_sys.Kernel.{codes}
use linux_base_operating_sys.User.{Sys, literal}
use linux_base_operating_sys.User.Support.{fdputs_text}
use linux_base_operating_sys.User.Shell.{
  puts, answer, after_execute, run_command, after_line, shell_loop, shell,
}
use linux_base_operating_sys.User.Shell.Lines.{
  Line, is_exit, commands, exits, Console, strcmp-exit, line_end_lem, line-Holds, other_exits,
}

module _ {W : Type 0} (sys : Sys W) (law : Console sys) where
  -- A message keeps what is to be typed and what has been executed.
  said :
      (text : List ℕ) (w : W) (ls run : List Line)
      → law.At w ls run
      → law.At (puts sys text w) ls run
  unfolding fdputs_text
  said text w ls run at = law.writes w ls run (literal text) (length text) at

  answered : (r : ℤ) (w : W) (ls run : List Line) → law.At w ls run → law.At (answer sys r w) ls run
  unfolding answer
  answered r w ls run at =
      either {A = W} (λ v. law.At v ls run) (is_minus_one r)
        (λ a. said (codes "no such command\n") w ls run at)
        (λ a.
          either {A = W} (λ v. law.At v ls run) (is_zero r) (λ b. at)
            (λ b.
              either {A = W} (λ v. law.At v ls run) (uint32 r == 256)
                (λ c. said (codes "program terminated by exception\n") w ls run at)
                (λ c. said (codes "program terminated abnormally\n") w ls run at)))

  shell_loop-runs :
      (fuel : ℕ) (ls run : List Line) (buf : ℕ → ℕ) (w : W)
      → exits ls ≡ true
      → length ls ≤ fuel
      → law.At w ls run
      → (w' : W) × (rest : List Line) × (shell_loop sys fuel buf w ≡ some (0, w'))
        × law.At w' rest (run ++ commands ls)
  unfolding shell_loop after_line run_command after_execute
  shell_loop-runs fuel [] run buf w ends enough at = absurd (ground (arith, ends))
  shell_loop-runs zero (l ∷ ls) run buf w ends enough at = absurd (omega (arith, enough))
  shell_loop-runs (suc fuel) (l ∷ ls) run buf w ends enough at =
      let w1 = puts sys (codes "391OS> ") w in
      let (bytes, w2, read, same, nl, plain, short, at2) =
        law.reads w1 l ls run buf (said (codes "391OS> ") w (l ∷ ls) run at) in
      let visible : (j : ℕ) → j < l.count → l.chars j ≢ 0 = λ j lt. (plain j lt).0 in
      let line : ℕ → ℕ = update bytes l.count 0 in
      let holds = line-Holds bytes l same in
      let (r, test, exit_test) = strcmp-exit line l holds visible (omega (arith, short)) in
      let first : shell_loop sys (suc fuel) buf w ≡ run_command sys (shell_loop sys fuel) line w2 =
        ap (after_line sys (shell_loop sys fuel)) read
        ∙ ap (λ n. run_command sys (shell_loop sys fuel) (update bytes n 0) w2)
            (line_end_lem bytes l same nl plain) in
      elim (Bool-cases (is_exit l)) [
        | inl e ↦ (
          w2,
          ls,
          first ∙ rw (test, exit_test, e, run_command) refl,
          rw e (subst (law.At w2 ls) (sym (append-nil run)) at2),
        )
        | inr e ↦ elim (Bool-cases (l.count == 0)) [
          | inl z ↦
              let blank : (line 0 == 0) ≡ true = ground (arith, z) in
              let (w', rest, loop, at') =
                shell_loop-runs fuel ls run line w2 (other_exits l ls e ends)
                  (omega (arith, enough)) at2 in
              (w', rest, first ∙ rw (test, exit_test, e, blank, run_command) loop, rw (e, z) at')
          | inr nz ↦
              let blank : (line 0 == 0) ≡ false = ground (arith, nz, same 0, visible 0) in
              let status : ℤ × W = sys.execute line w2 in
              let w3 : W = answer sys status.0 status.1 in
              let at3 =
                answered status.0 status.1 ls (run ++ (l ∷ []))
                  (law.executes w2 l ls run line at2 holds) in
              let (w', rest, loop, at') =
                shell_loop-runs fuel ls (run ++ (l ∷ [])) line w3 (other_exits l ls e ends)
                  (omega (arith, enough)) at3 in
              (
                w',
                rest,
                first ∙ rw (test, exit_test, e, blank, run_command) loop,
                rw (e, nz) (subst (law.At w' rest) (append_assoc run (l ∷ []) (commands ls)) at'),
              )
        ]
      ]

  -- Where the calls deliver typed lines, without NULs and line feeds and shorter than the buffer, with
  -- a line feed behind each but those that begin with "exit", and execute commands, a shell whose lines come to "exit" returns 0, having executed exactly the lines before
  -- it that are not empty, in their order, each as the string that was typed; a round for each line
  -- is enough.
  pub shell-runs :
      (fuel : ℕ) (ls : List Line) (buf : ℕ → ℕ) (w : W)
      → exits ls ≡ true
      → length ls ≤ fuel
      → law.At w ls []
      → (w' : W) × (rest : List Line) × (shell sys fuel buf w ≡ some (0, w'))
        × law.At w' rest (commands ls)
  unfolding shell
  shell-runs fuel ls buf w ends enough at =
      shell_loop-runs fuel ls [] buf (puts sys (codes "Starting 391 Shell\n") w) ends enough
        (said (codes "Starting 391 Shell\n") w ls [] at)
