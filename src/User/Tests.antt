-- ===== src/User/Tests.antt =====
-- The programs on a system of calls with one file, three typed lines and a list of what is executed.
use linux_base_operating_sys.Prelude.{
  ℕ, zero, suc, ◌+◌, ◌-◌, ◌<◌, ◌≡◌, ◌≢◌, ◌↔◌, update, some, List, [], ◌∷◌, ◌++◌, prefix, refl, ap,
  arith, Bool-cases, inl, inr, false, if◌then◌else◌,
}
use linux_base_operating_sys.Prelude.Int.{ℤ, pos, negsuc}
use linux_base_operating_sys.Kernel.{codes}
use linux_base_operating_sys.User.{Sys, stdout, literal}
use linux_base_operating_sys.User.Support.{ece391_strcmp}
use linux_base_operating_sys.User.Compare.{Same, ece391_strcmp_iff}
use linux_base_operating_sys.User.Cat.{cat, at_most, Streams, cat-copies}
use linux_base_operating_sys.User.Ls.{ls, Name, listing, Directory, ls-lists}
use linux_base_operating_sys.User.Shell.{shell}
use linux_base_operating_sys.User.Shell.Runs.{shell-runs}
use linux_base_operating_sys.User.Shell.Lines.{
  Line, Holds, Console, commands, begins_exit, delivered,
}

abbrev letters : ℕ → ℕ
letters j = 65 + j

-- The position in the file and what is written.
abbrev FileWorld : Type 0
FileWorld = ℕ × List ℕ

abbrev one_file : Sys FileWorld
one_file = record {
  execute = λ buf w. (negsuc 0, w);
  read = λ fd buf n w.
      (pos (at_most n (3 - w.0)), (λ j. letters (w.0 + j)), (w.0 + at_most n (3 - w.0), w.1));
  write = λ fd buf n w. (pos n, (w.0, w.1 ++ prefix n buf));
  open_file = λ name w. (pos 2, w);
  close = λ fd w. (pos 0, w);
  getargs = λ buf n w. (pos 0, literal (codes "abc"), w);
}

abbrev one_file-Streams : Streams one_file (pos 2) letters 3
one_file-Streams = record {
  At = λ w p out. w ≡ (p, out);
  reads = λ w p out buf n e le. (
    (λ j. letters (p + j)),
    (p + at_most n (3 - p), out),
    ap (one_file.read (pos 2) buf n) e,
    (λ j lt. refl),
    refl,
  );
  writes = λ w p out buf n e. ((p, out ++ prefix n buf), ap (one_file.write stdout buf n) e, refl);
}

cat-copies_example :
    (w' : FileWorld) × (cat one_file 4 letters (0, []) ≡ some (0, w'))
    × (w' ≡ (3, prefix 3 letters))
cat-copies_example =
    cat-copies one_file (pos 2) letters 3 one_file-Streams 4 letters (literal (codes "abc")) (0, [])
      (0, []) (0, []) (omega arith) refl refl refl refl

ece391_strcmp_iff_example :
    (r : ℤ) × (ece391_strcmp 4 (literal (codes "ls")) (literal (codes "lt")) ≡ some r)
    × ((r ≡ pos 0) ↔ Same (literal (codes "ls")) (literal (codes "lt")) 0)
ece391_strcmp_iff_example =
    ece391_strcmp_iff 4 2 (literal (codes "ls")) (literal (codes "lt")) (omega arith) refl

-- The lines to be typed, and the strings that have been executed.
abbrev LineWorld : Type 0
LineWorld = List Line × List (ℕ → ℕ)

-- The line as it is delivered.
abbrev fed : Line → ℕ → ℕ
fed l = if begins_exit l then l.chars else update l.chars l.count 10

typed : (ℕ → ℕ) → LineWorld → ℤ × (ℕ → ℕ) × LineWorld
typed buf ([], run) = (negsuc 0, buf, ([], run))
typed buf (l ∷ ls, run) = (pos (delivered l), fed l, (ls, run))

abbrev terminal : Sys LineWorld
terminal = record {
  execute = λ buf w. (pos 0, (w.0, w.1 ++ (buf ∷ [])));
  read = λ fd buf n w. typed buf w;
  write = λ fd buf n w. (pos n, w);
  open_file = λ name w. (pos 2, w);
  close = λ fd w. (pos 0, w);
  getargs = λ buf n w. (negsuc 0, buf, w);
}

abbrev Visible : List Line → Type 0
Visible [] = Unit
Visible (l ∷ ls) =
    ((j : ℕ) → j < l.count → (l.chars j ≢ 0) × (l.chars j ≢ 10)) × (l.count < 1023) × Visible ls

abbrev Matches : List (ℕ → ℕ) → List Line → Type 0
Matches [] [] = Unit
Matches (b ∷ bs) (l ∷ ls) = Holds b l × Matches bs ls
Matches _ _ = ⊥

Matches-append :
    (bs : List (ℕ → ℕ)) (ls : List Line) (b : ℕ → ℕ) (l : Line)
    → Matches bs ls
    → Holds b l
    → Matches (bs ++ (b ∷ [])) (ls ++ (l ∷ []))
Matches-append [] [] b l m h = (h, tt)
Matches-append [] (k ∷ ls) b l m h = elim m [ ]
Matches-append (c ∷ bs) [] b l m h = elim m [ ]
Matches-append (c ∷ bs) (k ∷ ls) b l m h = (m.0, Matches-append bs ls b l m.1 h)

typed-Typed :
    (buf : ℕ → ℕ) (w : LineWorld) (l : Line) (ls : List Line)
    → w.0 ≡ (l ∷ ls)
    → typed buf w ≡ (pos (delivered l), fed l, (ls, w.1))
unfolding typed
typed-Typed buf w l ls e = ap (λ ks. typed buf (ks, w.1)) e

typed_char : (l : Line) (j : ℕ) → j < l.count → fed l j ≡ l.chars j
typed_char l j lt = elim (Bool-cases (begins_exit l)) [
  | inl e ↦ rw e refl
  | inr e ↦ rw e (ground (arith, lt))
]

typed_end : (l : Line) → begins_exit l ≡ false → fed l l.count ≡ 10
typed_end l e = rw e (ground arith)

abbrev terminal-Console : Console terminal
terminal-Console = record {
  At = λ w ls run. (w.0 ≡ ls) × Visible ls × Matches w.1 run;
  writes = λ w ls run text n at. at;
  reads = λ w l ls run buf at. (
    fed l,
    (ls, w.1),
    typed-Typed buf w l ls at.0,
    typed_char l,
    typed_end l,
    at.1.0,
    at.1.1,
    (refl, at.1.2, at.2),
  );
  executes = λ w l ls run buf at h. (at.0, at.1, Matches-append w.1 run buf l at.2 h);
}

abbrev line_of : List ℕ → ℕ → Line
line_of text n = record { chars = literal text; count = n }

-- "ls", an empty line and "exit".
abbrev three_lines : List Line
three_lines = line_of (codes "ls") 2 ∷ line_of [] 0 ∷ line_of (codes "exit") 4 ∷ []

ls_visible : (j : ℕ) → j < 2 → (literal (codes "ls") j ≢ 0) × (literal (codes "ls") j ≢ 10)
ls_visible zero lt = ((λ e. absurd (omega (arith, e))), λ e. absurd (omega (arith, e)))
ls_visible (suc zero) lt = ((λ e. absurd (omega (arith, e))), λ e. absurd (omega (arith, e)))
ls_visible (suc (suc j)) lt = absurd (omega (arith, lt))

exit_visible : (j : ℕ) → j < 4 → (literal (codes "exit") j ≢ 0) × (literal (codes "exit") j ≢ 10)
exit_visible zero lt = ((λ e. absurd (omega (arith, e))), λ e. absurd (omega (arith, e)))
exit_visible (suc zero) lt = ((λ e. absurd (omega (arith, e))), λ e. absurd (omega (arith, e)))
exit_visible (suc (suc zero)) lt =
    ((λ e. absurd (omega (arith, e))), λ e. absurd (omega (arith, e)))
exit_visible (suc (suc (suc zero))) lt =
    ((λ e. absurd (omega (arith, e))), λ e. absurd (omega (arith, e)))
exit_visible (suc (suc (suc (suc j)))) lt = absurd (omega (arith, lt))

shell-runs_example :
    (w' : LineWorld) × (rest : List Line) × (shell terminal 3 letters (three_lines, [])
      ≡ some (0, w'))
    × ((w'.0 ≡ rest) × Visible rest × Matches w'.1 (commands three_lines))
shell-runs_example =
    shell-runs terminal terminal-Console 3 three_lines letters (three_lines, []) refl (omega arith)
      (
        refl,
        (
          ls_visible,
          omega arith,
          ((λ j lt. absurd (omega (arith, lt))), omega arith, (exit_visible, omega arith, tt)),
        ),
        tt,
      )

-- The names still to be read, and what is written.
abbrev NameWorld : Type 0
NameWorld = List Name × List ℕ

listed : (ℕ → ℕ) → NameWorld → ℤ × (ℕ → ℕ) × NameWorld
listed buf ([], out) = (pos 0, buf, ([], out))
listed buf (n ∷ ns, out) = (pos n.count, n.chars, (ns, out))

abbrev directory : Sys NameWorld
directory = record {
  execute = λ buf w. (negsuc 0, w);
  read = λ fd buf n w. listed buf w;
  write = λ fd buf n w. (pos n, (w.0, w.1 ++ prefix n buf));
  open_file = λ name w. (pos 2, w);
  close = λ fd w. (pos 0, w);
  getargs = λ buf n w. (negsuc 0, buf, w);
}

abbrev AllNamed : List Name → Type 0
AllNamed [] = Unit
AllNamed (n ∷ ns) = (n.count ≢ 0) × AllNamed ns

listed-first :
    (buf : ℕ → ℕ) (w : NameWorld) (n : Name) (ns : List Name) (out : List ℕ)
    → w ≡ ((n ∷ ns), out)
    → listed buf w ≡ (pos n.count, n.chars, (ns, out))
unfolding listed
listed-first buf w n ns out e = ap (listed buf) e

listed-end :
    (buf : ℕ → ℕ) (w : NameWorld) (out : List ℕ)
    → w ≡ ([], out)
    → listed buf w ≡ (pos 0, buf, ([], out))
unfolding listed
listed-end buf w out e = ap (listed buf) e

abbrev directory-Directory : Directory directory (pos 2)
directory-Directory = record {
  At = λ w ns out. (w ≡ (ns, out)) × AllNamed ns;
  reads = λ w n ns out buf at. (
    n.chars,
    (ns, out),
    listed-first buf w n ns out at.0,
    at.1.0,
    (λ j lt. refl),
    (refl, at.1.1),
  );
  ends = λ w out buf at. (buf, ([], out), listed-end buf w out at.0, (refl, tt));
  writes = λ w ns out buf n at.
      ((ns, out ++ prefix n buf), ap (directory.write stdout buf n) at.0, (refl, at.1));
}

abbrev two_names : List Name
two_names =
    record { chars = literal (codes "."); count = 1 }
    ∷ record { chars = literal (codes "cat"); count = 3 }
    ∷ []

ls-lists_example :
    (w' : NameWorld) × (ls directory 3 letters (two_names, []) ≡ some (0, w'))
    × ((w' ≡ ([], listing two_names)) × Unit {0})
ls-lists_example =
    ls-lists directory (pos 2) directory-Directory 3 two_names letters (two_names, [])
      (two_names, []) (omega arith) refl refl (refl, (omega arith, (omega arith, tt)))
