-- ===== src/Kernel/Run/Stacks.antt =====
-- The running system implements the stacks of programs.
use linux_base_operating_sys.Prelude.{
  ℕ, ◌≡◌, ◌<◌, ◌==◌, ◌||◌, if◌then◌else◌, Option, none, some, List, [], ◌∷◌, refl, sym, ap, ◌∙◌,
  subst, arith, update, fun_ext, inl, inr, none≢some,
}
use linux_base_operating_sys.Prelude.Int.{minus_one}
use linux_base_operating_sys.Fs.{Dentry}
use linux_base_operating_sys.Kernel.{Kernel, deref}
use linux_base_operating_sys.Kernel.Process.{entered, execute}
use linux_base_operating_sys.Kernel.Process.Programs.{
  Executed, execute-Executed, AfterExecute, execute-AfterExecute,
}
use linux_base_operating_sys.Kernel.Process.Ends.{halt-Represents, started_lem}
use linux_base_operating_sys.Kernel.Exceptions.{exception_handler-Represents}
use linux_base_operating_sys.Kernel.Keys.{handle_key}
use linux_base_operating_sys.Kernel.Press.{Screens}
use linux_base_operating_sys.Kernel.Press.Plain.{after_request, Pressed, press-Pressed}
use linux_base_operating_sys.Kernel.Files.{read, write, sys_open, close, getargs, vidmap}
use linux_base_operating_sys.Kernel.Files.Steady.{
  Keeps-read, Keeps-write, Keeps-sys_open, Keeps-close, Keeps-getargs, Keeps-vidmap,
}
use linux_base_operating_sys.Kernel.Drivers.Rules.{unchanged}
use linux_base_operating_sys.Kernel.Calls.{Calls, after_halt, started, top, Represents}
use linux_base_operating_sys.Kernel.Calls.Agree.{Leads, Agree, Represents-Agree}
use linux_base_operating_sys.Kernel.Calls.Moves.{Vacated}
use linux_base_operating_sys.Kernel.Run.{
  Step, presses, ticks, traps, executes, halts, reads, writes, opens, closes, asks, maps, Run, here,
  next,
}

-- A call that leaves the processes alone.
quiet :
    {A : Type 0} (c : Calls) (k k' : Kernel) (r : Option (A × Kernel)) (a : A)
    → Represents c k
    → Leads (λ b k2. Agree k k2) r
    → r ≡ some (a, k')
    → (c' : Calls) × (c' ≡ c) × Represents c' k'
quiet c k k' r a rep l e = (c, refl, Represents-Agree (subst (Leads (λ b k2. Agree k k2)) e l) rep)

-- A program that calls is the top of the stack of its terminal.
caller_on_top :
    (c : Calls) (k : Kernel) (l : List ℕ) {i : ℕ}
    → Represents c k
    → c.stacks c.shown ≡ l
    → deref (k.current_process k.curr_terminal) k ≡ some i
    → (p : ℕ) × (rest : List ℕ) × (c.stacks c.shown ≡ p ∷ rest)
unfolding deref
caller_on_top c k [] {i} r e d =
    let idle : k.current_process k.curr_terminal ≡ minus_one =
      rw r.shown (r.tops c.shown r.bound ∙ ap top e) in
    let q : none ≡ some i = rw (idle, deref) at d in absurd (none≢some q)
caller_on_top c k (p ∷ rest) r e d = (p, rest, e)

-- What each step does to the stacks.
abbrev pub Effect : {k k' : Kernel} → Step k k' → Calls → Calls → Type 0
Effect {k} {k'} (presses m key n n' backup backup' s e) c c' =
    c' ≡ after_request (handle_key key k).0 c
Effect (ticks e) c c' = c' ≡ c
Effect (traps stack blank number cr2 o e) c c' = c' ≡ after_halt c
Effect (executes stack blank comm caller o d e) c c' = AfterExecute o c c'
Effect (halts stack blank status o e) c c' = c' ≡ after_halt c
Effect (reads m fd buf nbytes a waits e) c c' = c' ≡ c
Effect (writes m fd buf nbytes a e) c c' = c' ≡ c
Effect (opens m filename a e) c c' = c' ≡ c
Effect (closes fd a e) c c' = c' ≡ c
Effect (asks buf nbytes a e) c c' = c' ≡ c
Effect (maps at screen_start a e) c c' = c' ≡ c

-- Every step does to the stacks of programs what its kind says. A key that asks for another of the
-- three terminals shows it, with its base shell started if nothing runs there. An `execute` that enters
-- a program has put a process that no stack has on the caller's stack; one that returns leaves the
-- stacks, or has put such a process there for a file that it could not start. `halt`, or an exception,
-- takes a program that was called off its stack, and starts a base shell anew. All other keys and
-- calls, and the ticks, leave the stacks.
pub Step-Effect :
    {k k' : Kernel} (c : Calls) (s : Step k k')
    → Represents c k
    → (c' : Calls) × Effect s c c' × Represents c' k'
Step-Effect {k} {k'} c (presses m key n n' backup backup' o e) r =
    let before : Screens = record {
      display = record { kernel = k; backup = backup };
      counters = n;
    } in
    let c' = after_request (handle_key key k).0 c in
    (c', refl, subst (Pressed c') e (press-Pressed m key c before r))
Step-Effect {k} {k'} c (ticks e) r = (
  c,
  refl,
  subst (Represents c) (sym e) (Represents-Agree (unchanged refl refl refl refl refl) r),
)
Step-Effect {k} {k'} c (traps stack blank number cr2 o e) r = (
  after_halt c,
  refl,
  subst (Leads (λ o k2. Represents (after_halt c) k2)) e
      (exception_handler-Represents stack blank number cr2 c k r),
)
Step-Effect {k} {k'} c (executes stack blank comm caller o d e) r =
    let (p, rest, running) = caller_on_top c k (c.stacks c.shown) r refl d in
    subst (Leads (λ o k2. (c' : Calls) × AfterExecute o c c' × Represents c' k2)) e
      (execute-AfterExecute stack blank comm c k p rest r running)
Step-Effect {k} {k'} c (halts stack blank status o e) r = (
  after_halt c,
  refl,
  subst (Leads (λ o k2. Represents (after_halt c) k2)) e (halt-Represents stack blank status c k r),
)
Step-Effect {k} {k'} c (reads m fd buf nbytes a waits e) r =
    quiet c k k' (read m fd buf nbytes k) a r (Keeps-read m fd buf nbytes waits k) e
Step-Effect {k} {k'} c (writes m fd buf nbytes a e) r =
    quiet c k k' (write m fd buf nbytes k) a r (Keeps-write m fd buf nbytes k) e
Step-Effect {k} {k'} c (opens m filename a e) r =
    quiet c k k' (sys_open m filename k) a r (Keeps-sys_open m filename k) e
Step-Effect {k} {k'} c (closes fd a e) r = quiet c k k' (close fd k) a r (Keeps-close fd k) e
Step-Effect {k} {k'} c (asks buf nbytes a e) r =
    quiet c k k' (getargs buf nbytes k) a r (Keeps-getargs buf nbytes k) e
Step-Effect {k} {k'} c (maps at screen_start a e) r =
    quiet c k k' (vidmap at screen_start k) a r (Keeps-vidmap at screen_start k) e

-- Whatever interrupts, exceptions and system calls come, in any order and number: the processes of
-- the kernel are at each time those of some stacks.
pub Run-Represents :
    {k k' : Kernel} (c : Calls) → Represents c k → Run k k' → (c' : Calls) × Represents c' k'
Run-Represents c r here = (c, r)
Run-Represents c r (next run step) =
    let (c1, r1) = Run-Represents c r run in
    let (c2, effect, r2) = Step-Effect c1 step r1 in (c2, r2)

-- The tables before the first program.
pub record IsIdle (k : Kernel) : Type 0 where
  pub shown : k.curr_terminal ≡ 0
  pub current : (t : ℕ) → t < 3 → k.current_process t ≡ minus_one
  pub slots : (i : ℕ) → i < 8 → k.in_use i ≡ (if i == 1 || i == 2 then 1 else 0)

abbrev nothing : Calls
nothing = record { shown = 0; stacks = λ t. [] }

-- The first base shell.
abbrev pub first : Calls
first = started 0 nothing

abbrev reserved : Kernel → Kernel
reserved k = record k { in_use = update k.in_use 0 1 }

reserved-Represents : (k : Kernel) → IsIdle k → Represents nothing (reserved k)
reserved-Represents k idle = record {
  shown = idle.shown;
  bound = omega arith;
  tops = idle.current;
  linked = λ t lt. tt;
  shells = λ t lt. ground (arith, lt, idle.slots t (omega (arith, lt)));
  slots = λ i ge lt. (ground (arith, ge, idle.slots i lt), omega arith);
}

reserved-Vacated : (k : Kernel) → IsIdle k → Vacated (reserved k) 0 k
reserved-Vacated k idle = record {
  terminal = idle.shown;
  current = refl;
  slots = fun_ext (λ i. ground (arith, idle.slots 0 (omega arith)));
  blocks = λ j. record { pointer = refl; number = refl; parent = refl };
}

-- The first program is a base shell: it alone stands in the stacks.
pub execute-first :
    (stack : ℕ → ℕ) (blank : Dentry) (comm : Option (ℕ → ℕ)) (a : ℕ) (k k' : Kernel)
    → IsIdle k
    → execute stack blank comm k ≡ some (entered a, k')
    → Represents first k'
execute-first stack blank comm a k k' idle e =
    elim (subst (Leads (Executed k)) e (execute-Executed stack blank comm k)) [
      | inl (s, back, _) ↦ cc
      | inr (i, free, t) ↦
          started_lem nothing (reserved k) k k' 0 i (reserved-Represents k idle) (omega arith)
            (inl refl) (reserved-Vacated k idle) free t
    ]
