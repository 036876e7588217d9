-- ===== src/Kernel/Process/Refused.antt =====
-- What an `execute` that returns -1 has changed.
use linux_base_operating_sys.Prelude.{
  ℕ, ◌≡◌, ◌≢◌, ◌<◌, ◌⊎◌, subst, refl, update, Option, some, none, Option-cases, inl, inr,
}
use linux_base_operating_sys.Prelude.Int.{minus_one}
use linux_base_operating_sys.Screen.{puts}
use linux_base_operating_sys.Fs.{Dentry, Fs}
use linux_base_operating_sys.Kernel.{Kernel, printf, codes}
use linux_base_operating_sys.Kernel.Command.{parse_cmd_args}
use linux_base_operating_sys.Kernel.Process.{
  Outcome, returned, find_program, free_slot, start_program, execute, program_name,
}
use linux_base_operating_sys.Kernel.Process.Slots.{Free, free_slot-Free}

-- What tells which processes there are and which one runs.
pub record SameProcesses (k k' : Kernel) : Type 0 where
  pub slots : k'.in_use ≡ k.in_use
  pub pointers : k'.process_array ≡ k.process_array
  pub current : k'.current_process ≡ k.current_process
  pub blocks : k'.pcbs ≡ k.pcbs
  pub pages : k'.paging ≡ k.paging
  pub terminal : k'.curr_terminal ≡ k.curr_terminal

-- A call returns -1 and changes no process.
abbrev pub Refuses : Kernel → Option (Outcome × Kernel) → Type 0
Refuses k r = (k' : Kernel) × (r ≡ some (returned minus_one, k')) × SameProcesses k k'

same : (k : Kernel) → SameProcesses k k
same k = record {
  slots = refl;
  pointers = refl;
  current = refl;
  blocks = refl;
  pages = refl;
  terminal = refl;
}

-- Whether a program can be started, up to its magic number.
abbrev CannotStart : Fs → (ℕ → ℕ) → (ℕ → ℕ) → Dentry → (ℕ → ℕ) → Type 0
CannotStart fs in_use file_name blank stack =
    (find_program fs file_name blank stack ≡ none) ⊎ (free_slot in_use ≡ none)

full_message : Kernel → Kernel
full_message k = record k {
  screen =
      puts k.curr_terminal k.screen (codes "Maximum Possible Processes. Stop and Reconsider.\n");
}

same-full_message : (k : Kernel) → SameProcesses k (full_message k)
unfolding full_message
same-full_message k = record {
  slots = refl;
  pointers = refl;
  current = refl;
  blocks = refl;
  pages = refl;
  terminal = refl;
}

start_program-Refuses :
    (file_name : ℕ → ℕ) (blank : Dentry) (stack : ℕ → ℕ) (k : Kernel)
    → CannotStart k.fs k.in_use file_name blank stack
    → Refuses k (start_program file_name blank stack k)
unfolding full_message start_program printf
start_program-Refuses file_name blank stack k (inl e) = (k, rw (e, start_program), same k)
start_program-Refuses file_name blank stack k (inr e) =
    elim (Option-cases (find_program k.fs file_name blank stack)) [
      | inl no_ ↦ (k, rw (no_, start_program), same k)
      | inr (d, found) ↦ (full_message k, rw (found, e, start_program), same-full_message k)
    ]

-- The kernel after the command line is parsed.
parsed : (ℕ → ℕ) → (ℕ → ℕ) → Kernel → Kernel
parsed stack comm k = record k {
  cmd_args =
      update k.cmd_args k.curr_terminal (parse_cmd_args stack comm (k.cmd_args k.curr_terminal)).1;
}

-- The name that `execute` looks up.
abbrev name_of : (ℕ → ℕ) → (ℕ → ℕ) → Kernel → Option (ℕ → ℕ)
name_of stack comm k = program_name (parse_cmd_args stack comm (k.cmd_args k.curr_terminal)).0 stack

-- What makes `execute` refuse a command: its name is too long, or no program of that name can be
-- started.
abbrev pub CannotExecute : (ℕ → ℕ) → Dentry → (ℕ → ℕ) → Kernel → Type 0
CannotExecute stack blank comm k =
    (name_of stack comm k ≡ none)
    ⊎ ((file_name : ℕ → ℕ) × (name_of stack comm k ≡ some file_name)
        × CannotStart k.fs k.in_use file_name blank stack)

same_parsed :
    (stack comm : ℕ → ℕ) (k k' : Kernel)
    → SameProcesses (parsed stack comm k) k'
    → SameProcesses k k'
unfolding parsed
same_parsed stack comm k k' s = record {
  slots = s.slots;
  pointers = s.pointers;
  current = s.current;
  blocks = s.blocks;
  pages = s.pages;
  terminal = s.terminal;
}

execute-Refuses :
    (stack : ℕ → ℕ) (blank : Dentry) (comm : ℕ → ℕ) (k : Kernel)
    → CannotExecute stack blank comm k
    → Refuses k (execute stack blank (some comm) k)
unfolding execute parsed
execute-Refuses stack blank comm k (inl e) = (
  parsed stack comm k,
  rw (e, execute),
  same_parsed stack comm k (parsed stack comm k) (same (parsed stack comm k)),
)
execute-Refuses stack blank comm k (inr (file_name, named, cannot)) =
    let (k', e, s) = start_program-Refuses file_name blank stack (parsed stack comm k) cannot in
    (k', rw (named, execute) e, same_parsed stack comm k k' s)

no_slot : (in_use : ℕ → ℕ) → ((j : ℕ) → j < 8 → in_use j ≢ 0) → free_slot in_use ≡ none
no_slot in_use busy = elim (Option-cases (free_slot in_use)) [
  | inl e ↦ e
  | inr (i, e) ↦
      let (low, high, free, first) = subst (Free in_use 0 8) e (free_slot-Free in_use) in
      absurd (busy i high free)
]

-- While all eight process slots are in use, every command is answered with -1, whatever program it
-- names, and leaves every process, the running programs and the paging as they were.
pub execute-full :
    (stack : ℕ → ℕ) (blank : Dentry) (comm : ℕ → ℕ) (k : Kernel)
    → ((j : ℕ) → j < 8 → k.in_use j ≢ 0)
    → Refuses k (execute stack blank (some comm) k)
execute-full stack blank comm k busy = elim (Option-cases (name_of stack comm k)) [
  | inl e ↦ execute-Refuses stack blank comm k (inl e)
  | inr (n, e) ↦ execute-Refuses stack blank comm k (inr (n, e, inr (no_slot k.in_use busy)))
]
