-- ===== src/Kernel/Process/Enters.antt =====
-- The start of a program by `execute`.
use linux_base_operating_sys.Prelude.{
  ℕ, ◌-◌, ◌*◌, ◌≡◌, ◌≢◌, if◌then◌else◌, ltb, update, some, refl, sym, ap, ◌∙◌, arith, true,
  update_self, update_other,
}
use linux_base_operating_sys.Strings.{strcpy}
use linux_base_operating_sys.Fs.{Dentry}
use linux_base_operating_sys.Fs.Read.{file_byte}
use linux_base_operating_sys.Paging.{add_process}
use linux_base_operating_sys.Kernel.{Kernel}
use linux_base_operating_sys.Strings.Copy.{strcpy-some}
use linux_base_operating_sys.Kernel.Command.{parse_cmd_args, args_start, args_end}
use linux_base_operating_sys.Kernel.Command.Split.{parse_cmd_args-fits}
use linux_base_operating_sys.Kernel.Process.{
  entered, execute, start_program, load_program, free_slot, take_slot, taken_by, entry_point,
  program_name, k_stack_bottom, kernel_stack,
}
use linux_base_operating_sys.Kernel.Calls.Agree.{Took, Agree-Took}
use linux_base_operating_sys.Kernel.Drivers.Rules.{unchanged}
use linux_base_operating_sys.Kernel.Process.Loads.{
  IsProgram, inode, found, found_lem, find_program_lem, magic_lem, entry_point_lem, loaded, size,
  loaded_lem,
}

-- The kernel when the processor goes to the program.
abbrev ready : ℕ → (ℕ → ℕ) → (ℕ → ℕ) → Kernel → Kernel
ready i args memory k =
    let k1 = taken_by i args k in
    record k1 {
      paging = add_process i k.paging;
      program = update k.program i memory;
      tss_esp0 = k_stack_bottom - kernel_stack * i - 4;
      pcbs = update k1.pcbs i (record (k1.pcbs i) { current_esp = k.esp; current_ebp = k.ebp });
    }

start_program_lem :
    (file_name : ℕ → ℕ) (blank : Dentry) (stack : ℕ → ℕ) (e i : ℕ) (args : ℕ → ℕ) (k : Kernel)
    (p : IsProgram k.fs file_name e)
    → free_slot k.in_use ≡ some i
    → strcpy 129 (k.pcbs i).args (k.cmd_args k.curr_terminal) ≡ some args
    → start_program file_name blank stack k
      ≡ some (
        entered (entry_point (file_byte k.fs (k.fs.entries e).inode_idx)),
        ready i args (loaded k.fs file_name blank e p.file (k.program i)) k,
      )
unfolding start_program load_program take_slot loaded found inode size
start_program_lem file_name blank stack e i args k p free copied =
    let (a, b, c) = found_lem k.fs file_name blank e p.file in
    let (count, inside, _) = loaded_lem k.fs file_name blank e p.file (k.program i) p.small in
    let header = find_program_lem k.fs file_name blank e p.file stack in
    let magic = magic_lem k.fs file_name blank e p.file stack p.magic in
    let start = entry_point_lem k.fs file_name blank e p.file stack in
    rw
      (header, free, copied, start_program, take_slot, magic, load_program, a, count, inside, start)
      refl

-- The program in the file `inode` is process `i` of `k'`.
pub record Enters (k : Kernel) (i inode : ℕ) (args : ℕ → ℕ) (k' : Kernel) : Type 0 where
  pub memory :
      (j : ℕ)
      → k'.program i j
        ≡ (if ltb j (k.fs.inodes inode).file_size then file_byte k.fs inode j else k.program i j)
  pub others : (u : ℕ) → u ≢ i → k'.program u ≡ k.program u
  pub paging : k'.paging ≡ add_process i k.paging
  pub stack : k'.tss_esp0 ≡ k_stack_bottom - kernel_stack * i - 4
  pub arguments : (k'.pcbs i).args ≡ args
  pub caller : ((k'.pcbs i).current_esp ≡ k.esp) × ((k'.pcbs i).current_ebp ≡ k.ebp)
  pub took : Took k i k'

ready-Enters :
    (file_name : ℕ → ℕ) (blank : Dentry) (stack : ℕ → ℕ) (e i : ℕ) (args : ℕ → ℕ) (k : Kernel)
    (p : IsProgram k.fs file_name e)
    → free_slot k.in_use ≡ some i
    → strcpy 129 (k.pcbs i).args (k.cmd_args k.curr_terminal) ≡ some args
    → Enters k i
        (k.fs.entries e).inode_idx
        args
        (ready i args (loaded k.fs file_name blank e p.file (k.program i)) k)
unfolding inode size
ready-Enters file_name blank stack e i args k p free copied =
    let (_, _, d) = loaded_lem k.fs file_name blank e p.file (k.program i) p.small in
    record {
      memory = λ j.
          ap (λ m. m j)
            (update_self k.program i i (loaded k.fs file_name blank e p.file (k.program i)) refl)
          ∙ d j;
      others = λ u n. update_other k.program i u _ (λ s. n (sym s));
      paging = refl;
      stack = refl;
      arguments = ground arith;
      caller = (ground arith, ground arith);
      took = record {
        terminal = refl;
        current = refl;
        slots = refl;
        block = record {
          here = update_self k.process_array i i true refl;
          number = ground arith;
          parent_is = ground arith;
        };
        others = λ j n. record {
          pointer = update_other k.process_array i j true (λ s. n (sym s));
          number = ground (arith, n);
          parent = ground (arith, n);
        };
      };
    }

-- With a word that names a program and a free slot, `execute` goes to the address in bytes 24 to 27 of
-- the program's file, in the first free slot: the process's memory begins with the file, and all
-- else in memory is as it was; the process has the line's arguments, the registers of the call and
-- its own stack in the kernel, and runs on the terminal.
pub execute-Enters :
    (stack : ℕ → ℕ) (blank : Dentry) (comm file_name : ℕ → ℕ) (e i : ℕ) (k : Kernel)
    → let (command, line) = parse_cmd_args stack comm (k.cmd_args k.curr_terminal) in
      program_name command stack ≡ some file_name
      → IsProgram k.fs file_name e
      → free_slot k.in_use ≡ some i
      → (args : ℕ → ℕ) × (k' : Kernel) × (strcpy 129 (k.pcbs i).args line ≡ some args)
        × (execute stack blank (some comm) k
            ≡ some (entered (entry_point (file_byte k.fs (k.fs.entries e).inode_idx)), k'))
        × Enters k i (k.fs.entries e).inode_idx args k'
unfolding execute
execute-Enters stack blank comm file_name e i k named p free =
    let t = k.curr_terminal in
    let line = (parse_cmd_args stack comm (k.cmd_args t)).1 in
    let k1 : Kernel = record k { cmd_args = update k.cmd_args t line } in
    let (nul, fits) = parse_cmd_args-fits comm stack (k.cmd_args t) in
    let (args, copied) =
      strcpy-some 129 (k.pcbs i).args line (args_end comm - args_start comm) nul fits in
    let copied1 : strcpy 129 (k1.pcbs i).args (k1.cmd_args k1.curr_terminal) ≡ some args =
      ap (strcpy 129 (k.pcbs i).args) (update_self k.cmd_args t t line refl) ∙ copied in
    let memory = loaded k1.fs file_name blank e p.file (k1.program i) in
    let r = ready-Enters file_name blank stack e i args k1 p free copied1 in
    (
      args,
      ready i args memory k1,
      copied,
      rw (named, execute) (start_program_lem file_name blank stack e i args k1 p free copied1),
      record {
        memory = r.memory;
        others = r.others;
        paging = r.paging;
        stack = r.stack;
        arguments = r.arguments;
        caller = r.caller;
        took = Agree-Took (unchanged refl refl refl refl refl) r.took;
      },
    )
