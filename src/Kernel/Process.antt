-- ===== src/Kernel/Process.antt =====
-- Processes: `pc_init`, `execute` and `halt` of student-distrib/syscall.c.
mod Tests
pub mod Refused
pub mod Slots
pub mod Lifecycle
pub mod Programs
pub mod Returns
pub mod Ends
pub mod Loads
pub mod Enters
use linux_base_operating_sys.Prelude.{
  ℕ, zero, suc, ◌+◌, ◌-◌, ◌*◌, ◌%◌, ◌^◌, ◌<◌, Bool, true, false, ◌&&◌, ◌||◌, not, ltb, leb, ◌==◌,
  ◌!=◌, if◌then◌else◌, update, fill, scan, Option, some, none, bit_or, List, [], ◌∷◌,
}
use linux_base_operating_sys.Prelude.Int.{ℤ, pos, negsuc, minus_one, is_minus_one}
use linux_base_operating_sys.Strings.{strcpy}
use linux_base_operating_sys.Fs.{Fs, Dentry, read_dentry_by_name, read_data}
use linux_base_operating_sys.Fd.{Fd, fd_table_init, close_all_fd}
use linux_base_operating_sys.Paging.{add_process}
use linux_base_operating_sys.Kernel.{
  Kernel, Pcb, M, ◌>>=◌, ◌>>◌, ret, codes, printf, deref, running, set_pcb, set_table,
  max_processes, max_terminal,
}
use linux_base_operating_sys.Kernel.Command.{parse_cmd_args}

abbrev pub k_stack_bottom : ℕ
k_stack_bottom = 0x00800000

abbrev pub kernel_stack : ℕ
kernel_stack = 0x2000

abbrev bytes_to_read : ℕ
bytes_to_read = 28

-- How a call ends that may not come back: it returns a value, it enters a user program at an
-- address, or it resumes the `execute` that started the program, which returns the status.
pub data Outcome : Type 0 where
  returned : ℤ → Outcome
  entered : ℕ → Outcome
  resumed : ℕ → Outcome

unfoldable pub pc_init : Kernel → Kernel
pc_init k = record k {
  curr_terminal = 0;
  current_process = fill max_terminal (λ t. minus_one) k.current_process;
  process_array = fill max_processes (λ i. false) k.process_array;
  in_use = fill max_processes (λ i. 0) k.in_use;
}

-- `terminal_init` of student-distrib/terminal.c: two slots are kept for the other base shells.
unfoldable pub terminal_init : Kernel → Kernel
terminal_init k = record k { in_use = update (update (update k.in_use 0 0) 1 1) 2 1 }

abbrev ends_name : ℕ → Bool
ends_name c = c == 32 || c == 0 || c == 10

-- The program's name, cut from the command; `none` where the loop meets a 32nd character.
unfoldable pub program_name : (ℕ → ℕ) → (ℕ → ℕ) → Option (ℕ → ℕ)
program_name command file_name =
    let n : ℕ = scan ends_name 31 command 0 in
    if ends_name (command n) then some (update (fill n command file_name) n 0) else none

-- What `execute` checks before it takes a process: the program's entry and its first 28 bytes.
-- `stack` is what the local variables hold before they are written.
pub find_program : Fs → (ℕ → ℕ) → Dentry → (ℕ → ℕ) → Option (Dentry × (ℕ → ℕ))
find_program fs file_name blank stack =
    let (found, d) = read_dentry_by_name fs file_name blank in
    let (count, buf) = read_data fs d.inode_idx 0 stack bytes_to_read in
    if is_minus_one found
    then none
    else if d.file_type != 2
    then none
    else if is_minus_one count
    then none
    else some (d, buf)

free_from : ℕ → (ℕ → ℕ) → ℕ → Option ℕ
free_from zero in_use i = none
free_from (suc n) in_use i = if in_use i == 0 then some i else free_from n in_use (suc i)

-- The first process slot that is not in use.
unfoldable pub free_slot : (ℕ → ℕ) → Option ℕ
unfolding free_from
free_slot in_use = free_from max_processes in_use 0

pub is_executable : (ℕ → ℕ) → Bool
is_executable buf = buf 0 == 0x7f && buf 1 == 0x45 && buf 2 == 0x4c && buf 3 == 0x46

-- `entry_point |= buf[j] << 8 * (j - 24)` for the four bytes.
pub entry_point : (ℕ → ℕ) → ℕ
entry_point buf =
    bit_or
      (bit_or (bit_or (bit_or 0 (buf 24)) (buf 25 * 2 ^ 8 % 2 ^ 32)) (buf 26 * 2 ^ 16 % 2 ^ 32))
      (buf 27 * 2 ^ 24 % 2 ^ 32)

-- A process slot taken: its block, its arguments and its table of descriptors.
abbrev pub taken_by : ℕ → (ℕ → ℕ) → Kernel → Kernel
taken_by i args k =
    let t = k.curr_terminal in
    record k {
      in_use = update k.in_use i 1;
      process_array = update k.process_array i true;
      current_process = update k.current_process t (pos i);
      pcbs = update k.pcbs i (record (k.pcbs i) {
        process_id = i;
        parent_id = if ltb i 3 then minus_one else k.current_process t;
        args = args;
        fd_table = fd_table_init (k.pcbs i).fd_table;
      });
    }

-- The copy of the arguments ends within the 129 bytes that `parse_cmd_args` may write.
pub take_slot : ℕ → Kernel → Option Kernel
take_slot i k = elim (strcpy 129 (k.pcbs i).args (k.cmd_args k.curr_terminal)) [
  | none ↦ none
  | some args ↦ some (taken_by i args k)
]

-- What is left of the process's 4 MB behind 0x08048000, and whether bytes written there leave it.
abbrev pub program_room : ℕ
program_room = 0x3B8000

abbrev pub overflows : ℤ → Bool
overflows (pos n) = ltb program_room n
overflows (negsuc n) = false

-- The program is copied into the process's page, and the processor goes to it. `none` where a file
-- is longer than the page: there is no page behind it to write to.
pub load_program : ℕ → (ℕ → ℕ) → (ℕ → ℕ) → Dentry → M Outcome
load_program i file_name buf blank k =
    let k1 : Kernel = record k { paging = add_process i k.paging } in
    let (found, d) = read_dentry_by_name k.fs file_name blank in
    let (count, memory) =
      read_data k.fs d.inode_idx 0 (k.program i) (k.fs.inodes d.inode_idx).file_size in
    let k2 : Kernel = record k1 { program = update k.program i memory } in
    if is_minus_one found
    then ret (returned minus_one) k1
    else if is_minus_one count
    then ret (returned minus_one) k2
    else if overflows count
    then none
    else ret (entered (entry_point buf)) (record k2 {
      tss_esp0 = k_stack_bottom - kernel_stack * i - 4;
      pcbs = update k.pcbs i (record (k.pcbs i) { current_esp = k.esp; current_ebp = k.ebp });
    })

-- `execute` from the program's name on.
pub start_program : (ℕ → ℕ) → Dentry → (ℕ → ℕ) → M Outcome
start_program file_name blank stack k = elim (find_program k.fs file_name blank stack) [
  | none ↦ ret (returned minus_one) k
  | some (d, buf) ↦ elim (free_slot k.in_use) [
    | none ↦
        (printf (codes "Maximum Possible Processes. Stop and Reconsider.\n")
            >> ret (returned minus_one))
          k
    | some i ↦ elim (take_slot i k) [
      | none ↦ none
      | some k1 ↦
          if is_executable buf
          then load_program i file_name buf blank k1
          else ret (returned minus_one) k1
    ]
  ]
]

-- `comm` is `none` for NULL; `stack` and `blank` are what the local variables hold.
pub execute : (ℕ → ℕ) → Dentry → Option (ℕ → ℕ) → M Outcome
execute stack blank none k = ret (returned minus_one) k
execute stack blank (some comm) k =
    let t = k.curr_terminal in
    let (command, args) = parse_cmd_args stack comm (k.cmd_args t) in
    let k1 : Kernel = record k { cmd_args = update k.cmd_args t args } in
    elim (program_name command stack) [
      | none ↦ ret (returned minus_one) k1
      | some file_name ↦ start_program file_name blank stack k1
    ]

abbrev pub shell : ℕ → ℕ
shell zero = b's'
shell (suc zero) = b'h'
shell (suc (suc zero)) = b'e'
shell (suc (suc (suc zero))) = b'l'
shell (suc (suc (suc (suc zero)))) = b'l'
shell _ = 0

-- The argument of `add_process` is unsigned.
abbrev pub parent_number : ℤ → ℕ
parent_number (pos n) = n
parent_number (negsuc n) = 2 ^ 32 - suc n

-- The part of `halt` that goes back to the parent. Its block is read through a pointer that is
-- NULL for a process without a parent.
pub resume_parent : ℕ → M Outcome
resume_parent status k = elim (deref (k.current_process k.curr_terminal) k) [
  | none ↦ none
  | some i ↦
      let b = k.pcbs i in
      let k1 : Kernel = record k {
        esp = b.current_esp;
        ebp = b.current_ebp;
        exception_flag = 0;
        in_use = update k.in_use i 0;
        current_process = update k.current_process k.curr_terminal b.parent_id;
        paging = add_process (parent_number b.parent_id) k.paging;
      } in
      elim (deref b.parent_id k1) [
        | none ↦ none
        | some p ↦
            ret (resumed (status % 256 + k.exception_flag))
              (record k1 { tss_esp0 = (k.pcbs p).current_esp })
      ]
]

-- A base shell is started anew, and its `halt` goes on only if that fails.
pub halt : (ℕ → ℕ) → Dentry → ℕ → M Outcome
halt stack blank status k = elim (deref (k.current_process k.curr_terminal) k) [
  | none ↦ none
  | some i ↦
      let k1 : Kernel = set_table i (close_all_fd (k.pcbs i).fd_table) k in
      let id = (k.pcbs i).process_id in
      let again = execute stack blank (some shell) (record k1 { in_use = update k1.in_use id 0 }) in
      if ltb id 3
      then elim again [
        | none ↦ none
        | some (o, k2) ↦ elim o [
          | returned r ↦ resume_parent status k2
          | entered a ↦ some (entered a, k2)
          | resumed s ↦ some (resumed s, k2)
        ]
      ]
      else resume_parent status k1
]
