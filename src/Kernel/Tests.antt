-- ===== src/Kernel/Tests.antt =====
-- The theorems on the kernel at the sample.
use linux_base_operating_sys.Prelude.{
  ℕ, zero, suc, ◌+◌, ◌%◌, ◌-◌, ◌≤◌, ◌<◌, ◌≡◌, ◌≢◌, ◌==◌, ◌||◌, refl, true, ltb, leb, if◌then◌else◌,
  [], arith, some,
}
use linux_base_operating_sys.Prelude.Int.{pos, minus_one}
use linux_base_operating_sys.Fs.Read.{Delivers}
use linux_base_operating_sys.Fs.ReadData.{available, Request}
use linux_base_operating_sys.Paging.{Tables}
use linux_base_operating_sys.Kernel.{Kernel, deref, running}
use linux_base_operating_sys.Kernel.Displays.{print_pieces}
use linux_base_operating_sys.Kernel.Displays.Contents.{IsWhole, Shows, print_pieces-Shows}
use linux_base_operating_sys.Kernel.Sample.{sample, sample_fs, sample_pcb, zeros, name_x, entry_x}
use linux_base_operating_sys.Kernel.Command.{parse_cmd_args}
use linux_base_operating_sys.Kernel.Command.Split.{IsCommand, parse_cmd_args_lem}
use linux_base_operating_sys.Kernel.Process.{resumed, halt}
use linux_base_operating_sys.Kernel.Process.Lifecycle.{IsChild, Resumed, halt-Resumed}
use linux_base_operating_sys.Kernel.Files.{Machine, read, getargs}
use linux_base_operating_sys.Kernel.Files.Dispatch.{IsOpenFile, read-advances}
use linux_base_operating_sys.Kernel.Files.Args.{getargs_lem}
use linux_base_operating_sys.Kernel.Exceptions.{exception_handler, exception_handler-Resumed}
use linux_base_operating_sys.Kernel.Switch.{Display}

abbrev machine : Machine
machine = record { prev_data = 0x26; ticks = []; waits = []; blank = entry_x }

sample-IsChild : IsChild 3 0 0x7FDF00 0x7FDF40 sample
sample-IsChild = record {
  bounds = (omega arith, omega arith, omega arith, omega arith);
  current = refl;
  here = refl;
  there = refl;
  number = refl;
  parent = refl;
  registers = (refl, refl);
}

halt-Resumed_example :
    (k' : Kernel) × (halt zeros entry_x 7 sample
      ≡ some (resumed (7 % 256 + sample.exception_flag), k'))
    × Resumed 3 0 0x7FDF00 0x7FDF40 sample k'
halt-Resumed_example = halt-Resumed zeros entry_x 7 3 0 0x7FDF00 0x7FDF40 sample sample-IsChild

exception_handler-Resumed_example :
    (k' : Kernel) × (exception_handler zeros entry_x 14 48879 sample ≡ some (resumed 256, k'))
    × Resumed 3 0 0x7FDF00 0x7FDF40 sample k'
exception_handler-Resumed_example =
    exception_handler-Resumed zeros entry_x 14 48879 3 0 0x7FDF00 0x7FDF40 sample (omega arith)
      sample-IsChild

sample_runs : deref (sample.current_process sample.curr_terminal) sample ≡ some 3
unfolding deref
sample_runs = refl

sample-running : running sample ≡ some (3, sample)
unfolding running deref
sample-running = refl

sample_open : IsOpenFile 3 2 1 10 sample
sample_open = record {
  runs = sample_runs;
  small = omega arith;
  ops = refl;
  file = refl;
  at_ = refl;
  on = refl;
}

sample_request : Request sample_fs 1 10 200
sample_request = record {
  known = omega arith;
  inside = omega arith;
  small = omega arith;
  nonempty = omega arith;
  no_wrap = omega arith;
}

read-advances_example :
    (filled : ℕ → ℕ) × (k' : Kernel) × (read machine (pos 2) (some zeros) (pos 200) sample
      ≡ some ((pos (available sample_fs 1 10 200), some filled), k'))
    × Delivers sample_fs 1 10 (available sample_fs 1 10 200) zeros filled
    × IsOpenFile 3 2 1 (10 + available sample_fs 1 10 200) k'
    × (k'.fs ≡ sample_fs)
read-advances_example =
    read-advances machine 3 2 1 10 200 zeros sample sample_open sample_request (λ j h. omega arith)

sample-IsWhole : IsWhole sample_fs 1
sample-IsWhole = record { known = omega arith; small = omega arith; good = λ j h. omega arith }

print_pieces-Shows_example :
    (k' : Kernel) × (print_pieces 2 (pos 2) zeros (pos 500) sample ≡ some (tt, k'))
    × Shows 3 2 1 10 sample k'
print_pieces-Shows_example =
    print_pieces-Shows 3 2 1 2 10 zeros sample sample_open sample-IsWhole (omega arith)
      (omega arith)

-- The same file, read to its end.
abbrev done : Kernel
done = record sample {
  fs = record sample_fs { inodes = λ i. record { file_size = 10; datablock_idx = λ j. 1 } };
}

done_open : IsOpenFile 3 2 1 10 done
unfolding deref
done_open = record {
  runs = refl;
  small = omega arith;
  ops = refl;
  file = refl;
  at_ = refl;
  on = refl;
}

name_x_blank : (j : ℕ) → 0 < j → j < 128 → (name_x j == 32 || name_x j == 0) ≡ true
name_x_blank zero a b = absurd (omega arith)
name_x_blank (suc j) a b = refl

getargs_lem_example :
    (b : ℕ → ℕ) × (getargs (some zeros) (pos 1024) sample
      ≡ some ((if name_x 0 == 0 then minus_one else pos 0, some b), sample))
    × ((j : ℕ) → b j ≡ (if leb j 0 then name_x j else if ltb j 1024 then 0 else zeros j))
getargs_lem_example =
    getargs_lem sample 3 1024 0 zeros sample-running (omega arith) (omega arith) refl name_x_blank

-- The same process without arguments.
abbrev bare : Kernel
bare = record sample { pcbs = λ i. record (sample_pcb i) { args = zeros } }

bare-running : running bare ≡ some (3, bare)
unfolding running deref
bare-running = refl

abbrev tables_at : Tables
tables_at = record { kernel_table = 0x405000; user_table = 0x406000 }

abbrev display : Display
display = record { kernel = sample; backup = λ t i. t }

-- "l x"
abbrev command_l : ℕ → ℕ
command_l zero = b'l'
command_l (suc zero) = 32
command_l (suc (suc j)) = name_x j

command_l-IsCommand : IsCommand command_l 1 2 3
command_l-IsCommand = record {
  word = in_word;
  spaces = in_spaces;
  after_word = omega arith;
  begins = omega arith;
  arguments = in_arguments;
  after_spaces = omega arith;
  nul = refl;
  fits = omega arith;
  separated = λ e. absurd (omega (arith, e));
}
  where
    in_word : (j : ℕ) → j < 1 → (command_l j ≢ 32) × (command_l j ≢ 0)
    in_word zero h = (omega arith, omega arith)
    in_word (suc j) h = absurd (omega arith)

    in_spaces : (j : ℕ) → 1 ≤ j → j < 2 → command_l j ≡ 32
    in_spaces zero a b = absurd (omega arith)
    in_spaces (suc zero) a b = refl
    in_spaces (suc (suc j)) a b = absurd (omega arith)

    in_arguments : (j : ℕ) → 2 ≤ j → j < 3 → command_l j ≢ 0
    in_arguments zero a b = absurd (omega arith)
    in_arguments (suc zero) a b = absurd (omega arith)
    in_arguments (suc (suc zero)) a b = omega arith
    in_arguments (suc (suc (suc j))) a b = absurd (omega arith)

parse_cmd_args_lem_example :
    let (buf', args') = parse_cmd_args zeros command_l zeros in
    (buf' 0 ≡ (if ltb 0 1 then command_l 0 else if 0 == 1 then 0 else zeros 0))
    × (args' 0 ≡ (if ltb 0 (3 - 2) then command_l (2 + 0) else if 0 == 3 - 2 then 0 else zeros 0))
parse_cmd_args_lem_example = parse_cmd_args_lem command_l zeros zeros 1 2 3 0 command_l-IsCommand
