-- ===== src/Kernel/Run/Tests.antt =====
-- A system that starts its first shell, and one in which a shell has called a program.
use linux_base_operating_sys.Prelude.{
  ℕ, zero, suc, ◌%◌, ◌+◌, ◌≡◌, ◌<◌, ◌≤◌, ◌==◌, ◌||◌, if◌then◌else◌, update, some, List, [], ◌∷◌,
  refl, arith, false, fill, scan, ap, subst, fun_ext,
}
use linux_base_operating_sys.Prelude.Int.{ℤ, pos, minus_one}
use linux_base_operating_sys.Fs.{Fs}
use linux_base_operating_sys.Rtc.{rtc_handler}
use linux_base_operating_sys.Kernel.{Kernel, Pcb}
use linux_base_operating_sys.Strings.{strcpy}
use linux_base_operating_sys.Fs.{given_name_len}
use linux_base_operating_sys.Kernel.Command.{parse_cmd_args, word_end}
use linux_base_operating_sys.Kernel.Process.{program_name, free_slot, entry_point, returned}
use linux_base_operating_sys.Kernel.Process.Enters.{Enters, execute-Enters}
use linux_base_operating_sys.Kernel.Process.Loads.{IsFile, IsProgram}
use linux_base_operating_sys.Kernel.Process.Slots.{Free, execute-keeps_slot, free_slot-Free}
use linux_base_operating_sys.Kernel.Sample.{
  sample, sample_fs, sample_pcb, zeros, name_x, entry_x, four_taken,
}
use linux_base_operating_sys.Kernel.Process.{entered, resumed, execute, halt}
use linux_base_operating_sys.Kernel.Keys.Strokes.{Stroke}
use linux_base_operating_sys.Kernel.Switch.{stays}
use linux_base_operating_sys.Kernel.Press.{Setting, Screens, press, with_kernel}
use linux_base_operating_sys.Kernel.Press.Plain.{press-Stroke}
use linux_base_operating_sys.Kernel.Calls.Moves.{push_lem}
use linux_base_operating_sys.Kernel.Calls.{
  Calls, after_halt, Linked, top, total, Represents, replaced,
}
use linux_base_operating_sys.Kernel.Run.{ticks, halts, here, next}
use linux_base_operating_sys.Kernel.Run.Stacks.{Step-Effect, IsIdle}
use linux_base_operating_sys.Kernel.Run.Sound.{IsSound, Run-IsSound}
use linux_base_operating_sys.Kernel.Run.Return.{Settled, halt-returns, execute-halt}
use linux_base_operating_sys.Kernel.Calls.Agree.{Represents-Agree}
use linux_base_operating_sys.Kernel.Drivers.Rules.{unchanged}
use linux_base_operating_sys.Fs.Read.{file_byte}

-- The shell of terminal 0 has called process 3.
abbrev current : ℕ → ℤ
current zero = pos 3
current (suc t) = minus_one

abbrev two_pcbs : ℕ → Pcb
two_pcbs zero = record (sample_pcb 0) { parent_id = minus_one }
two_pcbs (suc i) = sample_pcb (suc i)

abbrev two_programs : Kernel
two_programs = record sample { current_process = current; pcbs = two_pcbs }

abbrev one_stack : ℕ → List ℕ
one_stack zero = 3 ∷ 0 ∷ []
one_stack (suc t) = []

abbrev one_call : Calls
one_call = record { shown = 0; stacks = one_stack }

current-top : (t : ℕ) → current t ≡ top (one_stack t)
current-top zero = refl
current-top (suc t) = refl

two_pcbs-Linked : (t : ℕ) → Linked two_programs t (one_stack t)
two_pcbs-Linked zero = (
  omega arith,
  omega arith,
  record { here = refl; number = refl; parent_is = refl },
  (refl, record { here = refl; number = refl; parent_is = refl }),
)
two_pcbs-Linked (suc t) = tt

four_taken-used : (t : ℕ) → t < 3 → four_taken t ≡ 1
four_taken-used zero lt = refl
four_taken-used (suc zero) lt = refl
four_taken-used (suc (suc zero)) lt = refl
four_taken-used (suc (suc (suc t))) lt = absurd (omega (arith, lt))

four_taken-total : (i : ℕ) → 3 ≤ i → (four_taken i ≡ total i one_call) × (total i one_call ≤ 1)
four_taken-total zero ge = absurd (omega (arith, ge))
four_taken-total (suc zero) ge = absurd (omega (arith, ge))
four_taken-total (suc (suc zero)) ge = absurd (omega (arith, ge))
four_taken-total (suc (suc (suc zero))) ge = (refl, omega arith)
four_taken-total (suc (suc (suc (suc i)))) ge = ground arith

two_programs-Represents : Represents one_call two_programs
two_programs-Represents = record {
  shown = refl;
  bound = omega arith;
  tops = λ t lt. current-top t;
  linked = λ t lt. two_pcbs-Linked t;
  shells = four_taken-used;
  slots = λ i ge lt. four_taken-total i ge;
}

halt-returns_example :
    (k' : Kernel) × (halt zeros entry_x 7 two_programs ≡ some (resumed (7 % 256 + 0), k'))
    × (k'.esp ≡ 0x7FDF00)
    × (k'.ebp ≡ 0x7FDF40)
    × Settled 0 two_programs k'
    × Represents (replaced (0 ∷ []) one_call) k'
halt-returns_example =
    halt-returns zeros entry_x 7 one_call two_programs 3 0 [] two_programs-Represents refl

-- The kernel after the program called has ended.
abbrev one_program : Kernel
one_program =
    (halt-returns zeros entry_x 7 one_call two_programs 3 0 [] two_programs-Represents refl).0

Step-Effect_example : (c : Calls) × (c ≡ after_halt one_call) × Represents c one_program
Step-Effect_example =
    Step-Effect one_call
      (halts zeros entry_x 7 (resumed (7 % 256 + 0))
        (halt-returns zeros entry_x 7 one_call two_programs 3 0 [] two_programs-Represents refl).1)
      two_programs-Represents

-- A file system with a program of 40 bytes.
abbrev image : ℕ → ℕ
image zero = 0x7f
image (suc zero) = 0x45
image (suc (suc zero)) = 0x4c
image (suc (suc (suc zero))) = 0x46
image (suc (suc (suc (suc i)))) = 0

abbrev fs_x : Fs
fs_x = record sample_fs {
  inodes = λ i. record { file_size = 40; datablock_idx = λ j. 1 };
  data_blocks = λ b i. image i;
}

name_x_bytes : (j : ℕ) → name_x j < 256
name_x_bytes zero = omega arith
name_x_bytes (suc j) = omega arith

fs_x-IsFile : IsFile fs_x name_x 0
unfolding scan given_name_len
fs_x-IsFile = record {
  indexed = record { counted = λ i h. refl; bytes = λ i j. name_x_bytes j };
  bytes = name_x_bytes;
  nonempty = omega arith;
  bound = omega arith;
  named = (refl, λ j h. refl);
  first = λ j h. absurd (omega arith);
  kind = refl;
  known = omega arith;
  header = omega arith;
  sized = omega arith;
  blocks = λ j le. omega arith;
}

fs_x-IsProgram : IsProgram fs_x name_x 0
fs_x-IsProgram = record {
  file = fs_x-IsFile;
  small = omega arith;
  magic = (refl, refl, refl, refl);
}

-- The same file without the magic number.
abbrev fs_text : Fs
fs_text = record fs_x { data_blocks = λ b i. 65 }

fs_text-IsFile : IsFile fs_text name_x 0
unfolding scan given_name_len
fs_text-IsFile = record {
  indexed = record { counted = λ i h. refl; bytes = λ i j. name_x_bytes j };
  bytes = name_x_bytes;
  nonempty = omega arith;
  bound = omega arith;
  named = (refl, λ j h. refl);
  first = λ j h. absurd (omega arith);
  kind = refl;
  known = omega arith;
  header = omega arith;
  sized = omega arith;
  blocks = λ j le. omega arith;
}

abbrev word_x : ℕ → ℕ
word_x = (parse_cmd_args zeros name_x zeros).0

cut_name : (j : ℕ) → update (fill 1 word_x zeros) 1 0 j ≡ name_x j
unfolding parse_cmd_args word_end scan fill
cut_name zero = refl
cut_name (suc zero) = refl
cut_name (suc (suc j)) = ground arith

name_x-named : program_name word_x zeros ≡ some name_x
unfolding program_name parse_cmd_args word_end scan fill
name_x-named = ap some (fun_ext cut_name)

abbrev two_reserved : ℕ → ℕ
two_reserved zero = 0
two_reserved (suc zero) = 1
two_reserved (suc (suc zero)) = 1
two_reserved (suc (suc (suc i))) = 0

abbrev quiet_kernel : Kernel
quiet_kernel = record sample {
  fs = fs_x;
  current_process = λ t. minus_one;
  process_array = λ i. false;
  in_use = two_reserved;
}

two_reserved-if : (i : ℕ) → two_reserved i ≡ (if i == 1 || i == 2 then 1 else 0)
two_reserved-if zero = refl
two_reserved-if (suc zero) = refl
two_reserved-if (suc (suc zero)) = refl
two_reserved-if (suc (suc (suc i))) = ground arith

quiet_kernel-IsIdle : IsIdle quiet_kernel
quiet_kernel-IsIdle = record {
  shown = refl;
  current = λ t lt. refl;
  slots = λ i lt. two_reserved-if i;
}

first_free : free_slot two_reserved ≡ some 0
unfolding free_slot
first_free = refl

execute-Enters_example :
    (args : ℕ → ℕ) × (k' : Kernel) × (strcpy 129 name_x (parse_cmd_args zeros name_x zeros).1
      ≡ some args)
    × (execute zeros entry_x (some name_x) quiet_kernel
        ≡ some (entered (entry_point (file_byte fs_x 1)), k'))
    × Enters quiet_kernel 0 1 args k'
execute-Enters_example =
    execute-Enters zeros entry_x name_x name_x 0 0 quiet_kernel name_x-named fs_x-IsProgram
      first_free

-- The kernel that runs the first program.
abbrev first_run : Kernel
first_run =
    (execute-Enters zeros entry_x name_x name_x 0 0 quiet_kernel name_x-named fs_x-IsProgram
      first_free).1

first_entered :
    execute zeros entry_x (some name_x) quiet_kernel
    ≡ some (entered (entry_point (file_byte fs_x 1)), first_run)
first_entered =
    (execute-Enters zeros entry_x name_x name_x 0 0 quiet_kernel name_x-named fs_x-IsProgram
      first_free).3

-- The letter that key 0x1E types.
abbrev setting : Setting
setting = record {
  at = record { kernel_table = 0x1000; user_table = 0x2000 };
  stack = zeros;
  blank = entry_x;
  buffer = zeros;
  prev_data = 0;
  fuel = 0;
}

abbrev screens : Screens
screens = record {
  display = record { kernel = two_programs; backup = λ t. zeros };
  counters = (0, 14);
}

press-Stroke_example :
    (k' : Kernel) × (press setting 0x1E screens ≡ some (stays (pos 0), with_kernel k' screens))
    × Stroke two_programs k'
press-Stroke_example = press-Stroke setting 0x1E screens refl

-- The first program, after a tick.
abbrev first_ticked : Kernel
first_ticked = record first_run { rtc = rtc_handler first_run.rtc }

Run-IsSound_example : IsSound first_ticked
Run-IsSound_example =
    Run-IsSound zeros entry_x (some name_x) (entry_point (file_byte fs_x 1)) quiet_kernel first_run
      first_ticked quiet_kernel-IsIdle first_entered (next here (ticks refl))

-- The shell of terminal 0 with a program to call.
abbrev calling : Kernel
calling = record two_programs { fs = fs_x }

calling-Represents : Represents one_call calling
calling-Represents = Represents-Agree (unchanged refl refl refl refl refl) two_programs-Represents

fourth_free : free_slot four_taken ≡ some 4
unfolding free_slot
fourth_free = refl

execute-keeps_slot_example :
    (k' : Kernel) × (execute zeros entry_x (some name_x) (record calling { fs = fs_text })
      ≡ some (returned minus_one, k'))
    × (k'.in_use ≡ update four_taken 4 1)
    × (k'.current_process ≡ update calling.current_process calling.curr_terminal (pos 4))
execute-keeps_slot_example =
    execute-keeps_slot zeros entry_x name_x name_x 0 4 (record calling { fs = fs_text })
      name_x-named fs_text-IsFile (λ m. absurd (omega (arith, m.0)))
      (subst (Free four_taken 0 8) fourth_free (free_slot-Free four_taken))

-- The call, and the kernel that runs the program.
abbrev fourth_call :
    (args : ℕ → ℕ) × (k' : Kernel) × (strcpy 129 name_x (parse_cmd_args zeros name_x zeros).1
      ≡ some args)
    × (execute zeros entry_x (some name_x) calling
        ≡ some (entered (entry_point (file_byte fs_x 1)), k'))
    × Enters calling 4 1 args k'
fourth_call =
    execute-Enters zeros entry_x name_x name_x 0 4 calling name_x-named fs_x-IsProgram fourth_free

-- A tick later.
abbrev later : Kernel
later = record fourth_call.1 { rtc = rtc_handler fourth_call.1.rtc }

later-Represents : Represents (replaced (4 ∷ 3 ∷ 0 ∷ []) one_call) later
later-Represents =
    Represents-Agree (unchanged refl refl refl refl refl)
      (push_lem one_call calling fourth_call.1 4 3 (0 ∷ []) calling-Represents refl (omega arith)
        refl fourth_call.4.took).2

execute-halt_example :
    (k2 : Kernel) × (halt zeros entry_x 7 later
      ≡ some (resumed (7 % 256 + later.exception_flag), k2))
    × (k2.esp ≡ 0)
    × (k2.ebp ≡ 0)
    × Settled 3 later k2
    × Represents one_call k2
execute-halt_example =
    execute-halt zeros entry_x name_x name_x 0 4 7 (entry_point (file_byte fs_x 1)) one_call calling
      fourth_call.1 later 3 (0 ∷ []) refl name_x-named fs_x-IsProgram fourth_free fourth_call.3
      later-Represents (refl, refl)
