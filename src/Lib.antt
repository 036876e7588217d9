-- ===== src/Lib.antt =====
-- Verification library of the operating system in student-distrib: a kernel for one processor with
-- three terminals, eight processes, a read-only file system, a keyboard and a real-time clock.
--
-- The parts and the files that model them. Interrupts and system calls act on one state, the record
-- `Kernel` of Kernel.antt, which is put together from the records of the drivers; each driver's own
-- module knows only its record.
--   Prelude: tests on numbers, arrays as functions of the index, 32-bit words, signed results, loops.
--   Screen: the console of student-distrib/lib.c: `clear`, `putc`, `scroll`, `backspace`, `puts`.
--   Strings: `strlen`, `strncmp`, `strcpy`, `strncpy`, `strrev` and `itoa` of student-distrib/lib.c;
--     Strings.Reverse, Strings.Places and Strings.Numerals say what `itoa` gives.
--   Printf: `printf` of student-distrib/lib.c; Printf.Meaning and Printf.Convert are about one
--     conversion, Printf.Text about a whole format, Printf.Plain about messages without conversions,
--     and Printf.Check tests whether a format fits its arguments.
--   Memory: `memset`, `memset_word`, `memset_dword`, `memcpy` and `memmove` of student-distrib/lib.c.
--   Fs: student-distrib/filesystem.c without the drivers: `filesystem_init`, `read_dentry_by_name`,
--     `read_dentry_by_index`, `read_data`.
--   Rtc: student-distrib/rtc.c: `set_frequency`, `rtc_handler`, `rtc_read`, the conversion of
--     times; Rtc.Reading is `binary_to_real_time` and `print_time`.
--   Pic: student-distrib/i8259.c.
--   Paging: student-distrib/paging.c; Paging.Walk is the processor's translation of addresses.
--   Fd: student-distrib/fd_table.c, on the table of one process.
--   Idt: student-distrib/idt.c and the entries that the drivers fill in.
--   Keyboard: modes, key map and line buffers of student-distrib/keyboard.c.
--   Terminal: the saved line of student-distrib/terminal.c.
--   Kernel: the whole state. Kernel.Command, Kernel.Process and Kernel.Files are
--     student-distrib/syscall.c (`parse_cmd_args`; `execute` and `halt`; `read`, `write`, `open` as
--     `sys_open`, `close`, `getargs`, `vidmap`). Kernel.Drivers has the drivers behind descriptors,
--     Kernel.Keys the keys of student-distrib/keyboard.c, Kernel.Switch `terminal_switch` and
--     Kernel.Exceptions `exception_handler`; Kernel.Press is the whole `keyboard_handler`, with the
--     switch of terminals or the display that a key asks for. Kernel.Sample is a state for the tests. Its `printf` is that of
--     messages without conversions, which Printf.Plain shows to be what Printf does with them.
--     Kernel.Displays are the displays behind control keys: `print_file_info` of
--     student-distrib/filesystem.c and student-distrib/testcases3_2.c.
--     Kernel.Calls is what the processes are to the users, stacks of programs; Kernel.Run is the
--     running system, a step for each interrupt, exception and system call, with what holds of all
--     runs in Kernel.Run.Stacks, Kernel.Run.Sound and Kernel.Run.Return.
--   Boot: the start. Boot has the initialisations of student-distrib/keyboard.c, rtc.c and sched.c,
--     Boot.Segments the descriptors of student-distrib/x86_desc.h and Boot.Entry `entry` of
--     student-distrib/kernel.c, on the record `Boot`: the kernel with the tables of the processor.
--     Boot.Report, Boot.Ready and Boot.Started say what it prints, sets up and ends with, and
--     Boot.Running what holds from then on.
--   User: programs of syscalls over the record `Sys` of the system calls, on any state behind them:
--     User.Support is ece391support.c; User.Cat, User.Ls, User.Shell, User.Grep and User.Counter
--     (with the greeting and the test of printing) are the programs. User.Syserr is the test of the
--     system calls, User.Pingpong the moving letter and User.Fish the program in fish/fish.c. What a
--     program relies on of the calls is a record of laws about that state.
--
-- How code corresponds to definitions. An array, or memory behind a pointer, is a function of the
-- index; a 32-bit sum keeps its wrap-around; an `int32_t` result is an integer. A step of the kernel
-- gives a result and the next state, or `none` where the code leaves what is modelled: a NULL pointer
-- read, a loop that leaves its buffer, a digit outside the table of `itoa`, a program larger than its
-- page, a busy wait whose interrupts do not come. What local variables
-- hold before they are written, register values read from ports, and the interrupts during a busy
-- wait are arguments. `execute`, `halt` and `terminal_switch` switch stacks in assembler: their result
-- tells whether they return, enter a program or resume a caller.
--
-- Fuel. `putc` and `scroll` call each other, at most twice: `putc` and `scroll` take fuel 2, which
-- Screen.Fuel shows to be enough. `strcpy` of the arguments has 129 rounds, the size of what
-- `parse_cmd_args` may write. `itoa` has 32 rounds, since a 32-bit number has no more digits, and
-- gives `strrev`, and through it `strlen`, a bound that its NUL lies within (Strings.Numerals). The
-- loop over the memory map in `entry` takes fuel, of which a quarter of the map's length is enough.
-- The loops of the user programs and of the displays take fuel; where a theorem says that one of them
-- ends, it says how much is enough.
-- All other loops are bounded by the code's own bounds.
--
-- Not modelled: assembler and the tables that it lays out (boot.S, wrapper.S, x86_desc.S,
-- fish/blink.S), syscalls/ece391sigtest.c (signals, which the kernel has none of) and
-- syscalls/ece391emulate.c (the system calls on Linux).
pub mod Prelude
pub mod Boot
pub mod Fs
pub mod Fd
pub mod Idt
pub mod Kernel
pub mod Keyboard
pub mod Paging
pub mod Pic
pub mod Memory
pub mod Printf
pub mod Rtc
pub mod Screen
pub mod Terminal
pub mod User
pub mod Strings
