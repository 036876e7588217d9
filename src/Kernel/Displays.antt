-- ===== src/Kernel/Displays.antt =====
-- The displays for tests behind control keys: `print_file_info` and `print_name` of
-- student-distrib/filesystem.c, student-distrib/testcases3_2.c, and the keys of
-- student-distrib/keyboard.c that show them.
pub mod Keeps
pub mod Contents
use linux_base_operating_sys.Prelude.{
  ℕ, zero, suc, ◌+◌, ◌-◌, ◌/◌, ◌%◌, ◌^◌, ◌==◌, Bool, if◌then◌else◌, scan, prefix, Option, some,
  none, List, [], ◌∷◌,
}
use linux_base_operating_sys.Prelude.Int.{ℤ, pos, negsuc, minus_one, is_zero, is_minus_one}
use linux_base_operating_sys.Screen.{clear, puts}
use linux_base_operating_sys.Strings.{is_nul}
use linux_base_operating_sys.Printf
use linux_base_operating_sys.Printf.{Arg, word}
use linux_base_operating_sys.Fs.{Dentry, read_dentry_by_index, get_num_entries, get_entry_name}
use linux_base_operating_sys.Kernel.{Kernel, M, ◌>>=◌, ◌>>◌, ret, codes, printf}
use linux_base_operating_sys.Kernel.Keys.{
  Request, nothing, terminal, file_test, rate_test, file_list,
}
use linux_base_operating_sys.Kernel.Drivers.{
  dir_open, dir_read, file_open, file_read, terminal_write, release_fd, rtc_open, rtc_write,
  rtc_close,
}

pub clear_screen : M (Unit {0})
clear_screen k = some (tt, record k { screen = clear k.curr_terminal k.screen })

-- `putc` of the characters one after the other.
pub put_chars : List ℕ → M (Unit {0})
put_chars cs k = some (tt, record k { screen = puts k.curr_terminal k.screen cs })

-- `printf` of a format with conversions; `garbage` is what its buffers hold.
pub printf_with : (ℕ → ℕ) → List ℕ → List Arg → M (Unit {0})
printf_with garbage format args k =
    elim (Printf.printf garbage k.curr_terminal format args k.screen) [
      | none ↦ none
      | some (n, s) ↦ some (tt, record k { screen = s })
    ]

pub out_of_fuel : {A : Type 0} → M A
out_of_fuel k = none

-- The state that the displays read.
pub asks : {A : Type 0} → (Kernel → M A) → M A
asks f k = f k k

-- The columns that are left of NUM_SPACES.
abbrev pub spaces : ℕ → List ℕ
spaces cnt = prefix (34 - cnt) (λ i. 32)

-- A line of the list.
pub print_entry : (ℕ → ℕ) → Dentry → (ℕ → ℕ) → ℕ → M (Unit {0})
print_entry garbage file_dent buffer cnt =
    printf (codes "file name: ")
    >> (terminal_write buffer (pos cnt) >>= λ _.
        put_chars (spaces cnt)
        >> printf_with garbage (codes "file type: %d ") (word file_dent.file_type ∷ [])
        >> asks (λ k.
          printf_with garbage (codes "file size: %d\n")
            (word (k.fs.inodes file_dent.inode_idx).file_size ∷ [])))

-- `garbage` is what the buffers of `printf` hold. The loop over the names of the directory, with `fuel` rounds at most.
pub print_entries : (ℕ → ℕ) → ℕ → ℤ → ℕ → Dentry → (ℕ → ℕ) → M (Unit {0})
print_entries garbage zero dir_fd d_loop file_dent buffer = out_of_fuel
print_entries garbage (suc n) dir_fd d_loop file_dent buffer =
    dir_read dir_fd buffer (pos 32) >>= λ r.
    if is_zero r.0
    then (release_fd dir_fd >>= λ _. ret tt)
    else asks (λ k.
      let dent = (read_dentry_by_index k.fs d_loop file_dent).1 in
      elim r.0 [
        | negsuc e ↦ release_fd dir_fd >>= λ _. printf (codes "directory entry read failed\n")
        | pos cnt ↦
            print_entry garbage dent r.1 cnt >> print_entries garbage n dir_fd (d_loop + 1) dent r.1
      ])

pub print_file_info : (ℕ → ℕ) → ℕ → Dentry → (ℕ → ℕ) → M (Unit {0})
print_file_info garbage fuel file_dent buffer =
    clear_screen >> (dir_open >>= λ dir_fd. print_entries garbage fuel dir_fd 0 file_dent buffer)

-- The characters up to a NUL or `max_char`, with their number.
pub print_name : (ℕ → ℕ) → ℕ → M ℕ
print_name buf max_char = let i = scan is_nul max_char buf 0 in put_chars (prefix i buf) >> ret i

-- The loop that reads and shows a file, with `fuel` rounds at most.
pub print_pieces : ℕ → ℤ → (ℕ → ℕ) → ℤ → M (Unit {0})
print_pieces zero myfd buffer nbytes = out_of_fuel
print_pieces (suc n) myfd buffer nbytes = file_read myfd buffer nbytes >>= λ r. elim r.0 [
  | negsuc e ↦ ret tt
  | pos retval ↦
      if retval == 0
      then ret tt
      else (terminal_write r.1 (pos retval) >>= λ _. print_pieces n myfd r.1 nbytes)
]

pub print_file_text : ℕ → Dentry → (ℕ → ℕ) → (ℕ → ℕ) → ℤ → M (Unit {0})
print_file_text fuel my_dentry name buffer nbytes = file_open my_dentry name >>= λ myfd.
    if is_minus_one myfd
    then printf (codes "file doesn't exist.\n")
    else (print_pieces fuel myfd buffer nbytes
        >> (release_fd myfd >>= λ _.
            printf (codes "\nfile name: ") >> (print_name name 32 >>= λ _. ret tt)))

pub test_file_data : ℕ → Dentry → (ℕ → ℕ) → ℕ → M (Unit {0})
test_file_data fuel my_dentry buffer index =
    asks (λ k. print_file_text fuel my_dentry (get_entry_name k.fs index) buffer (pos 500))

-- The four bytes of a number in memory.
abbrev pub bytes_of : ℕ → ℕ → ℕ
bytes_of n i = n / 256 ^ i % 256

pub print_freq : (ℕ → ℕ) → ℕ → ℕ → M (Unit {0})
print_freq garbage prev_data rate = rtc_open prev_data >>= λ filed.
    if is_minus_one filed
    then printf (codes "couldn't open\n")
    else let curr_freq = 32768 / 2 ^ rate in
      clear_screen
      >> printf_with garbage (codes "Frequency at: %d\n") (word curr_freq ∷ [])
      >> (rtc_write prev_data (bytes_of curr_freq) >>= λ _. rtc_close filed >>= λ _. ret tt)

-- The next file, which wraps around, and the next rate, down to that of CTR4 = MAX_RATE - 2.
pub next_file : ℕ → Dentry → (ℕ → ℕ) → ℕ × ℕ → M (ℕ × ℕ)
next_file fuel my_dentry buffer (ctr3, ctr4) =
    test_file_data fuel my_dentry buffer ctr3
    >> asks (λ k.
      if get_num_entries k.fs == 0
      then out_of_fuel
      else ret ((ctr3 + 1) % get_num_entries k.fs, ctr4))

pub next_freq : (ℕ → ℕ) → ℕ → ℕ × ℕ → M (ℕ × ℕ)
next_freq garbage prev_data (ctr3, ctr4) =
    if ctr4 == 4
    then print_freq garbage prev_data 14 >> ret (ctr3, 14)
    else print_freq garbage prev_data ctr4 >> ret (ctr3, ctr4 - 1)

-- What a key asks for, with CTR3 and CTR4 before and after. The terminals are in Kernel.Switch.
pub show_request : (ℕ → ℕ) → ℕ → ℕ → Dentry → (ℕ → ℕ) → Request → ℕ × ℕ → M (ℕ × ℕ)
show_request garbage prev_data fuel dentry buffer nothing c = ret c
show_request garbage prev_data fuel dentry buffer (terminal t) c = ret c
show_request garbage prev_data fuel dentry buffer file_test c = next_file fuel dentry buffer c
show_request garbage prev_data fuel dentry buffer rate_test c = next_freq garbage prev_data c
show_request garbage prev_data fuel dentry buffer file_list c =
    print_file_info garbage fuel dentry buffer >> ret c
