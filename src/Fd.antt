-- ===== src/Fd.antt =====
-- The file descriptor table of a process: student-distrib/fd_table.c. The functions there work on the
-- table of the running process; here the table is an argument and the result.
mod Tests
pub mod Sane
pub mod Allocate
use linux_base_operating_sys.Prelude.{
  ℕ, zero, suc, ◌+◌, Bool, true, false, leb, ltb, ◌==◌, if◌then◌else◌, update, fill, add32, Option,
  some, none,
}
use linux_base_operating_sys.Prelude.Int.{ℤ, pos, negsuc, minus_one}

-- Which of the five operation tables a descriptor points at.
pub data Driver : Type 0 where
  rtc filesys dir term kybd : Driver

-- `fd_t`; `fd_jump` is `none` for NULL.
pub record Fd : Type 0 where
  pub fd_jump : Option Driver
  pub inode_ptr : ℤ
  pub file_position : ℕ
  pub flags : ℕ

abbrev pub max_open_files : ℕ
max_open_files = 8

abbrev first_valid_index : ℕ
first_valid_index = 2

abbrev pub fd_off : ℕ
fd_off = 0

abbrev pub fd_on : ℕ
fd_on = 1

abbrev pub closed : Fd
closed = record { fd_jump = none; inode_ptr = minus_one; file_position = 0; flags = fd_off }

pub fd_table_init : (ℕ → Fd) → ℕ → Fd
fd_table_init new_table =
    let off : ℕ → Fd = fill max_open_files (λ i. closed) new_table in
    update (update off 1 (record (off 1) { flags = fd_on; fd_jump = some term })) 0
      (record (off 0) { flags = fd_on; fd_jump = some kybd })

pub close_all_fd : (ℕ → Fd) → ℕ → Fd
close_all_fd table = fill max_open_files (λ i. closed) table

-- The loop over the indices from 2 on, with the rounds left.
find_off : ℕ → (ℕ → Fd) → ℕ → ℤ
find_off zero table i = minus_one
find_off (suc n) table i = if (table i).flags == fd_off then pos i else find_off n table (suc i)

pub get_fd_index : (ℕ → Fd) → ℤ
unfolding find_off
get_fd_index table = find_off 6 table first_valid_index

pub set_fd_info : ℤ → Fd → (ℕ → Fd) → ℤ × (ℕ → Fd)
set_fd_info (negsuc n) file_info table = (minus_one, table)
set_fd_info (pos i) file_info table =
    if leb max_open_files i then (minus_one, table) else (pos 0, update table i file_info)

pub get_inode_ptr : ℤ → (ℕ → Fd) → ℤ
get_inode_ptr (negsuc n) table = minus_one
get_inode_ptr (pos i) table = if leb max_open_files i then minus_one else (table i).inode_ptr

pub close_fd : ℤ → (ℕ → Fd) → ℕ → Fd
close_fd (negsuc n) table = table
close_fd (pos i) table = if leb max_open_files i then table else update table i closed

-- There is no check of the index: `none` for a read outside the table.
pub get_file_position : ℤ → (ℕ → Fd) → Option ℕ
get_file_position (negsuc n) table = none
get_file_position (pos i) table =
    if leb max_open_files i then none else some (table i).file_position

pub add_offset : ℤ → ℕ → (ℕ → Fd) → ℕ → Fd
add_offset (negsuc n) amt table = table
add_offset (pos i) amt table =
    if leb max_open_files i
    then table
    else update table i (record (table i) { file_position = add32 (table i).file_position amt })

-- The flags of the descriptor, 0 for an index outside the table.
pub check_valid_fd : ℤ → (ℕ → Fd) → ℕ
check_valid_fd (negsuc n) table = 0
check_valid_fd (pos i) table = if leb max_open_files i then 0 else (table i).flags
