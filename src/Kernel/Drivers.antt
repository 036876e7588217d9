-- ===== src/Kernel/Drivers.antt =====
-- The drivers behind the descriptors: rtc.c, filesystem.c, terminal.c and keyboard.c of
-- student-distrib. A buffer is an argument and the result.
pub mod FileRead
pub mod Rules
pub mod Keeps
use linux_base_operating_sys.Prelude.{
  ℕ, zero, suc, ◌+◌, ◌*◌, ◌==◌, Bool, true, false, ltb, leb, if◌then◌else◌, update, fill, scan,
  prefix, Option, some, none, List, [], ◌∷◌,
}
use Prim.Native.Nat.{min}
use linux_base_operating_sys.Prelude.Int.{ℤ, pos, negsuc, minus_one, int32, uint32, is_zero}
use linux_base_operating_sys.Screen.{puts}
use linux_base_operating_sys.Strings.{strncmp, is_nul}
use linux_base_operating_sys.Fs.{Dentry, read_dentry_by_name, read_data}
use linux_base_operating_sys.Rtc.{set_frequency, rtc_read}
use linux_base_operating_sys.Terminal.{terminal_read, terminal_retrieve, count_of}
use linux_base_operating_sys.Fd.{
  Driver, rtc, filesys, dir, term, kybd, Fd, get_fd_index, set_fd_info, get_inode_ptr, close_fd,
  get_file_position, add_offset, fd_on,
}
use linux_base_operating_sys.Kernel.{Kernel, M, ◌>>=◌, ◌>>◌, ret, codes, printf, running, set_table}

-- The table of the running process.
pub table : M (ℕ → Fd)
table k = elim (running k) [ none ↦ none | some (p, k1) ↦ some ((k.pcbs p).fd_table, k) ]

pub put_table : (ℕ → Fd) → M (Unit {0})
put_table t k = elim (running k) [ none ↦ none | some (p, k1) ↦ some (tt, set_table p t k) ]

-- What the four `open` functions share: the first free descriptor is filled in.
take_fd : Driver → ℤ → List ℕ → M ℤ
unfolding table put_table
take_fd driver inode message = table >>= λ t. elim (get_fd_index t) [
  | negsuc n ↦ printf message >> ret minus_one
  | pos i ↦
      put_table (
        (set_fd_info (pos i)
          record { fd_jump = some driver; inode_ptr = inode; file_position = 0; flags = fd_on }
          t).1)
      >> ret (pos i)
]

pub release_fd : ℤ → M ℤ
release_fd fd = table >>= λ t. put_table (close_fd fd t) >> ret (pos 0)

set_rate : ℕ → ℕ → M (Unit {0})
set_rate prev_data frequency k =
    some (tt, record k { rtc = set_frequency prev_data frequency k.rtc })

-- `prev_data` is what register A of the clock holds.
pub rtc_open : ℕ → M ℤ
rtc_open prev_data =
    set_rate prev_data 2 >> take_fd rtc minus_one (codes "No Available FD, rtc_open\n")

pub rtc_write : ℕ → (ℕ → ℕ) → M ℤ
rtc_write prev_data buf =
    set_rate prev_data (buf 0 + 256 * buf 1 + 65536 * buf 2 + 16777216 * buf 3) >> ret (pos 0)

-- The test of the index is off by one, but no descriptor 8 passes the check of `close`.
pub rtc_close : ℤ → M ℤ
rtc_close (negsuc n) = printf (codes "Invalid FD, rtc_close\n") >> ret minus_one
rtc_close (pos i) =
    if ltb i 2
    then printf (codes "Invalid FD, rtc_close\n") >> ret minus_one
    else if ltb 8 i
    then printf (codes "Invalid FD, rtc_close\n") >> ret minus_one
    else release_fd (pos i)

pub dir_open : M ℤ
dir_open = take_fd dir minus_one (codes "No Available FD, dir_open\n")

-- The length of the name that is given out.
name_part : (ℕ → ℕ) → ℤ → ℕ
name_part name nbytes = scan is_nul (min (count_of nbytes) 32) name 0

pub dir_read : ℤ → (ℕ → ℕ) → ℤ → M (ℤ × (ℕ → ℕ))
dir_read fd buf nbytes k = elim (table k) [
  | none ↦ none
  | some (t, k1) ↦ elim (get_file_position fd t) [
    | none ↦ none
    | some i ↦
        if leb k.fs.num_entries i
        then some ((pos 0, buf), k)
        else let name = (k.fs.entries i).file_name in
          let n = name_part name nbytes in
          (put_table (add_offset fd 1 t) >> ret (pos n, fill n name buf)) k
  ]
]

pub dir_write : M ℤ
dir_write = printf (codes "READ ONLY DIRECTORY\n") >> ret minus_one

-- `my_dentry` is what the local variable holds before it is written.
pub file_open : Dentry → (ℕ → ℕ) → M ℤ
file_open my_dentry filename k =
    take_fd filesys (int32 (read_dentry_by_name k.fs filename my_dentry).1.inode_idx)
      (codes "No Available FD, file_open\n") k

pub file_read : ℤ → (ℕ → ℕ) → ℤ → M (ℤ × (ℕ → ℕ))
file_read fd buf nbytes k = elim (table k) [
  | none ↦ none
  | some (t, k1) ↦ elim (get_file_position fd t) [
    | none ↦ none
    | some position ↦
        let (count, filled) =
          read_data k.fs (uint32 (get_inode_ptr fd t)) position buf (uint32 nbytes) in
        if ltb 0 (uint32 count)
        then (put_table (add_offset fd (uint32 count) t) >> ret (count, filled)) k
        else some ((count, filled), k)
  ]
]

pub file_write : M ℤ
file_write = printf (codes "READ ONLY FILES\n") >> ret minus_one

-- The characters are put on the terminal's screen, and their count is returned.
unfoldable pub terminal_write : (ℕ → ℕ) → ℤ → M ℤ
terminal_write buf nbytes k =
    let n = count_of nbytes in
    some (pos n, record k { screen = puts k.curr_terminal k.screen (prefix n buf) })

-- `terminal_read` as the read of stdout.
pub stdout_read : (ℕ → ℕ) → ℤ → M (ℤ × (ℕ → ℕ))
stdout_read buf nbytes k =
    let t = k.curr_terminal in
    some (
      (minus_one, buf),
      record k { save_buff = update k.save_buff t (terminal_read buf nbytes (k.save_buff t)) },
    )

abbrev exit_word : ℕ → ℕ
exit_word zero = b'e'
exit_word (suc zero) = b'x'
exit_word (suc (suc zero)) = b'i'
exit_word (suc (suc (suc zero))) = b't'
exit_word _ = 0

-- What `keyboard_read` does with the saved line once the flag is set.
take_line : (ℕ → ℕ) → ℤ → (ℕ → ℕ) → ℤ × (ℕ → ℕ)
take_line saved nbytes buf =
    let (count, filled) = terminal_retrieve saved nbytes buf in
    if is_zero (strncmp filled exit_word 4)
    then (pos count, filled)
    else (pos (count + 1), update filled count 10)

-- The loop of `keyboard_read`: `waits` is what interrupts do before each look at the flag. `none`
-- when the flag is not set at the last look.
keyboard_wait : List (M (Unit {0})) → (ℕ → ℕ) → ℤ → M (ℤ × (ℕ → ℕ))
keyboard_wait [] buf nbytes k = none
keyboard_wait (w ∷ waits) buf nbytes k = elim (w k) [
  | none ↦ none
  | some (u, k1) ↦
      let rest = keyboard_wait waits buf nbytes k1 in
      if k1.keyboard.kbdr_flag == 1
      then some (take_line (k1.save_buff k1.curr_terminal) nbytes buf, k1)
      else rest
]

pub keyboard_read : List (M (Unit {0})) → (ℕ → ℕ) → ℤ → M (ℤ × (ℕ → ℕ))
keyboard_read waits buf nbytes k =
    keyboard_wait waits buf nbytes (record k { keyboard = record k.keyboard { kbdr_flag = 0 } })

-- `rtc_read` in the kernel; the buffer is not touched.
pub clock_read : List Bool → (ℕ → ℕ) → M (ℤ × (ℕ → ℕ))
clock_read ticks buf k = elim (rtc_read ticks k.rtc) [
  | none ↦ none
  | some r ↦ some ((pos 0, buf), record k { rtc = r })
]
