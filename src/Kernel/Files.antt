-- ===== src/Kernel/Files.antt =====
-- The system calls on descriptors, arguments and video memory: student-distrib/syscall.c, with the
-- jump tables of `fops_table_init` in student-distrib/fd_table.c.
pub mod Dispatch
pub mod Args
pub mod Steady
use linux_base_operating_sys.Prelude.{
  ℕ, zero, suc, ◌+◌, ◌-◌, ◌*◌, ◌==◌, ◌||◌, Bool, true, false, ltb, leb, if◌then◌else◌, update, fill,
  Option, some, none, List, [], ◌∷◌,
}
use Prim.Native.Nat.{min}
use linux_base_operating_sys.Prelude.Int.{ℤ, pos, negsuc, minus_one, int32, uint32}
use linux_base_operating_sys.Fs.{Dentry, read_dentry_by_name}
use linux_base_operating_sys.Fd.{Driver, rtc, filesys, dir, term, kybd, Fd, check_valid_fd}
use linux_base_operating_sys.Paging.{
  Tables, map_virt_to_phys, virt_vid_term1, virt_vid_term2, virt_vid_term3, user_video,
}
use linux_base_operating_sys.Kernel.{Kernel, M, ◌>>=◌, ◌>>◌, ret, codes, printf, running}
use linux_base_operating_sys.Kernel.Drivers.{
  table, rtc_open, rtc_write, rtc_close, clock_read, dir_open, dir_read, dir_write, file_open,
  file_read, file_write, release_fd, terminal_write, stdout_read, keyboard_read,
}

-- What the calls meet of the machine: register A of the clock, the interrupts during the two busy
-- waits, and what a local variable holds before it is written.
pub record Machine : Type 0 where
  pub prev_data : ℕ
  pub ticks : List Bool
  pub waits : List (M (Unit {0}))
  pub blank : Dentry

-- The test of the index comes before the table is read.
pub valid : ℤ → M ℕ
valid (negsuc n) = ret 0
valid (pos i) = if leb 8 i then ret 0 else (table >>= λ t. ret (check_valid_fd (pos i) t))

-- The pointer to the operations; NULL is a fault.
pub jump : ℤ → M Driver
jump (negsuc n) k = none
jump (pos i) k = elim (table k) [
  | none ↦ none
  | some (t, k1) ↦ elim (t i).fd_jump [ none ↦ none | some d ↦ some (d, k) ]
]

abbrev read_by : Machine → Driver → ℤ → (ℕ → ℕ) → ℤ → M (ℤ × (ℕ → ℕ))
read_by m rtc fd buf nbytes = clock_read m.ticks buf
read_by m filesys fd buf nbytes = file_read fd buf nbytes
read_by m dir fd buf nbytes = dir_read fd buf nbytes
read_by m term fd buf nbytes = stdout_read buf nbytes
read_by m kybd fd buf nbytes = keyboard_read m.waits buf nbytes

abbrev write_by : Machine → Driver → (ℕ → ℕ) → ℤ → M ℤ
write_by m rtc buf nbytes = rtc_write m.prev_data buf
write_by m filesys buf nbytes = file_write
write_by m dir buf nbytes = dir_write
write_by m term buf nbytes = terminal_write buf nbytes
write_by m kybd buf nbytes = ret minus_one

abbrev close_by : Driver → ℤ → M ℤ
close_by rtc fd = rtc_close fd
close_by filesys fd = release_fd fd
close_by dir fd = release_fd fd
close_by term fd = ret minus_one
close_by kybd fd = ret minus_one

-- A result of -1 with the buffer as it was.
abbrev refuse : Option (ℕ → ℕ) → List ℕ → M (ℤ × Option (ℕ → ℕ))
refuse buf message = printf message >> ret (minus_one, buf)

-- The buffer is `none` for NULL.
pub read : Machine → ℤ → Option (ℕ → ℕ) → ℤ → M (ℤ × Option (ℕ → ℕ))
read m fd buf nbytes = valid fd >>= λ ok.
    if ok == 0 then refuse buf (codes "Invalid FD, sys_read\n") else elim buf [
      | none ↦ ret (minus_one, none)
      | some b ↦ jump fd >>= λ d. read_by m d fd b nbytes >>= λ r. ret (r.0, some r.1)
    ]

pub write : Machine → ℤ → Option (ℕ → ℕ) → ℤ → M ℤ
write m fd buf nbytes = valid fd >>= λ ok.
    if ok == 0
    then (printf (codes "Invalid FD, sys_write\n") >> ret minus_one)
    else elim buf [ none ↦ ret minus_one | some b ↦ jump fd >>= λ d. write_by m d b nbytes ]

-- The file type chooses the driver. A base file system has one entry of type 0, the clock.
pub sys_open : Machine → Option (ℕ → ℕ) → M ℤ
sys_open m none k = (printf (codes "invalid pointer, sys_open\n") >> ret minus_one) k
sys_open m (some filename) k =
    let (found, dentry) = read_dentry_by_name k.fs filename m.blank in
    elim found [
      | negsuc n ↦ some (minus_one, k)
      | pos n ↦
          if dentry.file_type == 0
          then rtc_open m.prev_data k
          else if dentry.file_type == 1
          then dir_open k
          else file_open m.blank filename k
    ]

pub close : ℤ → M ℤ
close fd = valid fd >>= λ ok.
    if ok == 0
    then (printf (codes "Invalid FD, sys_close\n") >> ret minus_one)
    else (jump fd >>= λ d. close_by d fd)

-- The loop from the end of the buffer: spaces become NUL. `none` where it leaves the buffer at the
-- front, since the index is unsigned and no test stops it there.
pub trim : ℕ → (ℕ → ℕ) → Option (ℕ → ℕ)
trim zero buf = none
trim (suc backwards) buf =
    let rest = trim backwards (update buf backwards 0) in
    if buf backwards == 32 || buf backwards == 0 then rest else some buf

-- The arguments copied into a buffer of `n` bytes.
pub fill_args : (ℕ → ℕ) → ℕ → (ℕ → ℕ) → ℕ → ℕ
fill_args args n buf = fill (min n 128) args (fill n (λ i. 0) buf)

pub getargs : Option (ℕ → ℕ) → ℤ → M (ℤ × Option (ℕ → ℕ))
getargs none nbytes k = ret (minus_one, none) k
getargs (some buf) nbytes k = elim (running k) [
  | none ↦ none
  | some (p, k1) ↦
      let n = uint32 nbytes in
      let filled = fill_args (k.pcbs p).args n buf in
      if leb n 128 then some ((minus_one, some filled), k) else elim (trim n filled) [
        | none ↦ none
        | some b ↦ some ((if b 0 == 0 then minus_one else pos 0, some b), k)
      ]
]

-- The address of the terminal's video page.
abbrev screen_address : ℕ → ℕ
screen_address t =
    if t == 0 then virt_vid_term1 else if t == 1 then virt_vid_term2 else virt_vid_term3

-- `screen_start` is the address given, `none` for NULL; the second result is what is written there.
pub vidmap : Tables → Option ℕ → M (ℤ × Option ℕ)
vidmap at none k = (printf (codes "invalid pointer, vidmap\n") >> ret (minus_one, none)) k
vidmap at (some screen_start) k =
    if ltb screen_start 0x08000000
    then (printf (codes "pointer out of range, vidmap\n") >> ret (minus_one, none)) k
    else if leb 0x08400000 screen_start
    then (printf (codes "pointer out of range, vidmap\n") >> ret (minus_one, none)) k
    else let address = screen_address k.curr_terminal in
      some (
        (pos address, some address),
        record k { paging = map_virt_to_phys at address user_video k.paging },
      )

set_handler : ℤ → ℕ → ℤ
set_handler signum handler_address = minus_one

sigreturn : ℤ
sigreturn = minus_one

def_cmd : ℤ
def_cmd = minus_one
