-- ===== src/Fd/Tests.antt =====
-- The theorems on descriptors at the table of a new process.
use linux_base_operating_sys.Prelude.{ℕ, ◌≡◌, ◌≢◌, refl, arith, some, fill}
use linux_base_operating_sys.Prelude.Int.{pos}
use linux_base_operating_sys.Fd.{
  Fd, rtc, closed, fd_table_init, get_fd_index, set_fd_info, close_fd, check_valid_fd,
  get_file_position, get_inode_ptr,
}
use linux_base_operating_sys.Fd.Allocate.{open_close}

abbrev clock_fd : Fd
clock_fd = record { fd_jump = some rtc; inode_ptr = pos 0; file_position = 5; flags = 1 }

abbrev first_table : ℕ → Fd
first_table = fd_table_init (λ i. closed)

first_free : get_fd_index first_table ≡ pos 2
unfolding fd_table_init get_fd_index fill
first_free = refl

stdin_valid : check_valid_fd (pos 0) first_table ≢ 0
unfolding fd_table_init check_valid_fd
stdin_valid e = absurd (omega (arith, e))

open_close_example :
    let (ret, opened) = set_fd_info (pos 2) clock_fd first_table in
    (ret ≡ pos 0)
    × (check_valid_fd (pos 2) opened ≡ 1)
    × (check_valid_fd (pos 2) first_table ≡ 0)
    × (opened 2 ≡ clock_fd)
    × (get_inode_ptr (pos 2) opened ≡ clock_fd.inode_ptr)
    × (get_file_position (pos 2) opened ≡ some 5)
    × ((j : ℕ) → j ≢ 2 → opened j ≡ first_table j)
    × (get_fd_index (close_fd (pos 2) opened) ≡ pos 2)
open_close_example = open_close first_table clock_fd 2 first_free refl
