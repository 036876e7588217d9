-- ===== src/Kernel/Drivers/FileRead.antt =====
-- One read through an open descriptor: `file_read` of student-distrib/filesystem.c.
use linux_base_operating_sys.Prelude.{ℕ, ◌<◌, ◌≡◌, refl, update, add32, some, lt→ltb}
use linux_base_operating_sys.Prelude.Int.{ℤ, pos, uint32}
use linux_base_operating_sys.Fs.{read_data}
use linux_base_operating_sys.Fd.{Fd}
use linux_base_operating_sys.Fd.Allocate.{valid_index}
use linux_base_operating_sys.Kernel.{bind_some, Kernel, ret, running, set_table}
use linux_base_operating_sys.Kernel.Drivers.{table, put_table, file_read}

-- The kernel with the position of descriptor `i` of process `p` moved by `c`.
abbrev pub moved : ℕ → ℕ → ℕ → Kernel → Kernel
moved p i c k =
    let t = (k.pcbs p).fd_table in
    set_table p (update t i (record (t i) { file_position = add32 (t i).file_position c })) k

pub table_lem :
    (p : ℕ) (k : Kernel) → running k ≡ some (p, k) → table k ≡ some ((k.pcbs p).fd_table, k)
unfolding table
table_lem p k e = rw (e, table) refl

put_table_lem :
    (p : ℕ) (t : ℕ → Fd) (k : Kernel)
    → running k ≡ some (p, k)
    → put_table t k ≡ some (tt, set_table p t k)
unfolding put_table
put_table_lem p t k e = rw (e, put_table) refl

-- What `read_data` counts is returned, and the position moves by it.
pub file_read_lem :
    (p i : ℕ) (buf filled : ℕ → ℕ) (nbytes : ℤ) (c : ℕ) (k : Kernel)
    → running k ≡ some (p, k)
    → i < 8
    → read_data k.fs
        (uint32 ((k.pcbs p).fd_table i).inode_ptr)
        ((k.pcbs p).fd_table i).file_position
        buf
        (uint32 nbytes)
      ≡ (pos c, filled)
    → 0 < c
    → file_read (pos i) buf nbytes k ≡ some ((pos c, filled), moved p i c k)
unfolding file_read
file_read_lem p i buf filled nbytes c k run small got more =
    let t = (k.pcbs p).fd_table in
    let (e1, e2, e3, e4) = valid_index i t c small in
    let t' = update t i (record (t i) { file_position = add32 (t i).file_position c }) in
    rw (table_lem p k run, file_read, e2, e1, got, lt→ltb 0 c more, e4)
      (bind_some (put_table t') (λ u. ret (pos c, filled)) k tt (set_table p t' k)
        (put_table_lem p t' k run))

-- At the end of the file nothing is read and nothing moves.
pub file_read_end :
    (p i : ℕ) (buf : ℕ → ℕ) (nbytes : ℤ) (k : Kernel)
    → running k ≡ some (p, k)
    → i < 8
    → read_data k.fs
        (uint32 ((k.pcbs p).fd_table i).inode_ptr)
        ((k.pcbs p).fd_table i).file_position
        buf
        (uint32 nbytes)
      ≡ (pos 0, buf)
    → file_read (pos i) buf nbytes k ≡ some ((pos 0, buf), k)
unfolding file_read
file_read_end p i buf nbytes k run small got =
    let t = (k.pcbs p).fd_table in
    let (e1, e2, e3, e4) = valid_index i t 0 small in
    rw (table_lem p k run, file_read, e2, e1, got) refl
