-- ===== src/Kernel/Files/Dispatch.antt =====
-- The system calls through the descriptor of an open file.
use linux_base_operating_sys.Prelude.{
  ℕ, ◌+◌, ◌*◌, ◌<◌, ◌≤◌, ◌≡◌, ◌∙◌, ap, inl, refl, add32, some, leb-false, arith,
}
use linux_base_operating_sys.Prelude.Int.{ℤ, pos, negsuc, uint32}
use linux_base_operating_sys.Fs.{read_data}
use linux_base_operating_sys.Fs.Read.{Delivers}
use linux_base_operating_sys.Fs.ReadData.{
  available, GoodBlock, Request, read_data-Delivers, read_data_refuses,
}
use linux_base_operating_sys.Fd.{filesys, check_valid_fd}
use linux_base_operating_sys.Fd.Allocate.{valid_index}
use linux_base_operating_sys.Kernel.{bind_some, Kernel, ret, running, deref}
use linux_base_operating_sys.Kernel.Drivers.{table, file_read}
use linux_base_operating_sys.Kernel.Drivers.FileRead.{
  moved, table_lem, file_read_lem, file_read_end,
}
use linux_base_operating_sys.Kernel.Files.{Machine, valid, jump, read}

-- Descriptor `i` of the running process `p` is a file, read up to `position`.
pub record IsOpenFile (p i inode position : ℕ) (k : Kernel) : Type 0 where
  pub runs : deref (k.current_process k.curr_terminal) k ≡ some p
  pub small : i < 8
  pub ops : ((k.pcbs p).fd_table i).fd_jump ≡ some filesys
  pub file : ((k.pcbs p).fd_table i).inode_ptr ≡ pos inode
  pub at_ : ((k.pcbs p).fd_table i).file_position ≡ position
  pub on : ((k.pcbs p).fd_table i).flags ≡ 1

pub deref_same :
    (z : ℤ) (k k' : Kernel) → k'.process_array ≡ k.process_array → deref z k' ≡ deref z k
unfolding deref
deref_same (negsuc n) k k' e = refl
deref_same (pos i) k k' e = rw e refl

running_lem :
    (p : ℕ) (k : Kernel)
    → deref (k.current_process k.curr_terminal) k ≡ some p
    → running k ≡ some (p, k)
unfolding running
running_lem p k e = rw (e, running) refl

valid_lem :
    (p i inode position : ℕ) (k : Kernel)
    → IsOpenFile p i inode position k
    → valid (pos i) k ≡ some (1, k)
unfolding valid
valid_lem p i inode position k o =
    let (e1, e2, e3, e4) = valid_index i (k.pcbs p).fd_table 0 o.small in
    rw (leb-false 8 i o.small, valid)
      (bind_some table (λ t. ret (check_valid_fd (pos i) t)) k (k.pcbs p).fd_table k
          (table_lem p k (running_lem p k o.runs))
        ∙ rw (e3, o.on) refl)

jump_lem :
    (p i inode position : ℕ) (k : Kernel)
    → IsOpenFile p i inode position k
    → jump (pos i) k ≡ some (filesys, k)
unfolding jump
jump_lem p i inode position k o = rw (table_lem p k (running_lem p k o.runs), jump, o.ops) refl

read-dispatch :
    (m : Machine) (p i inode position : ℕ) (b : ℕ → ℕ) (nbytes : ℤ) (k : Kernel) (r : ℤ)
    (filled : ℕ → ℕ) (k' : Kernel)
    → IsOpenFile p i inode position k
    → file_read (pos i) b nbytes k ≡ some ((r, filled), k')
    → read m (pos i) (some b) nbytes k ≡ some ((r, some filled), k')
unfolding read
read-dispatch m p i inode position b nbytes k r filled k' o e =
    bind_some (valid (pos i)) _ k 1 k (valid_lem p i inode position k o)
    ∙ bind_some (jump (pos i)) _ k filesys k (jump_lem p i inode position k o)
    ∙ bind_some (file_read (pos i) b nbytes) _ k (r, filled) k' e

-- The driver's read of such a file, which also leaves the screen alone.
pub file_read-advances :
    (p i inode position n : ℕ) (b : ℕ → ℕ) (k : Kernel)
    → IsOpenFile p i inode position k
    → Request k.fs inode position n
    → ((j : ℕ) → j * 4096 ≤ position + available k.fs inode position n → GoodBlock k.fs inode j)
    → (filled : ℕ → ℕ) × (k' : Kernel) × (file_read (pos i) b (pos n) k
        ≡ some ((pos (available k.fs inode position n), filled), k'))
      × Delivers k.fs inode position (available k.fs inode position n) b filled
      × IsOpenFile p i inode (position + available k.fs inode position n) k'
      × (k'.fs ≡ k.fs)
      × (k'.screen ≡ k.screen)
      × (k'.curr_terminal ≡ k.curr_terminal)
file_read-advances p i inode position n b k o q good =
    let c : ℕ = available k.fs inode position n in
    let (count, bytes) = read_data-Delivers k.fs inode position n b q good in
    let filled : ℕ → ℕ = (read_data k.fs inode position b n).1 in
    let got : read_data k.fs (uint32 ((k.pcbs p).fd_table i).inode_ptr)
          ((k.pcbs p).fd_table i).file_position b n
        ≡ (pos c, filled) =
      rw (o.file, o.at_) (ap (λ (z : ℤ). (z, filled)) count) in
    let fits : add32 position c ≡ position + c = omega (arith, q.inside, q.small) in
    (
      filled,
      moved p i c k,
      file_read_lem p i b filled (pos n) c k (running_lem p k o.runs) o.small got
          (omega (arith, q.inside, q.nonempty)),
      bytes,
      record {
        runs = deref_same (k.current_process k.curr_terminal) k (moved p i c k) refl ∙ o.runs;
        small = o.small;
        ops = ground (arith, o.ops);
        file = ground (arith, o.file);
        at_ = ground (arith, fits, o.at_);
        on = ground (arith, o.on);
      },
      refl,
      refl,
      refl,
    )

-- A `read` of an open file from inside the file, of blocks that the image has, returns the number of
-- bytes up to the end of the request or of the file; it puts exactly those bytes of the file into the
-- buffer, and the file stays open with its position behind them.
pub read-advances :
    (m : Machine) (p i inode position n : ℕ) (b : ℕ → ℕ) (k : Kernel)
    → IsOpenFile p i inode position k
    → Request k.fs inode position n
    → ((j : ℕ) → j * 4096 ≤ position + available k.fs inode position n → GoodBlock k.fs inode j)
    → (filled : ℕ → ℕ) × (k' : Kernel) × (read m (pos i) (some b) (pos n) k
        ≡ some ((pos (available k.fs inode position n), some filled), k'))
      × Delivers k.fs inode position (available k.fs inode position n) b filled
      × IsOpenFile p i inode (position + available k.fs inode position n) k'
      × (k'.fs ≡ k.fs)
read-advances m p i inode position n b k o q good =
    let (filled, k', e, bytes, opened, same, _, _) =
      file_read-advances p i inode position n b k o q good in
    (
      filled,
      k',
      read-dispatch m p i inode position b (pos n) k (pos (available k.fs inode position n)) filled
          k' o e,
      bytes,
      opened,
      same,
    )

-- At its end the driver reads nothing.
pub file_read-ends :
    (p i inode position n : ℕ) (b : ℕ → ℕ) (k : Kernel)
    → IsOpenFile p i inode position k
    → inode < k.fs.num_inodes
    → (k.fs.inodes inode).file_size ≤ position
    → file_read (pos i) b (pos n) k ≡ some ((pos 0, b), k)
file_read-ends p i inode position n b k o known at_end =
    let (_, ends, _) = read_data_refuses k.fs inode position n b in
    let got : read_data k.fs (uint32 ((k.pcbs p).fd_table i).inode_ptr)
          ((k.pcbs p).fd_table i).file_position b n
        ≡ (pos 0, b) =
      rw (o.file, o.at_) (ends known (inl at_end)) in
    file_read_end p i b (pos n) k (running_lem p k o.runs) o.small got

-- At the end of the file a `read` returns 0 and changes nothing.
pub read-end :
    (m : Machine) (p i inode position : ℕ) (n : ℕ) (b : ℕ → ℕ) (k : Kernel)
    → IsOpenFile p i inode position k
    → inode < k.fs.num_inodes
    → (k.fs.inodes inode).file_size ≤ position
    → read m (pos i) (some b) (pos n) k ≡ some ((pos 0, some b), k)
read-end m p i inode position n b k o known at_end =
    read-dispatch m p i inode position b (pos n) k (pos 0) b k o
      (file_read-ends p i inode position n b k o known at_end)
