-- ===== src/Fd/Allocate.antt =====
-- Which descriptor an open gets, and what opening and closing do to the others.
use linux_base_operating_sys.Prelude.{
  leb-false, update_self, ap, ℕ, zero, suc, ◌+◌, ◌≤◌, ◌≡◌, ◌≢◌, inl, inr, Bool-cases, ==_iff, refl,
  ◌==◌, update, fill_lem, lt→ltb, ◌<◌, add32, some, arith,
}
use linux_base_operating_sys.Prelude.Int.{ℤ, pos, minus_one}
use linux_base_operating_sys.Fd.{
  Fd, close_all_fd, get_fd_index, find_off, set_fd_info, close_fd, add_offset, check_valid_fd,
  get_inode_ptr, get_file_position, closed,
}

-- What a search from `i` over `n` descriptors gives: the first one that is off, or -1.
data Found (n : ℕ) (table : ℕ → Fd) (i : ℕ) (r : ℤ) : Type 0 where
  at_ :
      (e : ℕ)
      → r ≡ pos e
      → i ≤ e
      → e < i + n
      → (table e).flags ≡ 0
      → ((j : ℕ) → i ≤ j → j < e → (table j).flags ≢ 0)
      → Found n table i r
  full : r ≡ minus_one → ((j : ℕ) → i ≤ j → j < i + n → (table j).flags ≢ 0) → Found n table i r

find_off-Found : (n : ℕ) (table : ℕ → Fd) (i : ℕ) → Found n table i (find_off n table i)
unfolding find_off
find_off-Found zero table i = full refl (λ j a b. absurd (omega arith))
find_off-Found (suc n) table i = elim (Bool-cases ((table i).flags == 0)) [
  | inl off ↦
      rw off (
        at_ i refl (omega arith) (omega arith) ((==_iff _ _).0 off) (λ j a b. absurd (omega arith)))
  | inr on ↦ rw on (shift (find_off-Found n table (suc i)) (λ z. ground (arith, on, z)))
]
  where
    shift : {r : ℤ} → Found n table (suc i) r → (table i).flags ≢ 0 → Found (suc n) table i r
    shift (at_ e q a b off first) on =
        at_ e q (omega arith) (omega arith) off (λ j x y. ground (arith, on, first j))
    shift (full q all) on = full q (λ j x y. ground (arith, on, all j))

-- `get_fd_index` gives the least index from 2 to 7 that is off, and -1 only if there is none.
get_fd_index-Found : (table : ℕ → Fd) → Found 6 table 2 (get_fd_index table)
unfolding get_fd_index
get_fd_index-Found table = find_off-Found 6 table 2

-- A descriptor that `get_fd_index` gives was not valid. Once `set_fd_info` has filled it with the
-- content of a descriptor in use it is valid, has that driver, that inode and that position, and no
-- other descriptor has changed; after `close_fd` it is the one that is given again.
pub open_close :
    (table : ℕ → Fd) (d : Fd) (e : ℕ)
    → get_fd_index table ≡ pos e
    → d.flags ≡ 1
    → let (ret, opened) = set_fd_info (pos e) d table in
      (ret ≡ pos 0)
      × (check_valid_fd (pos e) opened ≡ 1)
      × (check_valid_fd (pos e) table ≡ 0)
      × (opened e ≡ d)
      × (get_inode_ptr (pos e) opened ≡ d.inode_ptr)
      × (get_file_position (pos e) opened ≡ some d.file_position)
      × ((j : ℕ) → j ≢ e → opened j ≡ table j)
      × (get_fd_index (close_fd (pos e) opened) ≡ pos e)
unfolding get_fd_index find_off set_fd_info check_valid_fd get_inode_ptr get_file_position close_fd
open_close table d e h on =
    let small : e < 8 = ground (arith, h) in
    (
      ground arith,
      ground arith,
      ground arith,
      rw (leb-false 8 e small) (update_self table e e d refl),
      rw (leb-false 8 e small) (ap (λ x. x.inode_ptr) (update_self table e e d refl)),
      ground arith,
      (λ j n. ground arith),
      ground arith,
    )

pub close_all_fd_off : (table : ℕ → Fd) (j : ℕ) → j < 8 → (close_all_fd table j).flags ≡ 0
unfolding close_all_fd
close_all_fd_off table j h = rw (fill_lem 8 (λ i. closed) table j, lt→ltb j 8 h) refl

pub valid_index :
    (i : ℕ) (table : ℕ → Fd) (amt : ℕ)
    → i < 8
    → (get_inode_ptr (pos i) table ≡ (table i).inode_ptr)
      × (get_file_position (pos i) table ≡ some (table i).file_position)
      × (check_valid_fd (pos i) table ≡ (table i).flags)
      × (add_offset (pos i) amt table
          ≡ update table i (record (table i) { file_position = add32 (table i).file_position amt }))
unfolding get_inode_ptr get_file_position check_valid_fd add_offset
valid_index i table amt h =
    let inside = leb-false 8 i h in (rw inside refl, rw inside refl, rw inside refl, rw inside refl)
