-- ===== src/Fd/Sane.antt =====
-- The invariant of a table: what is in use has operations, and what is not is blank.
use linux_base_operating_sys.Prelude.{
  ℕ, ◌<◌, ◌≡◌, ◌≢◌, ◌⊎◌, inl, inr, Bool-cases, refl, Bool, true, false, leb, ◌==◌, update, fill_lem,
  add32, Option, some, none, arith,
}
use linux_base_operating_sys.Prelude.Int.{ℤ, pos, negsuc}
use linux_base_operating_sys.Fd.{
  Fd, Driver, fd_table_init, close_all_fd, set_fd_info, close_fd, add_offset, check_valid_fd,
  closed, max_open_files,
}

abbrev pub has_ops : Option Driver → Bool
has_ops none = false
has_ops (some d) = true

-- A descriptor in use has an operation table; one that is not in use is blank.
abbrev IsSaneFd : Fd → Type 0
IsSaneFd d = ((d.flags ≡ 1) × (has_ops d.fd_jump ≡ true)) ⊎ (d ≡ closed)

abbrev pub IsSane : (ℕ → Fd) → Type 0
IsSane table = (i : ℕ) → i < max_open_files → IsSaneFd (table i)

pub fd_table_init-IsSane : (table : ℕ → Fd) → IsSane (fd_table_init table)
unfolding fd_table_init
fd_table_init-IsSane table i h = elim (Bool-cases (i == 0)) [
  | inl zero_ ↦ inl (ground arith, ground arith)
  | inr other ↦ elim (Bool-cases (i == 1)) [
    | inl one_ ↦ inl (ground arith, ground arith)
    | inr other_ ↦ inr (ground (arith, fill_lem max_open_files (λ i. closed) table i))
  ]
]

close_all_fd-IsSane : (table : ℕ → Fd) → IsSane (close_all_fd table)
unfolding close_all_fd
close_all_fd-IsSane table i h = inr (ground (arith, fill_lem max_open_files (λ i. closed) table i))

update-IsSane :
    (table : ℕ → Fd) (i : ℕ) (d : Fd) → IsSane table → IsSaneFd d → IsSane (update table i d)
update-IsSane table i d sane good j h = elim (Bool-cases (i == j)) [
  | inl hit ↦ rw hit good
  | inr miss ↦ rw miss (sane j h)
]

set_fd_info-IsSane :
    (z : ℤ) (table : ℕ → Fd) (d : Fd) → IsSane table → IsSaneFd d → IsSane (set_fd_info z d table).1
unfolding set_fd_info
set_fd_info-IsSane (negsuc n) table d sane good = sane
set_fd_info-IsSane (pos i) table d sane good = elim (Bool-cases (leb max_open_files i)) [
  | inl out ↦ rw out sane
  | inr inside ↦ rw inside (update-IsSane table i d sane good)
]

close_fd-IsSane : (z : ℤ) (table : ℕ → Fd) → IsSane table → IsSane (close_fd z table)
unfolding close_fd
close_fd-IsSane (negsuc n) table sane = sane
close_fd-IsSane (pos i) table sane = elim (Bool-cases (leb max_open_files i)) [
  | inl out ↦ rw out sane
  | inr inside ↦ rw inside (update-IsSane table i closed sane (inr refl))
]

-- Moving the position of a valid descriptor keeps the table sane.
pub add_offset-IsSane :
    (i amt : ℕ) (table : ℕ → Fd)
    → IsSane table
    → check_valid_fd (pos i) table ≢ 0
    → IsSane (add_offset (pos i) amt table)
unfolding add_offset check_valid_fd
add_offset-IsSane i amt table sane valid = elim (Bool-cases (leb max_open_files i)) [
  | inl out ↦ rw out sane
  | inr inside ↦ rw inside (
      update-IsSane table i (record (table i) { file_position = add32 (table i).file_position amt })
        sane (inl (ground (arith, sane i), ground (arith, sane i))))
]

-- A valid descriptor is in the table, has an operation table and a position.
pub valid_fd :
    (z : ℤ) (table : ℕ → Fd)
    → IsSane table
    → check_valid_fd z table ≢ 0
    → (i : ℕ) × (z ≡ pos i)
      × (i < max_open_files)
      × ((table i).flags ≡ 1)
      × (has_ops (table i).fd_jump ≡ true)
unfolding check_valid_fd
valid_fd (negsuc n) table sane valid = absurd (valid refl)
valid_fd (pos i) table sane valid =
    (i, refl, ground arith, ground (arith, sane i), ground (arith, sane i))
