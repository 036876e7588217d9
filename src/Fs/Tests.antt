-- ===== src/Fs/Tests.antt =====
-- A small file system, and the theorems on it.
use linux_base_operating_sys.Prelude.{
  ℕ, zero, suc, ◌+◌, ◌*◌, ◌≤◌, ◌<◌, ◌≡◌, refl, ltb, if◌then◌else◌, arith, scan, inl,
}
use linux_base_operating_sys.Prelude.Int.{pos, minus_one}
use linux_base_operating_sys.Fs.{Fs, Dentry, read_data, read_dentry_by_name, given_name_len}
use linux_base_operating_sys.Fs.Lookup.{
  IsIndexed, Names, name_len, read_dentry_by_name_found, read_dentry_by_name_missing,
}
use linux_base_operating_sys.Fs.Read.{Delivers}
use linux_base_operating_sys.Fs.ReadData.{available, GoodBlock, Request, read_data-Delivers}

abbrev dot : ℕ → ℕ
dot zero = b'.'
dot (suc j) = 0

abbrev cat : ℕ → ℕ
cat zero = b'c'
cat (suc zero) = b'a'
cat (suc (suc zero)) = b't'
cat (suc (suc (suc j))) = 0

abbrev two_entries : ℕ → Dentry
two_entries zero = record { file_name = dot; file_type = 1; inode_idx = 0 }
two_entries (suc i) = record { file_name = cat; file_type = 2; inode_idx = 1 }

-- Block 1 of every file is one that the image lacks.
abbrev blocks_of : ℕ → ℕ
blocks_of zero = 2
blocks_of (suc j) = 9

abbrev small_fs : Fs
small_fs = record {
  num_entries = 2;
  num_inodes = 2;
  num_data_blocks = 3;
  entries = two_entries;
  inodes = λ i. record { file_size = 5000; datablock_idx = blocks_of };
  data_blocks = λ b i. b + i;
  character_count = λ i. name_len (two_entries i);
}

abbrev old_entry : Dentry
old_entry = record { file_name = dot; file_type = 7; inode_idx = 7 }

abbrev zeros : ℕ → ℕ
zeros j = 0

dot_bytes : (j : ℕ) → dot j < 256
dot_bytes zero = omega arith
dot_bytes (suc j) = omega arith

cat_bytes : (j : ℕ) → cat j < 256
cat_bytes zero = omega arith
cat_bytes (suc zero) = omega arith
cat_bytes (suc (suc zero)) = omega arith
cat_bytes (suc (suc (suc j))) = omega arith

entry_bytes : (i j : ℕ) → (two_entries i).file_name j < 256
entry_bytes zero j = dot_bytes j
entry_bytes (suc i) j = cat_bytes j

small_fs-IsIndexed : IsIndexed small_fs
small_fs-IsIndexed = record { counted = λ i h. refl; bytes = entry_bytes }

cat_length : given_name_len cat ≡ 3
unfolding given_name_len scan
cat_length = refl

cat-Names : Names cat (two_entries 1)
unfolding given_name_len scan
cat-Names = (refl, λ j h. refl)

dot-no-Names : (j : ℕ) → j < 1 → ¬ Names cat (two_entries j)
unfolding given_name_len scan
dot-no-Names zero h (e, f) = absurd (omega (arith, e))
dot-no-Names (suc j) h n = absurd (omega arith)

read_dentry_by_name_found_example :
    let (ret, d) = read_dentry_by_name small_fs cat old_entry in
    (ret ≡ pos 0)
    × (d.file_type ≡ 2)
    × (d.inode_idx ≡ 1)
    × ((j : ℕ) → d.file_name j ≡ (if ltb j (given_name_len cat) then cat j else dot j))
read_dentry_by_name_found_example =
    read_dentry_by_name_found small_fs cat old_entry 1 small_fs-IsIndexed cat_bytes
      (λ e. absurd (omega (arith, e, cat_length))) (omega arith) cat-Names dot-no-Names

read_dentry_by_name_missing_example :
    read_dentry_by_name small_fs zeros old_entry ≡ (minus_one, old_entry)
unfolding given_name_len scan
read_dentry_by_name_missing_example =
    read_dentry_by_name_missing small_fs zeros old_entry small_fs-IsIndexed (λ j. omega arith)
      (inl refl)

head_request : Request small_fs 1 10 20
head_request = record {
  known = omega arith;
  inside = omega arith;
  small = omega arith;
  nonempty = omega arith;
  no_wrap = omega arith;
}

good_head : (j : ℕ) → j * 4096 ≤ 10 + available small_fs 1 10 20 → GoodBlock small_fs 1 j
good_head zero h = omega arith
good_head (suc j) h = absurd (omega (arith, h))

read_data-Delivers_example :
    let r = read_data small_fs 1 10 zeros 20 in
    (r.0 ≡ pos (available small_fs 1 10 20))
    × Delivers small_fs 1 10 (available small_fs 1 10 20) zeros r.1
read_data-Delivers_example = read_data-Delivers small_fs 1 10 20 zeros head_request good_head

long_request : Request small_fs 1 10 9000
long_request = record {
  known = omega arith;
  inside = omega arith;
  small = omega arith;
  nonempty = omega arith;
  no_wrap = omega arith;
}

good_before : (j : ℕ) → j < 1 → GoodBlock small_fs 1 j
good_before zero h = omega arith
good_before (suc j) h = absurd (omega arith)

abbrev twenty : ℕ
twenty = 20
