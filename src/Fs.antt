-- ===== src/Fs.antt =====
-- The read-only filesystem image of student-distrib/filesystem.c: layout, directory lookup, reads.
mod Tests
pub mod Lookup
pub mod Read
pub mod ReadData
use linux_base_operating_sys.Prelude.{
  ℕ, zero, suc, ◌+◌, ◌-◌, ◌*◌, ◌/◌, ◌%◌, ◌^◌, ◌<◌, Bool, true, false, ◌&&◌, ◌||◌, ltb, leb, ◌==◌,
  ◌!=◌, if◌then◌else◌, update, fill, List, [], ◌∷◌, Option, some, none, scan, add32, sub32, u32_mod,
}
use linux_base_operating_sys.Prelude.Int.{ℤ, pos, negsuc, int32, minus_one, is_zero}
use linux_base_operating_sys.Strings.{strncmp, strncpy, is_nul}

abbrev pub max_name_characters : ℕ
max_name_characters = 32

abbrev pub max_entries : ℕ
max_entries = 63

abbrev pub max_chars_in_data : ℕ
max_chars_in_data = 4096

-- `dentry_t` without its reserved words.
pub record Dentry : Type 0 where
  pub file_name : ℕ → ℕ
  pub file_type : ℕ
  pub inode_idx : ℕ

-- `inode_t`; an index past the 1023 of the array reads the memory behind the inode.
pub record Inode : Type 0 where
  pub file_size : ℕ
  pub datablock_idx : ℕ → ℕ

-- The variables of filesystem.c: the counts, the four pointers read as the arrays behind them, and
-- the table of name lengths.
pub record Fs : Type 0 where
  pub num_entries : ℕ
  pub num_inodes : ℕ
  pub num_data_blocks : ℕ
  pub entries : ℕ → Dentry
  pub inodes : ℕ → Inode
  pub data_blocks : ℕ → ℕ → ℕ
  pub character_count : ℕ → ℕ

-- A little-endian 32-bit word at byte `a` of an image.
abbrev pub word : (ℕ → ℕ) → ℕ → ℕ
word m a = m a + 256 * m (a + 1) + 65536 * m (a + 2) + 16777216 * m (a + 3)

-- The structs laid over memory: a directory entry has 64 bytes, an inode and a data block 4096.
abbrev dentry_at : (ℕ → ℕ) → ℕ → Dentry
dentry_at m a = record {
  file_name = λ j. m (a + j);
  file_type = word m (a + 32);
  inode_idx = word m (a + 36);
}

abbrev inode_at : (ℕ → ℕ) → ℕ → Inode
inode_at m a = record { file_size = word m a; datablock_idx = λ b. word m (a + 4 + 4 * b) }

-- The length of each of the 63 names, by scanning for its end.
pub create_char_count : (ℕ → Dentry) → (ℕ → ℕ) → ℕ → ℕ
create_char_count entries =
    fill max_entries (λ i. scan is_nul max_name_characters (entries i).file_name 0)

-- `boot_addr` points at the image `m`. The descriptor tables that it also fills are constants
-- (`Fd.Driver`).
pub filesystem_init : (ℕ → ℕ) → (ℕ → ℕ) → Fs
filesystem_init m old_count =
    let n = word m 4 in
    let dentries = λ (i : ℕ). dentry_at m (64 + 64 * i) in
    record {
      num_entries = word m 0;
      num_inodes = n;
      num_data_blocks = word m 8;
      entries = dentries;
      inodes = λ i. inode_at m (4096 + 4096 * i);
      data_blocks = λ b c. m (4096 + 4096 * n + 4096 * b + c);
      character_count = create_char_count dentries old_count;
    }

abbrev pub is_blank_or_nul : ℕ → Bool
is_blank_or_nul c = c == 32 || c == 0

-- The test of one directory entry, on the name's length and then on its characters.
pub name_matches : Fs → (ℕ → ℕ) → ℕ → ℕ → Bool
name_matches fs fname len i =
    len == fs.character_count i
    && is_zero (strncmp fname (fs.entries i).file_name (fs.character_count i))

-- What a successful lookup copies into the caller's structure.
pub copy_dentry : Fs → ℕ → Dentry → Dentry
copy_dentry fs i d = record {
  file_name = strncpy d.file_name (fs.entries i).file_name (fs.character_count i);
  file_type = (fs.entries i).file_type;
  inode_idx = (fs.entries i).inode_idx;
}

-- The loop over the entries, with the rounds left.
pub find_entry : ℕ → Fs → (ℕ → ℕ) → ℕ → ℕ → Option ℕ
find_entry zero fs fname len i = none
find_entry (suc n) fs fname len i =
    let rest = find_entry n fs fname len (suc i) in
    if name_matches fs fname len i then some i else rest

unfoldable pub given_name_len : (ℕ → ℕ) → ℕ
given_name_len fname = scan is_blank_or_nul max_name_characters fname 0

-- The cut of the length at 32 never applies: the scan stops there.
pub read_dentry_by_name : Fs → (ℕ → ℕ) → Dentry → ℤ × Dentry
read_dentry_by_name fs fname dentry =
    if given_name_len fname == 0
    then (minus_one, dentry)
    else elim (find_entry max_entries fs fname (given_name_len fname) 0) [
      | none ↦ (minus_one, dentry)
      | some i ↦ (pos 0, copy_dentry fs i dentry)
    ]

pub read_dentry_by_index : Fs → ℕ → Dentry → ℤ × Dentry
read_dentry_by_index fs index dentry =
    if ltb max_entries index then (minus_one, dentry) else (pos 0, copy_dentry fs index dentry)

-- The inner loop of `read_data`: `n` bytes of a block from `curr_byte` on.
pub copy_bytes : ℕ → (ℕ → ℕ) → ℕ → ℕ → (ℕ → ℕ) → ℕ → ℕ
copy_bytes zero block chars curr buf = buf
copy_bytes (suc n) block chars curr buf =
    copy_bytes n block (chars + 1) (curr + 1) (update buf chars (block curr))

-- The loop over the blocks, with the rounds left. `chars_read` counts bytes below the 32-bit end of
-- the search, so its addition does not wrap.
pub read_blocks : ℕ → Fs → ℕ → ℕ → ℕ → ℕ → ℕ → ℕ → (ℕ → ℕ) → ℤ × (ℕ → ℕ)
read_blocks zero fs inode end_block end_offset b chars curr buf = (int32 chars, buf)
read_blocks (suc n) fs inode end_block end_offset b chars curr buf =
    let block = (fs.inodes inode).datablock_idx b in
    let stop : ℕ = (if b == end_block then end_offset else max_chars_in_data) in
    let rest =
      read_blocks n fs inode end_block end_offset (suc b) (chars + (stop - curr)) 0
        (copy_bytes (stop - curr) (fs.data_blocks block) chars curr buf) in
    if ltb fs.num_data_blocks block
    then (if chars == 0 then minus_one else int32 chars, buf)
    else rest

-- The end of the search: `offset+length` in 32 bits, cut at the file's size.
search_end : Fs → ℕ → ℕ → ℕ → ℕ
search_end fs inode offset len =
    let sum : ℕ = add32 offset len in
    if ltb (fs.inodes inode).file_size sum then (fs.inodes inode).file_size else sum

pub read_data : Fs → ℕ → ℕ → (ℕ → ℕ) → ℕ → ℤ × (ℕ → ℕ)
read_data fs inode offset buf len =
    if leb fs.num_inodes inode
    then (minus_one, buf)
    else if leb (fs.inodes inode).file_size offset || len == 0
    then (pos 0, buf)
    else read_blocks
        (search_end fs inode offset len / max_chars_in_data + 1 - offset / max_chars_in_data) fs
        inode (search_end fs inode offset len / max_chars_in_data)
        (search_end fs inode offset len % max_chars_in_data) (offset / max_chars_in_data) 0
        (offset % max_chars_in_data) buf

pub get_num_entries : Fs → ℕ
get_num_entries fs = fs.num_entries

pub get_entry_name : Fs → ℕ → ℕ → ℕ
get_entry_name fs index = (fs.entries index).file_name
