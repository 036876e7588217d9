-- ===== src/Kernel/Process/Loads.antt =====
-- How a program gets into memory.
use linux_base_operating_sys.Prelude.{
  ℕ, ◌+◌, ◌*◌, ◌≤◌, ◌<◌, ◌^◌, ◌≡◌, ◌≢◌, if◌then◌else◌, ltb, ltb-false, some, refl, sym, ◌∙◌, subst,
  arith, true, false, Bool-cases, inl, inr,
}
use linux_base_operating_sys.Prelude.Int.{pos, is_minus_one}
use linux_base_operating_sys.Fs.{
  Fs, Dentry, read_dentry_by_name, read_data, given_name_len, max_entries,
}
use linux_base_operating_sys.Fs.Lookup.{IsIndexed, Names, read_dentry_by_name_found}
use linux_base_operating_sys.Fs.Read.{file_byte, Delivers}
use linux_base_operating_sys.Fs.ReadData.{available, GoodBlock, read_data-Delivers}
use linux_base_operating_sys.Kernel.Process.{
  find_program, is_executable, entry_point, bytes_to_read, program_room, overflows,
}

-- The file system has a file of that name: entry `e` is the first with the name and stands for a
-- file that is as long as a header at least and has all its blocks.
pub record IsFile (fs : Fs) (file_name : ℕ → ℕ) (e : ℕ) : Type 0 where
  pub indexed : IsIndexed fs
  pub bytes : (j : ℕ) → file_name j < 256
  pub nonempty : given_name_len file_name ≢ 0
  pub bound : e < max_entries
  pub named : Names file_name (fs.entries e)
  pub first : (j : ℕ) → j < e → ¬ Names file_name (fs.entries j)
  pub kind : (fs.entries e).file_type ≡ 2
  pub known : (fs.entries e).inode_idx < fs.num_inodes
  pub header : 28 ≤ (fs.inodes (fs.entries e).inode_idx).file_size
  pub sized : (fs.inodes (fs.entries e).inode_idx).file_size ≤ 1023 * 4096
  pub blocks :
      (j : ℕ)
      → j * 4096 ≤ (fs.inodes (fs.entries e).inode_idx).file_size
      → GoodBlock fs (fs.entries e).inode_idx j

-- The file begins with the magic number.
abbrev pub HasMagic : Fs → ℕ → Type 0
HasMagic fs n =
    (file_byte fs n 0 ≡ 0x7f)
    × (file_byte fs n 1 ≡ 0x45)
    × (file_byte fs n 2 ≡ 0x4c)
    × (file_byte fs n 3 ≡ 0x46)

-- The file is a program: it has the magic number and fits into a process's page.
pub record IsProgram (fs : Fs) (file_name : ℕ → ℕ) (e : ℕ) : Type 0 where
  pub file : IsFile fs file_name e
  pub small : (fs.inodes (fs.entries e).inode_idx).file_size ≤ program_room
  pub magic : HasMagic fs (fs.entries e).inode_idx

module _ (fs : Fs) (file_name : ℕ → ℕ) (blank : Dentry) (e : ℕ) (p : IsFile fs file_name e) where
  unfoldable pub inode : ℕ
  inode = (fs.entries e).inode_idx

  unfoldable pub found : Dentry
  found = (read_dentry_by_name fs file_name blank).1

  pub found_lem :
      ((read_dentry_by_name fs file_name blank).0 ≡ pos 0)
      × (found.file_type ≡ 2)
      × (found.inode_idx ≡ inode)
  unfolding found inode
  found_lem =
      let (a, b, c, _) =
        read_dentry_by_name_found fs file_name blank e p.indexed p.bytes p.nonempty p.bound p.named
          p.first in
      (a, b ∙ p.kind, c)

  -- A reading of the file from its beginning.
  pub from_start :
      (len : ℕ) (buf : ℕ → ℕ)
      → 0 < len
      → len < 2 ^ 32
      → let r = read_data fs found.inode_idx 0 buf len in
        (r.0 ≡ pos (available fs inode 0 len))
        × Delivers fs inode 0 (available fs inode 0 len) buf r.1
  unfolding inode
  from_start len buf some_ fits =
      subst
        (λ n.
          let r = read_data fs n 0 buf len in
          (r.0 ≡ pos (available fs inode 0 len))
          × Delivers fs inode 0 (available fs inode 0 len) buf r.1)
        (sym found_lem.2)
        (read_data-Delivers fs inode 0 len buf
          record {
            known = p.known;
            inside = omega (arith, p.header);
            small = omega (arith, p.sized);
            nonempty = some_;
            no_wrap = omega (arith, fits);
          }
          (λ j le. p.blocks j (omega (arith, le))))

  pub first_bytes : (ℕ → ℕ) → ℕ → ℕ
  first_bytes stack = (read_data fs found.inode_idx 0 stack bytes_to_read).1

  pub first_bytes_lem :
      (stack : ℕ → ℕ) (j : ℕ) → j < 28 → first_bytes stack j ≡ file_byte fs inode j
  unfolding first_bytes inode
  first_bytes_lem stack j lt =
      let (_, d) = from_start 28 stack (omega arith) (omega arith) in
      let full : ltb j (available fs inode 0 28) ≡ true = ground (arith, lt, p.header) in
      let at : 0 + j ≡ j = omega arith in d j ∙ rw (full, at) refl

  pub find_program_lem :
      (stack : ℕ → ℕ) → find_program fs file_name blank stack ≡ some (found, first_bytes stack)
  unfolding find_program first_bytes found
  find_program_lem stack =
      let (a, b, c) = found_lem in
      let (count, _) = from_start 28 stack (omega arith) (omega arith) in rw (a, b, count) refl

  pub magic_lem : (stack : ℕ → ℕ) → HasMagic fs inode → is_executable (first_bytes stack) ≡ true
  unfolding is_executable
  magic_lem stack (m0, m1, m2, m3) =
      let b : (j : ℕ) → j < 28 → first_bytes stack j ≡ file_byte fs inode j =
        first_bytes_lem stack in
      rw
        (
          b 0 (omega arith) ∙ m0,
          b 1 (omega arith) ∙ m1,
          b 2 (omega arith) ∙ m2,
          b 3 (omega arith) ∙ m3,
        )
        refl

  pub no_magic_lem :
      (stack : ℕ → ℕ) → ¬ HasMagic fs inode → is_executable (first_bytes stack) ≡ false
  unfolding is_executable
  no_magic_lem stack other = elim (Bool-cases (is_executable (first_bytes stack))) [
    | inr e ↦ e
    | inl e ↦
        let b : (j : ℕ) → j < 28 → first_bytes stack j ≡ file_byte fs inode j =
          first_bytes_lem stack in
        let m0 : first_bytes stack 0 ≡ 0x7f = ground (arith, e) in
        let m1 : first_bytes stack 1 ≡ 0x45 = ground (arith, e) in
        let m2 : first_bytes stack 2 ≡ 0x4c = ground (arith, e) in
        let m3 : first_bytes stack 3 ≡ 0x46 = ground (arith, e) in
        absurd (
          other (
            sym (b 0 (omega arith)) ∙ m0,
            sym (b 1 (omega arith)) ∙ m1,
            sym (b 2 (omega arith)) ∙ m2,
            sym (b 3 (omega arith)) ∙ m3,
          ))
  ]

  pub entry_point_lem :
      (stack : ℕ → ℕ) → entry_point (first_bytes stack) ≡ entry_point (file_byte fs inode)
  unfolding entry_point
  entry_point_lem stack =
      let b : (j : ℕ) → j < 28 → first_bytes stack j ≡ file_byte fs inode j =
        first_bytes_lem stack in
      rw (b 24 (omega arith), b 25 (omega arith), b 26 (omega arith), b 27 (omega arith)) refl

  -- The memory of a process after the whole file is read into it.
  unfoldable pub loaded : (ℕ → ℕ) → ℕ → ℕ
  loaded memory = (read_data fs found.inode_idx 0 memory (fs.inodes found.inode_idx).file_size).1

  unfoldable pub size : ℕ
  size = (fs.inodes inode).file_size

  pub loaded_lem :
      (memory : ℕ → ℕ)
      → size ≤ program_room
      → (is_minus_one
            (read_data fs found.inode_idx 0 memory (fs.inodes found.inode_idx).file_size).0
          ≡ false)
        × (overflows (read_data fs found.inode_idx 0 memory (fs.inodes found.inode_idx).file_size).0
            ≡ false)
        × ((j : ℕ) → loaded memory j ≡ (if ltb j size then file_byte fs inode j else memory j))
  unfolding loaded inode size
  loaded_lem memory small =
      let (_, _, c) = found_lem in
      let (count, d) =
        from_start (fs.inodes found.inode_idx).file_size memory (rw c (omega (arith, p.header)))
          (rw c (omega (arith, small))) in
      let all : available fs inode 0 (fs.inodes found.inode_idx).file_size ≡ size =
        rw c (omega arith) in
      let fits : ltb program_room (available fs inode 0 (fs.inodes found.inode_idx).file_size)
          ≡ false =
        rw all (ltb-false program_room size small) in
      (
        rw count refl,
        rw count fits,
        λ j. let at : 0 + j ≡ j = omega arith in d j ∙ rw (all, at) refl,
      )
