-- ===== src/Fs/Read.antt =====
-- `read_data` against the file that it reads.
use linux_base_operating_sys.Prelude.{
  ℕ, zero, suc, ◌+◌, ◌-◌, ◌*◌, ◌/◌, ◌%◌, ◌≤◌, ◌<◌, ◌≡◌, refl, ltb, leb, ◌==◌, if◌then◌else◌, arith,
  ◌&&◌, update, ap, ltb-false, lt→ltb, ==_iff,
}
use linux_base_operating_sys.Prelude.Int.{minus_one, int32}
use native.Mathlib.Nat.{add-zero}
use mathlib.Core.Path.{subst}
use linux_base_operating_sys.Fs.{Fs, copy_bytes, read_blocks, max_chars_in_data}

-- Byte `p` of the file of an inode.
abbrev pub file_byte : Fs → ℕ → ℕ → ℕ
file_byte fs inode p =
    fs.data_blocks ((fs.inodes inode).datablock_idx (p / max_chars_in_data)) (p % max_chars_in_data)

copy_bytes_lem :
    (n : ℕ) (block : ℕ → ℕ) (chars curr : ℕ) (buf : ℕ → ℕ) (k : ℕ)
    → copy_bytes n block chars curr buf k
      ≡ (if leb chars k && ltb k (chars + n) then block (curr + (k - chars)) else buf k)
unfolding copy_bytes
copy_bytes_lem zero block chars curr buf k = ground arith
copy_bytes_lem (suc n) block chars curr buf k =
    ground (arith, copy_bytes_lem n block (chars + 1) (curr + 1) (update buf chars (block curr)) k)

-- What a read is to leave: `count` bytes of the file from `offset` on, and the rest of the buffer.
abbrev pub Delivers : Fs → ℕ → ℕ → ℕ → (ℕ → ℕ) → (ℕ → ℕ) → Type 0
Delivers fs inode offset count buf out =
    (k : ℕ) → out k ≡ (if ltb k count then file_byte fs inode (offset + k) else buf k)

-- The block that a round of the loop copies.
block_step :
    (fs : Fs) (inode offset b chars curr stop : ℕ) (buf out : ℕ → ℕ)
    → offset + chars ≡ b * 4096 + curr
    → curr ≤ stop
    → stop ≤ 4096
    → Delivers fs inode offset chars buf out
    → Delivers fs inode offset (chars + (stop - curr)) buf (
        copy_bytes
          (stop - curr)
          (fs.data_blocks ((fs.inodes inode).datablock_idx b))
          chars
          curr
          out)
block_step fs inode offset b chars curr stop buf out at le top d k = ground (
  arith,
  d k,
  copy_bytes_lem (stop - curr) (fs.data_blocks ((fs.inodes inode).datablock_idx b)) chars curr out
      k,
  place,
)
  where
    place :
        chars ≤ k
        → k < chars + (stop - curr)
        → ((offset + k) / 4096 ≡ b) × ((offset + k) % 4096 ≡ curr + (k - chars))
    place h g = (omega arith, omega arith)

module _ (fs : Fs) (inode offset end_block end_offset : ℕ) (buf : ℕ → ℕ) where
  -- A round that does not leave the loop, before the last block and at it.
  read_blocks_next :
      (n b chars curr : ℕ) (out : ℕ → ℕ)
      → b < end_block
      → (fs.inodes inode).datablock_idx b ≤ fs.num_data_blocks
      → read_blocks (suc n) fs inode end_block end_offset b chars curr out
        ≡ read_blocks n fs inode end_block end_offset (suc b) (chars + (4096 - curr)) 0 (
            copy_bytes
              (4096 - curr)
              (fs.data_blocks ((fs.inodes inode).datablock_idx b))
              chars
              curr
              out)
  unfolding read_blocks
  read_blocks_next n b chars curr out h good = ground arith

  read_blocks_last :
      (b chars curr : ℕ) (out : ℕ → ℕ)
      → b ≡ end_block
      → (fs.inodes inode).datablock_idx b ≤ fs.num_data_blocks
      → read_blocks 1 fs inode end_block end_offset b chars curr out ≡ (
        int32 (chars + (end_offset - curr)),
        copy_bytes
            (end_offset - curr)
            (fs.data_blocks ((fs.inodes inode).datablock_idx b))
            chars
            curr
            out,
      )
  unfolding read_blocks
  read_blocks_last b chars curr out h good = rw (ltb-false _ _ good, (==_iff b end_block).1 h)

  -- With every block index in range the loop reads up to the end of the search.
  pub read_blocks_all :
      (n b chars curr total : ℕ) (out : ℕ → ℕ)
      → b + n ≡ end_block
      → ((j : ℕ) → b ≤ j → j ≤ end_block → (fs.inodes inode).datablock_idx j ≤ fs.num_data_blocks)
      → offset + chars ≡ b * 4096 + curr
      → b * 4096 + curr ≤ end_block * 4096 + end_offset
      → curr ≤ 4096
      → end_offset < 4096
      → offset + total ≡ end_block * 4096 + end_offset
      → Delivers fs inode offset chars buf out
      → let r = read_blocks (suc n) fs inode end_block end_offset b chars curr out in
        (r.0 ≡ int32 total) × Delivers fs inode offset total buf r.1
  read_blocks_all zero b chars curr total out last good at le small eo tot d =
      let e : b ≡ end_block = omega arith in
      let t : chars + (end_offset - curr) ≡ total = omega arith in
      rw (read_blocks_last b chars curr out e (good b (omega arith) (omega arith))) (
        ap int32 t,
        subst
            (λ c. Delivers fs inode offset c buf (
              copy_bytes (end_offset - curr) (fs.data_blocks ((fs.inodes inode).datablock_idx b))
                chars curr out))
            t
            (block_step fs inode offset b chars curr end_offset buf out at (omega arith)
              (omega arith) d),
      )
  read_blocks_all (suc n) b chars curr total out last good at le small eo tot d =
      rw
        (read_blocks_next (suc n) b chars curr out (omega arith)
          (good b (omega arith) (omega arith)))
        (read_blocks_all n (suc b) (chars + (4096 - curr)) 0 total _ (omega arith)
          (λ j x y. good j (omega arith) y) (omega arith) (omega arith) (omega arith) eo tot
          (block_step fs inode offset b chars curr 4096 buf out at small (omega arith) d))

  -- At an index out of range the loop returns what it has read.
  pub read_blocks_bad :
      (n b chars curr : ℕ) (out : ℕ → ℕ)
      → fs.num_data_blocks < (fs.inodes inode).datablock_idx b
      → read_blocks (suc n) fs inode end_block end_offset b chars curr out
        ≡ (if chars == 0 then minus_one else int32 chars, out)
  unfolding read_blocks
  read_blocks_bad n b chars curr out h = rw (lt→ltb _ _ h)

  -- With a first index out of range at block `b + n`, the loop reads up to that block.
  pub read_blocks_stops :
      (n rounds b chars curr total : ℕ) (out : ℕ → ℕ)
      → n < rounds
      → b + n ≤ end_block
      → fs.num_data_blocks < (fs.inodes inode).datablock_idx (b + n)
      → ((j : ℕ) → b ≤ j → j < b + n → (fs.inodes inode).datablock_idx j ≤ fs.num_data_blocks)
      → offset + chars ≡ b * 4096 + curr
      → curr ≤ 4096
      → 0 < total
      → (n ≡ 0 → chars ≡ total)
      → (0 < n → offset + total ≡ (b + n) * 4096)
      → Delivers fs inode offset chars buf out
      → let r = read_blocks rounds fs inode end_block end_offset b chars curr out in
        (r.0 ≡ int32 total) × Delivers fs inode offset total buf r.1
  read_blocks_stops n zero b chars curr total out more le bad good at small p z s d =
      absurd (omega arith)
  read_blocks_stops zero (suc rounds) b chars curr total out more le bad good at small p z s d =
      let t : chars ≡ total = z refl in
      rw (read_blocks_bad rounds b chars curr out (rw add-zero at bad))
        (ground (arith, t), subst (λ c. Delivers fs inode offset c buf out) t d)
  read_blocks_stops (suc n) (suc rounds) b chars curr total out more le bad good at small p z s d =
      let shift : suc b + n ≡ b + suc n = omega arith in
      rw
        (read_blocks_next rounds b chars curr out (omega arith)
          (good b (omega arith) (omega arith)))
        (read_blocks_stops n rounds (suc b) (chars + (4096 - curr)) 0 total _ (omega arith)
          (omega arith) (rw shift bad) (λ j x y. good j (omega arith) (omega arith)) (omega arith)
          (omega arith) p (λ q. omega arith) (λ q. omega arith)
          (block_step fs inode offset b chars curr 4096 buf out at small (omega arith) d))
