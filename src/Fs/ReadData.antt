-- ===== src/Fs/ReadData.antt =====
-- The branches of `read_data`.
use linux_base_operating_sys.Prelude.{
  ℕ, zero, suc, ◌+◌, ◌-◌, ◌*◌, ◌/◌, ◌%◌, ◌^◌, ◌≤◌, ◌<◌, ◌≡◌, refl, ◌==◌, arith, ◌⊎◌, leb-false,
  ==-false, ltb-false, ==_iff, Bool-cases, inl, inr,
}
use Prim.Native.Nat.{min}
use linux_base_operating_sys.Prelude.Int.{pos, minus_one}
use mathlib.Core.Path.{◌∙◌}
use linux_base_operating_sys.Fs.{Fs, read_blocks, copy_bytes, search_end, read_data}
use linux_base_operating_sys.Fs.Read.{Delivers, read_blocks_all, read_blocks_stops, read_blocks_bad}

-- What a read of `len` bytes from `offset` on can give: up to the end of the file.
abbrev pub available : Fs → ℕ → ℕ → ℕ → ℕ
available fs inode offset len = min (offset + len) (fs.inodes inode).file_size - offset

-- The block that byte `p` of a file lies in is one that the image has (its last block's index may be
-- the count itself: the code tests by `>`).
abbrev pub GoodBlock : Fs → ℕ → ℕ → Type 0
GoodBlock fs inode j = (fs.inodes inode).datablock_idx j ≤ fs.num_data_blocks

-- A request inside a file, that does not wrap in 32 bits.
pub record Request (fs : Fs) (inode offset len : ℕ) : Type 0 where
  pub known : inode < fs.num_inodes
  pub inside : offset < (fs.inodes inode).file_size
  pub small : (fs.inodes inode).file_size ≤ 1023 * 4096
  pub nonempty : 0 < len
  pub no_wrap : offset + len < 2 ^ 32

search_end_lem :
    (fs : Fs) (inode offset len : ℕ)
    → Request fs inode offset len
    → search_end fs inode offset len ≡ offset + available fs inode offset len
unfolding search_end
search_end_lem fs inode offset len q = ground arith

-- The rounds of the loop over blocks, and where it ends.
read_data_loop :
    (fs : Fs) (inode offset len : ℕ) (buf : ℕ → ℕ)
    → Request fs inode offset len
    → let end_search = offset + available fs inode offset len in
      read_data fs inode offset buf len
      ≡ read_blocks
          (suc (end_search / 4096 - offset / 4096))
          fs
          inode
          (end_search / 4096)
          (end_search % 4096)
          (offset / 4096)
          0
          (offset % 4096)
          buf
unfolding read_data
read_data_loop fs inode offset len buf q =
    let e = search_end_lem fs inode offset len q in
    let rounds : (offset + available fs inode offset len) / 4096 + 1 - offset / 4096
        ≡ suc ((offset + available fs inode offset len) / 4096 - offset / 4096) =
      omega arith in
    rw (leb-false _ _ q.known, leb-false _ _ q.inside, ==-false len 0 (omega arith), e, rounds)

-- A request whose blocks the image has returns the number of bytes up to the end of the request or
-- of the file, writes exactly those bytes of the file, in order, and leaves the rest of the buffer
-- alone.
pub read_data-Delivers :
    (fs : Fs) (inode offset len : ℕ) (buf : ℕ → ℕ)
    → Request fs inode offset len
    → ((j : ℕ) → j * 4096 ≤ offset + available fs inode offset len → GoodBlock fs inode j)
    → let r = read_data fs inode offset buf len in
      (r.0 ≡ pos (available fs inode offset len))
      × Delivers fs inode offset (available fs inode offset len) buf r.1
read_data-Delivers fs inode offset len buf q good =
    let end_search : ℕ = offset + available fs inode offset len in
    let loop =
      read_blocks_all fs inode offset (end_search / 4096) (end_search % 4096) buf
        (end_search / 4096 - offset / 4096) (offset / 4096) 0 (offset % 4096)
        (available fs inode offset len) buf (omega arith) (λ j a b. good j (omega arith))
        (omega arith) (omega arith) (omega arith) (omega arith) (omega arith) (λ k. ground arith) in
    rw (read_data_loop fs inode offset len buf q) (ground (arith, loop.0), loop.1)

-- With a first block `e` that the image lacks, after the one that the request begins in, a read
-- returns what lies before that block, and leaves the rest of the buffer alone.
pub read_data_stops :
    (fs : Fs) (inode offset len e : ℕ) (buf : ℕ → ℕ)
    → Request fs inode offset len
    → offset < e * 4096
    → e * 4096 ≤ offset + available fs inode offset len
    → ¬ GoodBlock fs inode e
    → ((j : ℕ) → j < e → GoodBlock fs inode j)
    → let r = read_data fs inode offset buf len in
      (r.0 ≡ pos (e * 4096 - offset)) × Delivers fs inode offset (e * 4096 - offset) buf r.1
read_data_stops fs inode offset len e buf q after before bad good =
    let end_search : ℕ = offset + available fs inode offset len in
    let block : offset / 4096 + (e - offset / 4096) ≡ e = omega arith in
    let loop =
      read_blocks_stops fs inode offset (end_search / 4096) (end_search % 4096) buf
        (e - offset / 4096) (suc (end_search / 4096 - offset / 4096)) (offset / 4096) 0
        (offset % 4096) (e * 4096 - offset) buf (omega arith) (omega arith) (rw block (omega arith))
        (λ j a b. good j (omega arith)) (omega arith) (omega arith) (omega arith)
        (λ z. absurd (omega arith)) (λ p. omega arith) (λ k. ground arith) in
    let fits : e * 4096 - offset < 2 ^ 31 = omega (arith, q.small) in
    rw (read_data_loop fs inode offset len buf q) (loop.0 ∙ ground (arith, fits), loop.1)

-- A read fails, with the buffer as it was, for an inode that the image lacks and for a request
-- that begins in a block that it lacks; at the end of a file and for no bytes it returns 0.
pub read_data_refuses :
    (fs : Fs) (inode offset len : ℕ) (buf : ℕ → ℕ)
    → (fs.num_inodes ≤ inode → read_data fs inode offset buf len ≡ (minus_one, buf))
      × (inode < fs.num_inodes
          → ((fs.inodes inode).file_size ≤ offset) ⊎ (len ≡ 0)
          → read_data fs inode offset buf len ≡ (pos 0, buf))
      × (Request fs inode offset len
          → ¬ GoodBlock fs inode (offset / 4096)
          → read_data fs inode offset buf len ≡ (minus_one, buf))
unfolding read_data
read_data_refuses fs inode offset len buf = (
  (λ h. ground arith),
  (λ h g. ground arith),
  λ q bad.
      read_data_loop fs inode offset len buf q
      ∙ read_blocks_bad fs inode offset _ _ buf _ (offset / 4096) 0 (offset % 4096) buf
          (omega arith),
)

-- Rounds that copy nothing.
read_blocks_empty :
    (fs : Fs) (inode b curr stop rounds : ℕ) (buf : ℕ → ℕ)
    → rounds ≤ 1
    → stop ≤ curr
    → GoodBlock fs inode b
    → read_blocks rounds fs inode b stop b 0 curr buf ≡ (pos 0, buf)
unfolding read_blocks copy_bytes
read_blocks_empty fs inode b curr stop zero buf one le good = refl
read_blocks_empty fs inode b curr stop (suc zero) buf one le good =
    let nothing : stop - curr ≡ 0 = omega arith in
    rw (ltb-false _ _ good, (==_iff b b).1 refl, nothing)
read_blocks_empty fs inode b curr stop (suc (suc r)) buf one le good = absurd (omega arith)

search_end_wraps :
    (fs : Fs) (inode offset len : ℕ)
    → offset < (fs.inodes inode).file_size
    → (fs.inodes inode).file_size ≤ 1023 * 4096
    → len < 2 ^ 32
    → 2 ^ 32 ≤ offset + len
    → search_end fs inode offset len ≡ offset + len - 2 ^ 32
unfolding search_end
search_end_wraps fs inode offset len h small l wrap = ground arith

-- Where `offset+length` wraps in 32 bits the code reads nothing, however much of the file is left:
-- it returns 0, as at the end of the file.
pub read_data_wraps :
    (fs : Fs) (inode offset len : ℕ) (buf : ℕ → ℕ)
    → inode < fs.num_inodes
    → offset < (fs.inodes inode).file_size
    → (fs.inodes inode).file_size ≤ 1023 * 4096
    → len < 2 ^ 32
    → 2 ^ 32 ≤ offset + len
    → GoodBlock fs inode (offset / 4096)
    → read_data fs inode offset buf len ≡ (pos 0, buf)
unfolding read_data read_blocks
read_data_wraps fs inode offset len buf known inside small l wrap good =
    rw
      (
        leb-false _ _ known,
        leb-false _ _ inside,
        ==-false len 0 (omega arith),
        search_end_wraps fs inode offset len inside small l wrap,
      )
      (elim (Bool-cases ((offset + len - 2 ^ 32) / 4096 == offset / 4096)) [
        | inl same ↦ rw ((==_iff _ _).0 same) (
            read_blocks_empty fs inode (offset / 4096) (offset % 4096) _ _ buf (omega arith)
              (let e = (==_iff _ _).0 same in omega arith) good)
        | inr other ↦
            let none_left : (offset + len - 2 ^ 32) / 4096 + 1 - offset / 4096 ≡ 0 = ground arith in
            rw (none_left, read_blocks)
      ])
