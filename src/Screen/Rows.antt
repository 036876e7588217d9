-- ===== src/Screen/Rows.antt =====
-- What scrolling does to the bytes of video memory.
use linux_base_operating_sys.Prelude.{
  Bool, ℕ, suc, ◌+◌, ◌-◌, ◌*◌, ◌/◌, ◌%◌, ◌<◌, ◌≡◌, arith, ◌&&◌, leb, ltb, ◌==◌, if◌then◌else◌,
  for_range, for_range_inv,
}
use linux_base_operating_sys.Screen.{copy_up, scroll_rows, write_cell, attrib, num_cols, num_rows}

-- Bytes of column `i` in the rows above `n`.
abbrev in_column : ℕ → ℕ → ℕ → Bool
in_column i n k = k / 2 % 80 == i && ltb (k / 160) n

abbrev in_columns : ℕ → ℕ → Bool
in_columns i k = ltb (k / 2 % 80) i && ltb (k / 160) 24

copy_up_step :
    (i j k : ℕ) (v w : ℕ → ℕ)
    → i < 80
    → ((k : ℕ) → w k ≡ (if in_column i j k then v (k + 160) else v k))
    → copy_up i j w k ≡ (if in_column i (suc j) k then v (k + 160) else v k)
unfolding copy_up
copy_up_step i j k v w hi h =
    ground (arith, h k, h ((80 * (j + 1) + i) * 2), h ((80 * (j + 1) + i) * 2 + 1))

-- The rows of column `i` after its loop.
copy_up_column :
    (i : ℕ) (v : ℕ → ℕ) (k : ℕ)
    → i < 80
    → for_range (num_rows - 1) (copy_up i) v k ≡ (if in_column i 24 k then v (k + 160) else v k)
copy_up_column i v k hi =
    for_range_inv (λ n w. (k : ℕ) → w k ≡ (if in_column i n k then v (k + 160) else v k))
      (copy_up i) 24 v (λ k. ground arith) (λ j w hj h k. copy_up_step i j k v w hi h) k

copy_columns_step :
    (i k : ℕ) (v w : ℕ → ℕ)
    → i < 80
    → ((k : ℕ) → w k ≡ (if in_columns i k then v (k + 160) else v k))
    → for_range (num_rows - 1) (copy_up i) w k ≡ (if in_columns (suc i) k then v (k + 160) else v k)
copy_columns_step i k v w hi h = ground (arith, copy_up_column i w k hi, h k, h (k + 160))

copy_columns :
    (v : ℕ → ℕ) (k : ℕ)
    → for_range num_cols (λ i w. for_range (num_rows - 1) (copy_up i) w) v k
      ≡ (if ltb k 3840 then v (k + 160) else v k)
copy_columns v k = ground (arith, loop k)
  where
    loop :
        (k : ℕ)
        → for_range num_cols (λ i w. for_range (num_rows - 1) (copy_up i) w) v k
          ≡ (if in_columns 80 k then v (k + 160) else v k)
    loop =
        for_range_inv (λ n w. (k : ℕ) → w k ≡ (if in_columns n k then v (k + 160) else v k))
          (λ i w. for_range (num_rows - 1) (copy_up i) w) num_cols v (λ k. ground arith)
          (λ i w hi h k. copy_columns_step i k v w hi h)

-- Blanking `n` cells from cell `b` on.
blank_cells :
    (n b : ℕ) (v : ℕ → ℕ) (k : ℕ)
    → for_range n (λ i w. write_cell w (b + i) 32 attrib) v k
      ≡ (if leb (b * 2) k && ltb k ((b + n) * 2) then (if k % 2 == 0 then 32 else attrib) else v k)
blank_cells n b v =
    for_range_inv
      (λ n w.
        (k : ℕ)
        → w k ≡ (
            if leb (b * 2) k && ltb k ((b + n) * 2)
            then (if k % 2 == 0 then 32 else attrib)
            else v k))
      (λ i w. write_cell w (b + i) 32 attrib) n v (λ k. ground arith)
      (λ i w hi h k. ground (arith, h k))

-- Scrolling moves every row up by one, blanks the last one, and touches nothing past the screen.
pub scroll_rows_lem :
    (v : ℕ → ℕ) (k : ℕ)
    → scroll_rows v k ≡ (
        if ltb k 3840
        then v (k + 160)
        else if ltb k 4000
        then (if k % 2 == 0 then 32 else attrib)
        else v k)
unfolding scroll_rows
scroll_rows_lem v k =
    ground (arith, copy_columns v k, blank_cells num_cols (num_cols * (num_rows - 1)) columns k)
  where
    columns : ℕ → ℕ
    columns = for_range num_cols (λ i w. for_range (num_rows - 1) (copy_up i) w) v
