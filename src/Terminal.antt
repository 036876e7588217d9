-- ===== src/Terminal.antt =====
-- The saved line of a terminal: `terminal_read` and `terminal_retrieve` of student-distrib/terminal.c.
-- The line of one terminal is an argument and the result. `Kernel.Switch` has `terminal_switch`.
mod Tests
pub mod Retrieve
use linux_base_operating_sys.Prelude.{
  ℕ, zero, suc, ◌+◌, ◌-◌, Bool, true, false, not, leb, ltb, ◌==◌, if◌then◌else◌, update, fill, scan,
}
use Prim.Native.Nat.{min}
use linux_base_operating_sys.Prelude.Int.{ℤ, pos, negsuc}

abbrev term_buff_size : ℕ
term_buff_size = 128

-- What bounds a loop `i < nbytes` that starts at 0.
abbrev pub count_of : ℤ → ℕ
count_of (pos n) = n
count_of (negsuc n) = 0

-- The line is cleaned and then filled from `buf`. (The call returns -1 in any case.)
pub terminal_read : (ℕ → ℕ) → ℤ → (ℕ → ℕ) → ℕ → ℕ
terminal_read buf nbytes save_buff =
    fill (min term_buff_size (count_of nbytes)) buf (fill term_buff_size (λ i. 0) save_buff)

abbrev pub not_blank : ℕ → Bool
not_blank c = not (c == 32)

-- The second loop of `terminal_retrieve`, over the bytes left of the line.
retrieve_from : ℕ → ℕ → (ℕ → ℕ) → ℕ → ℕ → (ℕ → ℕ) → ℕ × (ℕ → ℕ)
retrieve_from zero nbytes save_buff i cmd_cnt buf = (cmd_cnt, buf)
retrieve_from (suc n) nbytes save_buff i cmd_cnt buf =
    let buf' = update buf cmd_cnt (save_buff i) in
    let rest = retrieve_from n nbytes save_buff (suc i) (suc cmd_cnt) buf' in
    if ltb cmd_cnt nbytes
    then (if save_buff i == 0 then (cmd_cnt, buf') else rest)
    else (cmd_cnt, buf)

-- The count of bytes and the buffer. The leading spaces are skipped within `nbytes` and 128 bytes.
pub terminal_retrieve : (ℕ → ℕ) → ℤ → (ℕ → ℕ) → ℕ × (ℕ → ℕ)
terminal_retrieve save_buff nbytes buf =
    let n : ℕ = count_of nbytes in
    let i : ℕ = scan not_blank (min n term_buff_size) save_buff 0 in
    retrieve_from (term_buff_size - i) n save_buff i 0 buf
