-- ===== src/Terminal/Tests.antt =====
-- A line that is saved and read back.
use linux_base_operating_sys.Prelude.{ℕ, ◌<◌, ◌≡◌, arith}
use linux_base_operating_sys.Prelude.Int.{pos}
use linux_base_operating_sys.Terminal.{terminal_read, terminal_retrieve}
use linux_base_operating_sys.Terminal.Retrieve.{retrieve-read}

abbrev all_x : ℕ → ℕ
all_x i = 120

retrieve-read_example :
    let r = terminal_retrieve (terminal_read all_x (pos 3) (λ i. 1)) (pos 40) (λ i. 2) in
    (r.0 ≡ 3) × ((j : ℕ) → j < 3 → r.1 j ≡ all_x j) × (r.1 3 ≡ 0) × ((j : ℕ) → 3 < j → r.1 j ≡ 2)
retrieve-read_example =
    retrieve-read all_x (λ i. 2) (λ i. 1) 3 40 (omega arith) (omega arith)
      (λ j h e. absurd (omega (arith, e))) (omega arith)
