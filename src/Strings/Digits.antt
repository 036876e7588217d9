-- ===== src/Strings/Digits.antt =====
-- How many digits the loop of `itoa` of student-distrib/lib.c finds at most.
use linux_base_operating_sys.Prelude.{ℕ, zero, suc, ◌+◌, ◌/◌, ◌%◌, ◌≤◌, ◌≡◌, update, arith}
use linux_base_operating_sys.Strings.{itoa_from, lookup}

pub itoa_from-count :
    (rounds newval radix : ℕ) (buf : ℕ → ℕ) (i : ℕ)
    → (itoa_from rounds newval radix buf i).1 ≤ i + rounds
unfolding itoa_from
itoa_from-count zero newval radix buf i = omega arith
itoa_from-count (suc rounds) newval radix buf i =
    let rest =
      itoa_from-count rounds (newval / radix) radix (update buf i (lookup (newval % radix)))
        (i + 1) in
    ground (arith, rest)

pub update_here : (a : ℕ → ℕ) (i v : ℕ) → update a i v i ≡ v
update_here a i v = ground arith
