-- ===== src/Strings/Tests.antt =====
-- The theorems on strings at short strings.
use linux_base_operating_sys.Prelude.{ℕ, zero, suc, ◌<◌, ◌≡◌, some, arith}
use linux_base_operating_sys.Strings.{itoa}
use linux_base_operating_sys.Strings.Numerals.{Numeral, itoa-Numeral}

abbrev ab : ℕ → ℕ
ab zero = b'a'
ab (suc zero) = b'b'
ab (suc (suc j)) = 0

abbrev other : ℕ → ℕ
other j = b'a'

ab_bytes : (j : ℕ) → ab j < 256
ab_bytes zero = omega arith
ab_bytes (suc zero) = omega arith
ab_bytes (suc (suc j)) = omega arith

itoa-Numeral_example : (s : ℕ → ℕ) × (n : ℕ) × (itoa 48879 ab 16 ≡ some s) × Numeral 16 48879 s n
itoa-Numeral_example = itoa-Numeral 48879 16 ab (omega arith) (omega arith) (omega arith)
