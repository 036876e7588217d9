-- ===== src/Prelude/Loops.antt =====
-- Counted loops, with one rule for invariants.
use Prim.Native.Nat.{ℕ, zero, suc, ◌<◌}
use native.Mathlib.Omega.{arith}

-- for (i = 0; i < n; i++) s = body i s
unfoldable pub for_range {ℓ} : {S : Type ℓ} → ℕ → (ℕ → S → S) → S → S
for_range zero body s = s
for_range (suc n) body s = body n (for_range n body s)

pub for_range_inv {ℓ κ} :
    {S : Type ℓ} (P : ℕ → S → Type κ) (body : ℕ → S → S) (n : ℕ) (s : S)
    → P 0 s
    → ((i : ℕ) (r : S) → i < n → P i r → P (suc i) (body i r))
    → P n (for_range n body s)
unfolding for_range
for_range_inv P body zero s h keep = h
for_range_inv P body (suc n) s h keep =
    keep n (for_range n body s) (omega arith)
      (for_range_inv P body n s h (λ i r lt. keep i r (omega arith)))
