-- ===== src/Strings/Compare.antt =====
-- `strncmp` and `strlen` against what they should decide.
use linux_base_operating_sys.Prelude.{
  ℕ, zero, suc, ◌+◌, ◌≤◌, ◌<◌, ◌≡◌, ◌≢◌, ◌↔◌, refl, some, scan_unique, arith,
}
use linux_base_operating_sys.Prelude.Int.{pos}
use linux_base_operating_sys.Strings.{strlen, strncmp, strncmp_from, is_nul}

-- Two strings agree up to `n` bytes: in every byte that no NUL stands before.
abbrev pub Agree : ℕ → (ℕ → ℕ) → (ℕ → ℕ) → ℕ → Type 0
Agree n s1 s2 i = (j : ℕ) → i ≤ j → j < i + n → ((k : ℕ) → i ≤ k → k < j → s1 k ≢ 0) → s1 j ≡ s2 j

strncmp_from-Agree :
    (n : ℕ) (s1 s2 : ℕ → ℕ) (i : ℕ)
    → ((j : ℕ) → s1 j < 256)
    → ((j : ℕ) → s2 j < 256)
    → strncmp_from n s1 s2 i ≡ pos 0
    → Agree n s1 s2 i
unfolding strncmp_from
strncmp_from-Agree zero s1 s2 i b1 b2 e j from to before = absurd (omega arith)
strncmp_from-Agree (suc n) s1 s2 i b1 b2 e j from to before = ground (
  arith,
  b1 i,
  b2 i,
  before i,
  λ (h : strncmp_from n s1 s2 (i + 1) ≡ pos 0) (from : i + 1 ≤ j) (to : j < i + 1 + n).
      strncmp_from-Agree n s1 s2 (i + 1) b1 b2 h j from to (λ k a b. before k (omega arith) b),
)

Agree-strncmp_from :
    (n : ℕ) (s1 s2 : ℕ → ℕ) (i : ℕ) → Agree n s1 s2 i → strncmp_from n s1 s2 i ≡ pos 0
unfolding strncmp_from
Agree-strncmp_from zero s1 s2 i agree = refl
Agree-strncmp_from (suc n) s1 s2 i agree =
    let first : s1 i ≡ s2 i = agree i (omega arith) (omega arith) (λ k a b. absurd (omega arith)) in
    ground (
      arith,
      first,
      λ (nz : s1 i ≢ 0). Agree-strncmp_from n s1 s2 (i + 1) (λ j a b before.
          agree j (omega arith) (omega arith) (λ k c d. ground (arith, nz, before k))),
    )

-- `strncmp` is zero exactly when the two strings agree up to the bound.
pub strncmp_iff :
    (s1 s2 : ℕ → ℕ) (n : ℕ)
    → ((j : ℕ) → s1 j < 256)
    → ((j : ℕ) → s2 j < 256)
    → (strncmp s1 s2 n ≡ pos 0) ↔ Agree n s1 s2 0
unfolding strncmp
strncmp_iff s1 s2 n b1 b2 = (strncmp_from-Agree n s1 s2 0 b1 b2, Agree-strncmp_from n s1 s2 0)

-- With a NUL at `len` and none before it, `strlen` returns `len`, for every fuel above it.
strlen_lem :
    (fuel len : ℕ) (s : ℕ → ℕ)
    → len < fuel
    → s len ≡ 0
    → ((j : ℕ) → j < len → s j ≢ 0)
    → strlen fuel s ≡ some len
unfolding strlen
strlen_lem fuel len s enough nul before = ground (
  arith,
  scan_unique is_nul fuel s 0 len (omega arith) (omega arith) (λ j a b. ground (arith, before j))
      (ground arith),
)
