-- ===== src/Prelude/Scan.antt =====
-- The loop that most string code is: go on until a byte that stops it, or a bound.
use Prim.Native.Nat.{ℕ, zero, suc, ◌+◌, ◌≤◌, ◌<◌}
use mathlib.Core.Path.{◌≡◌}
use mathlib.Core.Logic.{◌⊎◌, inl, inr}
use mathlib.Core.Bool.{Bool, true, false}
use native.Mathlib.Omega.{arith}
use linux_base_operating_sys.Prelude.Tests.{if◌then◌else◌, Bool-cases}

-- while (!stop(s[i]) && n-- > 0) i++; the end value of i
unfoldable pub scan : (ℕ → Bool) → ℕ → (ℕ → ℕ) → ℕ → ℕ
scan stop zero s i = i
scan stop (suc n) s i = if stop (s i) then i else scan stop n s (suc i)

-- `e` is where a scan of `n` bytes from `i` on ends.
pub record Scanned (stop : ℕ → Bool) (n : ℕ) (s : ℕ → ℕ) (i e : ℕ) : Type 0 where
  pub from : i ≤ e
  pub to : e ≤ i + n
  pub passed : (j : ℕ) → i ≤ j → j < e → stop (s j) ≡ false
  pub stopped : (e ≡ i + n) ⊎ (stop (s e) ≡ true)

pub scan-Scanned :
    (stop : ℕ → Bool) (n : ℕ) (s : ℕ → ℕ) (i : ℕ) → Scanned stop n s i (scan stop n s i)
unfolding scan
scan-Scanned stop zero s i = record {
  from = omega arith;
  to = omega arith;
  passed = λ j a b. absurd (omega arith);
  stopped = inl (omega arith);
}
scan-Scanned stop (suc n) s i = elim (Bool-cases (stop (s i))) [
  | inl e ↦ rw e (record {
    from = omega arith;
    to = omega arith;
    passed = λ j a b. absurd (omega arith);
    stopped = inr e;
  })
  | inr e ↦ rw e (
      let r = scan-Scanned stop n s (suc i) in
      record {
        from = omega (arith, r.from);
        to = omega (arith, r.to);
        passed = λ j a b. ground (arith, e, r.passed j);
        stopped = ground (arith, r.stopped);
      })
]

-- A scan that is known to pass everything before `e` and to stop there ends at `e`.
pub scan_unique :
    (stop : ℕ → Bool) (n : ℕ) (s : ℕ → ℕ) (i e : ℕ)
    → i ≤ e
    → e < i + n
    → ((j : ℕ) → i ≤ j → j < e → stop (s j) ≡ false)
    → stop (s e) ≡ true
    → scan stop n s i ≡ e
scan_unique stop n s i e from to passed stops =
    let r = scan-Scanned stop n s i in
    ground (arith, r.from, r.to, r.stopped, r.passed e, passed (scan stop n s i))

-- A scan that nothing stops goes to its bound.
pub scan_all :
    (stop : ℕ → Bool) (n : ℕ) (s : ℕ → ℕ) (i : ℕ)
    → ((j : ℕ) → i ≤ j → j < i + n → stop (s j) ≡ false)
    → scan stop n s i ≡ i + n
scan_all stop n s i passed =
    let r = scan-Scanned stop n s i in
    ground (arith, r.from, r.to, r.stopped, passed (scan stop n s i))
