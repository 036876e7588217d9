-- ===== src/Prelude/Bits.antt =====
-- `|` of an aligned address and flags below the alignment is their sum.
use Prim.Native.Nat.{
  ℕ, zero, suc, ◌+◌, ◌*◌, ◌/◌, ◌%◌, ◌^◌, ◌≤◌, ◌<◌, max, bit_or, digits, bit_or-bitwise,
}
use mathlib.Core.Path.{◌≡◌, refl, ap}
use native.Mathlib.Nat.{pow-suc}
use native.Mathlib.Omega.{arith}

-- `x | y` by `rounds` digits from the lowest one on.
abbrev by_digits : ℕ → ℕ → ℕ → ℕ
by_digits x y rounds = digits (λ rest. rest) max rounds x y

-- Rounds beyond the value of `x` change nothing.
enough_rounds : (x y p q : ℕ) → x ≤ p → x ≤ q → by_digits x y p ≡ by_digits x y q
enough_rounds zero y (suc p) (suc q) hp hq = refl
enough_rounds zero y (suc p) zero hp hq = refl
enough_rounds zero y zero (suc q) hp hq = refl
enough_rounds zero y zero zero hp hq = refl
enough_rounds (suc x) y zero q hp hq = absurd (omega arith)
enough_rounds (suc x) y (suc p) zero hp hq = absurd (omega arith)
enough_rounds (suc x) y (suc p) (suc q) hp hq =
    let halves = enough_rounds (suc x / 2) (y / 2) p q (omega arith) (omega arith) in
    ap (λ (rest : ℕ). rest * 2 + max (suc x % 2) (y % 2)) halves

or_zero : (y : ℕ) → bit_or 0 y ≡ y
or_zero y = bit_or-bitwise 0 y

-- The lowest digit of `|`.
or_step : (x y : ℕ) → bit_or x y ≡ bit_or (x / 2) (y / 2) * 2 + max (x % 2) (y % 2)
or_step zero y = let half = or_zero (y / 2) in let whole = or_zero y in omega arith
or_step (suc x) y =
    let halves = enough_rounds (suc x / 2) (y / 2) (suc x / 2) x (omega arith) (omega arith) in
    let inner = bit_or-bitwise (suc x / 2) (y / 2) in
    let outer = bit_or-bitwise (suc x) y in omega arith

or_nothing : (bound x : ℕ) → x ≤ bound → bit_or x 0 ≡ x
or_nothing zero (suc x) h = absurd (omega arith)
or_nothing bound zero h = refl
or_nothing (suc bound) (suc x) h =
    let half = or_nothing bound (suc x / 2) (omega arith) in
    let step = or_step (suc x) 0 in omega arith

doubled : (a k : ℕ) → a * 2 ^ suc k ≡ 2 * (a * 2 ^ k)
doubled a k = omega (arith, ap (λ (t : ℕ). a * t) (pow-suc 2 k))

pub bit_or-aligned : (k a r : ℕ) → r < 2 ^ k → bit_or (a * 2 ^ k) r ≡ a * 2 ^ k + r
bit_or-aligned zero a r h = ground (arith, or_nothing a a)
bit_or-aligned (suc k) a r h =
    ground (arith, or_step (a * 2 ^ suc k) r, doubled a k, pow-suc 2 k, bit_or-aligned k a (r / 2))
