-- ===== src/Strings/Places.antt =====
-- The digits that the loop of `itoa` of student-distrib/lib.c finds, the lowest place first.
use linux_base_operating_sys.Prelude.{
  ℕ, zero, suc, ◌+◌, ◌-◌, ◌*◌, ◌/◌, ◌%◌, ◌^◌, ◌≤◌, ◌<◌, ◌≡◌, ◌≢◌, ◌==◌, true, Bool, leb, ltb,
  if◌then◌else◌, refl, ap, sym, subst, ◌∙◌, inl, inr, update, arith, either, ==_iff, ==-cases,
}
use native.Mathlib.Nat.{pow-zero, pow-suc, div-lt_iff_lt-mul, div-add-mod, mod-lt, mul-le-mul_right}
use linux_base_operating_sys.Strings.{itoa_from, lookup, in_table}
use linux_base_operating_sys.Strings.Digits.{update_here}

-- The digit that a character stands for.
abbrev pub digit : ℕ → ℕ
digit c = if ltb c 58 then c - 48 else c - 55

digit-lookup : (d : ℕ) → d < 36 → digit (lookup d) ≡ d
digit-lookup d lt = ground (arith, lt)

-- The number that `n` digits denote, the highest one first.
unfoldable pub numeral : ℕ → (ℕ → ℕ) → ℕ → ℕ
numeral radix s zero = 0
numeral radix s (suc n) = radix * numeral radix s n + digit (s n)

-- The number that the `n` digits from index `i` on denote, the lowest one first.
unfoldable pub low_first : ℕ → (ℕ → ℕ) → ℕ → ℕ → ℕ
low_first radix s i zero = 0
low_first radix s i (suc n) = digit (s i) + radix * low_first radix s (i + 1) n

-- `m` digits read backwards.
pub numeral-reversed :
    (radix : ℕ) (r s : ℕ → ℕ) (m k : ℕ)
    → k ≤ m
    → ((j : ℕ) → j < m → r j ≡ s (m - 1 - j))
    → numeral radix r k ≡ low_first radix s (m - k) k
unfolding numeral low_first
numeral-reversed radix r s m zero le mirror = refl
numeral-reversed radix r s m (suc k) le mirror =
    let rest = numeral-reversed radix r s m k (omega arith) mirror in
    let next : m - suc k + 1 ≡ m - k = omega arith in
    let last : m - 1 - k ≡ m - suc k = omega arith in
    rw (next, rest, mirror k (omega arith), last) (omega arith)

itoa_from-kept :
    (rounds newval radix : ℕ) (buf : ℕ → ℕ) (i j : ℕ)
    → j < i
    → (itoa_from rounds newval radix buf i).0 j ≡ buf j
unfolding itoa_from
itoa_from-kept zero newval radix buf i j lt = refl
itoa_from-kept (suc rounds) newval radix buf i j lt =
    let rest =
      itoa_from-kept rounds (newval / radix) radix (update buf i (lookup (newval % radix))) (i + 1)
        j (omega arith) in
    ground (arith, rest)

-- The digits of `newval` stand in `b` from index `i` up to `n`, the lowest one first.
pub record Digits (radix newval : ℕ) (b : ℕ → ℕ) (i n : ℕ) : Type 0 where
  pub from : i ≤ n
  pub denotes : low_first radix b i (n - i) ≡ newval
  pub shown : (j : ℕ) → i ≤ j → j < n → (d : ℕ) × (d < radix) × (b j ≡ lookup d)
  pub table : radix ≤ 36
  pub leading : i < n → b (n - 1) ≢ 48
  pub ends : newval ≡ 0 → n ≡ i

div_shrinks : (newval radix m : ℕ) → 2 ≤ radix → newval < 2 * m → newval / radix < m
div_shrinks newval radix m two below =
    let whole = div-add-mod newval radix in
    omega (arith, whole, mul-le-mul_right (newval / radix) two)

none-Digits :
    (radix newval : ℕ) (b : ℕ → ℕ) (i : ℕ) → radix ≤ 36 → newval ≡ 0 → Digits radix newval b i i
unfolding low_first
none-Digits radix newval b i top nothing = record {
  from = omega arith;
  denotes = (let same : i - i ≡ 0 = omega arith in rw same (sym nothing));
  shown = λ j a b. absurd (omega arith);
  table = top;
  leading = λ a. absurd (omega arith);
  ends = λ a. refl;
}

-- The last digit that is found is not 0.
lookup-leading :
    (newval radix : ℕ)
    → 2 ≤ radix
    → radix ≤ 36
    → newval ≢ 0
    → lookup (newval % radix) ≡ 48
    → newval / radix ≢ 0
lookup-leading newval radix two top more zero_digit last =
    let whole = div-add-mod newval radix in
    let low : newval % radix < radix = mod-lt newval (omega (arith, two)) in
    let remainder : newval % radix ≡ 0 = ground (arith, zero_digit, low, top) in
    more (sym whole ∙ rw (last, remainder) (omega arith))

next-Digits :
    (radix newval : ℕ) (b : ℕ → ℕ) (i n : ℕ)
    → 2 ≤ radix
    → radix ≤ 36
    → newval ≢ 0
    → b i ≡ lookup (newval % radix)
    → Digits radix (newval / radix) b (i + 1) n
    → Digits radix newval b i n
unfolding low_first
next-Digits radix newval b i n two top more here rest = record {
  from = omega (arith, rest.from);
  denotes =
      (let low : newval % radix < radix = mod-lt newval (omega (arith, two)) in
        let count : n - i ≡ suc (n - (i + 1)) = omega (arith, rest.from) in
        rw (count, here, digit-lookup (newval % radix) (omega (arith, low, top)), rest.denotes)
          (omega (arith, div-add-mod newval radix)));
  shown = λ j from to. elim (==-cases j i) [
    | inl same ↦ (newval % radix, mod-lt newval (omega arith), rw same here)
    | inr later ↦ rest.shown j (omega (arith, from, later)) to
  ];
  table = top;
  leading = λ a. elim (==-cases n (i + 1)) [
    | inl same ↦ λ e.
        lookup-leading newval radix two top more
          (sym here ∙ (let at : n - 1 ≡ i = omega (arith, same) in ap b (sym at)) ∙ e)
          (sym rest.denotes
            ∙ (let none_left : n - (i + 1) ≡ 0 = omega (arith, same) in rw none_left refl))
    | inr later ↦ rest.leading (omega (arith, rest.from, later))
  ];
  ends = λ e. absurd (more e);
}

pub itoa_from-Digits :
    (rounds newval radix : ℕ) (buf : ℕ → ℕ) (i : ℕ)
    → 2 ≤ radix
    → radix ≤ 36
    → newval < 2 ^ rounds
    → Digits radix newval
        (itoa_from rounds newval radix buf i).0
        i
        (itoa_from rounds newval radix buf i).1
unfolding itoa_from
itoa_from-Digits zero newval radix buf i two top below =
    none-Digits radix newval buf i top (omega arith)
itoa_from-Digits (suc rounds) newval radix buf i two top below =
    let buf1 = update buf i (lookup (newval % radix)) in
    let smaller = div_shrinks newval radix (2 ^ rounds) two (omega (arith, below)) in
    let r : (ℕ → ℕ) × ℕ = itoa_from rounds (newval / radix) radix buf1 (i + 1) in
    either {A = (ℕ → ℕ) × ℕ} (λ p. Digits radix newval p.0 i p.1) (newval == 0)
      (λ e. none-Digits radix newval buf i top ((==_iff newval 0).0 e))
      (λ e.
        next-Digits radix newval r.0 i r.1 two top (ground (arith, e))
          (itoa_from-kept rounds (newval / radix) radix buf1 (i + 1) i (omega arith)
            ∙ update_here buf i (lookup (newval % radix)))
          (itoa_from-Digits rounds (newval / radix) radix buf1 (i + 1) two top smaller))

-- Digits of a radix up to 36 are in the table.
pub in_table-small :
    (rounds newval radix : ℕ) → 2 ≤ radix → radix ≤ 36 → in_table rounds newval radix ≡ true
unfolding in_table
in_table-small zero newval radix two top = refl
in_table-small (suc rounds) newval radix two top =
    let low : newval % radix < radix = mod-lt newval (omega arith) in
    let inside : leb (newval % radix) 36 ≡ true = ground (arith, low, top) in
    either {A = Bool} (λ b. b ≡ true) (newval == 0) (λ e. refl)
      (λ e. rw inside (in_table-small rounds (newval / radix) radix two top))

-- A number below `radix ^ m` has at most `m` digits.
pub itoa_from-short :
    (m rounds newval radix : ℕ) (buf : ℕ → ℕ) (i : ℕ)
    → 2 ≤ radix
    → newval < radix ^ m
    → (itoa_from rounds newval radix buf i).1 ≤ i + m
unfolding itoa_from
itoa_from-short m zero newval radix buf i two below = omega arith
itoa_from-short zero (suc rounds) newval radix buf i two below =
    let nothing : (newval == 0) ≡ true =
      (==_iff newval 0).1 (omega (arith, below, pow-zero radix)) in
    rw nothing (omega arith)
itoa_from-short (suc m) (suc rounds) newval radix buf i two below =
    let buf1 = update buf i (lookup (newval % radix)) in
    let smaller : newval / radix < radix ^ m =
      (div-lt_iff_lt-mul {k = radix} {x = newval} {y = radix ^ m} (omega arith)).1
        (subst (λ p. newval < p) (pow-suc radix m) below) in
    either {A = (ℕ → ℕ) × ℕ} (λ p. p.1 ≤ i + suc m) (newval == 0) (λ e. omega arith)
      (λ e. omega (arith, itoa_from-short m rounds (newval / radix) radix buf1 (i + 1) two smaller))
