-- ===== src/Strings/Numerals.antt =====
-- The strings that `itoa` of student-distrib/lib.c gives are the numerals of the numbers.
use linux_base_operating_sys.Prelude.{
  ℕ, ◌-◌, ◌^◌, ◌≤◌, ◌<◌, ◌≡◌, ◌≢◌, ◌==◌, false, Option, refl, ap, sym, ◌∙◌, inl, inr, update, arith,
  some, scan_unique, either, ==_iff, ==-cases,
}
use linux_base_operating_sys.Strings.{is_nul, strlen, strrev, strrev_from, itoa, itoa_from, lookup}
use linux_base_operating_sys.Strings.Digits.{itoa_from-count, update_here}
use linux_base_operating_sys.Strings.Reverse.{strrev_from_lem}
use linux_base_operating_sys.Strings.Places.{
  numeral, low_first, Digits, numeral-reversed, itoa_from-Digits, itoa_from-short, in_table-small,
}

-- The first `n` characters of the string `s`, which end it, are the numeral of `value`.
pub record Numeral (radix value : ℕ) (s : ℕ → ℕ) (n : ℕ) : Type 0 where
  pub positive : 0 < n
  pub ended : s n ≡ 0
  pub digits : (j : ℕ) → j < n → (d : ℕ) × (d < radix) × (s j ≡ lookup d)
  pub table : radix ≤ 36
  pub denotes : numeral radix s n ≡ value
  pub no_leading_zero : value ≢ 0 → s 0 ≢ 48
  pub short : (m : ℕ) → 0 < m → value < radix ^ m → n ≤ m

pub lookup_nonzero : (c d : ℕ) → d < 36 → c ≡ lookup d → is_nul c ≡ false
lookup_nonzero c d lt e = ground (arith, lt, e)

-- A string whose NUL is at `n` has length `n`.
pub strlen_unique :
    (fuel n : ℕ) (s : ℕ → ℕ)
    → n < fuel
    → ((j : ℕ) → j < n → is_nul (s j) ≡ false)
    → s n ≡ 0
    → strlen fuel s ≡ some n
unfolding strlen
strlen_unique fuel n s inside chars nul =
    let stops = (==_iff (s n) 0).1 nul in
    let e =
      scan_unique is_nul fuel s 0 n (omega arith) (omega arith) (λ j from to. chars j to) stops in
    rw (e, stops) refl

-- The reversal of the digits found is the numeral.
reversed-Numeral :
    (radix value : ℕ) (b : ℕ → ℕ) (n : ℕ)
    → value ≢ 0
    → n < 33
    → ((m : ℕ) → 0 < m → value < radix ^ m → n ≤ m)
    → Digits radix value b 0 n
    → (s : ℕ → ℕ) × (strrev 33 (update b n 0) ≡ some s) × Numeral radix value s n
unfolding strrev low_first
reversed-Numeral radix value b n more few short d =
    let positive : 0 < n = elim (==-cases n 0) [
      | inl none_found ↦ absurd (more (sym d.denotes ∙ rw none_found refl))
      | inr found ↦ omega (arith, found)
    ] in
    let s : ℕ → ℕ = strrev_from n (update b n 0) 0 (n - 1) in
    let mirror : (j : ℕ) → j < n → s j ≡ b (n - 1 - j) = λ j lt.
      strrev_from_lem n (update b n 0) 0 (n - 1) j (omega arith) ∙ ground (arith, lt, positive) in
    let len =
      strlen_unique 33 n (update b n 0) few
        (λ j lt. ground (
          arith,
          lt,
          lookup_nonzero (b j) (d.shown j (omega arith) lt).0
              (omega (arith, (d.shown j (omega arith) lt).1, d.table))
              (d.shown j (omega arith) lt).2,
        ))
        (update_here b n 0) in
    (
      s,
      rw (len, strrev) refl,
      record {
        positive = positive;
        ended =
            strrev_from_lem n (update b n 0) 0 (n - 1) n (omega arith) ∙ ground (arith, positive);
        digits = λ j lt.
            let (v, low, e) = d.shown (n - 1 - j) (omega arith) (omega (arith, lt)) in
            (v, low, mirror j lt ∙ e);
        table = d.table;
        denotes =
            numeral-reversed radix s b n n (omega arith) mirror
            ∙ (let front : n - n ≡ 0 = omega arith in
                rw front
                  (let all : n ≡ n - 0 = omega arith in ap (low_first radix b 0) all ∙ d.denotes));
        no_leading_zero = λ m e. d.leading positive (
            sym (mirror 0 positive ∙ (let last : n - 1 - 0 ≡ n - 1 = omega arith in rw last refl))
            ∙ e);
        short = short;
      },
    )

-- For a 32-bit number and a radix from 2 to 36, `itoa` gives a string, and it is the numeral of the
-- number: a NUL ends its digits, each below the radix, they denote the number, the first one is not
-- 0 unless the number is, and there are no more of them than the number needs.
pub itoa-Numeral :
    (value radix : ℕ) (buf : ℕ → ℕ)
    → value < 2 ^ 32
    → 2 ≤ radix
    → radix ≤ 36
    → (s : ℕ → ℕ) × (n : ℕ) × (itoa value buf radix ≡ some s) × Numeral radix value s n
unfolding itoa numeral
itoa-Numeral value radix buf word two top =
    let r : (ℕ → ℕ) × ℕ = itoa_from 32 value radix buf 0 in
    let count = itoa_from-count 32 value radix buf 0 in
    either {A = Option (ℕ → ℕ)}
      (λ o. (s : ℕ → ℕ) × (n : ℕ) × (o ≡ some s) × Numeral radix value s n) (value == 0)
      (λ e. (
        update (update buf 0 48) 1 0,
        1,
        refl,
        record {
          positive = omega arith;
          ended = ground arith;
          digits = λ j lt. (0, omega arith, ground (arith, lt));
          table = top;
          denotes = rw ((==_iff value 0).0 e) (omega arith);
          no_leading_zero = λ m. absurd (m ((==_iff value 0).0 e));
          short = λ m pos below. pos;
        },
      ))
      (λ e.
        let (s, shown, d) =
          reversed-Numeral radix value r.0 r.1 (ground (arith, e)) (omega (arith, count))
            (λ m pos below. omega (arith, itoa_from-short m 32 value radix buf 0 two below))
            (itoa_from-Digits 32 value radix buf 0 two top word) in
        (s, r.1, rw (in_table-small 32 value radix two top) shown, d))
