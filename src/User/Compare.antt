-- ===== src/User/Compare.antt =====
-- What the support functions of syscalls/ece391support.c do, and that they do it as the kernel's own.
use linux_base_operating_sys.Prelude.{
  ℕ, zero, suc, ◌+◌, ◌-◌, ◌≤◌, ◌<◌, ◌≡◌, ◌≢◌, ◌↔◌, true, false, ltb, leb, ◌==◌, if◌then◌else◌,
  update, Option, some, none, refl, sym, ap, ◌∙◌, arith, Bool-cases, inl, inr, either, scan, ==_iff,
  ==-cases, ==-false,
}
use linux_base_operating_sys.Prelude.Int.{ℤ, pos, sub_ℕ, is_zero}
use linux_base_operating_sys.Strings.{
  is_nul, in_table, itoa_from, strrev_from, strlen, strrev, itoa,
}
use linux_base_operating_sys.User.Support.{
  strlen_from, ece391_strlen, strcmp_from, ece391_strcmp, ece391_strrev, ece391_itoa,
}

==-sym : (a b : ℕ) → (a == b) ≡ (b == a)
==-sym a b = ground arith

strlen_from-scan :
    (f : ℕ) (s : ℕ → ℕ) (len : ℕ)
    → strlen_from (suc f) s len
      ≡ (if s (scan is_nul f s len) == 0 then some (scan is_nul f s len) else none)
unfolding strlen_from scan
strlen_from-scan zero s len = rw (==-sym 0 (s len)) refl
strlen_from-scan (suc f) s len =
    let next : len + 1 ≡ suc len = omega arith in
    elim (Bool-cases (s len == 0)) [
      | inl e ↦ rw (==-sym 0 (s len), e, strlen_from) (rw e refl)
      | inr e ↦ rw (==-sym 0 (s len), e, strlen_from) (rw next (strlen_from-scan f s (suc len)))
    ]

ece391_strlen_lem : (f : ℕ) (s : ℕ → ℕ) → ece391_strlen (suc f) s ≡ strlen f s
unfolding ece391_strlen strlen
ece391_strlen_lem f s = strlen_from-scan f s 0

-- A string of at most one character is its own reversal.
short_reversal : (n : ℕ) (s : ℕ → ℕ) → leb n 1 ≡ true → strrev_from n s 0 (n - 1) ≡ s
unfolding strrev_from
short_reversal zero s short = refl
short_reversal (suc n) s short =
    (let last : ltb 0 (suc n - 1) ≡ false = ground (arith, short) in rw (last, strrev_from) refl)

reversal_of :
    (s : ℕ → ℕ) (o : Option ℕ)
    → elim o as (λ x. Option (ℕ → ℕ)) [
      | none ↦ none
      | some n ↦ if leb n 1 then some s else some (strrev_from n s 0 (n - 1))
    ]
      ≡ elim o as (λ x. Option (ℕ → ℕ)) [ none ↦ none | some n ↦ some (strrev_from n s 0 (n - 1)) ]
reversal_of s none = refl
reversal_of s (some n) =
    either {A = Option (ℕ → ℕ)} (λ r. r ≡ some (strrev_from n s 0 (n - 1))) (leb n 1)
      (λ short. ap some (sym (short_reversal n s short))) (λ long. refl)

ece391_strrev_lem : (f : ℕ) (s : ℕ → ℕ) → ece391_strrev (suc f) s ≡ strrev f s
unfolding ece391_strrev strrev
ece391_strrev_lem f s =
    ap
      (λ o. elim o as (λ x. Option (ℕ → ℕ)) [
        | none ↦ none
        | some n ↦ if leb n 1 then some s else some (strrev_from n s 0 (n - 1))
      ])
      (ece391_strlen_lem f s)
    ∙ reversal_of s (strlen f s)

-- The programs' `ece391_strlen`, `ece391_strrev` and `ece391_itoa` give what `strlen`, `strrev` and
-- `itoa` of the kernel give.
pub support_lem :
    (f value radix : ℕ) (s : ℕ → ℕ)
    → (ece391_strlen (suc f) s ≡ strlen f s)
      × (ece391_strrev (suc f) s ≡ strrev f s)
      × (ece391_itoa value s radix ≡ itoa value s radix)
unfolding ece391_itoa itoa
support_lem f value radix s =
    let r : (ℕ → ℕ) × ℕ = itoa_from 32 value radix s 0 in
    (
      ece391_strlen_lem f s,
      ece391_strrev_lem f s,
      ap
          (λ (o : Option (ℕ → ℕ)).
            if value == 0
            then some (update (update s 0 48) 1 0)
            else if in_table 32 value radix
            then o
            else none)
          (ece391_strrev_lem 33 (update r.0 r.1 0)),
    )

-- The two strings are the same from index `i` on: they agree up to a NUL that ends both.
unfoldable pub Same : (ℕ → ℕ) → (ℕ → ℕ) → ℕ → Type 0
Same s1 s2 i = (n : ℕ) × (i ≤ n) × (s1 n ≡ 0) × ((j : ℕ) → i ≤ j → j ≤ n → s1 j ≡ s2 j)

sub-nonzero : (a b : ℕ) → a ≢ b → sub_ℕ a b ≢ pos 0
sub-nonzero a b differ e =
    let not_zero : is_zero (sub_ℕ a b) ≡ false =
      either (λ d. is_zero d ≡ false) (leb b a) (λ le. ground (arith, le, differ)) (λ lt. refl) in
    absurd (ground (arith, sym (ap is_zero e) ∙ not_zero))

Same-next : (s1 s2 : ℕ → ℕ) (i : ℕ) → s1 i ≡ s2 i → s1 i ≢ 0 → Same s1 s2 (i + 1) ↔ Same s1 s2 i
unfolding Same
Same-next s1 s2 i same more = (
  λ (n, le, nul, agree). (
    n,
    omega (arith, le),
    nul,
    λ j from to. elim (==-cases j i) [
      | inl e ↦ ap s1 e ∙ same ∙ ap s2 (sym e)
      | inr later ↦ agree j (omega (arith, from, later)) to
    ],
  ),
  λ (n, le, nul, agree). elim (==-cases n i) [
    | inl e ↦ absurd (more (ap s1 (sym e) ∙ nul))
    | inr later ↦ (n, omega (arith, le, later), nul, λ j from to. agree j (omega (arith, from)) to)
  ],
)

strcmp_from-Same :
    (f : ℕ) (s1 s2 : ℕ → ℕ) (i n : ℕ)
    → i ≤ n
    → n < i + f
    → s1 n ≡ 0
    → (r : ℤ) × (strcmp_from f s1 s2 i ≡ some r) × ((r ≡ pos 0) ↔ Same s1 s2 i)
unfolding strcmp_from Same
strcmp_from-Same zero s1 s2 i n le lt nul = absurd (omega (arith, le, lt))
strcmp_from-Same (suc f) s1 s2 i n le lt nul = elim (==-cases (s1 i) (s2 i)) [
  | inl same ↦ elim (==-cases (s1 i) 0) [
    | inl done ↦ (
      pos 0,
      rw ((==_iff (s1 i) (s2 i)).1 same, (==_iff (s1 i) 0).1 done, strcmp_from) refl,
      (
        λ e. (
          i,
          omega arith,
          done,
          λ j from to.
              (let at : j ≡ i = omega (arith, from, to) in ap s1 at ∙ same ∙ ap s2 (sym at)),
        ),
        λ s. refl,
      ),
    )
    | inr more ↦
        let further : i ≢ n = λ e. more (ap s1 e ∙ nul) in
        let (r, e, when_same) =
          strcmp_from-Same f s1 s2 (i + 1) n (omega (arith, le, further)) (omega (arith, lt)) nul in
        let next = Same-next s1 s2 i same more in
        (
          r,
          rw ((==_iff (s1 i) (s2 i)).1 same, ==-false (s1 i) 0 more, strcmp_from) e,
          (λ z. next.0 (when_same.0 z), λ s. when_same.1 (next.1 s)),
        )
  ]
  | inr differ ↦ (
    sub_ℕ (s1 i) (s2 i),
    rw (==-false (s1 i) (s2 i) differ, strcmp_from) refl,
    (
      λ e. absurd (sub-nonzero (s1 i) (s2 i) differ e),
      λ (m, from, end, agree). absurd (differ (agree i (omega arith) from)),
    ),
  )
]

-- `ece391_strcmp` of a string that ends comes to an end within as many rounds as the string has
-- bytes, and its value is 0 exactly if the other string is the same.
pub ece391_strcmp_iff :
    (f n : ℕ) (s1 s2 : ℕ → ℕ)
    → n < f
    → s1 n ≡ 0
    → (r : ℤ) × (ece391_strcmp f s1 s2 ≡ some r) × ((r ≡ pos 0) ↔ Same s1 s2 0)
unfolding ece391_strcmp
ece391_strcmp_iff f n s1 s2 lt nul =
    strcmp_from-Same f s1 s2 0 n (omega arith) (omega (arith, lt)) nul
