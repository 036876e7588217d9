-- ===== src/User/Support.antt =====
-- The support functions of the user programs: syscalls/ece391support.c. Their loops have no bound:
-- they take fuel, and `none` means that no NUL was found within.
use linux_base_operating_sys.Prelude.{
  ℕ, zero, suc, ◌+◌, ◌-◌, ◌||◌, leb, ◌==◌, if◌then◌else◌, update, Option, some, none, List, length,
}
use linux_base_operating_sys.Prelude.Int.{ℤ, pos, sub_ℕ}
use linux_base_operating_sys.Strings.{itoa_from, in_table, strrev_from}
use linux_base_operating_sys.User.{Sys, literal}

unfoldable pub strlen_from : ℕ → (ℕ → ℕ) → ℕ → Option ℕ
strlen_from zero s len = none
strlen_from (suc f) s len =
    let rest = strlen_from f s (len + 1) in if 0 == s len then some len else rest

unfoldable pub ece391_strlen : ℕ → (ℕ → ℕ) → Option ℕ
unfolding strlen_from
ece391_strlen fuel s = strlen_from fuel s 0

-- The copy may overlap its source: a byte is read when it is its turn.
strcpy_within : ℕ → (ℕ → ℕ) → ℕ → ℕ → Option (ℕ → ℕ)
strcpy_within zero m dst src = none
strcpy_within (suc f) m dst src =
    let rest = strcpy_within f (update m dst (m src)) (dst + 1) (src + 1) in
    if 0 == m src then some (update m dst (m src)) else rest

-- `ece391_strcpy` of the string at `src` to `dst` in the same memory.
unfoldable pub ece391_strcpy : ℕ → (ℕ → ℕ) → ℕ → ℕ → Option (ℕ → ℕ)
unfolding strcpy_within
ece391_strcpy fuel m dst src = strcpy_within fuel m dst src

unfoldable pub strcmp_from : ℕ → (ℕ → ℕ) → (ℕ → ℕ) → ℕ → Option ℤ
strcmp_from zero s1 s2 i = none
strcmp_from (suc f) s1 s2 i =
    let rest = strcmp_from f s1 s2 (i + 1) in
    if s1 i == s2 i then (if s1 i == 0 then some (pos 0) else rest) else some (sub_ℕ (s1 i) (s2 i))

unfoldable pub ece391_strcmp : ℕ → (ℕ → ℕ) → (ℕ → ℕ) → Option ℤ
unfolding strcmp_from
ece391_strcmp fuel s1 s2 = strcmp_from fuel s1 s2 0

-- `n` is what is left of the bound, which is tested after it is lowered.
unfoldable pub strncmp_left : ℕ → (ℕ → ℕ) → (ℕ → ℕ) → ℕ → ℤ
strncmp_left zero s1 s2 i = pos 0
strncmp_left (suc n) s1 s2 i =
    let rest = strncmp_left n s1 s2 (i + 1) in
    if s1 i == s2 i then (if s1 i == 0 || n == 0 then pos 0 else rest) else sub_ℕ (s1 i) (s2 i)

unfoldable pub ece391_strncmp : (ℕ → ℕ) → (ℕ → ℕ) → ℕ → ℤ
unfolding strncmp_left
ece391_strncmp s1 s2 n = if n == 0 then pos 0 else strncmp_left n s1 s2 0

unfoldable pub ece391_strrev : ℕ → (ℕ → ℕ) → Option (ℕ → ℕ)
ece391_strrev fuel s = elim (ece391_strlen fuel s) [
  | none ↦ none
  | some n ↦ if leb n 1 then some s else some (strrev_from n s 0 (n - 1))
]

-- The loop over the digits is that of `itoa` of the kernel, letter by letter.
unfoldable pub ece391_itoa : ℕ → (ℕ → ℕ) → ℕ → Option (ℕ → ℕ)
ece391_itoa value buf radix =
    let (digits, n) = itoa_from 32 value radix buf 0 in
    if value == 0
    then some (update (update buf 0 48) 1 0)
    else if in_table 32 value radix
    then ece391_strrev 34 (update digits n 0)
    else none

module _ {W : Type 0} (sys : Sys W) where
  -- `ece391_fdputs` of a string that ends within `size` bytes; what `write` returns is dropped.
  unfoldable pub ece391_fdputs : ℕ → ℤ → (ℕ → ℕ) → W → Option W
  ece391_fdputs size fd s w = elim (ece391_strlen size s) [
    | none ↦ none
    | some n ↦ some ((sys.write fd s n w).1)
  ]

  -- `ece391_fdputs` of a literal.
  unfoldable pub fdputs_text : ℤ → List ℕ → W → W
  fdputs_text fd text w = (sys.write fd (literal text) (length text) w).1
