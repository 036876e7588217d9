-- ===== src/Strings.antt =====
-- The string functions of student-distrib/lib.c. A pointer is the bytes from it on.
mod Tests
pub mod Compare
pub mod Copy
pub mod Digits
pub mod Reverse
pub mod Places
pub mod Numerals
use linux_base_operating_sys.Prelude.{
  ℕ, zero, suc, ◌+◌, ◌-◌, ◌*◌, ◌/◌, ◌%◌, ◌^◌, ◌<◌, Bool, true, false, ◌&&◌, ◌||◌, ltb, leb, ◌==◌,
  ◌!=◌, if◌then◌else◌, update, List, [], ◌∷◌, Option, some, none, scan, get_or,
}
use linux_base_operating_sys.Prelude.Int.{ℤ, pos, negsuc, sub_ℕ}

abbrev pub is_nul : ℕ → Bool
is_nul c = c == 0

-- The loop has no bound: `fuel` bounds it, and `none` means that no NUL was found within.
unfoldable pub strlen : ℕ → (ℕ → ℕ) → Option ℕ
strlen fuel s = let len = scan is_nul fuel s 0 in if s len == 0 then some len else none

-- int8_t c - d. The two bytes are signed.
abbrev sub_int8 : ℕ → ℕ → ℤ
sub_int8 c d = sub_ℕ ((c + 128) % 256) ((d + 128) % 256)

strncmp_from : ℕ → (ℕ → ℕ) → (ℕ → ℕ) → ℕ → ℤ
strncmp_from zero s1 s2 i = pos 0
strncmp_from (suc n) s1 s2 i =
    if s1 i != s2 i || s1 i == 0 then sub_int8 (s1 i) (s2 i) else strncmp_from n s1 s2 (i + 1)

unfoldable pub strncmp : (ℕ → ℕ) → (ℕ → ℕ) → ℕ → ℤ
unfolding strncmp_from
strncmp s1 s2 n = strncmp_from n s1 s2 0

-- The loop of `strcpy`, with `fuel` rounds at most; `none` when no NUL was copied by then.
unfoldable pub strcpy_from : ℕ → (ℕ → ℕ) → (ℕ → ℕ) → ℕ → Option (ℕ → ℕ)
strcpy_from zero dest src i = none
strcpy_from (suc f) dest src i =
    let rest = strcpy_from f (update dest i (src i)) src (i + 1) in
    if src i == 0 then some (update dest i 0) else rest

unfoldable pub strcpy : ℕ → (ℕ → ℕ) → (ℕ → ℕ) → Option (ℕ → ℕ)
unfolding strcpy_from
strcpy fuel dest src = strcpy_from fuel dest src 0

-- The second loop of `strncpy`.
strncpy_pad : ℕ → (ℕ → ℕ) → ℕ → ℕ → ℕ
strncpy_pad zero dest i = dest
strncpy_pad (suc n) dest i = strncpy_pad n (update dest i 0) (i + 1)

-- The first loop, then the second from where the first one stopped.
strncpy_from : ℕ → (ℕ → ℕ) → (ℕ → ℕ) → ℕ → ℕ → ℕ
strncpy_from zero dest src i = dest
strncpy_from (suc n) dest src i =
    let rest = strncpy_from n (update dest i (src i)) src (i + 1) in
    if src i == 0 then strncpy_pad (suc n) dest i else rest

unfoldable pub strncpy : (ℕ → ℕ) → (ℕ → ℕ) → ℕ → ℕ → ℕ
unfolding strncpy_pad strncpy_from
strncpy dest src n = strncpy_from n dest src 0

-- The character of a digit, from the table of `itoa`: 36 characters and the NUL behind them.
abbrev pub lookup : ℕ → ℕ
lookup d = if ltb d 10 then 48 + d else if ltb d 36 then 55 + d else 0

-- Whether the loop of `itoa` reads the table only inside it.
unfoldable pub in_table : ℕ → ℕ → ℕ → Bool
in_table zero newval radix = true
in_table (suc rounds) newval radix =
    if newval == 0 then true else leb (newval % radix) 36 && in_table rounds (newval / radix) radix

-- The swaps of `strrev`, with `rounds` at most.
unfoldable pub strrev_from : ℕ → (ℕ → ℕ) → ℕ → ℕ → ℕ → ℕ
strrev_from zero s beg end = s
strrev_from (suc rounds) s beg end =
    let rest = strrev_from rounds (update (update s end (s beg)) beg (s end)) (beg + 1) (end - 1) in
    if ltb beg end then rest else s

-- `strrev` of a string of fewer than `fuel` characters.
unfoldable pub strrev : ℕ → (ℕ → ℕ) → Option (ℕ → ℕ)
unfolding strrev_from
strrev fuel s = elim (strlen fuel s) [ none ↦ none | some n ↦ some (strrev_from n s 0 (n - 1)) ]

-- The digits from the lowest one on, and their count; a 32-bit number has at most 32.
pub itoa_from : ℕ → ℕ → ℕ → (ℕ → ℕ) → ℕ → (ℕ → ℕ) × ℕ
itoa_from zero newval radix newbuf i = (newbuf, i)
itoa_from (suc rounds) newval radix newbuf i =
    let rest =
      itoa_from rounds (newval / radix) radix (update newbuf i (lookup (newval % radix))) (i + 1) in
    if newval == 0 then (newbuf, i) else rest

-- `none` where a digit is read from behind the table.
unfoldable pub itoa : ℕ → (ℕ → ℕ) → ℕ → Option (ℕ → ℕ)
unfolding itoa_from
itoa value buf radix =
    let (digits, n) = itoa_from 32 value radix buf 0 in
    if value == 0
    then some (update (update buf 0 48) 1 0)
    else if in_table 32 value radix
    then strrev 33 (update digits n 0)
    else none
