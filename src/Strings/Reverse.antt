-- ===== src/Strings/Reverse.antt =====
-- What the swaps of `strrev` of student-distrib/lib.c make of a stretch of a string.
use linux_base_operating_sys.Prelude.{
  ℕ, zero, suc, ◌+◌, ◌-◌, ◌≤◌, ◌<◌, ◌≡◌, false, ltb, leb, ◌&&◌, if◌then◌else◌, ◌∙◌, update, arith,
  either, ltb→lt,
}
use linux_base_operating_sys.Strings.{strrev_from}

swapped : (s : ℕ → ℕ) (beg end j : ℕ) → ℕ
swapped s beg end j = update (update s end (s beg)) beg (s end) j

-- One swap, in front of the swaps of what lies between.
swap_in :
    (s : ℕ → ℕ) (beg end j : ℕ)
    → beg < end
    → (if leb (beg + 1) j && leb j (end - 1)
        then swapped s beg end (beg + 1 + (end - 1) - j)
        else swapped s beg end j)
      ≡ (if leb beg j && leb j end then s (beg + end - j) else s j)
unfolding swapped
swap_in s beg end j lt = ground arith

unswapped :
    (s : ℕ → ℕ) (beg end j : ℕ)
    → ltb beg end ≡ false
    → s j ≡ (if leb beg j && leb j end then s (beg + end - j) else s j)
unswapped s beg end j ge = ground (arith, ge)

-- What the swaps make of a stretch of a string.
pub strrev_from_lem :
    (rounds : ℕ) (s : ℕ → ℕ) (beg end j : ℕ)
    → end ≤ beg + rounds
    → strrev_from rounds s beg end j ≡ (if leb beg j && leb j end then s (beg + end - j) else s j)
unfolding strrev_from swapped
strrev_from_lem zero s beg end j enough = ground arith
strrev_from_lem (suc rounds) s beg end j enough =
    either {A = ℕ → ℕ} (λ r. r j ≡ (if leb beg j && leb j end then s (beg + end - j) else s j))
      (ltb beg end)
      (λ lt.
        strrev_from_lem rounds (swapped s beg end) (beg + 1) (end - 1) j (omega arith)
        ∙ swap_in s beg end j (ltb→lt beg end lt))
      (λ ge. unswapped s beg end j ge)
