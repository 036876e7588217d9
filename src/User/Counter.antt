-- ===== src/User/Counter.antt =====
-- `main` of syscalls/ece391counter.c, ece391hello.c and ece391testprint.c.
pub mod Tests
use linux_base_operating_sys.Prelude.{
  ℕ, zero, suc, ◌+◌, ◌-◌, ◌≤◌, ◌<◌, ◌^◌, ◌==◌, ◌≡◌, Bool, true, false, ◌&&◌, ◌||◌, ltb,
  if◌then◌else◌, update, Option, some, none, List, [], ◌∷◌, ◌++◌, prefix, refl, sym, ap, ◌∙◌, arith,
  subst, Option-cases, inl, inr, ==_iff,
}
use mathlib.Core.List.{append-nil, append_assoc}
use linux_base_operating_sys.Prelude.Int.{ℤ, pos, is_minus_one, uint32}
use linux_base_operating_sys.Strings.{strlen}
use linux_base_operating_sys.Strings.Numerals.{Numeral, itoa-Numeral}
use linux_base_operating_sys.Kernel.{codes}
use linux_base_operating_sys.User.{Sys, stdin, stdout, literal}
use linux_base_operating_sys.User.Support.{fdputs_text, ece391_fdputs, ece391_strlen, ece391_itoa}

-- The number of rounds for a choice.
pub choice : ℕ → (ℕ → ℕ) → Option ℕ
choice len buf =
    if ltb 1 len || len == 1 && (ltb (buf 0) b'0' || ltb b'2' (buf 0))
    then none
    else some (
        if buf 0 == b'0'
        then 100
        else if buf 0 == b'1'
        then 10000
        else if buf 0 == b'2'
        then 100000
        else 0)

module _ {W : Type 0} (sys : Sys W) where
  -- for(i = from; i < max; i++), with `n` rounds left.
  pub count_from : ℕ → ℕ → (ℕ → ℕ) → W → Option W
  count_from zero i buf w = some w
  count_from (suc n) i buf w = elim (ece391_itoa (i + 1) buf 10) [
    | none ↦ none
    | some buf' ↦ elim (ece391_fdputs sys 1024 stdout buf' w) [
      | none ↦ none
      | some w1 ↦ count_from n (i + 1) buf' (fdputs_text sys stdout (codes "\n") w1)
    ]
  ]

  pub got_number : ℤ × (ℕ → ℕ) × W → Option (ℕ × W)
  unfolding count_from choice
  got_number (cnt, buf, w) = elim (is_minus_one cnt) [
    | true ↦ some (3, fdputs_text sys stdout (codes "Can't read the number from keyboard.\n") w)
    | false ↦
        let line : ℕ → ℕ = update buf (uint32 cnt) 0 in
        elim (ece391_strlen 1024 line) [
          | none ↦ none
          | some len ↦ elim (choice len line) [
            | none ↦ some (0, fdputs_text sys stdout (codes "Wrong Choice!\n") w)
            | some max ↦ elim (count_from max 0 line w) [ none ↦ none | some w1 ↦ some (0, w1) ]
          ]
        ]
  ]

  pub counter : (ℕ → ℕ) → W → Option (ℕ × W)
  unfolding got_number
  counter buf w = got_number (
      sys.read stdin buf 1023 (
        fdputs_text sys stdout (codes "Enter the Test Number: (0): 100, (1): 10000, (2): 100000\n")
          w))

  pub got_user : ℤ × (ℕ → ℕ) × W → Option (ℕ × W)
  got_user (cnt, buf, w) = elim (is_minus_one cnt) [
    | true ↦ some (3, fdputs_text sys stdout (codes "Can't read name from keyboard.\n") w)
    | false ↦
        elim (ece391_fdputs sys 1024 stdout (update buf (uint32 cnt) 0)
          (fdputs_text sys stdout (codes "Hello, ") w)) [ none ↦ none | some w1 ↦ some (0, w1) ]
  ]

  pub hello : (ℕ → ℕ) → W → Option (ℕ × W)
  unfolding got_user
  hello buf w =
      got_user (sys.read stdin buf 1023 (fdputs_text sys stdout (codes "Hi, what's your name? ") w))

  pub testprint : W → ℕ × W
  testprint w =
      (0, fdputs_text sys stdout (codes "Hello, if this ran, the program was correct. Yay!\n") w)
