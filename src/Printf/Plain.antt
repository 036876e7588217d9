-- ===== src/Printf/Plain.antt =====
-- Messages without conversions, which most calls of `printf` of student-distrib/lib.c print.
use linux_base_operating_sys.Prelude.{
  ℕ, ◌≡◌, ◌≢◌, Bool, true, ◌!=◌, ◌&&◌, length, some, List, [], ◌∷◌, ◌++◌, refl, sym, ap, ◌∙◌, arith,
  Bool-cases, inl, inr, ==-false,
}
use linux_base_operating_sys.Screen.{Screen, putc, puts}
use linux_base_operating_sys.Printf.{Arg, plain, format_step, printf_from, printf}
use linux_base_operating_sys.Printf.Text.{Formed, char}

-- Whether no `%` is among the characters.
abbrev pub no_percent : List ℕ → Bool
no_percent [] = true
no_percent (c ∷ cs) = c != 37 && no_percent cs

first_other : (c : ℕ) (cs : List ℕ) → no_percent (c ∷ cs) ≡ true → (c ≢ 37) × (no_percent cs ≡ true)
first_other c cs h = elim (Bool-cases (c != 37)) [
  | inl e ↦ (ground (arith, e), sym (ap (λ b. b && no_percent cs) e) ∙ h)
  | inr e ↦ absurd (ground (arith, sym (ap (λ b. b && no_percent cs) e) ∙ h))
]

-- Such characters may come before any format.
pub no_percent-Formed :
    (cs buf : List ℕ) (esp : List Arg)
    → no_percent cs ≡ true
    → Formed plain buf esp
    → Formed plain (cs ++ buf) esp
no_percent-Formed [] buf esp h rest = rest
no_percent-Formed (c ∷ cs) buf esp h rest =
    let (other, more) = first_other c cs h in char other (no_percent-Formed cs buf esp more rest)

printf_from-plain :
    (garbage : ℕ → ℕ) (t : ℕ) (cs : List ℕ) (esp : List Arg) (s : Screen)
    → no_percent cs ≡ true
    → printf_from garbage t cs plain esp s ≡ some (puts t s cs)
unfolding printf_from format_step puts
printf_from-plain garbage t [] esp s h = refl
printf_from-plain garbage t (c ∷ cs) esp s h =
    let (other, more) = first_other c cs h in
    rw (==-false c 37 other, printf_from) (printf_from-plain garbage t cs esp (putc t s c) more)

-- `printf` of a message without `%` is `puts` of it, whatever the arguments and the stack are.
pub printf-plain :
    (garbage : ℕ → ℕ) (t : ℕ) (cs : List ℕ) (esp : List Arg) (s : Screen)
    → no_percent cs ≡ true
    → printf garbage t cs esp s ≡ some (length cs, puts t s cs)
unfolding printf
printf-plain garbage t cs esp s h = rw (printf_from-plain garbage t cs esp s h, printf) refl
