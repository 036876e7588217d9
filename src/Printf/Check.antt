-- ===== src/Printf/Check.antt =====
-- A test whether a format fits its arguments, for the formats of student-distrib.
use linux_base_operating_sys.Prelude.{
  ℕ, ◌^◌, ◌<◌, ◌≡◌, Bool, true, false, ◌==◌, if◌then◌else◌, Option, some, none, List, [], ◌∷◌, sym,
  arith, inl, inr, ◌⊎◌, either, ==_iff, subst,
}
use linux_base_operating_sys.Printf.{Arg, word, string, Mode, plain, conversion, takes_arg}
use linux_base_operating_sys.Printf.Meaning.{Fits, x_word, u_word, d_word, c_word, s_string}
use linux_base_operating_sys.Printf.Text.{
  Formed, ended, char, percent, literal, alternate, arg, unknown,
}

next_arg : ℕ → List Arg → Option (Mode × List Arg)
next_arg c [] = none
next_arg c (word v ∷ esp) = if c == 115 then none else some (plain, esp)
next_arg c (string text ∷ esp) = if c == 115 then some (plain, esp) else none

next_mode : Mode → ℕ → List Arg → Option (Mode × List Arg)
unfolding next_arg
next_mode plain c esp = some (if c == 37 then conversion false else plain, esp)
next_mode (conversion a) c esp =
    if c == 37
    then some (plain, esp)
    else if c == 35
    then some (conversion true, esp)
    else if takes_arg c
    then next_arg c esp
    else some (plain, esp)

unfoldable pub formed : List ℕ → Mode → List Arg → Bool
unfolding next_mode
formed [] plain esp = true
formed [] (conversion a) esp = false
formed (c ∷ buf) mode esp = elim (next_mode mode c esp) [
  | none ↦ false
  | some (mode', esp') ↦ formed buf mode' esp'
]

-- The words among the arguments have 32 bits.
abbrev pub Words : List Arg → Type 0
Words [] = Unit
Words (word v ∷ esp) = (v < 2 ^ 32) × Words esp
Words (string text ∷ esp) = Words esp

is_false : {A : Type 0} → false ≡ true → A
is_false e = absurd (ground (arith, e))

-- What a step of the test leaves to be shown.
Leads : Mode → ℕ → List ℕ → List Arg → Option (Mode × List Arg) → Type 0
Leads mode c buf esp none = Unit
Leads mode c buf esp (some (mode', esp')) =
    Words esp → Words esp' × (Formed mode' buf esp' → Formed mode (c ∷ buf) esp)

string-Fits : (c : ℕ) (text : List ℕ) → (c == 115) ≡ true → Fits c (string text)
string-Fits c text e = subst (λ d. Fits d (string text)) (sym ((==_iff c 115).0 e)) s_string

word-Fits : (c v : ℕ) → takes_arg c ≡ true → (c == 115) ≡ false → v < 2 ^ 32 → Fits c (word v)
word-Fits c v takes other lt =
    let kind : (c ≡ 120) ⊎ ((c ≡ 117) ⊎ ((c ≡ 100) ⊎ (c ≡ 99))) = ground (arith, takes, other) in
    elim kind [
      | inl e ↦ subst (λ d. Fits d (word v)) (sym e) (x_word lt)
      | inr (inl e) ↦ subst (λ d. Fits d (word v)) (sym e) (u_word lt)
      | inr (inr (inl e)) ↦ subst (λ d. Fits d (word v)) (sym e) (d_word lt)
      | inr (inr (inr e)) ↦ subst (λ d. Fits d (word v)) (sym e) c_word
    ]

next_arg-Leads :
    (a : Bool) (c : ℕ) (buf : List ℕ) (esp : List Arg)
    → takes_arg c ≡ true
    → Leads (conversion a) c buf esp (next_arg c esp)
unfolding Leads next_arg
next_arg-Leads a c buf [] takes = tt
next_arg-Leads a c buf (word v ∷ esp) takes =
    either (Leads (conversion a) c buf (word v ∷ esp)) (c == 115) (λ e. tt)
      (λ e w. (w.1, λ rest. arg (word-Fits c v takes e w.0) rest))
next_arg-Leads a c buf (string text ∷ esp) takes =
    either (Leads (conversion a) c buf (string text ∷ esp)) (c == 115)
      (λ e w. (w, λ rest. arg (string-Fits c text e) rest)) (λ e. tt)

percent_at :
    (c : ℕ) (buf : List ℕ) (esp : List Arg)
    → (c == 37) ≡ true
    → Formed (conversion false) buf esp
    → Formed plain (c ∷ buf) esp
percent_at c buf esp e rest =
    subst (λ d. Formed plain (d ∷ buf) esp) (sym ((==_iff c 37).0 e)) (percent rest)

next_mode-Leads :
    (mode : Mode) (c : ℕ) (buf : List ℕ) (esp : List Arg)
    → Leads mode c buf esp (next_mode mode c esp)
unfolding Leads next_mode
next_mode-Leads plain c buf esp = λ w. (
  w,
  either {A = Mode} (λ m. Formed m buf esp → Formed plain (c ∷ buf) esp) (c == 37)
      (λ e. percent_at c buf esp e) (λ e rest. char (ground (arith, e)) rest),
)
next_mode-Leads (conversion a) c buf esp =
    either (Leads (conversion a) c buf esp) (c == 37)
      (λ e w. (
        w,
        λ rest.
            subst (λ d. Formed (conversion a) (d ∷ buf) esp) (sym ((==_iff c 37).0 e))
              (literal rest),
      ))
      (λ n.
        either (Leads (conversion a) c buf esp) (c == 35)
          (λ e w. (
            w,
            λ rest.
                subst (λ d. Formed (conversion a) (d ∷ buf) esp) (sym ((==_iff c 35).0 e))
                  (alternate rest),
          ))
          (λ m.
            either (Leads (conversion a) c buf esp) (takes_arg c)
              (λ e. next_arg-Leads a c buf esp e)
              (λ e w. (w, λ rest. unknown (ground (arith, n)) (ground (arith, m)) e rest))))

follow :
    (mode : Mode) (c : ℕ) (buf : List ℕ) (esp : List Arg) (o : Option (Mode × List Arg))
    → Leads mode c buf esp o
    → Words esp
    → elim o [ none ↦ false | some (mode', esp') ↦ formed buf mode' esp' ] ≡ true
    → ((mode' : Mode) (esp' : List Arg)
        → formed buf mode' esp' ≡ true
        → Words esp'
        → Formed mode' buf esp')
    → Formed mode (c ∷ buf) esp
unfolding Leads
follow mode c buf esp none leads w h rest = is_false h
follow mode c buf esp (some (mode', esp')) leads w h rest =
    let (w', wrap) = leads w in wrap (rest mode' esp' h w')

-- Where the test succeeds and the words have 32 bits, the format fits.
pub formed-Formed :
    (buf : List ℕ) (mode : Mode) (esp : List Arg)
    → formed buf mode esp ≡ true
    → Words esp
    → Formed mode buf esp
unfolding formed
formed-Formed [] plain esp h w = ended
formed-Formed [] (conversion a) esp h w = is_false h
formed-Formed (c ∷ buf) mode esp h w =
    follow mode c buf esp (next_mode mode c esp) (next_mode-Leads mode c buf esp) w h
      (λ mode' esp' h' w'. formed-Formed buf mode' esp' h' w')
