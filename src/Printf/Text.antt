-- ===== src/Printf/Text.antt =====
-- What `printf` of student-distrib/lib.c shows for a format and its arguments.
use linux_base_operating_sys.Prelude.{
  ℕ, ◌≡◌, ◌≢◌, Bool, true, false, length, some, List, [], ◌∷◌, ◌++◌, refl, sym, ap, ◌∙◌, ==-false,
}
use linux_base_operating_sys.Screen.{Screen, putc, puts}
use linux_base_operating_sys.Printf.{
  Arg, Mode, plain, conversion, takes_arg, convert, take_arg, format_step, printf_from, printf,
}
use linux_base_operating_sys.Printf.Convert.{convert-ArgText}
use linux_base_operating_sys.Printf.Meaning.{
  ArgText, Fits, x_word, u_word, d_word, c_word, s_string,
}

-- A format, read from a mode on, that ends outside a conversion and whose conversions find arguments
-- of their kinds.
pub data Formed : Mode → List ℕ → List Arg → Type 0 where
  ended : {esp : List Arg} → Formed plain [] esp
  char :
      {c : ℕ} {buf : List ℕ} {esp : List Arg}
      → c ≢ 37
      → Formed plain buf esp
      → Formed plain (c ∷ buf) esp
  percent :
      {buf : List ℕ} {esp : List Arg}
      → Formed (conversion false) buf esp
      → Formed plain (37 ∷ buf) esp
  literal :
      {a : Bool} {buf : List ℕ} {esp : List Arg}
      → Formed plain buf esp
      → Formed (conversion a) (37 ∷ buf) esp
  alternate :
      {a : Bool} {buf : List ℕ} {esp : List Arg}
      → Formed (conversion true) buf esp
      → Formed (conversion a) (35 ∷ buf) esp
  arg :
      {a : Bool} {c : ℕ} {x : Arg} {buf : List ℕ} {esp : List Arg}
      → Fits c x
      → Formed plain buf esp
      → Formed (conversion a) (c ∷ buf) (x ∷ esp)
  unknown :
      {a : Bool} {c : ℕ} {buf : List ℕ} {esp : List Arg}
      → c ≢ 37
      → c ≢ 35
      → takes_arg c ≡ false
      → Formed plain buf esp
      → Formed (conversion a) (c ∷ buf) esp

-- The text that such a format stands for.
pub data Shows : Mode → List ℕ → List Arg → List ℕ → Type 0 where
  ended : {esp : List Arg} → Shows plain [] esp []
  char :
      {c : ℕ} {buf : List ℕ} {esp : List Arg} {text : List ℕ}
      → c ≢ 37
      → Shows plain buf esp text
      → Shows plain (c ∷ buf) esp (c ∷ text)
  percent :
      {buf : List ℕ} {esp : List Arg} {text : List ℕ}
      → Shows (conversion false) buf esp text
      → Shows plain (37 ∷ buf) esp text
  literal :
      {a : Bool} {buf : List ℕ} {esp : List Arg} {text : List ℕ}
      → Shows plain buf esp text
      → Shows (conversion a) (37 ∷ buf) esp (37 ∷ text)
  alternate :
      {a : Bool} {buf : List ℕ} {esp : List Arg} {text : List ℕ}
      → Shows (conversion true) buf esp text
      → Shows (conversion a) (35 ∷ buf) esp text
  arg :
      {a : Bool} {c : ℕ} {x : Arg} {buf : List ℕ} {esp : List Arg} {all text : List ℕ}
      (shown : List ℕ)
      → ArgText a c x shown
      → all ≡ shown ++ text
      → Shows plain buf esp text
      → Shows (conversion a) (c ∷ buf) (x ∷ esp) all
  unknown :
      {a : Bool} {c : ℕ} {buf : List ℕ} {esp : List Arg} {text : List ℕ}
      → c ≢ 37
      → c ≢ 35
      → takes_arg c ≡ false
      → Shows plain buf esp text
      → Shows (conversion a) (c ∷ buf) esp text

pub puts-append :
    (t : ℕ) (s : Screen) (xs ys : List ℕ) → puts t s (xs ++ ys) ≡ puts t (puts t s xs) ys
unfolding puts
puts-append t s [] ys = refl
puts-append t s (x ∷ xs) ys = puts-append t (putc t s x) xs ys

module _ (garbage : ℕ → ℕ) (t : ℕ) where
  -- The loop shows what is left of the text.
  Prints : Mode → List ℕ → List Arg → Screen → Type 0
  Prints mode buf esp s =
      (text : List ℕ) × (printf_from garbage t buf mode esp s ≡ some (puts t s text))
      × Shows mode buf esp text

  step_arg :
      (a : Bool) (c : ℕ) (x : Arg) (esp : List Arg) (s s' : Screen)
      → Fits c x
      → convert garbage t a c x s ≡ some s'
      → format_step garbage t (conversion a) c (x ∷ esp) s ≡ some (plain, esp, s')
  unfolding format_step take_arg
  step_arg a _ _ esp s s' (x_word lt) e = rw e refl
  step_arg a _ _ esp s s' (u_word lt) e = rw e refl
  step_arg a _ _ esp s s' (d_word lt) e = rw e refl
  step_arg a _ _ esp s s' c_word e = rw e refl
  step_arg a _ _ esp s s' s_string e = rw e refl

  printf_from-Prints :
      (mode : Mode) (buf : List ℕ) (esp : List Arg) (s : Screen)
      → Formed mode buf esp
      → Prints mode buf esp s
  unfolding Prints printf_from format_step puts
  printf_from-Prints _ _ esp s ended = ([], refl, ended)
  printf_from-Prints _ _ esp s (char {c} {buf} other rest) =
      let (text, e, d) = printf_from-Prints plain buf esp (putc t s c) rest in
      (c ∷ text, rw (==-false c 37 other, printf_from) e, char other d)
  printf_from-Prints _ _ esp s (percent {buf} rest) =
      let (text, e, d) = printf_from-Prints (conversion false) buf esp s rest in
      (text, e, percent d)
  printf_from-Prints _ _ esp s (literal {a} {buf} rest) =
      let (text, e, d) = printf_from-Prints plain buf esp (putc t s 37) rest in
      (37 ∷ text, e, literal d)
  printf_from-Prints _ _ esp s (alternate {a} {buf} rest) =
      let (text, e, d) = printf_from-Prints (conversion true) buf esp s rest in
      (text, e, alternate d)
  printf_from-Prints _ _ _ s (arg {a} {c} {x} {buf} {esp} fits rest) =
      let (shown, e1, d1) = convert-ArgText garbage t a c x s fits in
      let (text, e, d) = printf_from-Prints plain buf esp (puts t s shown) rest in
      (
        shown ++ text,
        rw (step_arg a c x esp s (puts t s shown) fits e1, printf_from)
            (e ∙ ap some (sym (puts-append t s shown text))),
        arg shown d1 refl d,
      )
  printf_from-Prints _ _ esp s (unknown {a} {c} {buf} n1 n2 other rest) =
      let (text, e, d) = printf_from-Prints plain buf esp s rest in
      (text, rw (==-false c 37 n1, ==-false c 35 n2, other, printf_from) e, unknown n1 n2 other d)

  -- For a format that ends outside its conversions, with arguments of the kinds of the conversions
  -- and words below 2 ^ 32, `printf` returns the length of the format and puts a text on the screen
  -- that is what the format stands for: numbers by their numerals, in hexadecimal or decimal, with
  -- `%#x` filled up by zeros to eight digits, `%d` with a minus sign where bit 31 is set, `%c` as
  -- a byte, strings as they are, unknown conversions not at all.
  pub printf-Shows :
      (format : List ℕ) (esp : List Arg) (s : Screen)
      → Formed plain format esp
      → (text : List ℕ) × (printf garbage t format esp s ≡ some (length format, puts t s text))
        × Shows plain format esp text
  unfolding printf Prints
  printf-Shows format esp s formed =
      let (text, e, d) = printf_from-Prints plain format esp s formed in
      (text, rw (e, printf) refl, d)
