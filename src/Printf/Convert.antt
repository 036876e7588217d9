-- ===== src/Printf/Convert.antt =====
-- What the conversions of `printf` of student-distrib/lib.c show of their arguments.
use linux_base_operating_sys.Prelude.{
  ℕ, zero, suc, ◌+◌, ◌-◌, ◌^◌, ◌%◌, ◌≤◌, ◌<◌, ◌≡◌, Bool, true, false, ltb, ◌&&◌, update, for_range,
  if◌then◌else◌, prefix, some, List, [], ◌∷◌, ◌++◌, replicate, prefix-add, prefix-const,
  prefix-cong, length-prefix, refl, ap, ◌∙◌, arith, Bool-cases, inl, inr, ltb→lt, lt→ltb, ltb-false,
  leb,
}
use linux_base_operating_sys.Strings.{is_nul}
use linux_base_operating_sys.Strings.Numerals.{Numeral, itoa-Numeral, strlen_unique, lookup_nonzero}
use linux_base_operating_sys.Screen.{Screen, puts}
use linux_base_operating_sys.Printf.{
  Arg, puts_buf, behind, written_behind, pad_zeros, print_number, print_padded, print_signed,
  convert,
}
use linux_base_operating_sys.Printf.Meaning.{
  IsNumeral, IsPadded, ArgText, Fits, hex, padded, unsigned, signed, negative, character,
  characters, x_word, u_word, d_word, c_word, s_string,
}

-- A buffer whose string ends at `n` is shown up to there.
puts_buf_lem :
    (size t n : ℕ) (buf : ℕ → ℕ) (s : Screen)
    → n < size
    → ((j : ℕ) → j < n → is_nul (buf j) ≡ false)
    → buf n ≡ 0
    → puts_buf size t buf s ≡ some (puts t s (prefix n buf))
unfolding puts_buf
puts_buf_lem size t n buf s inside visible nul =
    let len = strlen_unique size n buf inside visible nul in rw (len, puts_buf) refl

pub Numeral-visible :
    {radix value n : ℕ} {b : ℕ → ℕ}
    → Numeral radix value b n
    → (j : ℕ) → j < n
    → is_nul (b j) ≡ false
Numeral-visible {b = b} d j lt =
    let (v, low, e) = d.digits j lt in lookup_nonzero (b j) v (omega (arith, low, d.table)) e

module _ (garbage : ℕ → ℕ) (t : ℕ) where
  print_number-Shown :
      (size radix m value : ℕ) (s : Screen)
      → 2 ≤ radix
      → radix ≤ 36
      → value < 2 ^ 32
      → 0 < m
      → value < radix ^ m
      → m < size
      → (text : List ℕ) × (print_number garbage t size radix value s ≡ some (puts t s text))
        × IsNumeral radix value text
  unfolding print_number
  print_number-Shown size radix m value s two top below some_digit fits room =
      let (b, n, e, d) = itoa-Numeral value radix garbage below two top in
      (
        prefix n b,
        rw (e, print_number)
            (puts_buf_lem size t n b s (omega (arith, d.short m some_digit fits))
              (Numeral-visible d) d.ended),
        record { buf = b; count = n; shown = d; same = refl },
      )

  minus : (ℕ → ℕ) → ℕ → ℕ
  minus b = written_behind 1 (update garbage 0 45) b

  minus-suc : (b : ℕ → ℕ) (j : ℕ) → minus b (suc j) ≡ b j
  unfolding minus
  minus-suc b j =
      let back : suc j - 1 ≡ j = omega arith in rw (ltb-false (suc j) 1 (omega arith)) (ap b back)

  minus-visible :
      {radix value n : ℕ} {b : ℕ → ℕ}
      → Numeral radix value b n
      → (j : ℕ) → j < suc n
      → is_nul (minus b j) ≡ false
  unfolding minus
  minus-visible {b = b} d zero lt = refl
  minus-visible {b = b} d (suc j) lt =
      ap is_nul (minus-suc b j) ∙ Numeral-visible d j (omega (arith, lt))

  print_minus :
      (value n : ℕ) (b : ℕ → ℕ) (s : Screen)
      → n ≤ 10
      → Numeral 10 value b n
      → puts_buf 36 t (written_behind 1 (update garbage 0 45) b) s
        ≡ some (puts t s (45 ∷ prefix n b))
  unfolding minus
  print_minus value n b s small d =
      puts_buf_lem 36 t (suc n) (minus b) s (omega (arith, small)) (minus-visible d)
        (minus-suc b n ∙ d.ended)
      ∙ ap (λ l. some (puts t s (45 ∷ l)))
          (prefix-cong n (λ j. minus b (suc j)) b (λ j lt. minus-suc b j))

  print_signed-negative :
      (value : ℕ) (s : Screen)
      → 2 ^ 31 ≤ value
      → value < 2 ^ 32
      → (text : List ℕ) × (print_signed garbage t value s ≡ some (puts t s (45 ∷ text)))
        × IsNumeral 10 (2 ^ 32 - value) text
  unfolding print_signed
  print_signed-negative value s big below =
      let (b, n, e, d) =
        itoa-Numeral (2 ^ 32 - value) 10 (behind 1 garbage) (omega arith) (omega arith)
          (omega arith) in
      (
        prefix n b,
        rw (ltb-false value (2 ^ 31) big, e, print_signed)
            (print_minus (2 ^ 32 - value) n b s (d.short 10 (omega arith) (omega arith)) d),
        record { buf = b; count = n; shown = d; same = refl },
      )

  print_signed-positive :
      (value : ℕ) (s : Screen)
      → value < 2 ^ 31
      → (text : List ℕ) × (print_signed garbage t value s ≡ some (puts t s text))
        × IsNumeral 10 value text
  unfolding print_signed
  print_signed-positive value s low =
      let (text, e, d) =
        print_number-Shown 36 10 10 value s (omega arith) (omega arith) (omega (arith, low))
          (omega arith) (omega (arith, low)) (omega arith) in
      (text, rw (lt→ltb value (2 ^ 31) low, print_signed) e, d)

  -- The zeros written before the digits.
  zeros_lem :
      (m start j : ℕ) (buf : ℕ → ℕ)
      → for_range m (λ i b. update b (start + i) 48) buf j
        ≡ (if leb start j && ltb j (start + m) then 48 else buf j)
  unfolding for_range
  zeros_lem zero start j buf = ground arith
  zeros_lem (suc m) start j buf = let rest = zeros_lem m start j buf in ground (arith, rest)

  -- What lies behind &conv_buf[start].
  from_start : ℕ → (ℕ → ℕ) → ℕ → ℕ
  from_start start b = behind start (pad_zeros start (written_behind 8 garbage b))

  zeros_at : (start j : ℕ) (b : ℕ → ℕ) → start ≤ 8 → j < 8 - start → from_start start b j ≡ 48
  unfolding from_start
  zeros_at start j b le lt =
      zeros_lem (8 - start) start (start + j) (written_behind 8 garbage b) ∙ ground (arith, le, lt)

  same_both : (c : Bool) (x : ℕ) → (if c && false then 48 else x) ≡ x
  same_both true x = refl
  same_both false x = refl

  digits_at : (start j : ℕ) (b : ℕ → ℕ) → start ≤ 8 → from_start start b (8 - start + j) ≡ b j
  unfolding from_start
  digits_at start j b le =
      zeros_lem (8 - start) start (start + (8 - start + j)) (written_behind 8 garbage b)
      ∙ (let at : start + (8 - start + j) ≡ 8 + j = omega (arith, le) in
          let back : 8 + j - 8 ≡ j = omega arith in
          rw
            (
              at,
              ltb-false (8 + j) (start + (8 - start)) (omega (arith, le)),
              ltb-false (8 + j) 8 (omega arith),
              back,
            )
            (same_both (leb start (8 + j)) (b j)))

  padded-visible :
      {radix value n : ℕ} {b : ℕ → ℕ}
      → n ≤ 8
      → Numeral radix value b n
      → (j : ℕ) → j < 8
      → is_nul (from_start n b j) ≡ false
  padded-visible {n = n} {b = b} small d j lt = elim (Bool-cases (ltb j (8 - n))) [
    | inl e ↦ ap is_nul (zeros_at n j b small (ltb→lt j (8 - n) e))
    | inr e ↦
        let later : 8 - n ≤ j = ground (arith, e) in
        let at : j ≡ 8 - n + (j - (8 - n)) = omega (arith, later) in
        ap is_nul (ap (from_start n b) at ∙ digits_at n (j - (8 - n)) b small)
        ∙ Numeral-visible d (j - (8 - n)) (omega (arith, lt, later, small))
  ]

  padded_end : (n : ℕ) (b : ℕ → ℕ) → n ≤ 8 → b n ≡ 0 → from_start n b 8 ≡ 0
  padded_end n b small ended =
      let at : 8 ≡ 8 - n + n = omega (arith, small) in
      ap (from_start n b) at ∙ digits_at n n b small ∙ ended

  padded_text :
      (n : ℕ) (b : ℕ → ℕ) → n ≤ 8 → prefix 8 (from_start n b) ≡ replicate (8 - n) 48 ++ prefix n b
  padded_text n b small =
      let width : 8 ≡ (8 - n) + n = omega (arith, small) in
      ap (λ k. prefix k (from_start n b)) width
      ∙ prefix-add (8 - n) n (from_start n b) b (λ j lt. digits_at n j b small)
      ∙ ap (λ l. l ++ prefix n b)
          (prefix-const (8 - n) (from_start n b) 48 (λ j lt. zeros_at n j b small lt))

  print_padded-Shown :
      (value : ℕ) (s : Screen)
      → value < 2 ^ 32
      → (text : List ℕ) × (print_padded garbage t value s ≡ some (puts t s text))
        × IsPadded value text
  unfolding print_padded from_start
  print_padded-Shown value s below =
      let (b, n, e, d) =
        itoa-Numeral value 16 (behind 8 garbage) below (omega arith) (omega arith) in
      let small : n ≤ 8 = d.short 8 (omega arith) (omega (arith, below)) in
      let len = strlen_unique 56 n b (omega (arith, small)) (Numeral-visible d) d.ended in
      (
        prefix 8 (from_start n b),
        rw (e, len, print_padded)
            (puts_buf_lem (64 - n) t 8 (from_start n b) s (omega (arith, small))
              (padded-visible small d) (padded_end n b small d.ended)),
        record {
          zeros = 8 - n;
          digits = prefix n b;
          number = record { buf = b; count = n; shown = d; same = refl };
          width = rw (length-prefix n b) (omega (arith, small));
          both = padded_text n b small;
        },
      )

  -- Every conversion of an argument of its kind shows its text.
  pub convert-ArgText :
      (a : Bool) (c : ℕ) (arg : Arg) (s : Screen)
      → Fits c arg
      → (text : List ℕ) × (convert garbage t a c arg s ≡ some (puts t s text))
        × ArgText a c arg text
  unfolding convert puts
  convert-ArgText false _ _ s (x_word {v} lt) =
      let (text, e, d) =
        print_number-Shown 64 16 8 v s (omega arith) (omega arith) lt (omega arith)
          (omega (arith, lt)) (omega arith) in
      (text, e, hex d)
  convert-ArgText true _ _ s (x_word {v} lt) =
      let (text, e, d) = print_padded-Shown v s lt in (text, e, padded d)
  convert-ArgText a _ _ s (u_word {v} lt) =
      let (text, e, d) =
        print_number-Shown 36 10 10 v s (omega arith) (omega arith) lt (omega arith)
          (omega (arith, lt)) (omega arith) in
      (text, e, unsigned d)
  convert-ArgText a _ _ s (d_word {v} lt) = elim (Bool-cases (ltb v (2 ^ 31))) [
    | inl e ↦
        let low = ltb→lt v (2 ^ 31) e in
        let (text, shown, d) = print_signed-positive v s low in (text, shown, signed low d)
    | inr e ↦
        let (text, shown, d) = print_signed-negative v s (ground (arith, e)) lt in
        (45 ∷ text, shown, negative (ground (arith, e)) d)
  ]
  convert-ArgText a _ _ s (c_word {v}) = (v % 256 ∷ [], refl, character)
  convert-ArgText a _ _ s (s_string {text}) = (text, refl, characters)
