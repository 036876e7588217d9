-- ===== src/Printf.antt =====
-- `printf` of student-distrib/lib.c with its conversions. The format is read a character at a time,
-- and so the two nested switch statements are two modes.
pub mod Meaning
pub mod Convert
pub mod Text
pub mod Plain
pub mod Check
mod Tests
use linux_base_operating_sys.Prelude.{
  ℕ, zero, suc, ◌+◌, ◌-◌, ◌^◌, ◌%◌, Bool, true, false, ltb, ◌==◌, ◌||◌, update, for_range,
  if◌then◌else◌, prefix, length, Option, some, none, List, [], ◌∷◌,
}
use linux_base_operating_sys.Strings.{strlen, itoa}
use linux_base_operating_sys.Screen.{Screen, putc, puts}

-- An argument on the stack: 32 bits, or a pointer to a string, given by its characters before the
-- NUL.
pub data Arg : Type 0 where
  word : ℕ → Arg
  string : List ℕ → Arg

-- Outside a conversion, or behind its `%` with the value of `alternate`.
pub data Mode : Type 0 where
  plain : Mode
  conversion : Bool → Mode

-- `puts` of a string in a buffer of `size` bytes.
pub puts_buf : ℕ → ℕ → (ℕ → ℕ) → Screen → Option Screen
puts_buf size t buf s = elim (strlen size buf) [
  | none ↦ none
  | some n ↦ some (puts t s (prefix n buf))
]

-- &buf[k]
abbrev pub behind : ℕ → (ℕ → ℕ) → ℕ → ℕ
behind k buf j = buf (k + j)

-- The bytes of a buffer after `itoa` has written to &buf[k].
abbrev pub written_behind : ℕ → (ℕ → ℕ) → (ℕ → ℕ) → ℕ → ℕ
written_behind k buf s j = if ltb j k then buf j else s (j - k)

-- while(i < 8) conv_buf[i] = '0', from i = start on
abbrev pub pad_zeros : ℕ → (ℕ → ℕ) → ℕ → ℕ
pad_zeros start conv_buf = for_range (8 - start) (λ i b. update b (start + i) 48) conv_buf

-- Whether a conversion takes an argument: x, u, d, c and s.
abbrev pub takes_arg : ℕ → Bool
takes_arg c = c == 120 || c == 117 || c == 100 || c == 99 || c == 115

-- The buffers on the stack hold what was there before: `garbage`.
module _ (garbage : ℕ → ℕ) (t : ℕ) where
  -- %x, %u and the numbers of %d that are not negative.
  pub print_number : ℕ → ℕ → ℕ → Screen → Option Screen
  print_number size radix value s = elim (itoa value garbage radix) [
    | none ↦ none
    | some conv_buf ↦ puts_buf size t conv_buf s
  ]

  -- %#x: zeros from the index `strlen` up to 7, before the digits from index 8 on.
  pub print_padded : ℕ → Screen → Option Screen
  print_padded value s = elim (itoa value (behind 8 garbage) 16) [
    | none ↦ none
    | some digits ↦ elim (strlen 56 digits) [
      | none ↦ none
      | some start ↦
          puts_buf (64 - start) t (behind start (pad_zeros start (written_behind 8 garbage digits)))
            s
    ]
  ]

  -- %d
  pub print_signed : ℕ → Screen → Option Screen
  print_signed value s =
      let negative : Option Screen = elim (itoa (2 ^ 32 - value) (behind 1 garbage) 10) [
        | none ↦ none
        | some digits ↦ puts_buf 36 t (written_behind 1 (update garbage 0 45) digits) s
      ] in
      let positive : Option Screen = print_number 36 10 value s in
      if ltb value (2 ^ 31) then positive else negative

  -- A conversion that takes an argument: x, u, d, c and s.
  pub convert : Bool → ℕ → Arg → Screen → Option Screen
  convert alternate c (word value) s =
      if c == 120
      then (if alternate then print_padded value s else print_number 64 16 value s)
      else if c == 117
      then print_number 36 10 value s
      else if c == 100
      then print_signed value s
      else if c == 99
      then some (putc t s (value % 256))
      else none
  convert alternate c (string text) s = if c == 115 then some (puts t s text) else none

  -- An argument that is missing or of another kind is undefined in C.
  pub take_arg : Bool → ℕ → List Arg → Screen → Option (List Arg × Screen)
  take_arg alternate c [] s = none
  take_arg alternate c (arg ∷ esp) s = elim (convert alternate c arg s) [
    | none ↦ none
    | some s' ↦ some (esp, s')
  ]

  -- One character of the format.
  pub format_step : Mode → ℕ → List Arg → Screen → Option (Mode × List Arg × Screen)
  format_step plain c esp s =
      if c == 37 then some (conversion false, esp, s) else some (plain, esp, putc t s c)
  format_step (conversion alternate) c esp s =
      if c == 37
      then some (plain, esp, putc t s 37)
      else if c == 35
      then some (conversion true, esp, s)
      else if takes_arg c
      then elim (take_arg alternate c esp s) [
        | none ↦ none
        | some (esp', s') ↦ some (plain, esp', s')
      ]
      else some (plain, esp, s)

  -- The loop up to the NUL; a conversion that the NUL cuts off makes the loop pass it.
  pub printf_from : List ℕ → Mode → List Arg → Screen → Option Screen
  printf_from [] plain esp s = some s
  printf_from [] (conversion alternate) esp s = none
  printf_from (c ∷ buf) mode esp s = elim (format_step mode c esp s) [
    | none ↦ none
    | some (mode', esp', s') ↦ printf_from buf mode' esp' s'
  ]

  -- `printf` with its value, the number of characters of the format.
  pub printf : List ℕ → List Arg → Screen → Option (ℕ × Screen)
  printf format esp s = elim (printf_from format plain esp s) [
    | none ↦ none
    | some s' ↦ some (length format, s')
  ]
