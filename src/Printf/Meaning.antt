-- ===== src/Printf/Meaning.antt =====
-- The text that an argument of `printf` stands for.
use linux_base_operating_sys.Prelude.{
  ℕ, ◌+◌, ◌-◌, ◌^◌, ◌%◌, ◌≤◌, ◌<◌, ◌≡◌, Bool, true, false, prefix, length, List, [], ◌∷◌, ◌++◌,
  replicate,
}
use linux_base_operating_sys.Strings.Numerals.{Numeral}
use linux_base_operating_sys.Printf.{Arg, word, string}

-- `text` is the numeral of `value`.
pub record IsNumeral (radix value : ℕ) (text : List ℕ) : Type 0 where
  pub buf : ℕ → ℕ
  pub count : ℕ
  pub shown : Numeral radix value buf count
  pub same : text ≡ prefix count buf

-- Eight characters: the numeral behind as many zeros as that takes.
pub record IsPadded (value : ℕ) (text : List ℕ) : Type 0 where
  pub zeros : ℕ
  pub digits : List ℕ
  pub number : IsNumeral 16 value digits
  pub width : zeros + length digits ≡ 8
  pub both : text ≡ replicate zeros 48 ++ digits

-- The text of an argument behind `%` or `%#` and a character.
pub data ArgText : Bool → ℕ → Arg → List ℕ → Type 0 where
  hex : {v : ℕ} {text : List ℕ} → IsNumeral 16 v text → ArgText false 120 (word v) text
  padded : {v : ℕ} {text : List ℕ} → IsPadded v text → ArgText true 120 (word v) text
  unsigned : {a : Bool} {v : ℕ} {text : List ℕ} → IsNumeral 10 v text → ArgText a 117 (word v) text
  signed :
      {a : Bool} {v : ℕ} {text : List ℕ}
      → v < 2 ^ 31
      → IsNumeral 10 v text
      → ArgText a 100 (word v) text
  negative :
      {a : Bool} {v : ℕ} {text : List ℕ}
      → 2 ^ 31 ≤ v
      → IsNumeral 10 (2 ^ 32 - v) text
      → ArgText a 100 (word v) (45 ∷ text)
  character : {a : Bool} {v : ℕ} → ArgText a 99 (word v) (v % 256 ∷ [])
  characters : {a : Bool} {text : List ℕ} → ArgText a 115 (string text) text

-- The kinds of argument that C lets a conversion have; a word has 32 bits.
pub data Fits : ℕ → Arg → Type 0 where
  x_word : {v : ℕ} → v < 2 ^ 32 → Fits 120 (word v)
  u_word : {v : ℕ} → v < 2 ^ 32 → Fits 117 (word v)
  d_word : {v : ℕ} → v < 2 ^ 32 → Fits 100 (word v)
  c_word : {v : ℕ} → Fits 99 (word v)
  s_string : {text : List ℕ} → Fits 115 (string text)
