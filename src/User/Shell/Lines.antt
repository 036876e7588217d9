-- ===== src/User/Shell/Lines.antt =====
-- Lines that are typed, and what the shell makes of one.
use linux_base_operating_sys.Prelude.{
  ℕ, zero, suc, ◌-◌, ◌≤◌, ◌<◌, ◌==◌, ◌≡◌, ◌≢◌, ◌↔◌, Bool, true, false, ◌&&◌, ◌||◌, ltb, leb,
  if◌then◌else◌, update, some, List, [], ◌∷◌, ◌++◌, refl, sym, ap, ◌∙◌, arith, ltb→lt, lt→ltb,
  ==_iff, Bool-cases, inl, inr,
}
use linux_base_operating_sys.Prelude.Int.{ℤ, pos, negsuc, is_zero}
use linux_base_operating_sys.User.{Sys, stdin, stdout, literal}
use linux_base_operating_sys.User.Support.{ece391_strcmp}
use linux_base_operating_sys.User.Compare.{Same, ece391_strcmp_iff}
use linux_base_operating_sys.User.Shell.{exit_word, line_end}

-- A line of `count` characters.
pub record Line : Type 0 where
  pub chars : ℕ → ℕ
  pub count : ℕ

abbrev pub is_exit : Line → Bool
is_exit l =
    l.count == 4 && l.chars 0 == 101 && l.chars 1 == 120 && l.chars 2 == 105 && l.chars 3 == 116

-- The line begins with the letters of "exit", which the terminal's read hands on without a line
-- feed.
abbrev pub begins_exit : Line → Bool
begins_exit l =
    leb 4 l.count && l.chars 0 == 101 && l.chars 1 == 120 && l.chars 2 == 105 && l.chars 3 == 116

-- The count that a read of the line gives.
abbrev pub delivered : Line → ℕ
delivered l = if begins_exit l then l.count else suc l.count

-- The commands among the lines up to "exit".
abbrev pub commands : List Line → List Line
commands [] = []
commands (l ∷ ls) =
    let rest = commands ls in if is_exit l then [] else if l.count == 0 then rest else l ∷ rest

abbrev pub exits : List Line → Bool
exits [] = false
exits (l ∷ ls) = is_exit l || exits ls

-- The line is the string in the buffer.
pub record Holds (buf : ℕ → ℕ) (l : Line) : Type 0 where
  pub same : (j : ℕ) → j < l.count → buf j ≡ l.chars j
  pub ended : buf l.count ≡ 0

-- What the shell relies on: a read gives the next line, which holds no NUL and no line feed, with
-- a line feed behind it unless it begins with "exit". `At w ls run` tells that in state `w` the lines `ls` are to be typed
-- and the commands `run` have been executed.
pub record Console {W : Type 0} (sys : Sys W) : Type 1 where
  pub At : W → List Line → List Line → Type 0
  pub writes :
      (w : W) (ls run : List Line) (text : ℕ → ℕ) (n : ℕ)
      → At w ls run
      → At (sys.write stdout text n w).1 ls run
  pub reads :
      (w : W) (l : Line) (ls run : List Line) (buf : ℕ → ℕ)
      → At w (l ∷ ls) run
      → (bytes : ℕ → ℕ) × (w' : W) × (sys.read stdin buf 1023 w ≡ (pos (delivered l), bytes, w'))
        × ((j : ℕ) → j < l.count → bytes j ≡ l.chars j)
        × (begins_exit l ≡ false → bytes l.count ≡ 10)
        × ((j : ℕ) → j < l.count → (l.chars j ≢ 0) × (l.chars j ≢ 10))
        × (l.count < 1023)
        × At w' ls run
  pub executes :
      (w : W) (l : Line) (ls run : List Line) (buf : ℕ → ℕ)
      → At w ls run
      → Holds buf l
      → At (sys.execute buf w).1 ls (run ++ (l ∷ []))

pub exit_ends : (m : ℕ) → literal exit_word m ≡ 0 → 4 ≤ m
exit_ends zero e = absurd (omega (arith, e))
exit_ends (suc zero) e = absurd (omega (arith, e))
exit_ends (suc (suc zero)) e = absurd (omega (arith, e))
exit_ends (suc (suc (suc zero))) e = absurd (omega (arith, e))
exit_ends (suc (suc (suc (suc m)))) e = omega arith

-- The five bytes of "exit".
pub exit_bytes :
    (buf : ℕ → ℕ)
    → buf 0 ≡ 101
    → buf 1 ≡ 120
    → buf 2 ≡ 105
    → buf 3 ≡ 116
    → buf 4 ≡ 0
    → (j : ℕ) → j ≤ 4
    → buf j ≡ literal exit_word j
exit_bytes buf e x i t z zero le = e
exit_bytes buf e x i t z (suc zero) le = x
exit_bytes buf e x i t z (suc (suc zero)) le = i
exit_bytes buf e x i t z (suc (suc (suc zero))) le = t
exit_bytes buf e x i t z (suc (suc (suc (suc zero)))) le = z
exit_bytes buf e x i t z (suc (suc (suc (suc (suc j))))) le = absurd (omega (arith, le))

pub zero_value : (r : ℤ) → is_zero r ≡ true → r ≡ pos 0
zero_value (pos n) e = ap pos ((==_iff n 0).0 e)
zero_value (negsuc n) e = absurd (ground (arith, e))

module _ (buf : ℕ → ℕ) (l : Line) (h : Holds buf l)
    (visible : (j : ℕ) → j < l.count → l.chars j ≢ 0) where
  pub Same-count : Same buf (literal exit_word) 0 → l.count ≡ 4
  unfolding Same
  Same-count (m, from, nul, agree) =
      let long : 4 ≤ m = exit_ends m (sym (agree m (omega arith) (omega arith)) ∙ nul) in
      let four : buf 4 ≡ 0 = agree 4 (omega arith) long in
      let high : l.count ≤ 4 = elim (Bool-cases (ltb 4 l.count)) [
        | inl e ↦
            absurd (visible 4 (ltb→lt 4 l.count e) (sym (h.same 4 (ltb→lt 4 l.count e)) ∙ four))
        | inr e ↦ ground (arith, e)
      ] in
      let low : 4 ≤ l.count =
        exit_ends l.count
          (sym (agree l.count (omega arith) (omega (arith, high, long))) ∙ h.ended) in
      omega (arith, high, low)

  pub Same-exit : Same buf (literal exit_word) 0 → is_exit l ≡ true
  unfolding Same
  Same-exit (m, from, nul, agree) =
      let long : 4 ≤ m = exit_ends m (sym (agree m (omega arith) (omega arith)) ∙ nul) in
      let n4 = Same-count (m, from, nul, agree) in
      let at : (j : ℕ) → j < 4 → l.chars j ≡ literal exit_word j = λ j lt.
        sym (h.same j (omega (arith, n4, lt))) ∙ agree j (omega arith) (omega (arith, lt, long)) in
      let c0 : l.chars 0 ≡ 101 = at 0 (omega arith) in
      let c1 : l.chars 1 ≡ 120 = at 1 (omega arith) in
      let c2 : l.chars 2 ≡ 105 = at 2 (omega arith) in
      let c3 : l.chars 3 ≡ 116 = at 3 (omega arith) in rw (n4, c0, c1, c2, c3) refl

  pub exit-Same : is_exit l ≡ true → Same buf (literal exit_word) 0
  unfolding Same
  exit-Same e =
      let n4 : l.count ≡ 4 = ground (arith, e) in
      let c0 : l.chars 0 ≡ 101 = ground (arith, e) in
      let c1 : l.chars 1 ≡ 120 = ground (arith, e) in
      let c2 : l.chars 2 ≡ 105 = ground (arith, e) in
      let c3 : l.chars 3 ≡ 116 = ground (arith, e) in
      let at : (j : ℕ) → j < 4 → buf j ≡ l.chars j = λ j lt. h.same j (omega (arith, n4, lt)) in
      let z : buf 4 ≡ 0 = ap buf (sym n4) ∙ h.ended in
      (
        4,
        omega arith,
        z,
        λ j from to.
            exit_bytes buf (at 0 (omega arith) ∙ c0) (at 1 (omega arith) ∙ c1)
              (at 2 (omega arith) ∙ c2) (at 3 (omega arith) ∙ c3) z j to,
      )

  pub Same-test : (r : ℤ) → ((r ≡ pos 0) ↔ Same buf (literal exit_word) 0) → is_zero r ≡ is_exit l
  Same-test r when_same = elim (Bool-cases (is_exit l)) [
    | inl e ↦ ap is_zero (when_same.1 (exit-Same e)) ∙ sym e
    | inr e ↦ elim (Bool-cases (is_zero r)) [
      | inl z ↦ absurd (ground (arith, sym (Same-exit (when_same.0 (zero_value r z))) ∙ e))
      | inr z ↦ z ∙ sym e
    ]
  ]

  -- `ece391_strcmp` with "exit" is 0 exactly for that line.
  pub strcmp-exit :
      l.count < 1024
      → (r : ℤ) × (ece391_strcmp 1024 buf (literal exit_word) ≡ some r) × (is_zero r ≡ is_exit l)
  strcmp-exit lt =
      let (r, e, when_same) = ece391_strcmp_iff 1024 l.count buf (literal exit_word) lt h.ended in
      (r, e, Same-test r when_same)

line_end-fed : (bytes : ℕ → ℕ) (n : ℕ) → bytes n ≡ 10 → line_end bytes (suc n) ≡ n
line_end-fed bytes n e =
    let last : suc n - 1 ≡ n = omega arith in rw (lt→ltb 0 (suc n) (omega arith), last, e) refl

line_end-bare : (bytes : ℕ → ℕ) (n : ℕ) → 0 < n → bytes (n - 1) ≢ 10 → line_end bytes n ≡ n
line_end-bare bytes n some_char other = ground (arith, some_char, other)

-- Behind the characters of the line that was read, with or without a line feed.
pub line_end_lem :
    (bytes : ℕ → ℕ) (l : Line)
    → ((j : ℕ) → j < l.count → bytes j ≡ l.chars j)
    → (begins_exit l ≡ false → bytes l.count ≡ 10)
    → ((j : ℕ) → j < l.count → (l.chars j ≢ 0) × (l.chars j ≢ 10))
    → line_end bytes (delivered l) ≡ l.count
line_end_lem bytes l same nl plain = elim (Bool-cases (begins_exit l)) [
  | inl e ↦
      let long : 4 ≤ l.count = ground (arith, e) in
      let inside : l.count - 1 < l.count = omega (arith, long) in
      rw e (
        line_end-bare bytes l.count (omega (arith, long))
          (λ z. (plain (l.count - 1) inside).1 (sym (same (l.count - 1) inside) ∙ z)))
  | inr e ↦ rw e (line_end-fed bytes l.count (nl e))
]

pub line-Holds :
    (bytes : ℕ → ℕ) (l : Line)
    → ((j : ℕ) → j < l.count → bytes j ≡ l.chars j)
    → Holds (update bytes l.count 0) l
line-Holds bytes l same = record {
  same = λ j lt. ground (arith, lt, same j lt);
  ended = ground arith;
}

pub other_exits :
    (l : Line) (ls : List Line) → is_exit l ≡ false → exits (l ∷ ls) ≡ true → exits ls ≡ true
other_exits l ls e ends = sym (ap (λ b. b || exits ls) e) ∙ ends
