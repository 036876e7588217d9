-- ===== src/Keyboard/Line.antt =====
-- The line buffer of a terminal as a line of text that is edited at its end.
use linux_base_operating_sys.Prelude.{
  ℕ, zero, suc, ◌+◌, ◌-◌, ◌≤◌, ◌<◌, ◌≡◌, ◌≢◌, refl, ◌∙◌, sym, ap, ap₂, true, false, ltb,
  if◌then◌else◌, prefix-cong, length-prefix, update, arith, List, [], ◌∷◌, ◌++◌, length, prefix,
  fill_lem, Bool-cases, inl, inr,
}
use linux_base_operating_sys.Keyboard.{
  Keyboard, put_char, drop_char, clear_buffer, has_room, buffer_size,
}

-- The index is below 128, and the buffer is zero from it on.
pub record IsLine (t : ℕ) (k : Keyboard) : Type 0 where
  pub room : k.buffer_index t < buffer_size
  pub blank : (j : ℕ) → k.buffer_index t ≤ j → j < buffer_size → k.buffer t j ≡ 0

-- The line typed so far.
abbrev pub line : ℕ → Keyboard → List ℕ
line t k = prefix (k.buffer_index t) (k.buffer t)

prefix-suc : (n : ℕ) (a : ℕ → ℕ) → prefix (suc n) a ≡ prefix n a ++ (a n ∷ [])
prefix-suc zero a = refl
prefix-suc (suc n) a = ap (λ l. a 0 ∷ l) (prefix-suc n (λ j. a (suc j)))

-- What a text editor does at the end of a line of at most 127 characters.
pub data Edit : Type 0 where
  type_char : ℕ → Edit
  erase : Edit

abbrev drop_last : List ℕ → List ℕ
drop_last [] = []
drop_last (x ∷ []) = []
drop_last (x ∷ y ∷ l) = x ∷ drop_last (y ∷ l)

abbrev edit_text : Edit → List ℕ → List ℕ
edit_text (type_char c) l = if ltb (length l) 127 then l ++ (c ∷ []) else l
edit_text erase l = drop_last l

drop_last-append : (l : List ℕ) (c : ℕ) → drop_last (l ++ (c ∷ [])) ≡ l
drop_last-append [] c = refl
drop_last-append (x ∷ []) c = refl
drop_last-append (x ∷ y ∷ l) c = ap (λ r. x ∷ r) (drop_last-append (y ∷ l) c)

-- The driver's two edits, with the tests that `process_key` and `handle_backspace` make first.
edit : ℕ → Edit → Keyboard → Keyboard
edit t (type_char c) k = if has_room t k then put_char t c k else k
edit t erase k = if ltb 0 (k.buffer_index t) then drop_char t k else k

pub edits : ℕ → List Edit → Keyboard → Keyboard
edits t [] k = k
edits t (e ∷ es) k = edits t es (edit t e k)

abbrev pub edits_text : List Edit → List ℕ → List ℕ
edits_text [] l = l
edits_text (e ∷ es) l = edits_text es (edit_text e l)

edit-IsLine : (t : ℕ) (e : Edit) (k : Keyboard) → IsLine t k → IsLine t (edit t e k)
unfolding edit put_char drop_char has_room
edit-IsLine t (type_char c) k v = record {
  room = ground (arith, v.room);
  blank = λ j a b. ground (arith, v.blank j);
}
edit-IsLine t erase k v = record {
  room = ground (arith, v.room);
  blank = λ j a b. ground (arith, v.blank j);
}

line_of :
    (t n : ℕ) (k : Keyboard) (b : ℕ → ℕ)
    → k.buffer_index t ≡ n
    → ((j : ℕ) → j < n → k.buffer t j ≡ b j)
    → line t k ≡ prefix n b
line_of t n k b e h = rw e (prefix-cong n (k.buffer t) b h)

put_char-line : (t c : ℕ) (k : Keyboard) → line t (put_char t c k) ≡ line t k ++ (c ∷ [])
unfolding put_char
put_char-line t c k =
    let n = k.buffer_index t in
    line_of t (suc n) (put_char t c k) (update (k.buffer t) n c) (ground arith)
      (λ j h. ground arith)
    ∙ prefix-suc n (update (k.buffer t) n c)
    ∙ ap₂ (λ (l : List ℕ) (x : ℕ). l ++ (x ∷ []))
        (prefix-cong n (update (k.buffer t) n c) (k.buffer t) (λ j h. ground arith)) (ground arith)

drop_char-line :
    (t n : ℕ) (k : Keyboard)
    → k.buffer_index t ≡ suc n
    → line t (drop_char t k) ≡ drop_last (line t k)
unfolding drop_char
drop_char-line t n k e =
    line_of t n (drop_char t k) (k.buffer t) (ground arith) (λ j h. ground arith)
    ∙ sym (drop_last-append (prefix n (k.buffer t)) (k.buffer t n))
    ∙ ap drop_last (sym (prefix-suc n (k.buffer t)) ∙ rw e)

edit-line :
    (t : ℕ) (e : Edit) (k : Keyboard) → IsLine t k → line t (edit t e k) ≡ edit_text e (line t k)
unfolding edit has_room
edit-line t (type_char c) k v = elim (Bool-cases (ltb (k.buffer_index t) 127)) [
  | inl fits ↦
      let room : ltb (k.buffer_index t + 1) 128 ≡ true = ground arith in
      rw (room, length-prefix (k.buffer_index t) (k.buffer t), fits) (put_char-line t c k)
  | inr full ↦
      let none_left : ltb (k.buffer_index t + 1) 128 ≡ false = ground arith in
      rw (none_left, length-prefix (k.buffer_index t) (k.buffer t), full)
]
edit-line t erase k v = elim (Bool-cases (ltb 0 (k.buffer_index t))) [
  | inl more ↦
      let e : k.buffer_index t ≡ suc (k.buffer_index t - 1) = ground arith in
      rw more (drop_char-line t (k.buffer_index t - 1) k e)
  | inr empty ↦
      let e : k.buffer_index t ≡ 0 = ground arith in
      let none_typed : line t k ≡ [] = rw e in rw empty (ground (arith, none_typed))
]

-- Any sequence of typed characters and backspaces leaves in the buffer the line that a text editor
-- with room for 127 characters has, with zeros behind it.
pub edits_refine :
    (t : ℕ) (es : List Edit) (k : Keyboard)
    → IsLine t k
    → (line t (edits t es k) ≡ edits_text es (line t k)) × IsLine t (edits t es k)
unfolding edits
edits_refine t [] k v = (refl, v)
edits_refine t (e ∷ es) k v =
    let rest = edits_refine t es (edit t e k) (edit-IsLine t e k v) in
    (rest.0 ∙ ap (edits_text es) (edit-line t e k v), rest.1)

-- `clear_buffer` leaves the empty line, with zeros behind it, and the lines of the other terminals.
clear_buffer-IsLine :
    (t : ℕ) (k : Keyboard)
    → (line t (clear_buffer t k) ≡ [])
      × IsLine t (clear_buffer t k)
      × ((u : ℕ) → u ≢ t → line u (clear_buffer t k) ≡ line u k)
unfolding clear_buffer
clear_buffer-IsLine t k = (
  line_of t 0 (clear_buffer t k) (k.buffer t) (ground arith) (λ j h. absurd (omega arith)),
  record {
    room = ground arith;
    blank = λ j a b. ground (arith, fill_lem buffer_size (λ i. 0) (k.buffer t) j);
  },
  λ u ne.
      line_of u (k.buffer_index u) (clear_buffer t k) (k.buffer u) (ground arith)
        (λ j h. ground arith),
)
