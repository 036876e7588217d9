-- ===== src/Keyboard/Modes.antt =====
-- The modes of the keyboard, and the characters that they give.
use linux_base_operating_sys.Prelude.{
  ℕ, ◌+◌, ◌<◌, ◌≡◌, refl, Bool, true, false, ◌&&◌, ◌||◌, leb, ◌==◌, if◌then◌else◌, arith,
  every_below, every_below_at, List, [], ◌∷◌, not,
}
use linux_base_operating_sys.Keyboard.{Keyboard, toggle_caps, toggle_shift}
use linux_base_operating_sys.Keyboard.Keymap.{kbd_ascii_key_map}

-- Whether a character is a letter.
abbrev pub is_letter : ℕ → Bool
is_letter c = leb 97 c && leb c 122

-- The scancodes of the two bracket keys.
abbrev pub is_bracket : ℕ → Bool
is_bracket key = key == 26 || key == 27

-- A key's character with caps lock: for a letter that of the other shift state, else the same.
abbrev caps_ok : ℕ → Bool
caps_ok key =
    (kbd_ascii_key_map 2 key == (
      if is_letter (kbd_ascii_key_map 0 key)
      then kbd_ascii_key_map 1 key
      else kbd_ascii_key_map 0 key))
    && (kbd_ascii_key_map 3 key == (
        if is_letter (kbd_ascii_key_map 0 key) || is_bracket key
        then kbd_ascii_key_map 0 key
        else kbd_ascii_key_map 1 key))
    && (if is_letter (kbd_ascii_key_map 0 key)
        then kbd_ascii_key_map 1 key + 32 == kbd_ascii_key_map 0 key
        else true)

caps_table : every_below 128 caps_ok ≡ true
unfolding every_below kbd_ascii_key_map
caps_table = refl

-- Caps lock exchanges the plain and the shifted character of the letter keys, which are the small
-- and the capital letter, and changes no other key, but for the two bracket keys with shift: these
-- give the plain brackets in place of the braces.
pub caps_lock_letters :
    (key : ℕ)
    → key < 128
    → let c = kbd_ascii_key_map 0 key in
      (kbd_ascii_key_map 2 key ≡ (if is_letter c then kbd_ascii_key_map 1 key else c))
      × (kbd_ascii_key_map 3 key
          ≡ (if is_letter c || is_bracket key then c else kbd_ascii_key_map 1 key))
      × (is_letter c ≡ true → kbd_ascii_key_map 1 key + 32 ≡ c)
caps_lock_letters key h = ground (arith, every_below_at 128 caps_ok key caps_table h)

-- The mode as two facts: whether the last stroke of a shift key was a press and whether caps lock is
-- on.
abbrev pub mode_of : Bool → Bool → ℕ
mode_of shift caps = (if shift then 1 else 0) + (if caps then 2 else 0)

-- Strokes of the mode keys.
pub data Stroke : Type 0 where
  caps press release : Stroke

stroke : ℕ → Stroke → Keyboard → Keyboard
stroke t caps k = toggle_caps t k
stroke t press k = toggle_shift t true k
stroke t release k = toggle_shift t false k

pub strokes : ℕ → List Stroke → Keyboard → Keyboard
strokes t [] k = k
strokes t (s ∷ ss) k = strokes t ss (stroke t s k)

-- What the mode remembers of the strokes: whether the last one of a shift key, the left or the right
-- one, was a press, and whether the strokes of caps lock have turned it on. With both shift keys down
-- the release of one is the last stroke, although the other one is still held.
abbrev pub shift_last : List Stroke → Bool → Bool
shift_last [] b = b
shift_last (caps ∷ ss) b = shift_last ss b
shift_last (press ∷ ss) b = shift_last ss true
shift_last (release ∷ ss) b = shift_last ss false

abbrev pub caps_on : List Stroke → Bool → Bool
caps_on [] b = b
caps_on (caps ∷ ss) b = caps_on ss (not b)
caps_on (press ∷ ss) b = caps_on ss b
caps_on (release ∷ ss) b = caps_on ss b

stroke_mode :
    (t : ℕ) (s : Stroke) (k : Keyboard) (shift caps_lock : Bool)
    → k.caps_shift_flag t ≡ mode_of shift caps_lock
    → (stroke t s k).caps_shift_flag t
      ≡ mode_of (shift_last (s ∷ []) shift) (caps_on (s ∷ []) caps_lock)
unfolding stroke toggle_caps toggle_shift
stroke_mode t caps k shift caps_lock e = ground arith
stroke_mode t press k shift caps_lock e = ground arith
stroke_mode t release k shift caps_lock e = ground arith

-- After any sequence of strokes of the mode keys the terminal's mode is the one that tells whether
-- the last stroke of a shift key, either of the two, was a press, and whether caps lock is on.
pub strokes_mode :
    (t : ℕ) (ss : List Stroke) (k : Keyboard) (shift caps_lock : Bool)
    → k.caps_shift_flag t ≡ mode_of shift caps_lock
    → (strokes t ss k).caps_shift_flag t ≡ mode_of (shift_last ss shift) (caps_on ss caps_lock)
unfolding strokes
strokes_mode t [] k shift caps_lock e = e
strokes_mode t (caps ∷ ss) k shift caps_lock e =
    strokes_mode t ss (stroke t caps k) shift (not caps_lock)
      (stroke_mode t caps k shift caps_lock e)
strokes_mode t (press ∷ ss) k shift caps_lock e =
    strokes_mode t ss (stroke t press k) true caps_lock (stroke_mode t press k shift caps_lock e)
strokes_mode t (release ∷ ss) k shift caps_lock e =
    strokes_mode t ss (stroke t release k) false caps_lock
      (stroke_mode t release k shift caps_lock e)
