-- ===== src/Keyboard/Tests.antt =====
-- The theorems on the keyboard after its start.
use linux_base_operating_sys.Prelude.{◌≡◌, refl, false, arith, List, [], ◌∷◌}
use linux_base_operating_sys.Keyboard.{Keyboard}
use linux_base_operating_sys.Keyboard.Modes.{
  Stroke, caps, press, release, strokes, shift_last, caps_on, mode_of, strokes_mode,
}
use linux_base_operating_sys.Keyboard.Line.{
  IsLine, line, Edit, type_char, erase, edits, edits_text, edits_refine,
}

abbrev quiet : Keyboard
quiet = record {
  caps_shift_flag = λ t. 0;
  ctrl_flag = 0;
  alt_flag = 0;
  buffer_index = λ t. 0;
  buffer = λ t i. 0;
  kbdr_flag = 0;
}

quiet-IsLine : IsLine 0 quiet
quiet-IsLine = record { room = omega arith; blank = λ j a b. refl }

abbrev typing : List Edit
typing = type_char 104 ∷ type_char 105 ∷ erase ∷ type_char 111 ∷ []

abbrev stroking : List Stroke
stroking = press ∷ caps ∷ release ∷ []

edits_refine_example :
    (line 0 (edits 0 typing quiet) ≡ edits_text typing (line 0 quiet))
    × IsLine 0 (edits 0 typing quiet)
edits_refine_example = edits_refine 0 typing quiet quiet-IsLine

strokes_mode_example :
    (strokes 0 stroking quiet).caps_shift_flag 0
    ≡ mode_of (shift_last stroking false) (caps_on stroking false)
strokes_mode_example = strokes_mode 0 stroking quiet false false refl
