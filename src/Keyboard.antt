-- ===== src/Keyboard.antt =====
-- The keyboard driver's own state, student-distrib/keyboard.c: modes, flags and line buffers. What the
-- driver does to the rest of the kernel is in `Kernel.Keys`.
mod Tests
pub mod Keymap
pub mod Modes
pub mod Line
pub mod Steps
use linux_base_operating_sys.Prelude.{
  ℕ, zero, suc, ◌+◌, ◌-◌, Bool, true, false, ◌&&◌, leb, ltb, ◌==◌, ◌!=◌, if◌then◌else◌, update,
  fill,
}
use Keymap.{kbd_ascii_key_map}

abbrev pub buffer_size : ℕ
buffer_size = 128

abbrev none_mode : ℕ
none_mode = 0

abbrev shift_mode : ℕ
shift_mode = 1

abbrev caps_mode : ℕ
caps_mode = 2

abbrev shift_caps_mode : ℕ
shift_caps_mode = 3

-- By terminal: the mode, the index, and the line typed so far.
pub record Keyboard : Type 0 where
  pub caps_shift_flag : ℕ → ℕ
  pub ctrl_flag : ℕ
  pub alt_flag : ℕ
  pub buffer_index : ℕ → ℕ
  pub buffer : ℕ → ℕ → ℕ
  pub kbdr_flag : ℕ

abbrev set_mode : ℕ → ℕ → Keyboard → Keyboard
set_mode t mode k = record k { caps_shift_flag = update k.caps_shift_flag t mode }

-- The software part of `keyboard_init`, for the three terminals.
pub keyboard_init : Keyboard → Keyboard
keyboard_init k = record k {
  buffer = fill 3 (λ t. fill buffer_size (λ i. 0) (k.buffer t)) k.buffer;
  buffer_index = fill 3 (λ t. 0) k.buffer_index;
  caps_shift_flag = fill 3 (λ t. none_mode) k.caps_shift_flag;
}

pub toggle_caps : ℕ → Keyboard → Keyboard
toggle_caps t k =
    if k.caps_shift_flag t == none_mode
    then set_mode t caps_mode k
    else if k.caps_shift_flag t == shift_mode
    then set_mode t shift_caps_mode k
    else if k.caps_shift_flag t == caps_mode
    then set_mode t none_mode k
    else set_mode t shift_mode k

-- `make` tells a press from a release.
pub toggle_shift : ℕ → Bool → Keyboard → Keyboard
toggle_shift t true k =
    if k.caps_shift_flag t == none_mode
    then set_mode t shift_mode k
    else if k.caps_shift_flag t == caps_mode
    then set_mode t shift_caps_mode k
    else k
toggle_shift t false k =
    if k.caps_shift_flag t == shift_mode
    then set_mode t none_mode k
    else if k.caps_shift_flag t == shift_caps_mode
    then set_mode t caps_mode k
    else k

pub toggle_ctrl : Bool → Keyboard → Keyboard
toggle_ctrl make k = record k { ctrl_flag = if make then 1 else 0 }

pub toggle_alt : Bool → Keyboard → Keyboard
toggle_alt make k = record k { alt_flag = if make then 1 else 0 }

-- The character of a key in the mode of terminal `t`.
pub key_char : ℕ → ℕ → Keyboard → ℕ
key_char t key k = kbd_ascii_key_map (k.caps_shift_flag t) key

-- The last branch of `process_key`: whether there is room, and the character put into the buffer.
pub has_room : ℕ → Keyboard → Bool
has_room t k = ltb (k.buffer_index t + 1) buffer_size

pub put_char : ℕ → ℕ → Keyboard → Keyboard
put_char t c k = record k {
  buffer = update k.buffer t (update (k.buffer t) (k.buffer_index t) c);
  buffer_index = update k.buffer_index t (k.buffer_index t + 1);
}

-- `handle_backspace` on the buffer, where the index is not 0.
pub drop_char : ℕ → Keyboard → Keyboard
drop_char t k = record k {
  buffer_index = update k.buffer_index t (k.buffer_index t - 1);
  buffer = update k.buffer t (update (k.buffer t) (k.buffer_index t - 1) 0);
}

pub clear_buffer : ℕ → Keyboard → Keyboard
clear_buffer t k = record k {
  buffer = update k.buffer t (fill buffer_size (λ i. 0) (k.buffer t));
  buffer_index = update k.buffer_index t 0;
}
