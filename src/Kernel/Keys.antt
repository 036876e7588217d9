-- ===== src/Kernel/Keys.antt =====
-- What a key does to its line and the screen, in student-distrib/keyboard.c; Kernel.Press is the whole
-- `keyboard_handler`, which also carries out what the key asks for.
pub mod Strokes
pub mod Sane
use linux_base_operating_sys.Prelude.{
  ℕ, zero, suc, ◌+◌, ◌-◌, ◌*◌, ◌==◌, ◌&&◌, ◌!=◌, Bool, true, false, not, ltb, leb, if◌then◌else◌,
  update, fill, scan, prefix, Option, some, none, List, [], ◌∷◌,
}
use linux_base_operating_sys.Prelude.Int.{ℤ, pos, negsuc}
use linux_base_operating_sys.Screen.{Screen, clear, puts, putc, scroll}
use linux_base_operating_sys.Screen
use linux_base_operating_sys.Strings.{is_nul}
use linux_base_operating_sys.Keyboard.{
  Keyboard, toggle_caps, toggle_shift, toggle_ctrl, toggle_alt, key_char, has_room, put_char,
  drop_char, clear_buffer, buffer_size,
}
use linux_base_operating_sys.Terminal.{terminal_read}
use linux_base_operating_sys.Kernel.{Kernel, codes}

-- What a key asks for beyond the line: a terminal, or one of the displays for tests.
pub data Request : Type 0 where
  nothing : Request
  terminal : ℕ → Request
  file_test : Request
  rate_test : Request
  file_list : Request

abbrev pub on_keyboard : (Keyboard → Keyboard) → Kernel → Kernel
on_keyboard f k = record k { keyboard = f k.keyboard }

abbrev pub on_screen : (Screen → Screen) → Kernel → Kernel
on_screen f k = record k { screen = f k.screen }

pub handle_backspace : Kernel → Kernel
handle_backspace k =
    let t = k.curr_terminal in
    if k.keyboard.buffer_index t == 0
    then k
    else on_keyboard (drop_char t) (on_screen (Screen.backspace t) k)

-- The line goes to the saved line of the terminal, and the buffer is cleared.
pub handle_enter : Kernel → Kernel
handle_enter k =
    let t = k.curr_terminal in
    let b = k.keyboard in
    record k {
      keyboard = clear_buffer t (record b { kbdr_flag = 1 });
      screen = scroll t k.screen;
      save_buff =
          update k.save_buff t
            (terminal_read (b.buffer t) (pos (b.buffer_index t)) (k.save_buff t));
    }

-- Ctrl-L: a clear screen with the prompt and the line typed so far.
pub show_line : Kernel → Kernel
show_line k =
    let t = k.curr_terminal in
    let b = k.keyboard.buffer t in
    on_screen
      (λ s. puts t (puts t (clear t s) (codes "391OS> ")) (prefix (scan is_nul buffer_size b 0) b))
      k

-- A key that stands for a character.
pub type_key : ℕ → Kernel → Kernel
type_key key k =
    let t = k.curr_terminal in
    let c = key_char t key k.keyboard in
    if has_room t k.keyboard then on_keyboard (put_char t c) (on_screen (λ s. putc t s c) k) else k

-- The displays for tests begin with a clear screen; `carry_out` of Kernel.Press prints the rest.
pub process_key : ℕ → Kernel → Request × Kernel
process_key key k =
    let ctrl = k.keyboard.ctrl_flag != 0 in
    let alt = k.keyboard.alt_flag != 0 in
    let cleared : Kernel = on_screen (clear k.curr_terminal) k in
    if not (leb 0x02 key && leb key 0x58)
    then (nothing, k)
    else if key == 0x26 && ctrl
    then (nothing, show_line k)
    else if key == 0x3B && alt
    then (terminal 0, k)
    else if key == 0x3C && alt
    then (terminal 1, k)
    else if key == 0x3D && alt
    then (terminal 2, k)
    else if key == 0x04 && ctrl
    then (file_test, cleared)
    else if key == 0x05 && ctrl
    then (rate_test, cleared)
    else if key == 0x02 && ctrl
    then (file_list, cleared)
    else (nothing, type_key key k)

-- The interrupt on a scan code. There is no case for the release of ALT.
pub handle_key : ℕ → Kernel → Request × Kernel
handle_key key k =
    let t = k.curr_terminal in
    if key == 0x3A
    then (nothing, on_keyboard (toggle_caps t) k)
    else if key == 0x2A
    then (nothing, on_keyboard (toggle_shift t true) k)
    else if key == 0x36
    then (nothing, on_keyboard (toggle_shift t true) k)
    else if key == 0xAA
    then (nothing, on_keyboard (toggle_shift t false) k)
    else if key == 0xB6
    then (nothing, on_keyboard (toggle_shift t false) k)
    else if key == 0x1D
    then (nothing, on_keyboard (toggle_ctrl true) k)
    else if key == 0x9D
    then (nothing, on_keyboard (toggle_ctrl false) k)
    else if key == 0x0E
    then (nothing, handle_backspace k)
    else if key == 0x1C
    then (nothing, handle_enter k)
    else if key == 0x38
    then (nothing, on_keyboard (toggle_alt true) k)
    else process_key key k
