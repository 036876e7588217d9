-- ===== src/Kernel/Keys/Sane.antt =====
-- What every key keeps, up to the switch or the display that it asks for.
use linux_base_operating_sys.Prelude.{
  ◌||◌, Bool, ℕ, ◌≡◌, ◌==◌, ◌&&◌, ◌!=◌, refl, true, false, not, leb, either, arith, scan, prefix,
}
use linux_base_operating_sys.Screen.{Screen, clear, puts, putc, scroll}
use linux_base_operating_sys.Screen
use linux_base_operating_sys.Screen.Bounds.{
  Keeps-all, putc-Keeps, scroll-Keeps, backspace-Keeps, clear_lem, puts-Keeps,
}
use linux_base_operating_sys.Strings.{is_nul}
use linux_base_operating_sys.Keyboard.{
  Keyboard, Keyboard, toggle_caps, toggle_shift, toggle_ctrl, put_char, drop_char, toggle_alt,
  buffer_size, has_room, key_char,
}
use linux_base_operating_sys.Keyboard.Steps.{
  toggle_caps-Steady, toggle_shift-Steady, toggle_ctrl-Steady, toggle_alt-Lines, put_char-Steady,
  drop_char-Steady, clear_buffer-Steady,
}
use linux_base_operating_sys.Kernel.{Kernel, codes}
use linux_base_operating_sys.Kernel.Keys.{
  nothing, Request, on_keyboard, on_screen, handle_backspace, handle_enter, show_line, type_key,
  process_key, handle_key,
}
use linux_base_operating_sys.Kernel.Keys.Strokes.{Stroke, still, steady, drawn, then_}

handle_backspace-Stroke : (k : Kernel) → Stroke k (handle_backspace k)
unfolding handle_backspace
handle_backspace-Stroke k =
    let t = k.curr_terminal in
    either (Stroke k) (k.keyboard.buffer_index t == 0) (λ e. still k)
      (λ e.
        then_ (drawn (Screen.backspace t) k (λ all. Keeps-all all (backspace-Keeps t (all t)))) (
          steady (drop_char t) (on_screen (Screen.backspace t) k)
            (drop_char-Steady t k.keyboard (ground (arith, e)))))

-- The saved line is no part of what is kept.
handle_enter-Stroke : (k : Kernel) → Stroke k (handle_enter k)
unfolding handle_enter
handle_enter-Stroke k =
    let t = k.curr_terminal in
    let b : Keyboard = record k.keyboard { kbdr_flag = 1 } in
    let s = clear_buffer-Steady t b in
    record {
      sane = λ v. record {
        lines = s.lines (record {
          each = λ u. record { room = (v.lines.each u).room; blank = (v.lines.each u).blank };
        });
        on = Keeps-all v.on (scroll-Keeps t (v.on t));
      };
      alt = λ e. rw s.alt e;
      current = refl;
      processes = refl;
      blocks = refl;
      slots = refl;
      pointers = refl;
    }

show_line-Stroke : (k : Kernel) → Stroke k (show_line k)
unfolding show_line
show_line-Stroke k =
    let t = k.curr_terminal in
    let b = k.keyboard.buffer t in
    let text = prefix (scan is_nul buffer_size b 0) b in
    drawn (λ s. puts t (puts t (clear t s) (codes "391OS> ")) text) k
      (λ all.
        let (_, _, _, cleared) = clear_lem t k.screen in
        let all1 = Keeps-all all cleared in
        let all2 = Keeps-all all1 (puts-Keeps t (codes "391OS> ") (all1 t)) in
        Keeps-all all2 (puts-Keeps t text (all2 t)))

type_key-Stroke : (key : ℕ) (k : Kernel) → Stroke k (type_key key k)
unfolding type_key
type_key-Stroke key k =
    let t = k.curr_terminal in
    let c = key_char t key k.keyboard in
    either (Stroke k) (has_room t k.keyboard)
      (λ e.
        then_ (drawn (λ s. putc t s c) k (λ all. Keeps-all all (putc-Keeps t c (all t)))) (
          steady (put_char t c) (on_screen (λ s. putc t s c) k) (put_char-Steady t c k.keyboard e)))
      (λ e. still k)

cleared-Stroke : (k : Kernel) → Stroke k (on_screen (clear k.curr_terminal) k)
cleared-Stroke k =
    drawn (clear k.curr_terminal) k
      (λ all. let (_, _, _, cleared) = clear_lem k.curr_terminal k.screen in Keeps-all all cleared)

process_key-Stroke : (key : ℕ) (k : Kernel) → Stroke k (process_key key k).1
unfolding process_key
process_key-Stroke key k =
    let P : Request × Kernel → Type 0 = λ r. Stroke k r.1 in
    let ctrl = k.keyboard.ctrl_flag != 0 in
    let alt = k.keyboard.alt_flag != 0 in
    either P (not (leb 0x02 key && leb key 0x58)) (λ e. still k)
      (λ e.
        either P (key == 0x26 && ctrl) (λ e. show_line-Stroke k)
          (λ e.
            either P (key == 0x3B && alt) (λ e. still k)
              (λ e.
                either P (key == 0x3C && alt) (λ e. still k)
                  (λ e.
                    either P (key == 0x3D && alt) (λ e. still k)
                      (λ e.
                        either P (key == 0x04 && ctrl) (λ e. cleared-Stroke k)
                          (λ e.
                            either P (key == 0x05 && ctrl) (λ e. cleared-Stroke k)
                              (λ e.
                                either P (key == 0x02 && ctrl) (λ e. cleared-Stroke k)
                                  (λ e. type_key-Stroke key k))))))))

alt-Stroke : (k : Kernel) → Stroke k (on_keyboard (toggle_alt true) k)
alt-Stroke k =
    let (lines, set) = toggle_alt-Lines k.keyboard in
    record {
      sane = λ v. record { lines = lines v.lines; on = v.on };
      alt = λ e. set;
      current = refl;
      processes = refl;
      blocks = refl;
      slots = refl;
      pointers = refl;
    }

-- What is done with a key before anything that it asks for keeps the lines of all terminals well
-- formed and all positions on the screen, and leaves the terminal and the processes alone; and no
-- key, the release of ALT included, resets an ALT flag that is set.
pub handle_key-Stroke : (key : ℕ) (k : Kernel) → Stroke k (handle_key key k).1
unfolding handle_key
handle_key-Stroke key k =
    let t = k.curr_terminal in
    let P : Request × Kernel → Type 0 = λ r. Stroke k r.1 in
    let caps = steady (toggle_caps t) k (toggle_caps-Steady t k.keyboard) in
    let down = steady (toggle_shift t true) k (toggle_shift-Steady t true k.keyboard) in
    let up = steady (toggle_shift t false) k (toggle_shift-Steady t false k.keyboard) in
    let ctrl_down = steady (toggle_ctrl true) k (toggle_ctrl-Steady true k.keyboard) in
    let ctrl_up = steady (toggle_ctrl false) k (toggle_ctrl-Steady false k.keyboard) in
    either P (key == 0x3A) (λ e. caps)
      (λ e.
        either P (key == 0x2A) (λ e. down)
          (λ e.
            either P (key == 0x36) (λ e. down)
              (λ e.
                either P (key == 0xAA) (λ e. up)
                  (λ e.
                    either P (key == 0xB6) (λ e. up)
                      (λ e.
                        either P (key == 0x1D) (λ e. ctrl_down)
                          (λ e.
                            either P (key == 0x9D) (λ e. ctrl_up)
                              (λ e.
                                either P (key == 0x0E) (λ e. handle_backspace-Stroke k)
                                  (λ e.
                                    either P (key == 0x1C) (λ e. handle_enter-Stroke k)
                                      (λ e.
                                        either P (key == 0x38) (λ e. alt-Stroke k)
                                          (λ e. process_key-Stroke key k))))))))))

-- F1 to F3 while the ALT flag is set, and 1, 3 and 4 while CTRL is held.
abbrev pub is_request : ℕ → Keyboard → Bool
is_request key b =
    (b.alt_flag != 0 && (key == 0x3B || key == 0x3C || key == 0x3D))
    || (b.ctrl_flag != 0 && (key == 0x02 || key == 0x04 || key == 0x05))

pub asks-nothing :
    (key : ℕ) (k : Kernel) → is_request key k.keyboard ≡ false → (handle_key key k).0 ≡ nothing
unfolding handle_key process_key
asks-nothing key k e = ground (arith, e)
