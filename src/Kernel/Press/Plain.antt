-- ===== src/Kernel/Press/Plain.antt =====
-- The keys that ask for nothing beyond their line, and what every key does to the stacks of programs.
use linux_base_operating_sys.Prelude.{ℕ, ◌≡◌, false, Option, some, none, refl}
use linux_base_operating_sys.Prelude.Int.{pos}
use linux_base_operating_sys.Kernel.{Kernel}
use linux_base_operating_sys.Kernel.Calls.{Calls, after_switch, Represents}
use linux_base_operating_sys.Kernel.Calls.Agree.{Leads, Agree, Represents-Agree}
use linux_base_operating_sys.Kernel.Drivers.Rules.{unchanged}
use linux_base_operating_sys.Kernel.Displays.{show_request}
use linux_base_operating_sys.Kernel.Displays.Keeps.{show_request-Keeps}
use linux_base_operating_sys.Kernel.Keys.{
  Request, nothing, terminal, file_test, rate_test, file_list, handle_key,
}
use linux_base_operating_sys.Kernel.Keys.Strokes.{Stroke}
use linux_base_operating_sys.Kernel.Keys.Sane.{is_request, asks-nothing, handle_key-Stroke}
use linux_base_operating_sys.Kernel.Switch.{Switched, stays, Display, terminal_switch}
use linux_base_operating_sys.Kernel.Switch.Shown.{Switches, terminal_switch-Represents}
use linux_base_operating_sys.Kernel.Press.{
  Setting, Screens, carry_out, on_display, on_kernel, press, shown_by, with_kernel,
}

-- A key other than F1 to F3 with the ALT flag set and 1, 3 and 4 with CTRL: the handler comes back. It
-- keeps the lines of all terminals well formed and all positions on the screen, leaves the terminal
-- and the processes, the backups and the counters alone, and, the release of ALT included, does not
-- reset an ALT flag that is set.
pub press-Stroke :
    (m : Setting) (key : ℕ) (s : Screens)
    → is_request key s.display.kernel.keyboard ≡ false
    → (k' : Kernel) × (press m key s ≡ some (stays (pos 0), with_kernel k' s))
      × Stroke s.display.kernel k'
unfolding press carry_out
press-Stroke m key s e =
    let k = s.display.kernel in
    ((handle_key key k).1, rw (asks-nothing key k e) refl, handle_key-Stroke key k)

-- What a request does to the stacks.
abbrev pub after_request : Request → Calls → Calls
after_request nothing c = c
after_request (terminal t) c = after_switch t c
after_request file_test c = c
after_request rate_test c = c
after_request file_list c = c

abbrev pub Pressed : Calls → Option (Switched × Screens) → Type 0
Pressed c none = Unit
Pressed c (some (o, s)) = Represents c s.display.kernel

on_display-Pressed :
    (c : Calls) (r : Option (Switched × Display)) (n : ℕ × ℕ)
    → Switches c r
    → Pressed c (on_display r n)
on_display-Pressed c none n l = tt
on_display-Pressed c (some (o, d)) n l = l

on_kernel-Pressed :
    (c : Calls) (k : Kernel) (r : Option ((ℕ × ℕ) × Kernel)) (d : Display)
    → Represents c k
    → Leads (λ x k'. Agree k k') r
    → Pressed c (on_kernel r d)
on_kernel-Pressed c k none d rep l = tt
on_kernel-Pressed c k (some (n, k')) d rep l = Represents-Agree l rep

shown_by-Pressed :
    (m : Setting) (r : Request) (c : Calls) (s : Screens)
    → Represents c s.display.kernel
    → Pressed c (shown_by m r s)
unfolding shown_by
shown_by-Pressed m r c s rep =
    let k = s.display.kernel in
    on_kernel-Pressed c k (show_request m.stack m.prev_data m.fuel m.blank m.buffer r s.counters k)
      s.display rep (show_request-Keeps m.stack m.prev_data m.fuel m.blank m.buffer r s.counters k)

carry_out-Pressed :
    (m : Setting) (r : Request) (c : Calls) (s : Screens)
    → Represents c s.display.kernel
    → Pressed (after_request r c) (carry_out m r s)
unfolding carry_out
carry_out-Pressed m nothing c s rep = rep
carry_out-Pressed m (terminal t) c s rep =
    on_display-Pressed (after_switch t c) (terminal_switch m.at m.stack m.blank t s.display)
      s.counters (terminal_switch-Represents m.at m.stack m.blank t c s.display rep)
carry_out-Pressed m file_test c s rep = shown_by-Pressed m file_test c s rep
carry_out-Pressed m rate_test c s rep = shown_by-Pressed m rate_test c s rep
carry_out-Pressed m file_list c s rep = shown_by-Pressed m file_list c s rep

pub press-Pressed :
    (m : Setting) (key : ℕ) (c : Calls) (s : Screens)
    → Represents c s.display.kernel
    → Pressed (after_request (handle_key key s.display.kernel).0 c) (press m key s)
unfolding press
press-Pressed m key c s rep =
    let k = s.display.kernel in
    let t = handle_key-Stroke key k in
    carry_out-Pressed m (handle_key key k).0 c (with_kernel (handle_key key k).1 s)
      (Represents-Agree (unchanged t.current t.processes t.slots t.pointers t.blocks) rep)
