-- ===== src/Kernel/Press.antt =====
-- `keyboard_handler` of student-distrib/keyboard.c as a whole: the key, and the switch of terminals or
-- the display for tests that it asks for.
pub mod Plain
use linux_base_operating_sys.Prelude.{ℕ, Option, some, none}
use linux_base_operating_sys.Prelude.Int.{pos}
use linux_base_operating_sys.Fs.{Dentry}
use linux_base_operating_sys.Pic.{Pic, send_eoi}
use linux_base_operating_sys.Paging.{Tables}
use linux_base_operating_sys.Kernel.{Kernel}
use linux_base_operating_sys.Kernel.Keys.{
  Request, nothing, terminal, file_test, rate_test, file_list, handle_key,
}
use linux_base_operating_sys.Kernel.Switch.{Switched, stays, Display, terminal_switch}
use linux_base_operating_sys.Kernel.Displays.{show_request}

-- Where the page tables lie, what local variables hold before they are written and register A of the
-- clock holds, and the rounds that the loops of the displays have at most.
pub record Setting : Type 0 where
  pub at : Tables
  pub stack : ℕ → ℕ
  pub blank : Dentry
  pub buffer : ℕ → ℕ
  pub prev_data : ℕ
  pub fuel : ℕ

-- The state of the handler: the kernel with the backups of the terminals, and CTR3 and CTR4.
pub record Screens : Type 0 where
  pub display : Display
  pub counters : ℕ × ℕ

abbrev on_display : Option (Switched × Display) → ℕ × ℕ → Option (Switched × Screens)
on_display none c = none
on_display (some (o, d)) c = some (o, record { display = d; counters = c })

abbrev on_kernel : Option ((ℕ × ℕ) × Kernel) → Display → Option (Switched × Screens)
on_kernel none d = none
on_kernel (some (c, k)) d =
    some (stays (pos 0), record { display = record d { kernel = k }; counters = c })

pub shown_by : Setting → Request → Screens → Option (Switched × Screens)
shown_by m r s =
    on_kernel
      (show_request m.stack m.prev_data m.fuel m.blank m.buffer r s.counters s.display.kernel)
      s.display

-- What the key asks for.
pub carry_out : Setting → Request → Screens → Option (Switched × Screens)
unfolding shown_by
carry_out m nothing s = some (stays (pos 0), s)
carry_out m (terminal t) s =
    on_display (terminal_switch m.at m.stack m.blank t s.display) s.counters
carry_out m file_test s = shown_by m file_test s
carry_out m rate_test s = shown_by m rate_test s
carry_out m file_list s = shown_by m file_list s

-- The kernel of a state is another one.
abbrev pub with_kernel : Kernel → Screens → Screens
with_kernel k s = record s { display = record s.display { kernel = k } }

pub press : Setting → ℕ → Screens → Option (Switched × Screens)
unfolding carry_out
press m key s = let (r, k) = handle_key key s.display.kernel in carry_out m r (with_kernel k s)

-- The end of the interrupt is sent first.
keyboard_handler : Setting → ℕ → Pic → Screens → Pic × Option (Switched × Screens)
unfolding press
keyboard_handler m key p s = (send_eoi 1 p, press m key s)
