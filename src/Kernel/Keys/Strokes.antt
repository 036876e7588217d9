-- ===== src/Kernel/Keys/Strokes.antt =====
-- What one key is to keep, and the parts of a key that do.
use linux_base_operating_sys.Prelude.{ℕ, ◌≡◌, refl}
use linux_base_operating_sys.Screen.{Screen}
use linux_base_operating_sys.Screen.Bounds.{OnScreen}
use linux_base_operating_sys.Keyboard.{Keyboard}
use linux_base_operating_sys.Keyboard.Steps.{Lines, Steady}
use linux_base_operating_sys.Kernel.{Kernel}
use linux_base_operating_sys.Kernel.Keys.{on_keyboard, on_screen}

-- The lines of all terminals are well formed, and all positions are on the screen.
pub record IsSane (k : Kernel) : Type 0 where
  pub lines : Lines k.keyboard
  pub on : (t : ℕ) → OnScreen t k.screen

-- One key from `k` leads to `k'`: what is sane stays so, an ALT flag that is set stays set, and the
-- terminal and the processes are the same.
pub record Stroke (k k' : Kernel) : Type 0 where
  pub sane : IsSane k → IsSane k'
  pub alt : k.keyboard.alt_flag ≡ 1 → k'.keyboard.alt_flag ≡ 1
  pub current : k'.curr_terminal ≡ k.curr_terminal
  pub processes : k'.current_process ≡ k.current_process
  pub blocks : k'.pcbs ≡ k.pcbs
  pub slots : k'.in_use ≡ k.in_use
  pub pointers : k'.process_array ≡ k.process_array

pub still : (k : Kernel) → Stroke k k
still k = record {
  sane = λ v. v;
  alt = λ e. e;
  current = refl;
  processes = refl;
  blocks = refl;
  slots = refl;
  pointers = refl;
}

pub steady :
    (f : Keyboard → Keyboard) (k : Kernel)
    → Steady k.keyboard (f k.keyboard)
    → Stroke k (on_keyboard f k)
steady f k s = record {
  sane = λ v. record { lines = s.lines v.lines; on = v.on };
  alt = λ e. rw s.alt e;
  current = refl;
  processes = refl;
  blocks = refl;
  slots = refl;
  pointers = refl;
}

pub drawn :
    (f : Screen → Screen) (k : Kernel)
    → (((t : ℕ) → OnScreen t k.screen) → (t : ℕ) → OnScreen t (f k.screen))
    → Stroke k (on_screen f k)
drawn f k keeps = record {
  sane = λ v. record { lines = v.lines; on = keeps v.on };
  alt = λ e. e;
  current = refl;
  processes = refl;
  blocks = refl;
  slots = refl;
  pointers = refl;
}

pub then_ : {k1 k2 k3 : Kernel} → Stroke k1 k2 → Stroke k2 k3 → Stroke k1 k3
then_ a b = record {
  sane = λ v. b.sane (a.sane v);
  alt = λ e. b.alt (a.alt e);
  current = rw b.current a.current;
  processes = rw b.processes a.processes;
  blocks = rw b.blocks a.blocks;
  slots = rw b.slots a.slots;
  pointers = rw b.pointers a.pointers;
}
