-- ===== src/Boot/Ready.antt =====
-- The state in which `entry` of student-distrib/kernel.c starts the first program.
use linux_base_operating_sys.Prelude.{
  ℕ, ◌+◌, ◌<◌, ◌⊎◌, ◌≡◌, ◌≢◌, ◌↔◌, true, false, ◌||◌, ◌==◌, if◌then◌else◌, fill_lem, List, [], ◌∷◌,
  refl, ap, ◌∙◌, arith, inl, inr, lt→ltb,
}
use linux_base_operating_sys.Prelude.Int.{minus_one}
use linux_base_operating_sys.Keyboard.Steps.{keyboard_init-empty}
use linux_base_operating_sys.Pic.Lines.{
  masked, among, vector, enable_all-i8259_init, enable_all-vector,
}
use linux_base_operating_sys.Idt.{IdtDesc, Handlers}
use linux_base_operating_sys.Idt.Gates.{Gates, boot_idt, boot_idt-Gates}
use linux_base_operating_sys.Paging.{Tables}
use linux_base_operating_sys.Kernel.Process.{pc_init, terminal_init}
use linux_base_operating_sys.Boot.{Boot, all_inits, rtc_init, pit_init, keyboard_init}

-- The lines that the drivers enable, in the order of the initialisations.
abbrev pub device_lines : List ℕ
device_lines = 1 ∷ 8 ∷ 0 ∷ []

pub record Ready (h : Handlers) (b : Boot) : Type 0 where
  pub gates : Gates h b.idt
  pub lines : (k : ℕ) → k < 16 → (masked b.pic k ≡ 0) ↔ ((k == 2 || among k device_lines) ≡ true)
  pub raised : (k : ℕ) → k < 16 → vector b.pic k ≡ 32 + k
  pub served : (k : ℕ) → k < 16 → k ≢ 2 → masked b.pic k ≡ 0 → (b.idt (vector b.pic k)).present ≡ 1
  pub no_process : (i : ℕ) → i < 8 → b.kernel.process_array i ≡ false
  pub no_current : (t : ℕ) → t < 3 → b.kernel.current_process t ≡ minus_one
  pub slots : (i : ℕ) → i < 8 → b.kernel.in_use i ≡ (if i == 1 || i == 2 then 1 else 0)
  pub no_line : (t : ℕ) → t < 3 → b.kernel.keyboard.buffer_index t ≡ 0
  pub first_terminal : b.kernel.curr_terminal ≡ 0

module _ (h : Handlers) (tables : Tables) (prev_b prev_a : ℕ) (b : Boot) where
  after_inits : Boot
  after_inits = all_inits h tables prev_b prev_a b

  inits-Gates : Gates h after_inits.idt
  unfolding after_inits all_inits rtc_init pit_init keyboard_init boot_idt
  inits-Gates = boot_idt-Gates h b.idt

  inits_lines :
      (k : ℕ) → k < 16 → (masked after_inits.pic k ≡ 0) ↔ ((k == 2 || among k device_lines) ≡ true)
  unfolding after_inits all_inits rtc_init pit_init keyboard_init
  inits_lines k lt =
      enable_all-i8259_init b.pic device_lines k (omega arith, (omega arith, (omega arith, tt))) lt

  inits_raised : (k : ℕ) → vector after_inits.pic k ≡ 32 + k
  unfolding after_inits all_inits rtc_init pit_init keyboard_init
  inits_raised k = enable_all-vector b.pic device_lines k

  inits_served :
      (k : ℕ)
      → k < 16
      → k ≢ 2
      → masked after_inits.pic k ≡ 0
      → (after_inits.idt (vector after_inits.pic k)).present ≡ 1
  inits_served k lt other open_line =
      let enabled = (inits_lines k lt).0 open_line in
      let device : (k ≡ 0) ⊎ ((k ≡ 1) ⊎ (k ≡ 8)) = ground (arith, enabled, other) in
      let present : IdtDesc → ℕ = λ d. d.present in
      let at : (n : ℕ) → k ≡ n → after_inits.idt (32 + k) ≡ after_inits.idt (32 + n) =
        λ n e. ap (λ j. after_inits.idt (32 + j)) e in
      ap (λ v. present (after_inits.idt v)) (inits_raised k) ∙ elim device [
        | inl e ↦ ap present (at 0 e ∙ inits-Gates.timer)
        | inr (inl e) ↦ ap present (at 1 e ∙ inits-Gates.keyboard)
        | inr (inr e) ↦ ap present (at 8 e ∙ inits-Gates.clock)
      ]

  inits_slots : (i : ℕ) → i < 8 → after_inits.kernel.in_use i ≡ (if i == 1 || i == 2 then 1 else 0)
  unfolding after_inits all_inits rtc_init pit_init keyboard_init pc_init terminal_init
  inits_slots i lt = ground (arith, fill_lem 8 (λ j. 0) b.kernel.in_use i)

  inits_no_process : (i : ℕ) → i < 8 → after_inits.kernel.process_array i ≡ false
  unfolding after_inits all_inits rtc_init pit_init keyboard_init pc_init terminal_init
  inits_no_process i lt = fill_lem 8 (λ j. false) b.kernel.process_array i ∙ rw (lt→ltb i 8 lt) refl

  inits_no_current : (t : ℕ) → t < 3 → after_inits.kernel.current_process t ≡ minus_one
  unfolding after_inits all_inits rtc_init pit_init keyboard_init pc_init terminal_init
  inits_no_current t lt =
      fill_lem 3 (λ j. minus_one) b.kernel.current_process t ∙ rw (lt→ltb t 3 lt) refl

  inits_no_line : (t : ℕ) → t < 3 → after_inits.kernel.keyboard.buffer_index t ≡ 0
  unfolding after_inits all_inits rtc_init pit_init keyboard_init pc_init terminal_init
  inits_no_line t lt = keyboard_init-empty b.kernel.keyboard t lt

  inits_terminal : after_inits.kernel.curr_terminal ≡ 0
  unfolding after_inits all_inits rtc_init pit_init keyboard_init pc_init terminal_init
  inits_terminal = refl

-- Whatever memory and ports held before, after all the initialisations the interrupt table has its
-- gates, the lines let through are the timer's, the keyboard's and the clock's with the one that
-- connects the second controller, the controllers are programmed to raise the vectors from 32 on,
-- and each of the three devices finds a gate at the vector that its line raises; no process exists, two of the eight slots are kept for the other terminals, no line
-- is typed and the first terminal is shown.
pub all_inits-Ready :
    (h : Handlers) (tables : Tables) (prev_b prev_a : ℕ) (b : Boot)
    → Ready h (all_inits h tables prev_b prev_a b)
unfolding after_inits
all_inits-Ready h tables prev_b prev_a b = record {
  gates = inits-Gates h tables prev_b prev_a b;
  lines = inits_lines h tables prev_b prev_a b;
  raised = λ k lt. inits_raised h tables prev_b prev_a b k;
  served = inits_served h tables prev_b prev_a b;
  no_process = inits_no_process h tables prev_b prev_a b;
  no_current = inits_no_current h tables prev_b prev_a b;
  slots = inits_slots h tables prev_b prev_a b;
  no_line = inits_no_line h tables prev_b prev_a b;
  first_terminal = inits_terminal h tables prev_b prev_a b;
}
