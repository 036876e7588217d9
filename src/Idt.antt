-- ===== src/Idt.antt =====
-- The interrupt descriptor table: `idt_init` of student-distrib/idt.c, and the entries that the
-- initialisations of the keyboard, the clock and the timer fill in.
pub mod Gates
use linux_base_operating_sys.Prelude.{ℕ, ◌+◌, ◌-◌, ◌/◌, ◌%◌, ◌^◌, update, for_range}

abbrev pub num_exceptions : ℕ
num_exceptions = 32

abbrev pub idt_size : ℕ
idt_size = 256

abbrev pub rtc_vector_num : ℕ
rtc_vector_num = 40

abbrev pub kbd_vector_num : ℕ
kbd_vector_num = 33

abbrev pub pit_vector_num : ℕ
pit_vector_num = 32

abbrev pub syscall_vector_num : ℕ
syscall_vector_num = 128

abbrev pub kernel_cs : ℕ
kernel_cs = 0x10

-- `idt_desc_t`, a field for each group of bits.
pub record IdtDesc : Type 0 where
  pub offset_15_00 : ℕ
  pub seg_selector : ℕ
  pub reserved4 : ℕ
  pub reserved3 : ℕ
  pub reserved2 : ℕ
  pub reserved1 : ℕ
  pub size : ℕ
  pub reserved0 : ℕ
  pub dpl : ℕ
  pub present : ℕ
  pub offset_31_16 : ℕ

-- The addresses of the entry points, which the assembler code and the linker fix.
pub record Handlers : Type 0 where
  pub exception : ℕ → ℕ
  pub keyboard_handler_wrapper : ℕ
  pub rtc_handler_wrapper : ℕ
  pub pit_handler_wrapper : ℕ
  pub syscall_handler_wrapper : ℕ

-- SET_IDT_ENTRY
pub set_idt_entry : IdtDesc → ℕ → IdtDesc
set_idt_entry str handler = record str {
  offset_31_16 = handler / 2 ^ 16 % 2 ^ 16;
  offset_15_00 = handler % 2 ^ 16;
}

-- The fields that both loops of `idt_init` set.
pub kernel_gate : ℕ → IdtDesc → IdtDesc
kernel_gate present d = record d {
  present = present;
  dpl = 0;
  reserved0 = 0;
  size = 1;
  reserved1 = 1;
  reserved2 = 1;
  reserved3 = 0;
  reserved4 = 0;
  seg_selector = kernel_cs;
}

pub syscall_gate : Handlers → IdtDesc → IdtDesc
syscall_gate h d =
    set_idt_entry (record d { reserved3 = 1; present = 1; dpl = 3 }) h.syscall_handler_wrapper

-- The 32 lines that map the exceptions are the second loop.
pub idt_init : Handlers → (ℕ → IdtDesc) → ℕ → IdtDesc
idt_init h idt =
    let gates : ℕ → IdtDesc =
      for_range num_exceptions (λ i t. update t i (kernel_gate 1 (t i))) idt in
    let exceptions : ℕ → IdtDesc =
      for_range num_exceptions (λ i t. update t i (set_idt_entry (t i) (h.exception i))) gates in
    let rest : ℕ → IdtDesc =
      for_range (idt_size - num_exceptions)
        (λ i t.
          update t (num_exceptions + i) (set_idt_entry (kernel_gate 0 (t (num_exceptions + i))) 0))
        exceptions in
    update rest syscall_vector_num (syscall_gate h (rest syscall_vector_num))

-- What a driver's initialisation does to its entry.
pub map_interrupt : ℕ → ℕ → (ℕ → IdtDesc) → ℕ → IdtDesc
map_interrupt vector handler idt =
    update idt vector (set_idt_entry (record (idt vector) { present = 1 }) handler)
