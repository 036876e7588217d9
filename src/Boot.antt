-- ===== src/Boot.antt =====
-- The start of the kernel: the initialisations of devices in student-distrib/keyboard.c, rtc.c and
-- sched.c, with their entries in the interrupt table and their lines, and the sequence of all
-- initialisations in student-distrib/kernel.c.

pub mod Segments
pub mod Ready
pub mod Entry
pub mod Report
pub mod Started
pub mod Running
mod Tests
use linux_base_operating_sys.Prelude.{ℕ, ◌+◌, ◌/◌, ◌%◌, ◌^◌, List, [], ◌∷◌, ◌++◌, bit_or}
use linux_base_operating_sys.Pic.{Pic, enable_irq, i8259_init, send_eoi}
use linux_base_operating_sys.Idt.{
  IdtDesc, Handlers, idt_init, map_interrupt, kbd_vector_num, rtc_vector_num, pit_vector_num,
}
use linux_base_operating_sys.Boot.Segments.{SegDesc}
use linux_base_operating_sys.Keyboard
use linux_base_operating_sys.Rtc.{Rtc, set_frequency, select_reg, cmos_rtc_port}
use linux_base_operating_sys.Paging.{Tables, paging_init}
use linux_base_operating_sys.Kernel.{Kernel}
use linux_base_operating_sys.Kernel.Process.{pc_init, terminal_init}

abbrev pub kbd_irq : ℕ
kbd_irq = 1

abbrev pub rtc_irq : ℕ
rtc_irq = 8

abbrev pub pit_irq : ℕ
pit_irq = 0

abbrev channel0 : ℕ
channel0 = 0x40

abbrev pub time_slice : ℕ
time_slice = 30

abbrev pub max_pit_freq : ℕ
max_pit_freq = 1193182

abbrev default_freq : ℕ
default_freq = 2

abbrev disable_nmi : ℕ
disable_nmi = 0x80

abbrev periodic_bit : ℕ
periodic_bit = 0x40

abbrev reg_b : ℕ
reg_b = 0x0B

-- The kernel's variables with the interrupt table, the interrupt controllers, the bytes sent to the
-- timer and the two descriptors that are built at the start.
pub record Boot : Type 0 where
  pub kernel : Kernel
  pub idt : ℕ → IdtDesc
  pub pic : Pic
  pub timer_outb : List (ℕ × ℕ)
  pub ldt_desc : SegDesc
  pub tss_desc : SegDesc

-- `keyboard_init`: the table, then the line buffers, then the line.
pub keyboard_init : Handlers → Boot → Boot
keyboard_init h b = record b {
  idt = map_interrupt kbd_vector_num h.keyboard_handler_wrapper b.idt;
  kernel = record b.kernel { keyboard = Keyboard.keyboard_init b.kernel.keyboard };
  pic = enable_irq kbd_irq b.pic;
}

-- `prev_b` and `prev_a` are what the clock's registers B and A hold.
pub rtc_init : Handlers → ℕ → ℕ → Boot → Boot
rtc_init h prev_b prev_a b =
    let periodic : Rtc = record b.kernel.rtc {
      outb =
          b.kernel.rtc.outb
          ++ ((select_reg, bit_or disable_nmi reg_b)
              ∷ (select_reg, bit_or disable_nmi reg_b)
              ∷ (cmos_rtc_port, bit_or prev_b periodic_bit)
              ∷ []);
    } in
    record b {
      idt = map_interrupt rtc_vector_num h.rtc_handler_wrapper b.idt;
      kernel = record b.kernel {
        rtc = record (set_frequency prev_a default_freq periodic) { interrupt_flag = 1 };
      };
      pic = enable_irq rtc_irq b.pic;
    }

-- `output` is a uint16_t.
pub pit_init : Handlers → Boot → Boot
pit_init h b =
    let output : ℕ = max_pit_freq / time_slice % 2 ^ 16 in
    record b {
      idt = map_interrupt pit_vector_num h.pit_handler_wrapper b.idt;
      timer_outb = b.timer_outb ++ ((channel0, output % 256) ∷ (channel0, output / 256 % 256) ∷ []);
      pic = enable_irq pit_irq b.pic;
    }

-- `pit_handler`: the rest of it is commented out.
pub pit_handler : Boot → Boot
pit_handler b = record b { pic = send_eoi pit_irq b.pic }

-- "ALL THE INITS!" of `entry`.
pub all_inits : Handlers → Tables → ℕ → ℕ → Boot → Boot
all_inits h tables prev_b prev_a b =
    let b1 : Boot = record b { idt = idt_init h b.idt } in
    let b2 : Boot = record b1 { pic = i8259_init b1.pic } in
    let b3 : Boot = rtc_init h prev_b prev_a (keyboard_init h b2) in
    let k : Kernel = record b3.kernel { paging = paging_init tables b3.kernel.paging } in
    pit_init h (record b3 { kernel = terminal_init (pc_init k) })
