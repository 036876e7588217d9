-- ===== src/Boot/Tests.antt =====
-- The theorems on the start of the kernel for a loader that passes a module, a map of memory and
-- the magic number.
use linux_base_operating_sys.Prelude.{◌+◌, ◌%◌, ◌≡◌, [], refl, arith}
use linux_base_operating_sys.Idt.{IdtDesc, Handlers}
use linux_base_operating_sys.Idt.Gates.{boot_idt, only_syscall}
use linux_base_operating_sys.Kernel.{codes}
use linux_base_operating_sys.Kernel.Sample.{sample, zeros, entry_x}
use linux_base_operating_sys.Boot.{Boot, all_inits}
use linux_base_operating_sys.Boot.Segments.{segment}
use linux_base_operating_sys.Boot.Ready.{Ready, all_inits-Ready}
use linux_base_operating_sys.Boot.Entry.{
  MultibootInfo, Machine, multiboot_bootloader_magic, entry, first_program,
}
use linux_base_operating_sys.Boot.Report.{Words32}
use linux_base_operating_sys.Boot.Started.{entry-Executes}

abbrev handlers : Handlers
handlers = record {
  exception = λ v. 0x400000 + v;
  keyboard_handler_wrapper = 0x401000;
  rtc_handler_wrapper = 0x401010;
  pit_handler_wrapper = 0x401020;
  syscall_handler_wrapper = 0x401030;
}

abbrev no_gate : IdtDesc
no_gate = record {
  offset_15_00 = 0;
  seg_selector = 0;
  reserved4 = 0;
  reserved3 = 0;
  reserved2 = 0;
  reserved1 = 0;
  size = 0;
  reserved0 = 0;
  dpl = 0;
  present = 0;
  offset_31_16 = 0;
}

abbrev before : Boot
before = record {
  kernel = sample;
  idt = λ v. no_gate;
  pic = record { master_mask = 0; slave_mask = 0; outb = [] };
  timer_outb = [];
  ldt_desc = segment 0 0 0 0;
  tss_desc = segment 0 0 0 0;
}

abbrev machine : Machine
machine = record {
  memory = λ a. a % 256;
  modules = λ i. record { mod_start = 0x500000; mod_end = 0x580000; name = 0x10000 };
  maps = λ a. record {
    size = 20;
    base_addr_low = 0;
    base_addr_high = 0;
    length_low = 0x9FC00;
    length_high = 0;
    type = 1;
  };
  stack = zeros;
  blank = entry_x;
  handlers = handlers;
  tables = record { kernel_table = 0x410000; user_table = 0x411000 };
  ldt = 0x412000;
  ldt_size = 31;
  tss = 0x413000;
  tss_size = 103;
  prev_b = 0x02;
  prev_a = 0x26;
  old_count = zeros;
}

-- All but the table of symbols is announced.
abbrev info : MultibootInfo
info = record {
  flags = 0x4F;
  mem_lower = 640;
  mem_upper = 130048;
  boot_device = 0x8000FFFF;
  cmdline = codes "kernel";
  mods_count = 1;
  elf_num = 0;
  elf_size = 0;
  elf_addr = 0;
  elf_shndx = 0;
  mmap_length = 48;
  mmap_addr = 0x9000;
}

info-Words32 : Words32 machine info
info-Words32 = record {
  info = (
    omega arith,
    (omega arith, (omega arith, (omega arith, (omega arith, (omega arith, (omega arith, tt)))))),
  );
  elf = (omega arith, (omega arith, (omega arith, (omega arith, tt))));
  modules = λ i. (omega arith, (omega arith, tt));
  maps = λ a.
      (omega arith, (omega arith, (omega arith, (omega arith, (omega arith, (omega arith, tt))))));
  bytes = λ a. omega arith;
}

only_syscall_example : (boot_idt handlers (λ v. no_gate) 14).dpl ≡ 0
only_syscall_example = only_syscall handlers (λ v. no_gate) 14 (omega arith) (omega arith)

all_inits-Ready_example : Ready handlers (all_inits handlers machine.tables 2 0x26 before)
all_inits-Ready_example = all_inits-Ready handlers machine.tables 2 0x26 before

entry-Executes_example :
    (b' : Boot) × (entry machine 12 multiboot_bootloader_magic info before
      ≡ first_program machine b')
    × Ready handlers b'
    × (b'.kernel.tss_esp0 ≡ 0x800000)
entry-Executes_example =
    entry-Executes machine 12 info info-Words32 before refl
      record { enough = omega arith; inside = omega arith; room = λ a lt. omega (arith, lt) }
