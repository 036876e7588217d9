-- ===== src/Boot/Entry.antt =====
-- `entry` of student-distrib/kernel.c: the report on what the boot loader passes, the segments of the
-- LDT and the TSS, the initialisations and the first program.
use linux_base_operating_sys.Prelude.{
  ℕ, zero, suc, ◌+◌, ◌-◌, ◌/◌, ◌%◌, ◌^◌, Bool, true, false, ◌&&◌, ltb, ◌!=◌, if◌then◌else◌, Option,
  some, none, List, [], ◌∷◌, add32, get_or,
}
use linux_base_operating_sys.Prelude.Int.{is_zero}
use linux_base_operating_sys.Strings.{strncmp}
use linux_base_operating_sys.Printf
use linux_base_operating_sys.Printf.{Arg, word, string}
use linux_base_operating_sys.Screen.{Screen, clear}
use linux_base_operating_sys.Fs.{Dentry, filesystem_init}
use linux_base_operating_sys.Idt.{Handlers}
use linux_base_operating_sys.Paging.{Tables}
use linux_base_operating_sys.Kernel.{codes}
use linux_base_operating_sys.Kernel.Process.{Outcome, execute, shell}
use linux_base_operating_sys.Boot.{Boot, all_inits}
use linux_base_operating_sys.Boot.Segments.{ldt_segment, tss_segment}

abbrev pub multiboot_bootloader_magic : ℕ
multiboot_bootloader_magic = 0x2BADB002

-- `multiboot_info_t`; the command line is given by its characters.
pub record MultibootInfo : Type 0 where
  pub flags : ℕ
  pub mem_lower : ℕ
  pub mem_upper : ℕ
  pub boot_device : ℕ
  pub cmdline : List ℕ
  pub mods_count : ℕ
  pub elf_num : ℕ
  pub elf_size : ℕ
  pub elf_addr : ℕ
  pub elf_shndx : ℕ
  pub mmap_length : ℕ
  pub mmap_addr : ℕ

-- `module_t` without its reserved word.
pub record Module : Type 0 where
  pub mod_start : ℕ
  pub mod_end : ℕ
  pub name : ℕ

-- `memory_map_t`
pub record MemoryMap : Type 0 where
  pub size : ℕ
  pub base_addr_low : ℕ
  pub base_addr_high : ℕ
  pub length_low : ℕ
  pub length_high : ℕ
  pub type : ℕ

-- What the code reads and the compiler, the linker and the boot loader fix: the bytes of memory,
-- the modules and memory maps in it, what local variables and buffers hold before they are written,
-- and the addresses of the tables.
pub record Machine : Type 0 where
  pub memory : ℕ → ℕ
  pub modules : ℕ → Module
  pub maps : ℕ → MemoryMap
  pub stack : ℕ → ℕ
  pub blank : Dentry
  pub handlers : Handlers
  pub tables : Tables
  pub ldt : ℕ
  pub ldt_size : ℕ
  pub tss : ℕ
  pub tss_size : ℕ
  pub prev_b : ℕ
  pub prev_a : ℕ
  pub old_count : ℕ → ℕ

-- A step of `entry`; a fault is `none`.
abbrev pub Step : Type 0
Step = Boot → Option Boot

infixl 5 ◌then_◌
unfoldable pub ◌then_◌ : Step → Step → Step
(f then_ g) b = elim (f b) [ none ↦ none | some b' ↦ g b' ]

-- if(c) f
unfoldable pub when : Bool → Step → Step
when true f b = f b
when false f b = some b

-- for(i = from; i < from + n; i++) f(i)
unfoldable pub repeat : ℕ → ℕ → (ℕ → Step) → Step
repeat zero from f b = some b
repeat (suc n) from f b = elim (f from b) [ none ↦ none | some b' ↦ repeat n (suc from) f b' ]

abbrev with_screen : Screen → Boot → Boot
with_screen s b = record b { kernel = record b.kernel { screen = s } }

-- Bit `bit` of the flags: CHECK_FLAG.
abbrev pub check_flag : ℕ → ℕ → Bool
check_flag flags bit = flags / 2 ^ bit % 2 != 0

-- A char, read as an int.
abbrev pub sign_extend : ℕ → ℕ
sign_extend c = if ltb c 128 then c else 2 ^ 32 - 256 + c

abbrev pub filesys_name : ℕ → ℕ
filesys_name j = get_or (codes "/filesys_img") j 0

-- How `entry` ends: it returns to the assembler code, or it has executed the first program.
pub data Start : Type 0 where
  gave_up : Boot → Start
  executed : Outcome → Boot → Start

module _ (mc : Machine) where
  unfoldable pub print : List ℕ → List Arg → Step
  print format esp b =
      elim (Printf.printf mc.stack b.kernel.curr_terminal format esp b.kernel.screen) [
        | none ↦ none
        | some (n, s) ↦ some (with_screen s b)
      ]

  -- The file system is taken from a module whose name begins with that of the image.
  unfoldable pub find_filesystem : Module → Step
  find_filesystem image b =
      if is_zero (strncmp (λ j. mc.memory (image.name + j)) filesys_name 12)
      then some (record b {
        kernel = record b.kernel {
          fs = filesystem_init (λ j. mc.memory (image.mod_start + j)) mc.old_count;
        };
      })
      else some b

  unfoldable pub show_module : ℕ → Step
  show_module mod_count =
      let image = mc.modules mod_count in
      print (codes "Module %d loaded at address: 0x%#x\n")
        (word mod_count ∷ word image.mod_start ∷ [])
      then_ print (codes "Module %d ends at address: 0x%#x\n")
          (word mod_count ∷ word image.mod_end ∷ [])
      then_ print (codes "First few bytes of module:\n") []
      then_ repeat 16 0
          (λ i. print (codes "0x%x ") (word (sign_extend (mc.memory (image.mod_start + i))) ∷ []))
      then_ find_filesystem image
      then_ print (codes "\n") []

  -- The maps from an address up to the end, with `fuel` of them at most.
  unfoldable pub show_maps : ℕ → ℕ → ℕ → Step
  show_maps zero end mmap b = if ltb mmap end then none else some b
  show_maps (suc fuel) end mmap b =
      let map = mc.maps mmap in
      elim (ltb mmap end) [
        | false ↦ some b
        | true ↦
            (print
                  (codes
                    " size = 0x%x,     base_addr = 0x%#x%#x\n     type = 0x%x,  length    = 0x%#x%#x\n")
                  (word map.size
                    ∷ word map.base_addr_high
                    ∷ word map.base_addr_low
                    ∷ word map.type
                    ∷ word map.length_high
                    ∷ word map.length_low
                    ∷ [])
                then_ show_maps fuel end (add32 mmap (map.size + 4)))
              b
      ]

  unfoldable pub show_mmap : MultibootInfo → ℕ → Step
  show_mmap mbi fuel =
      print (codes "mmap_addr = 0x%#x, mmap_length = 0x%x\n")
        (word mbi.mmap_addr ∷ word mbi.mmap_length ∷ [])
      then_ show_maps fuel (add32 mbi.mmap_addr mbi.mmap_length) mbi.mmap_addr

  -- The report up to the test of bits 4 and 5.
  unfoldable pub show_info : MultibootInfo → Step
  show_info mbi =
      print (codes "flags = 0x%#x\n") (word mbi.flags ∷ [])
      then_ when (check_flag mbi.flags 0) (
          print (codes "mem_lower = %uKB, mem_upper = %uKB\n")
            (word mbi.mem_lower ∷ word mbi.mem_upper ∷ []))
      then_ when (check_flag mbi.flags 1)
          (print (codes "boot_device = 0x%#x\n") (word mbi.boot_device ∷ []))
      then_ when (check_flag mbi.flags 2) (print (codes "cmdline = %s\n") (string mbi.cmdline ∷ []))
      then_ when (check_flag mbi.flags 3) (repeat mbi.mods_count 0 show_module)

  unfoldable pub show_elf : MultibootInfo → Step
  show_elf mbi =
      print (codes "elf_sec: num = %u, size = 0x%#x, addr = 0x%#x, shndx = 0x%#x\n")
        (word mbi.elf_num ∷ word mbi.elf_size ∷ word mbi.elf_addr ∷ word mbi.elf_shndx ∷ [])

  -- The LDT and the TSS, all initialisations, the last message and the cleared screen.
  unfoldable pub set_up : Step
  set_up b =
      let segments : Boot = record b {
        ldt_desc = ldt_segment mc.ldt mc.ldt_size;
        tss_desc = tss_segment mc.tss mc.tss_size;
        kernel = record b.kernel { tss_esp0 = 0x800000 };
      } in
      elim (print (codes "Enabling Interrupts\n") []
        (all_inits mc.handlers mc.tables mc.prev_b mc.prev_a segments)) [
          | none ↦ none
          | some b' ↦ some (with_screen (clear b'.kernel.curr_terminal b'.kernel.screen) b')
        ]

  -- execute("shell")
  unfoldable pub first_program : Boot → Option Start
  first_program b = elim (execute mc.stack mc.blank (some shell) b.kernel) [
    | none ↦ none
    | some (o, k) ↦ some (executed o (record b { kernel = k }))
  ]

  unfoldable pub entry : ℕ → ℕ → MultibootInfo → Boot → Option Start
  entry fuel magic mbi b =
      let cleared : Boot = with_screen (clear b.kernel.curr_terminal b.kernel.screen) b in
      if magic != multiboot_bootloader_magic
      then elim (print (codes "Invalid magic number: 0x%#x\n") (word magic ∷ []) cleared) [
        | none ↦ none
        | some b' ↦ some (gave_up b')
      ]
      else elim (show_info mbi cleared) [
        | none ↦ none
        | some b1 ↦
            if check_flag mbi.flags 4 && check_flag mbi.flags 5
            then elim (print (codes "Both bits 4 and 5 are set.\n") [] b1) [
              | none ↦ none
              | some b' ↦ some (gave_up b')
            ]
            else elim ((when (check_flag mbi.flags 5) (show_elf mbi)
                  then_ when (check_flag mbi.flags 6) (show_mmap mbi fuel)
                  then_ set_up)
                b1) [ none ↦ none | some b2 ↦ first_program b2 ]
      ]
