-- ===== src/Boot/Started.antt =====
-- How `entry` of student-distrib/kernel.c ends.
use linux_base_operating_sys.Prelude.{
  ℕ, ◌+◌, ◌*◌, ◌^◌, ◌≤◌, ◌<◌, ◌≡◌, ◌⊎◌, Bool, true, false, ◌&&◌, ◌!=◌, some, [], ◌∷◌, refl, arith,
  Bool-cases, inl, inr,
}
use linux_base_operating_sys.Screen.{Screen, clear}
use linux_base_operating_sys.Fs.{Fs}
use linux_base_operating_sys.Printf.{word}
use linux_base_operating_sys.Printf.Check.{formed}
use linux_base_operating_sys.Kernel.{codes}
use linux_base_operating_sys.Kernel.Process.{pc_init, terminal_init}
use linux_base_operating_sys.Boot.{Boot, all_inits, rtc_init, pit_init, keyboard_init}
use linux_base_operating_sys.Boot.Segments.{ldt_segment, tss_segment}
use linux_base_operating_sys.Boot.Ready.{Ready, all_inits-Ready}
use linux_base_operating_sys.Boot.Entry.{
  MultibootInfo, Machine, gave_up, multiboot_bootloader_magic, entry, first_program, set_up,
  check_flag, ◌then_◌,
}
use linux_base_operating_sys.Boot.Report.{
  with, Reports, Words32, print-Reports, then-Reports, when-Reports, show_info-Reports,
  show_elf-Reports, show_mmap-Reports,
}

-- The map of memory ends before the address space does, and `fuel` rounds of its loop reach the end.
pub record MapEnds (mc : Machine) (mbi : MultibootInfo) (fuel : ℕ) : Type 0 where
  pub enough : mbi.mmap_length ≤ 4 * fuel
  pub inside : mbi.mmap_addr + mbi.mmap_length < 2 ^ 32
  pub room : (a : ℕ) → a < mbi.mmap_addr + mbi.mmap_length → a + (mc.maps a).size + 4 < 2 ^ 32

Ready-with :
    (mc : Machine) (s : Screen) (fs : Fs) (b : Boot)
    → Ready mc.handlers b
    → Ready mc.handlers (with s fs b)
Ready-with mc s fs b r = record {
  gates = r.gates;
  lines = r.lines;
  raised = r.raised;
  served = r.served;
  no_process = r.no_process;
  no_current = r.no_current;
  slots = r.slots;
  no_line = r.no_line;
  first_terminal = r.first_terminal;
}

other_way : {x y : Bool} → x ≡ false → (x ≡ true) ⊎ (y ≡ true) → y ≡ true
other_way f (inl e) = absurd (ground (arith, f, e))
other_way f (inr e) = e

module _ (mc : Machine) (fuel : ℕ) (mbi : MultibootInfo) (w : Words32 mc mbi) where
  segments : Boot → Boot
  segments b = record b {
    ldt_desc = ldt_segment mc.ldt mc.ldt_size;
    tss_desc = tss_segment mc.tss mc.tss_size;
    kernel = record b.kernel { tss_esp0 = 0x800000 };
  }

  initialised : Boot → Boot
  unfolding segments
  initialised b = all_inits mc.handlers mc.tables mc.prev_b mc.prev_a (segments b)

  stack_kept : (b : Boot) → (initialised b).kernel.tss_esp0 ≡ 0x800000
  unfolding initialised segments all_inits rtc_init pit_init keyboard_init pc_init terminal_init
  stack_kept b = refl

  set_up-Ready :
      (b : Boot)
      → (b' : Boot) × (set_up mc b ≡ some b')
        × Ready mc.handlers b'
        × (b'.kernel.tss_esp0 ≡ 0x800000)
  unfolding set_up formed Reports initialised segments
  set_up-Ready b =
      let (s, fs, e) =
        print-Reports mc (codes "Enabling Interrupts\n") [] refl tt (initialised b) in
      (
        with (clear (initialised b).kernel.curr_terminal s) fs (initialised b),
        rw (e, set_up) refl,
        Ready-with mc (clear (initialised b).kernel.curr_terminal s) fs (initialised b)
            (all_inits-Ready mc.handlers mc.tables mc.prev_b mc.prev_a (segments b)),
        stack_kept b,
      )

  -- An entry with another magic number than the boot loader's, or with both formats of symbols
  -- announced, prints its report and returns: it changes at most the screen and the file system.
  pub entry-Refuses :
      (magic : ℕ) (b : Boot)
      → magic < 2 ^ 32
      → ((magic != multiboot_bootloader_magic) ≡ true)
        ⊎ ((check_flag mbi.flags 4 && check_flag mbi.flags 5) ≡ true)
      → (s : Screen) × (fs : Fs) × (entry mc fuel magic mbi b ≡ some (gave_up (with s fs b)))
  unfolding entry formed Reports
  entry-Refuses magic b word32 why =
      let cleared = with (clear b.kernel.curr_terminal b.kernel.screen) b.kernel.fs b in
      let (s1, fs1, e1) =
        print-Reports mc (codes "Invalid magic number: 0x%#x\n") (word magic ∷ []) refl (word32, tt)
          cleared in
      let (s2, fs2, e2) = show_info-Reports mc mbi w cleared in
      let (s3, fs3, e3) =
        print-Reports mc (codes "Both bits 4 and 5 are set.\n") [] refl tt (with s2 fs2 b) in
      elim (Bool-cases (magic != multiboot_bootloader_magic)) [
        | inl other ↦ (s1, fs1, rw (other, e1, entry) refl)
        | inr right ↦
            let both : (check_flag mbi.flags 4 && check_flag mbi.flags 5) ≡ true =
              other_way right why in
            (s3, fs3, rw (right, e2, both, e3, entry) refl)
      ]

  -- With the boot loader's magic number, at most one format of symbols announced, numbers of 32 bits
  -- and a map of memory that ends, `entry` comes to the end
  -- of its report and of all the initialisations, and executes the first program in a state that
  -- is ready for it, with the stack of the kernel at its fixed address.
  pub entry-Executes :
      (b : Boot)
      → (check_flag mbi.flags 4 && check_flag mbi.flags 5) ≡ false
      → MapEnds mc mbi fuel
      → (b' : Boot) × (entry mc fuel multiboot_bootloader_magic mbi b ≡ first_program mc b')
        × Ready mc.handlers b'
        × (b'.kernel.tss_esp0 ≡ 0x800000)
  unfolding entry formed Reports ◌then_◌
  entry-Executes b one ends =
      let cleared = with (clear b.kernel.curr_terminal b.kernel.screen) b.kernel.fs b in
      let (s1, fs1, e1) = show_info-Reports mc mbi w cleared in
      let (s2, fs2, e2) =
        then-Reports _ _ (when-Reports (check_flag mbi.flags 5) _ (show_elf-Reports mc mbi w))
          (when-Reports (check_flag mbi.flags 6) _
            (show_mmap-Reports mc mbi w fuel ends.enough ends.inside ends.room))
          (with s1 fs1 b) in
      let (b', e3, ready, esp0) = set_up-Ready (with s2 fs2 b) in
      (b', rw (e1, one, e2, e3, entry) refl, ready, esp0)
