-- ===== src/Boot/Report.antt =====
-- The report that `entry` of student-distrib/kernel.c prints changes the screen, and where a module
-- holds the image of the file system, the file system.
use linux_base_operating_sys.Prelude.{
  ℕ, zero, suc, ◌+◌, ◌*◌, ◌^◌, ◌≤◌, ◌<◌, ◌≡◌, Bool, true, false, ltb, some, List, [], ◌∷◌, add32,
  refl, arith, Bool-cases, ltb-false, ltb→lt, inl, inr, either,
}
use linux_base_operating_sys.Screen.{Screen, puts}
use linux_base_operating_sys.Prelude.Int.{is_zero}
use linux_base_operating_sys.Strings.{strncmp}
use linux_base_operating_sys.Kernel.{codes}
use linux_base_operating_sys.Fs.{Fs, filesystem_init}
use linux_base_operating_sys.Printf.{Arg, word, plain}
use linux_base_operating_sys.Printf.Text.{printf-Shows}
use linux_base_operating_sys.Printf.Check.{formed, formed-Formed, Words}
use linux_base_operating_sys.Boot.{Boot}
use linux_base_operating_sys.Boot.Entry.{
  MultibootInfo, Module, Machine, Step, ◌then_◌, when, repeat, print, find_filesystem, show_module,
  show_maps, show_mmap, show_info, show_elf, sign_extend, filesys_name,
}

abbrev pub with : Screen → Fs → Boot → Boot
with s fs b = record b { kernel = record b.kernel { screen = s; fs = fs } }

-- A step that does not fault and changes at most the screen and the file system.
unfoldable pub Reports : Step → Type 0
Reports f = (b : Boot) → (s : Screen) × (fs : Fs) × (f b ≡ some (with s fs b))

pub then-Reports : (f g : Step) → Reports f → Reports g → Reports (f then_ g)
unfolding Reports ◌then_◌
then-Reports f g rf rg b =
    let (s, fs, e) = rf b in let (s', fs', e') = rg (with s fs b) in (s', fs', rw (e, ◌then_◌) e')

pub when-Reports : (c : Bool) (f : Step) → Reports f → Reports (when c f)
unfolding Reports when
when-Reports true f r b = r b
when-Reports false f r b = (b.kernel.screen, b.kernel.fs, refl)

repeat-Reports :
    (n from : ℕ) (f : ℕ → Step)
    → ((i : ℕ) → from ≤ i → i < from + n → Reports (f i))
    → Reports (repeat n from f)
unfolding Reports repeat
repeat-Reports zero from f r b = (b.kernel.screen, b.kernel.fs, refl)
repeat-Reports (suc n) from f r b =
    let (s, fs, e) = r from (omega arith) (omega arith) b in
    let (s', fs', e') =
      repeat-Reports n (suc from) f (λ i a l. r i (omega arith) (omega arith)) (with s fs b) in
    (s', fs', rw (e, repeat) e')

-- What the boot loader passes are words and bytes.
pub record Words32 (mc : Machine) (mbi : MultibootInfo) : Type 0 where
  pub info : Words (
      word mbi.flags
      ∷ word mbi.mem_lower
      ∷ word mbi.mem_upper
      ∷ word mbi.boot_device
      ∷ word mbi.mods_count
      ∷ word mbi.mmap_addr
      ∷ word mbi.mmap_length
      ∷ [])
  pub elf :
      Words (word mbi.elf_num ∷ word mbi.elf_size ∷ word mbi.elf_addr ∷ word mbi.elf_shndx ∷ [])
  pub modules : (i : ℕ) → Words (word (mc.modules i).mod_start ∷ word (mc.modules i).mod_end ∷ [])
  pub maps :
      (a : ℕ)
      → Words (
          word (mc.maps a).size
          ∷ word (mc.maps a).base_addr_high
          ∷ word (mc.maps a).base_addr_low
          ∷ word (mc.maps a).type
          ∷ word (mc.maps a).length_high
          ∷ word (mc.maps a).length_low
          ∷ [])
  pub bytes : (a : ℕ) → mc.memory a < 256

module _ (mc : Machine) where
  pub print-Reports :
      (format : List ℕ) (esp : List Arg)
      → formed format plain esp ≡ true
      → Words esp
      → Reports (print mc format esp)
  unfolding Reports print
  print-Reports format esp fits words b =
      let (text, e, d) =
        printf-Shows mc.stack b.kernel.curr_terminal format esp b.kernel.screen
          (formed-Formed format plain esp fits words) in
      (puts b.kernel.curr_terminal b.kernel.screen text, b.kernel.fs, rw (e, print) refl)

  find_filesystem-Reports : (m : Module) → Reports (find_filesystem mc m)
  unfolding Reports find_filesystem
  find_filesystem-Reports m b =
      either (λ o. (s : Screen) × (fs : Fs) × (o ≡ some (with s fs b)))
        (is_zero (strncmp (λ j. mc.memory (m.name + j)) filesys_name 12))
        (λ e.
          (b.kernel.screen, filesystem_init (λ j. mc.memory (m.mod_start + j)) mc.old_count, refl))
        (λ e. (b.kernel.screen, b.kernel.fs, refl))

  module _ (mbi : MultibootInfo) (w : Words32 mc mbi) where
    show_byte-Reports :
        (a : ℕ) → Reports (print mc (codes "0x%x ") (word (sign_extend (mc.memory a)) ∷ []))
    unfolding formed
    show_byte-Reports a =
        let small : sign_extend (mc.memory a) < 2 ^ 32 = ground (arith, w.bytes a) in
        print-Reports (codes "0x%x ") (word (sign_extend (mc.memory a)) ∷ []) refl (small, tt)

    show_module-Reports : (i : ℕ) → i < 2 ^ 32 → Reports (show_module mc i)
    unfolding show_module formed
    show_module-Reports i lt =
        let m = mc.modules i in
        let (start, (stop, u)) = w.modules i in
        then-Reports _ _
          (then-Reports _ _
            (then-Reports _ _
              (then-Reports _ _
                (then-Reports _ _ (print-Reports _ _ refl (lt, (start, tt)))
                  (print-Reports _ _ refl (lt, (stop, tt))))
                (print-Reports _ _ refl tt))
              (repeat-Reports 16 0 _ (λ j from to. show_byte-Reports (m.mod_start + j))))
            (find_filesystem-Reports m))
          (print-Reports _ _ refl tt)

    pub show_info-Reports : Reports (show_info mc mbi)
    unfolding show_info formed
    show_info-Reports =
        let (flags, (lower, (upper, (device, (count, u))))) = w.info in
        then-Reports _ _
          (then-Reports _ _
            (then-Reports _ _
              (then-Reports _ _ (print-Reports _ _ refl (flags, tt))
                (when-Reports _ _ (print-Reports _ _ refl (lower, (upper, tt)))))
              (when-Reports _ _ (print-Reports _ _ refl (device, tt))))
            (when-Reports _ _ (print-Reports _ _ refl tt)))
          (when-Reports _ _ (
            repeat-Reports mbi.mods_count 0 (show_module mc)
              (λ i from to. show_module-Reports i (omega (arith, to, count)))))

    pub show_elf-Reports : Reports (show_elf mc mbi)
    unfolding show_elf formed
    show_elf-Reports = print-Reports _ _ refl w.elf

    -- The maps are within the memory: `fuel` steps of at least four bytes reach the end.
    show_maps-Reports :
        (fuel end mmap : ℕ)
        → end ≤ mmap + 4 * fuel
        → ((a : ℕ) → a < end → a + (mc.maps a).size + 4 < 2 ^ 32)
        → Reports (show_maps mc fuel end mmap)
    unfolding show_maps Reports formed
    show_maps-Reports zero end mmap enough room b =
        rw (ltb-false mmap end (omega (arith, enough)), show_maps)
          (b.kernel.screen, b.kernel.fs, refl)
    show_maps-Reports (suc fuel) end mmap enough room b = elim (Bool-cases (ltb mmap end)) [
      | inl e ↦
          let size = (mc.maps mmap).size in
          let lt = ltb→lt mmap end e in
          let further : end ≤ add32 mmap (size + 4) + 4 * fuel =
            omega (arith, room mmap lt, enough) in
          let rest = show_maps-Reports fuel end (add32 mmap (size + 4)) further room in
          rw (e, show_maps) (then-Reports _ _ (print-Reports _ _ refl (w.maps mmap)) rest b)
      | inr e ↦ rw (e, show_maps) (b.kernel.screen, b.kernel.fs, refl)
    ]

    pub show_mmap-Reports :
        (fuel : ℕ)
        → mbi.mmap_length ≤ 4 * fuel
        → mbi.mmap_addr + mbi.mmap_length < 2 ^ 32
        → ((a : ℕ) → a < mbi.mmap_addr + mbi.mmap_length → a + (mc.maps a).size + 4 < 2 ^ 32)
        → Reports (show_mmap mc mbi fuel)
    unfolding show_mmap formed
    show_mmap-Reports fuel enough inside room =
        let (a, (b, (c, (d, (e, (addr, (len, u))))))) = w.info in
        let end : add32 mbi.mmap_addr mbi.mmap_length ≡ mbi.mmap_addr + mbi.mmap_length =
          omega (arith, inside) in
        then-Reports _ _ (print-Reports _ _ refl (addr, (len, tt))) (
          rw end (
            show_maps-Reports fuel (mbi.mmap_addr + mbi.mmap_length) mbi.mmap_addr
              (omega (arith, enough)) room))
