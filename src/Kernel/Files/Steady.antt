-- ===== src/Kernel/Files/Steady.antt =====
-- The system calls on descriptors, arguments and video memory leave the processes alone.
use linux_base_operating_sys.Prelude.{
  ℕ, ◌==◌, ltb, leb, if◌then◌else◌, Option, some, none, refl, Option-cases, inl, inr, either,
}
use linux_base_operating_sys.Prelude.Int.{ℤ, pos, negsuc, minus_one, uint32}
use linux_base_operating_sys.Fs.{Dentry, read_dentry_by_name}
use linux_base_operating_sys.Fd.{Driver, rtc, filesys, dir, term, kybd, check_valid_fd}
use linux_base_operating_sys.Paging.{Tables}
use linux_base_operating_sys.Kernel.{Kernel, ret, running, codes}
use linux_base_operating_sys.Kernel.Calls.Agree.{Leads, Agree, same}
use linux_base_operating_sys.Kernel.Drivers.{table, file_open, rtc_open, dir_open}
use linux_base_operating_sys.Kernel.Drivers.Keeps.{
  Keeps-table, Keeps-release_fd, Keeps-rtc_open, Keeps-rtc_write, Keeps-rtc_close, Keeps-dir_open,
  Keeps-dir_read, Keeps-file_open, Keeps-file_read, Keeps-file_write, Keeps-dir_write,
  Keeps-terminal_write, Keeps-stdout_read, Keeps-clock_read, AllKeep, Keeps-keyboard_read,
}
use linux_base_operating_sys.Kernel.Drivers.Rules.{
  Keeps, Keeps-ret, Keeps-bind, Keeps-if, Keeps-option, unchanged, Keeps-complain,
}
use linux_base_operating_sys.Kernel.Files.{
  Machine, valid, jump, read_by, write_by, close_by, read, write, sys_open, close, trim, fill_args,
  getargs, vidmap,
}

Keeps-valid : (fd : ℤ) → Keeps (valid fd)
unfolding valid
Keeps-valid (negsuc n) = Keeps-ret {A = ℕ} 0
Keeps-valid (pos i) =
    Keeps-if (leb 8 i) (ret 0) _ (Keeps-ret {A = ℕ} 0)
      (Keeps-bind table _ Keeps-table (λ t. Keeps-ret (check_valid_fd (pos i) t)))

Keeps-jump : (fd : ℤ) → Keeps (jump fd)
unfolding jump
Keeps-jump (negsuc n) k = tt
Keeps-jump (pos i) k = elim (Option-cases (table k)) [
  | inl e ↦ rw (e, jump) tt
  | inr ((t, k1), e) ↦ elim (Option-cases (t i).fd_jump) [
    | inl f ↦ rw (e, f, jump) tt
    | inr (d, f) ↦ rw (e, f, jump) (same k)
  ]
]

Keeps-read_by :
    (m : Machine) (d : Driver) (fd : ℤ) (buf : ℕ → ℕ) (nbytes : ℤ)
    → AllKeep m.waits
    → Keeps (read_by m d fd buf nbytes)
Keeps-read_by m rtc fd buf nbytes h = Keeps-clock_read m.ticks buf
Keeps-read_by m filesys fd buf nbytes h = Keeps-file_read fd buf nbytes
Keeps-read_by m dir fd buf nbytes h = Keeps-dir_read fd buf nbytes
Keeps-read_by m term fd buf nbytes h = Keeps-stdout_read buf nbytes
Keeps-read_by m kybd fd buf nbytes h = Keeps-keyboard_read m.waits buf nbytes h

Keeps-write_by :
    (m : Machine) (d : Driver) (buf : ℕ → ℕ) (nbytes : ℤ) → Keeps (write_by m d buf nbytes)
Keeps-write_by m rtc buf nbytes = Keeps-rtc_write m.prev_data buf
Keeps-write_by m filesys buf nbytes = Keeps-file_write
Keeps-write_by m dir buf nbytes = Keeps-dir_write
Keeps-write_by m term buf nbytes = Keeps-terminal_write buf nbytes
Keeps-write_by m kybd buf nbytes = Keeps-ret minus_one

Keeps-close_by : (d : Driver) (fd : ℤ) → Keeps (close_by d fd)
Keeps-close_by rtc fd = Keeps-rtc_close fd
Keeps-close_by filesys fd = Keeps-release_fd fd
Keeps-close_by dir fd = Keeps-release_fd fd
Keeps-close_by term fd = Keeps-ret minus_one
Keeps-close_by kybd fd = Keeps-ret minus_one

pub Keeps-read :
    (m : Machine) (fd : ℤ) (buf : Option (ℕ → ℕ)) (nbytes : ℤ)
    → AllKeep m.waits
    → Keeps (read m fd buf nbytes)
unfolding read
Keeps-read m fd buf nbytes h = Keeps-bind (valid fd) _ (Keeps-valid fd) (λ ok.
    Keeps-if (ok == 0) _ _ (Keeps-complain _ (minus_one, buf)) (
      Keeps-option buf _ _ (Keeps-ret {A = ℤ × Option (ℕ → ℕ)} (minus_one, none)) (λ b.
        Keeps-bind (jump fd) _ (Keeps-jump fd) (λ d.
          Keeps-bind _ _ (Keeps-read_by m d fd b nbytes h)
            (λ r. Keeps-ret {A = ℤ × Option (ℕ → ℕ)} (r.0, some r.1))))))

pub Keeps-write :
    (m : Machine) (fd : ℤ) (buf : Option (ℕ → ℕ)) (nbytes : ℤ) → Keeps (write m fd buf nbytes)
unfolding write
Keeps-write m fd buf nbytes = Keeps-bind (valid fd) _ (Keeps-valid fd) (λ ok.
    Keeps-if (ok == 0) _ _ (Keeps-complain _ minus_one) (
      Keeps-option buf _ _ (Keeps-ret minus_one)
        (λ b. Keeps-bind (jump fd) _ (Keeps-jump fd) (λ d. Keeps-write_by m d b nbytes))))

pub Keeps-close : (fd : ℤ) → Keeps (close fd)
unfolding close
Keeps-close fd = Keeps-bind (valid fd) _ (Keeps-valid fd) (λ ok.
    Keeps-if (ok == 0) _ _ (Keeps-complain _ minus_one)
      (Keeps-bind (jump fd) _ (Keeps-jump fd) (λ d. Keeps-close_by d fd)))

pub Keeps-sys_open : (m : Machine) (filename : Option (ℕ → ℕ)) → Keeps (sys_open m filename)
unfolding sys_open
Keeps-sys_open m none k = Keeps-complain (codes "invalid pointer, sys_open\n") minus_one k
Keeps-sys_open m (some filename) k = opened (read_dentry_by_name k.fs filename m.blank)
  where
    opened :
        (r : ℤ × Dentry)
        → Leads
            (λ a k'. Agree k k')
            (elim r.0 [
              | negsuc n ↦ some (minus_one, k)
              | pos n ↦
                  if r.1.file_type == 0
                  then rtc_open m.prev_data k
                  else if r.1.file_type == 1
                  then dir_open k
                  else file_open m.blank filename k
            ])
    opened (negsuc n, d) = same k
    opened (pos n, d) =
        either (Leads (λ a k'. Agree k k')) (d.file_type == 0) (λ _. Keeps-rtc_open m.prev_data k)
          (λ _.
            either (Leads (λ a k'. Agree k k')) (d.file_type == 1) (λ _. Keeps-dir_open k)
              (λ _. Keeps-file_open m.blank filename k))

pub Keeps-getargs : (buf : Option (ℕ → ℕ)) (nbytes : ℤ) → Keeps (getargs buf nbytes)
unfolding getargs
Keeps-getargs none nbytes k = same k
Keeps-getargs (some buf) nbytes k = elim (Option-cases (running k)) [
  | inl e ↦ rw (e, getargs) tt
  | inr ((p, k1), e) ↦
      let n = uint32 nbytes in
      let filled = fill_args (k.pcbs p).args n buf in
      elim (Option-cases (trim n filled)) [
        | inl f ↦
            rw (e, f, getargs)
              (either (Leads (λ a k'. Agree k k')) (leb n 128) (λ _. same k) (λ _. tt))
        | inr (b, f) ↦
            rw (e, f, getargs)
              (either (Leads (λ a k'. Agree k k')) (leb n 128) (λ _. same k) (λ _. same k))
      ]
]

pub Keeps-vidmap : (at : Tables) (screen_start : Option ℕ) → Keeps (vidmap at screen_start)
unfolding vidmap
Keeps-vidmap at none k = Keeps-complain (codes "invalid pointer, vidmap\n") (minus_one, none) k
Keeps-vidmap at (some screen_start) k =
    let P : Option ((ℤ × Option ℕ) × Kernel) → Type 0 = Leads (λ a k'. Agree k k') in
    let wrong = Keeps-complain (codes "pointer out of range, vidmap\n") (minus_one, none) k in
    either P (ltb screen_start 0x08000000) (λ _. wrong)
      (λ _.
        either P (leb 0x08400000 screen_start) (λ _. wrong)
          (λ _. unchanged refl refl refl refl refl))
