-- ===== src/Kernel/Drivers/Keeps.antt =====
-- The drivers leave the processes alone.
use linux_base_operating_sys.Prelude.{
  ℕ, ◌==◌, fill, Bool, ltb, leb, List, [], ◌∷◌, refl, arith, subst, Option-cases, inl, inr, either,
}
use linux_base_operating_sys.Prelude.Int.{ℤ, pos, negsuc, minus_one, uint32}
use linux_base_operating_sys.Fs.{Dentry, read_data}
use linux_base_operating_sys.Rtc.{rtc_read}
use linux_base_operating_sys.Fd.{
  Driver, rtc, filesys, dir, Fd, get_fd_index, get_file_position, get_inode_ptr, add_offset,
  close_fd,
}
use linux_base_operating_sys.Kernel.{Kernel, M, ◌>>◌, ret, running, deref}
use linux_base_operating_sys.Kernel.Calls.Agree.{Leads, Leads-map, Agree, same, Agree-trans}
use linux_base_operating_sys.Kernel.Drivers.{
  name_part, table, put_table, take_fd, release_fd, set_rate, rtc_open, rtc_write, rtc_close,
  dir_open, dir_read, dir_write, file_open, file_read, file_write, terminal_write, stdout_read,
  keyboard_wait, keyboard_read, clock_read,
}
use linux_base_operating_sys.Kernel.Drivers.Rules.{
  Keeps, Keeps-ret, Keeps-bind, Keeps-then, Keeps-if, unchanged, Keeps-complain,
}

pub Keeps-running : Keeps running
unfolding running
Keeps-running k = elim (Option-cases (deref (k.current_process k.curr_terminal) k)) [
  | inl e ↦ rw (e, running) tt
  | inr (i, e) ↦ rw (e, running) (same k)
]

pub Keeps-table : Keeps table
unfolding table
Keeps-table k = elim (Option-cases (running k)) [
  | inl e ↦ rw (e, table) tt
  | inr ((p, k1), e) ↦ rw (e, table) (same k)
]

Keeps-put_table : (t : ℕ → Fd) → Keeps (put_table t)
unfolding put_table
Keeps-put_table t k = elim (Option-cases (running k)) [
  | inl e ↦ rw (e, put_table) tt
  | inr ((p, k1), e) ↦
      rw (e, put_table)
        record {
          terminal = refl;
          current = refl;
          slots = refl;
          blocks = λ j. record { pointer = refl; number = ground arith; parent = ground arith };
        }
]

Keeps-put : {B : Type 0} (t : ℕ → Fd) (b : B) → Keeps (put_table t >> ret b)
Keeps-put t b = Keeps-then (put_table t) (ret b) (Keeps-put_table t) (Keeps-ret b)

Keeps-index :
    {B : Type 0} (z : ℤ) (f g : ℕ → M B)
    → ((n : ℕ) → Keeps (f n))
    → ((n : ℕ) → Keeps (g n))
    → Keeps (elim z [ negsuc n ↦ f n | pos i ↦ g i ])
Keeps-index (pos i) f g h e = e i
Keeps-index (negsuc n) f g h e = h n

Keeps-take_fd :
    (driver : Driver) (inode : ℤ) (message : List ℕ) → Keeps (take_fd driver inode message)
unfolding take_fd
Keeps-take_fd driver inode message = Keeps-bind table _ Keeps-table (λ t.
    Keeps-index (get_fd_index t) _ _ (λ n. Keeps-complain message minus_one)
      (λ i. Keeps-put _ (pos i)))

pub Keeps-release_fd : (fd : ℤ) → Keeps (release_fd fd)
unfolding release_fd
Keeps-release_fd fd = Keeps-bind table _ Keeps-table (λ t. Keeps-put (close_fd fd t) (pos 0))

Keeps-set_rate : (prev_data frequency : ℕ) → Keeps (set_rate prev_data frequency)
unfolding set_rate
Keeps-set_rate prev_data frequency k = unchanged refl refl refl refl refl

pub Keeps-rtc_open : (prev_data : ℕ) → Keeps (rtc_open prev_data)
unfolding rtc_open
Keeps-rtc_open prev_data =
    Keeps-then _ _ (Keeps-set_rate prev_data 2) (Keeps-take_fd rtc minus_one _)

pub Keeps-rtc_write : (prev_data : ℕ) (buf : ℕ → ℕ) → Keeps (rtc_write prev_data buf)
unfolding rtc_write
Keeps-rtc_write prev_data buf = Keeps-then _ _ (Keeps-set_rate prev_data _) (Keeps-ret (pos 0))

pub Keeps-rtc_close : (fd : ℤ) → Keeps (rtc_close fd)
unfolding rtc_close
Keeps-rtc_close (negsuc n) = Keeps-complain _ minus_one
Keeps-rtc_close (pos i) =
    Keeps-if (ltb i 2) _ _ (Keeps-complain _ minus_one)
      (Keeps-if (ltb 8 i) _ _ (Keeps-complain _ minus_one) (Keeps-release_fd (pos i)))

pub Keeps-dir_open : Keeps dir_open
unfolding dir_open
Keeps-dir_open = Keeps-take_fd dir minus_one _

pub Keeps-dir_read : (fd : ℤ) (buf : ℕ → ℕ) (nbytes : ℤ) → Keeps (dir_read fd buf nbytes)
unfolding dir_read
Keeps-dir_read fd buf nbytes k = elim (Option-cases (table k)) [
  | inl e ↦ rw (e, dir_read) tt
  | inr ((t, k1), e) ↦ elim (Option-cases (get_file_position fd t)) [
    | inl f ↦ rw (e, f, dir_read) tt
    | inr (i, f) ↦
        rw (e, f, dir_read)
          (either (Leads (λ a k'. Agree k k')) (leb k.fs.num_entries i) (λ _. same k)
            (λ _.
              let n = name_part (k.fs.entries i).file_name nbytes in
              Keeps-put (add_offset fd 1 t) (pos n, fill n (k.fs.entries i).file_name buf) k))
  ]
]

pub Keeps-file_open : (my_dentry : Dentry) (filename : ℕ → ℕ) → Keeps (file_open my_dentry filename)
unfolding file_open
Keeps-file_open my_dentry filename k = Keeps-take_fd filesys _ _ k

pub Keeps-file_read : (fd : ℤ) (buf : ℕ → ℕ) (nbytes : ℤ) → Keeps (file_read fd buf nbytes)
unfolding file_read
Keeps-file_read fd buf nbytes k = elim (Option-cases (table k)) [
  | inl e ↦ rw (e, file_read) tt
  | inr ((t, k1), e) ↦ elim (Option-cases (get_file_position fd t)) [
    | inl f ↦ rw (e, f, file_read) tt
    | inr (position, f) ↦
        rw (e, f, file_read)
          (either (Leads (λ a k'. Agree k k'))
            (ltb 0 (
              uint32 (read_data k.fs (uint32 (get_inode_ptr fd t)) position buf (uint32 nbytes)).0))
            (λ _.
              let r = read_data k.fs (uint32 (get_inode_ptr fd t)) position buf (uint32 nbytes) in
              Keeps-put (add_offset fd (uint32 r.0) t) r k)
            (λ _. same k))
  ]
]

pub Keeps-file_write : Keeps file_write
unfolding file_write
Keeps-file_write = Keeps-complain _ minus_one

pub Keeps-dir_write : Keeps dir_write
unfolding dir_write
Keeps-dir_write = Keeps-complain _ minus_one

pub Keeps-terminal_write : (buf : ℕ → ℕ) (nbytes : ℤ) → Keeps (terminal_write buf nbytes)
unfolding terminal_write
Keeps-terminal_write buf nbytes k = unchanged refl refl refl refl refl

pub Keeps-stdout_read : (buf : ℕ → ℕ) (nbytes : ℤ) → Keeps (stdout_read buf nbytes)
unfolding stdout_read
Keeps-stdout_read buf nbytes k = unchanged refl refl refl refl refl

pub Keeps-clock_read : (ticks : List Bool) (buf : ℕ → ℕ) → Keeps (clock_read ticks buf)
unfolding clock_read
Keeps-clock_read ticks buf k = elim (Option-cases (rtc_read ticks k.rtc)) [
  | inl e ↦ rw (e, clock_read) tt
  | inr (r, e) ↦ rw (e, clock_read) (unchanged refl refl refl refl refl)
]

-- The interrupts during a wait leave the processes alone.
abbrev pub AllKeep : List (M (Unit {0})) → Type 0
AllKeep [] = Unit
AllKeep (w ∷ waits) = Keeps w × AllKeep waits

Keeps-keyboard_wait :
    (waits : List (M (Unit {0}))) (buf : ℕ → ℕ) (nbytes : ℤ)
    → AllKeep waits
    → Keeps (keyboard_wait waits buf nbytes)
unfolding keyboard_wait
Keeps-keyboard_wait [] buf nbytes h k = tt
Keeps-keyboard_wait (w ∷ waits) buf nbytes (h, more) k = elim (Option-cases (w k)) [
  | inl e ↦ rw (e, keyboard_wait) tt
  | inr ((u, k1), e) ↦
      let a : Agree k k1 = subst (Leads (λ _ k'. Agree k k')) e (h k) in
      rw (e, keyboard_wait)
        (either (Leads (λ r k'. Agree k k')) (k1.keyboard.kbdr_flag == 1) (λ _. a)
          (λ _.
            Leads-map (λ r k'. Agree k1 k') (λ r k'. Agree k k') (keyboard_wait waits buf nbytes k1)
              (λ r k' b. Agree-trans a b) (Keeps-keyboard_wait waits buf nbytes more k1)))
]

pub Keeps-keyboard_read :
    (waits : List (M (Unit {0}))) (buf : ℕ → ℕ) (nbytes : ℤ)
    → AllKeep waits
    → Keeps (keyboard_read waits buf nbytes)
unfolding keyboard_read
Keeps-keyboard_read waits buf nbytes h k =
    let k0 : Kernel = record k { keyboard = record k.keyboard { kbdr_flag = 0 } } in
    Leads-map (λ r k'. Agree k0 k') (λ r k'. Agree k k') (keyboard_wait waits buf nbytes k0)
      (λ r k' b. Agree-trans (unchanged refl refl refl refl refl) b)
      (Keeps-keyboard_wait waits buf nbytes h k0)
