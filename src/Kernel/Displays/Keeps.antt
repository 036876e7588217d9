-- ===== src/Kernel/Displays/Keeps.antt =====
-- The displays leave the processes alone.
use linux_base_operating_sys.Prelude.{
  ℕ, zero, suc, ◌+◌, ◌-◌, ◌/◌, ◌%◌, ◌^◌, ◌==◌, scan, Option-cases, inl, inr, List, [], ◌∷◌, refl,
}
use linux_base_operating_sys.Prelude.Int.{ℤ, pos, negsuc, is_zero, is_minus_one}
use linux_base_operating_sys.Strings.{is_nul}
use linux_base_operating_sys.Printf
use linux_base_operating_sys.Printf.{Arg, word}
use linux_base_operating_sys.Fs.{Dentry, read_dentry_by_index, get_num_entries, get_entry_name}
use linux_base_operating_sys.Kernel.{Kernel, M, ◌>>=◌, codes}
use linux_base_operating_sys.Kernel.Keys.{
  Request, nothing, terminal, file_test, rate_test, file_list,
}
use linux_base_operating_sys.Kernel.Drivers.Keeps.{
  Keeps-release_fd, Keeps-rtc_open, Keeps-rtc_write, Keeps-rtc_close, Keeps-dir_open,
  Keeps-dir_read, Keeps-file_open, Keeps-file_read, Keeps-terminal_write,
}
use linux_base_operating_sys.Kernel.Drivers.Rules.{
  Keeps, Keeps-ret, Keeps-bind, Keeps-then, Keeps-if, Keeps-printf, unchanged,
}
use linux_base_operating_sys.Kernel.Displays.{
  clear_screen, put_chars, spaces, bytes_of, printf_with, out_of_fuel, asks, print_entry,
  print_entries, print_file_info, print_name, print_pieces, print_file_text, test_file_data,
  print_freq, next_file, next_freq, show_request,
}

Keeps-clear : Keeps clear_screen
unfolding clear_screen
Keeps-clear k = unchanged refl refl refl refl refl

Keeps-put_chars : (cs : List ℕ) → Keeps (put_chars cs)
unfolding put_chars
Keeps-put_chars cs k = unchanged refl refl refl refl refl

Keeps-printf_with :
    (garbage : ℕ → ℕ) (format : List ℕ) (args : List Arg) → Keeps (printf_with garbage format args)
unfolding printf_with
Keeps-printf_with garbage format args k =
    elim (Option-cases (Printf.printf garbage k.curr_terminal format args k.screen)) [
      | inl e ↦ rw (e, printf_with) tt
      | inr ((n, s), e) ↦ rw (e, printf_with) (unchanged refl refl refl refl refl)
    ]

Keeps-out_of_fuel : (A : Type 0) → Keeps (out_of_fuel {A = A})
unfolding out_of_fuel
Keeps-out_of_fuel A k = tt

Keeps-asks : {A : Type 0} (f : Kernel → M A) → ((k : Kernel) → Keeps (f k)) → Keeps (asks f)
unfolding asks
Keeps-asks f h k = h k k

-- A call whose result is not looked at.
Keeps-drop : {A B : Type 0} (m : M A) (n : M B) → Keeps m → Keeps n → Keeps (m >>= λ a. n)
Keeps-drop m n h g = Keeps-bind m (λ a. n) h (λ a. g)

Keeps-sign :
    {B : Type 0} (z : ℤ) (f g : ℕ → M B)
    → ((n : ℕ) → Keeps (f n))
    → ((n : ℕ) → Keeps (g n))
    → Keeps (elim z [ negsuc n ↦ f n | pos i ↦ g i ])
Keeps-sign (pos i) f g h e = e i
Keeps-sign (negsuc n) f g h e = h n

Keeps-print_entry :
    (garbage : ℕ → ℕ) (d : Dentry) (buffer : ℕ → ℕ) (cnt : ℕ)
    → Keeps (print_entry garbage d buffer cnt)
unfolding print_entry
Keeps-print_entry garbage d buffer cnt = Keeps-then _ _ (Keeps-printf (codes "file name: ")) (
    Keeps-drop _ _ (Keeps-terminal_write buffer (pos cnt)) (
      Keeps-then _ _
        (Keeps-then _ _ (Keeps-put_chars (spaces cnt))
          (Keeps-printf_with garbage (codes "file type: %d ") (word d.file_type ∷ [])))
        (Keeps-asks _ (λ k.
          Keeps-printf_with garbage (codes "file size: %d\n")
            (word (k.fs.inodes d.inode_idx).file_size ∷ [])))))

Keeps-print_entries :
    (garbage : ℕ → ℕ) (n : ℕ) (fd : ℤ) (i : ℕ) (d : Dentry) (buffer : ℕ → ℕ)
    → Keeps (print_entries garbage n fd i d buffer)
unfolding print_entries
Keeps-print_entries garbage zero fd i d buffer = Keeps-out_of_fuel _
Keeps-print_entries garbage (suc n) fd i d buffer =
    Keeps-bind _ _ (Keeps-dir_read fd buffer (pos 32)) (λ r.
      Keeps-if (is_zero r.0) _ _ (Keeps-drop _ _ (Keeps-release_fd fd) (Keeps-ret tt)) (
        Keeps-asks _ (λ k.
          let dent = (read_dentry_by_index k.fs i d).1 in
          Keeps-sign r.0 _ _ (λ e. Keeps-drop _ _ (Keeps-release_fd fd) (Keeps-printf _))
            (λ cnt.
              Keeps-then _ _ (Keeps-print_entry garbage dent r.1 cnt)
                (Keeps-print_entries garbage n fd (i + 1) dent r.1)))))

Keeps-print_file_info :
    (garbage : ℕ → ℕ) (fuel : ℕ) (d : Dentry) (buffer : ℕ → ℕ)
    → Keeps (print_file_info garbage fuel d buffer)
unfolding print_file_info
Keeps-print_file_info garbage fuel d buffer =
    Keeps-then _ _ (Keeps-clear)
      (Keeps-bind _ _ Keeps-dir_open (λ fd. Keeps-print_entries garbage fuel fd 0 d buffer))

Keeps-print_name : (buf : ℕ → ℕ) (max_char : ℕ) → Keeps (print_name buf max_char)
unfolding print_name
Keeps-print_name buf max_char =
    let i = scan is_nul max_char buf 0 in Keeps-then _ _ (Keeps-put_chars _) (Keeps-ret i)

Keeps-print_pieces :
    (n : ℕ) (fd : ℤ) (buffer : ℕ → ℕ) (nbytes : ℤ) → Keeps (print_pieces n fd buffer nbytes)
unfolding print_pieces
Keeps-print_pieces zero fd buffer nbytes = Keeps-out_of_fuel _
Keeps-print_pieces (suc n) fd buffer nbytes =
    Keeps-bind _ _ (Keeps-file_read fd buffer nbytes) (λ r.
      Keeps-sign r.0 _ _ (λ e. Keeps-ret tt)
        (λ c.
          Keeps-if (c == 0) _ _ (Keeps-ret tt) (
            Keeps-drop _ _ (Keeps-terminal_write r.1 (pos c))
              (Keeps-print_pieces n fd r.1 nbytes))))

Keeps-print_file_text :
    (fuel : ℕ) (d : Dentry) (name buffer : ℕ → ℕ) (nbytes : ℤ)
    → Keeps (print_file_text fuel d name buffer nbytes)
unfolding print_file_text
Keeps-print_file_text fuel d name buffer nbytes = Keeps-bind _ _ (Keeps-file_open d name) (λ fd.
    Keeps-if (is_minus_one fd) _ _ (Keeps-printf _) (
      Keeps-then _ _ (Keeps-print_pieces fuel fd buffer nbytes) (
        Keeps-drop _ _ (Keeps-release_fd fd) (
          Keeps-then _ _ (Keeps-printf _)
            (Keeps-drop _ _ (Keeps-print_name name 32) (Keeps-ret tt))))))

Keeps-print_freq :
    (garbage : ℕ → ℕ) (prev_data : ℕ) (rate : ℕ) → Keeps (print_freq garbage prev_data rate)
unfolding print_freq
Keeps-print_freq garbage prev_data rate = Keeps-bind _ _ (Keeps-rtc_open prev_data) (λ fd.
    Keeps-if (is_minus_one fd) _ _ (Keeps-printf _) (
      Keeps-then _ _
        (Keeps-then _ _ Keeps-clear
          (Keeps-printf_with garbage (codes "Frequency at: %d\n") (word (32768 / 2 ^ rate) ∷ [])))
        (Keeps-drop _ _ (Keeps-rtc_write prev_data (bytes_of (32768 / 2 ^ rate)))
          (Keeps-drop _ _ (Keeps-rtc_close fd) (Keeps-ret tt)))))

Keeps-next_file :
    (fuel : ℕ) (d : Dentry) (buffer : ℕ → ℕ) (c : ℕ × ℕ) → Keeps (next_file fuel d buffer c)
unfolding next_file test_file_data
Keeps-next_file fuel d buffer (ctr3, ctr4) =
    Keeps-then _ _
      (Keeps-asks _ (λ k. Keeps-print_file_text fuel d (get_entry_name k.fs ctr3) buffer (pos 500)))
      (Keeps-asks _ (λ k.
        Keeps-if (get_num_entries k.fs == 0) _ _ (Keeps-out_of_fuel _)
          (Keeps-ret {A = ℕ × ℕ} ((ctr3 + 1) % get_num_entries k.fs, ctr4))))

Keeps-next_freq :
    (garbage : ℕ → ℕ) (prev_data : ℕ) (c : ℕ × ℕ) → Keeps (next_freq garbage prev_data c)
unfolding next_freq
Keeps-next_freq garbage prev_data (ctr3, ctr4) =
    Keeps-if (ctr4 == 4) _ _
      (Keeps-then _ _ (Keeps-print_freq garbage prev_data 14) (Keeps-ret {A = ℕ × ℕ} (ctr3, 14)))
      (Keeps-then _ _ (Keeps-print_freq garbage prev_data ctr4)
        (Keeps-ret {A = ℕ × ℕ} (ctr3, ctr4 - 1)))

pub show_request-Keeps :
    (garbage : ℕ → ℕ) (prev_data fuel : ℕ) (d : Dentry) (buffer : ℕ → ℕ) (r : Request) (c : ℕ × ℕ)
    → Keeps (show_request garbage prev_data fuel d buffer r c)
unfolding show_request
show_request-Keeps garbage prev_data fuel d buffer nothing c = Keeps-ret c
show_request-Keeps garbage prev_data fuel d buffer (terminal t) c = Keeps-ret c
show_request-Keeps garbage prev_data fuel d buffer file_test c = Keeps-next_file fuel d buffer c
show_request-Keeps garbage prev_data fuel d buffer rate_test c = Keeps-next_freq garbage prev_data c
show_request-Keeps garbage prev_data fuel d buffer file_list c =
    Keeps-then _ _ (Keeps-print_file_info garbage fuel d buffer) (Keeps-ret c)
