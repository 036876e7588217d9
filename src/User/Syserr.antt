-- ===== src/User/Syserr.antt =====
-- The tests of the system calls in syscalls/ece391syserr.c.
mod Tests
use linux_base_operating_sys.Prelude.{
  ℕ, zero, suc, ◌+◌, ◌==◌, Bool, true, false, if◌then◌else◌, List, [], ◌∷◌, ◌++◌,
}
use linux_base_operating_sys.Prelude.Int.{ℤ, pos, negsuc, is_minus_one}
use linux_base_operating_sys.Kernel.{codes}
use linux_base_operating_sys.User.{Sys, stdin, stdout, literal}
use linux_base_operating_sys.User.Support.{fdputs_text}

-- NEG_FD and NEG_NUM
abbrev neg_num : ℤ
neg_num = negsuc 1073741822

-- BIG_FD and BIG_NUM
abbrev big_num : ℤ
big_num = pos 1073741823

-- The calls that the tests make: those of the other programs, `ece391_vidmap` on an address, and
-- `call_sys` with a number.
pub record Tested (W : Type 0) : Type 0 where
  pub sys : Sys W
  pub vidmap : ℕ → W → ℤ × W
  pub call_sys : ℤ → W → ℤ × W

module _ {W : Type 0} (t : Tested W) where
  say : List ℕ → W → W
  say text w = fdputs_text t.sys stdout text w

  -- if (-1 != r) { fail = 2; print the message }
  expect : List ℕ → ℕ → ℤ × W → ℕ × W
  unfolding say
  expect message fail (r, w) = if is_minus_one r then (fail, w) else (2, say message w)

  -- The last part of a test.
  verdict : List ℕ → ℕ × W → ℕ × W
  unfolding say
  verdict name (fail, w) =
      if fail == 0
      then (fail, say (name ++ codes ": PASS\n") w)
      else (fail, say (name ++ codes ": FAIL\n") w)

  -- The body that the first two tests share.
  err_fd : ℤ → List ℕ → (ℕ → ℕ) → W → ℕ × W
  unfolding expect verdict
  err_fd fd name buf w =
      let (r, filled, w0) = t.sys.read fd buf 31 w in
      let (f1, w1) = expect (codes "read fail\n") 0 (r, w0) in
      let (f2, w2) = expect (codes "write fail\n") f1 (t.sys.write fd filled 31 w1) in
      verdict name (expect (codes "close fail\n") f2 (t.sys.close fd w2))

  err_neg_fd : (ℕ → ℕ) → W → ℕ × W
  unfolding err_fd
  err_neg_fd buf w = err_fd neg_num (codes "err_neg_fd") buf w

  err_big_fd : (ℕ → ℕ) → W → ℕ × W
  unfolding err_fd
  err_big_fd buf w = err_fd big_num (codes "err_big_fd") buf w

  -- `n` openings; `cnt` of those before have failed.
  open_lots : ℕ → ℕ × W → ℕ × W
  open_lots zero (cnt, w) = (cnt, w)
  open_lots (suc n) (cnt, w) =
      let (r, w1) = t.sys.open_file (literal (codes ".")) w in
      open_lots n ((if is_minus_one r then cnt + 1 else cnt), w1)

  -- `n` closings from descriptor `i` on.
  close_lots : ℕ → ℕ → W → W
  close_lots zero i w = w
  close_lots (suc n) i w = close_lots n (i + 1) (t.sys.close (pos i) w).1

  err_open_lots : W → ℕ × W
  unfolding open_lots close_lots say
  err_open_lots w =
      let (cnt, w1) = open_lots 7 (0, w) in
      let w2 = close_lots 6 2 w1 in
      if cnt == 1
      then (0, say (codes "err_open_lots: PASS\n") w2)
      else (2, say (codes "err_open_lots: FAIL\n") w2)

  err_open : W → ℕ × W
  unfolding expect verdict
  err_open w =
      let (f1, w1) =
        expect (codes "'helloo' fail\n") 0 (t.sys.open_file (literal (codes "helloo")) w) in
      let (f2, w2) =
        expect (codes "'shel' fail\n") f1 (t.sys.open_file (literal (codes "shel")) w1) in
      verdict (codes "err_open")
        (expect (codes "empty string fail\n") f2 (t.sys.open_file (literal (codes "")) w2))

  -- A loop over `n` descriptors from `i` on, with the call that it makes.
  each_fd : (ℤ → W → ℤ × W) → List ℕ → ℕ → ℕ → ℕ × W → ℕ × W
  unfolding expect
  each_fd call message zero i (fail, w) = (fail, w)
  each_fd call message (suc n) i (fail, w) =
      each_fd call message n (i + 1) (expect message fail (call (pos i) w))

  -- The loop of the readings, which fill the buffer.
  read_each : ℕ → ℕ → ℕ × (ℕ → ℕ) × W → ℕ × (ℕ → ℕ) × W
  unfolding expect
  read_each zero i (fail, buf, w) = (fail, buf, w)
  read_each (suc n) i (fail, buf, w) =
      let (r, filled, w1) = t.sys.read (pos i) buf 31 w in
      let (fail', w2) = expect (codes "read from unopened fd fail\n") fail (r, w1) in
      read_each n (i + 1) (fail', filled, w2)

  err_unopened : (ℕ → ℕ) → W → ℕ × W
  unfolding each_fd read_each verdict
  err_unopened buf w =
      let (f1, w1) = each_fd t.sys.close (codes "close unopened or invalid fd fail\n") 8 0 (0, w) in
      let (f2, filled, w2) = read_each 6 2 (f1, buf, w1) in
      verdict (codes "err_unopened") (
        each_fd (λ fd. t.sys.write fd filled 31) (codes "write to unopened fd fail\n") 6 2 (f2, w2))

  err_vidmap : W → ℕ × W
  unfolding expect verdict
  err_vidmap w =
      let (f1, w1) = expect (codes "Null pointer fail\n") 0 (t.vidmap 0 w) in
      verdict (codes "err_vidmap")
        (expect (codes "Kernel pointer fail fail\n") f1 (t.vidmap 0x400000 w1))

  err_stdin_out : (ℕ → ℕ) → W → ℕ × W
  unfolding expect verdict
  err_stdin_out buf w =
      let (f1, w1) = expect (codes "write to stdin fail\n") 0 (t.sys.write stdin buf 31 w) in
      let (r, _, w2) = t.sys.read stdout buf 31 w1 in
      verdict (codes "err_stdin_out") (expect (codes "read from stdout fail\n") f1 (r, w2))

  err_syscall_num : W → ℕ × W
  unfolding expect verdict
  err_syscall_num w =
      let (f1, w1) = expect (codes "syscall 0 fail\n") 0 (t.call_sys big_num w) in
      let (f2, w2) = expect (codes "big num syscall fail\n") f1 (t.call_sys neg_num w1) in
      verdict (codes "err_syscall_num")
        (expect (codes "neg num syscall fail\n") f2 (t.call_sys (pos 0) w2))

  -- fail += test()
  add_test : (W → ℕ × W) → ℕ × W → ℕ × W
  add_test test (fail, w) = let (f, w') = test w in (fail + f, w')

  all_tests : (ℕ → ℕ → ℕ) → W → ℕ × W
  unfolding add_test err_neg_fd err_big_fd err_open_lots err_open err_unopened err_vidmap
      err_stdin_out err_syscall_num say
  all_tests bufs w =
      let (fail, w1) = add_test err_syscall_num (
        add_test (err_stdin_out (bufs 7)) (
          add_test err_vidmap (
            add_test (err_unopened (bufs 5)) (
              add_test err_open (
                add_test err_open_lots
                  (add_test (err_big_fd (bufs 2)) (add_test (err_neg_fd (bufs 1)) (0, w)))))))) in
      if fail == 0
      then (fail, say (codes "\nOverall Tests: PASS\n") w1)
      else (fail, say (codes "\nOverall Tests: FAIL\n") w1)

  chosen_test : ℕ → (ℕ → ℕ → ℕ) → W → ℕ × W
  unfolding all_tests
  chosen_test c bufs w =
      if c == b'0'
      then all_tests bufs w
      else if c == b'1'
      then err_neg_fd (bufs 1) w
      else if c == b'2'
      then err_big_fd (bufs 2) w
      else if c == b'3'
      then err_open_lots w
      else if c == b'4'
      then err_open w
      else if c == b'5'
      then err_unopened (bufs 5) w
      else if c == b'6'
      then err_vidmap w
      else if c == b'7'
      then err_stdin_out (bufs 7) w
      else if c == b'8'
      then err_syscall_num w
      else (0, say (codes "Invalid test number. Choose from tests 1-8 or 0") w)

  got_choice : (ℕ → ℕ → ℕ) → ℤ × (ℕ → ℕ) × W → ℕ × W
  unfolding chosen_test say
  got_choice bufs (cnt, line, w) =
      if is_minus_one cnt
      then (2, say (codes "Can't read test #\n") w)
      else chosen_test (line 0) bufs w

  -- `main`; `line` is what its buffer holds, and `bufs i` what that of test `i` holds.
  pub syserr : (ℕ → ℕ) → (ℕ → ℕ → ℕ) → W → ℕ × W
  unfolding got_choice say
  syserr line bufs w =
      got_choice bufs
        (t.sys.read stdin line 127 (say (codes "Choose from tests 1-8. 0 to run all: ") w))
