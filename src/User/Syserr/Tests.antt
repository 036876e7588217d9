-- ===== src/User/Syserr/Tests.antt =====
-- The tests on a system with eight descriptors that refuses what it should, and on one that does not.
use linux_base_operating_sys.Prelude.{
  ℕ, ◌+◌, ◌≡◌, ltb, ◌==◌, if◌then◌else◌, List, [], ◌++◌, prefix, refl,
}
use linux_base_operating_sys.Prelude.Int.{ℤ, pos, negsuc}
use linux_base_operating_sys.Kernel.{codes}
use linux_base_operating_sys.User.{literal}
use linux_base_operating_sys.User.Support.{fdputs_text}
use linux_base_operating_sys.User.Syserr.{Tested, syserr}

-- How many descriptors are open, and what is written.
abbrev World : Type 0
World = ℕ × List ℕ

open_next : (ℕ → ℕ) → World → ℤ × World
open_next name (n, out) =
    if name 0 == b'.'
    then (if ltb n 8 then (pos n, (n + 1, out)) else (negsuc 0, (n, out)))
    else (negsuc 0, (n, out))

write_out : ℤ → (ℕ → ℕ) → ℕ → World → ℤ × World
write_out (pos fd) buf size (n, out) =
    if fd == 1 then (pos size, (n, out ++ prefix size buf)) else (negsuc 0, (n, out))
write_out (negsuc fd) buf size w = (negsuc 0, w)

read_line : ℤ → (ℕ → ℕ) → ℕ → World → ℤ × (ℕ → ℕ) × World
read_line (pos fd) buf size w =
    if fd == 0 then (pos 2, literal (codes "0\n"), w) else (negsuc 0, buf, w)
read_line (negsuc fd) buf size w = (negsuc 0, buf, w)

-- Descriptors are closed only where `open` has given them.
close_last : ℤ → World → ℤ × World
close_last (pos fd) (n, out) =
    if ltb 2 n then (pos 0, (if fd == 7 then 2 else n, out)) else (negsuc 0, (n, out))
close_last (negsuc fd) w = (negsuc 0, w)

abbrev strict : Tested World
strict = record {
  sys = record {
    execute = λ buf w. (negsuc 0, w);
    read = read_line;
    write = write_out;
    open_file = open_next;
    close = close_last;
    getargs = λ buf n w. (negsuc 0, buf, w);
  };
  vidmap = λ address w. (negsuc 0, w);
  call_sys = λ number w. (negsuc 0, w);
}

-- A system that takes any address for the video memory.
abbrev lax : Tested World
lax = record strict { vidmap = λ address w. (pos 0, w) }

strict-passes : (syserr strict (literal []) (λ i. literal []) (2, [])).0 ≡ 0
unfolding syserr open_next write_out read_line close_last fdputs_text
strict-passes = refl

lax-fails : (syserr lax (literal []) (λ i. literal []) (2, [])).0 ≡ 2
unfolding syserr open_next write_out read_line close_last fdputs_text
lax-fails = refl
