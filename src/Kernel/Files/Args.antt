-- ===== src/Kernel/Files/Args.antt =====
-- The arguments of a program: `getargs` of student-distrib/syscall.c.
use linux_base_operating_sys.Prelude.{
  ℕ, zero, suc, ◌<◌, ◌≡◌, ◌==◌, ◌||◌, ◌&&◌, refl, Bool, true, false, ltb, leb, if◌then◌else◌,
  update, fill, fill_lem, some, none, arith, sym, Bool-cases, inl, inr, ==_iff, leb-false,
}
use Prim.Native.Nat.{min}
use linux_base_operating_sys.Prelude.Int.{pos, minus_one}
use linux_base_operating_sys.Kernel.{Kernel, running}
use linux_base_operating_sys.Kernel.Files.{trim, fill_args, getargs}

abbrev pub blank : ℕ → Bool
blank c = c == 32 || c == 0

-- The loop stops at the last byte `e` that is neither a space nor NUL, and clears what is behind it.
trim_lem :
    (n e : ℕ) (buf : ℕ → ℕ)
    → e < n
    → blank (buf e) ≡ false
    → ((j : ℕ) → e < j → j < n → blank (buf j) ≡ true)
    → (b : ℕ → ℕ) × (trim n buf ≡ some b)
      × ((j : ℕ) → b j ≡ (if ltb e j && ltb j n then 0 else buf j))
unfolding trim
trim_lem zero e buf h last behind = absurd (omega arith)
trim_lem (suc n) e buf h last behind = elim (Bool-cases (e == n)) [
  | inl here ↦
      let stop : blank (buf n) ≡ false = rw (sym ((==_iff e n).0 here)) last in
      (buf, rw (stop, trim) refl, λ j. ground (arith, here))
  | inr before ↦
      let more : blank (buf n) ≡ true = behind n (ground (arith, before)) (omega arith) in
      let (b, eq, all) =
        trim_lem n e (update buf n 0) (ground (arith, before)) (ground (arith, before, last))
          (λ j x y. ground (arith, behind j)) in
      (b, rw (more, trim) eq, λ j. ground (arith, all j, before))
]

-- A buffer without such a byte is left at the front.
trim-none : (n : ℕ) (buf : ℕ → ℕ) → ((j : ℕ) → j < n → blank (buf j) ≡ true) → trim n buf ≡ none
unfolding trim
trim-none zero buf all = refl
trim-none (suc n) buf all =
    rw (all n (omega arith), trim) (trim-none n (update buf n 0) (λ j h. ground (arith, all j)))

fill_args_lem :
    (args : ℕ → ℕ) (n : ℕ) (buf : ℕ → ℕ) (j : ℕ)
    → 128 < n
    → fill_args args n buf j ≡ (if ltb j 128 then args j else if ltb j n then 0 else buf j)
unfolding fill_args
fill_args_lem args n buf j h =
    let count : min n 128 ≡ 128 = omega arith in
    rw (count, fill_lem 128 args (fill n (λ i. 0) buf) j, fill_lem n (λ i. 0) buf j) refl

-- With `e` the last of a process's 128 argument bytes that is neither a space nor NUL, `getargs` into
-- a buffer of more than 128 bytes gives the bytes up to `e` with NULs behind them, and writes nothing
-- behind the buffer; it returns 0, or -1 where the first byte is NUL.
pub getargs_lem :
    (k : Kernel) (p n e : ℕ) (buf : ℕ → ℕ)
    → running k ≡ some (p, k)
    → 128 < n
    → e < 128
    → blank ((k.pcbs p).args e) ≡ false
    → ((j : ℕ) → e < j → j < 128 → blank ((k.pcbs p).args j) ≡ true)
    → (b : ℕ → ℕ) × (getargs (some buf) (pos n) k
        ≡ some ((if (k.pcbs p).args 0 == 0 then minus_one else pos 0, some b), k))
      × ((j : ℕ) → b j ≡ (if leb j e then (k.pcbs p).args j else if ltb j n then 0 else buf j))
unfolding getargs
getargs_lem k p n e buf run big small last behind =
    let args = (k.pcbs p).args in
    let filled = fill_args args n buf in
    let f : (j : ℕ) → filled j ≡ (if ltb j 128 then args j else if ltb j n then 0 else buf j) =
      λ j. fill_args_lem args n buf j big in
    let (b, eq, all) =
      trim_lem n e filled (omega arith) (ground (arith, f e, last))
        (λ j x y. ground (arith, f j, behind j)) in
    let first : b 0 ≡ args 0 = ground (arith, all 0, f 0) in
    (b, rw (run, getargs, leb-false n 128 big, eq, first) refl, λ j. ground (arith, all j, f j))

-- Where all 128 argument bytes are spaces or NULs, as for a program without arguments, the loop of
-- `getargs` leaves the buffer at its front: the code reads and writes the memory before it.
pub getargs_runs_off :
    (k : Kernel) (p n : ℕ) (buf : ℕ → ℕ)
    → running k ≡ some (p, k)
    → 128 < n
    → ((j : ℕ) → j < 128 → blank ((k.pcbs p).args j) ≡ true)
    → getargs (some buf) (pos n) k ≡ none
unfolding getargs
getargs_runs_off k p n buf run big all =
    let args = (k.pcbs p).args in
    let none_left =
      trim-none n (fill_args args n buf)
        (λ j h. ground (arith, fill_args_lem args n buf j big, all j)) in
    rw (run, getargs, leb-false n 128 big, none_left) refl
