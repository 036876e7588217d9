-- ===== src/User/Cat.antt =====
-- `main` of syscalls/ece391cat.c.
use linux_base_operating_sys.Prelude.{
  ℕ, zero, suc, ◌+◌, ◌-◌, ◌≤◌, ◌<◌, ◌==◌, ◌≡◌, true, false, ltb, if◌then◌else◌, Option, some, none,
  List, [], ◌++◌, prefix, prefix-add, refl, sym, ap, ◌∙◌, arith, Bool-cases, inl, inr, subst,
}
use linux_base_operating_sys.Prelude.Int.{ℤ, pos, is_zero, is_minus_one, uint32}
use linux_base_operating_sys.Kernel.{codes}
use linux_base_operating_sys.User.{Sys, stdout}
use linux_base_operating_sys.User.Support.{fdputs_text}

module _ {W : Type 0} (sys : Sys W) where
  -- What follows `ece391_write` and `ece391_read`, on their results; `again` is the next round.
  after_write : (W → Option (ℕ × W)) → ℤ × W → Option (ℕ × W)
  after_write again (r, w) = elim (is_minus_one r) [ true ↦ some (3, w) | false ↦ again w ]

  after_read : ((ℕ → ℕ) → W → Option (ℕ × W)) → ℤ × (ℕ → ℕ) × W → Option (ℕ × W)
  after_read again (cnt, buf, w) = elim (is_zero cnt) [
    | true ↦ some (0, w)
    | false ↦ elim (is_minus_one cnt) [
      | true ↦ some (3, fdputs_text sys stdout (codes "file read failed\n") w)
      | false ↦ after_write (again buf) (sys.write stdout buf (uint32 cnt) w)
    ]
  ]

  -- The loop, with `fuel` rounds at most.
  cat_loop : ℕ → ℤ → (ℕ → ℕ) → W → Option (ℕ × W)
  unfolding after_read after_write
  cat_loop zero fd buf w = none
  cat_loop (suc f) fd buf w = after_read (cat_loop f fd) (sys.read fd buf 1024 w)

  after_open : ℕ → (ℕ → ℕ) → ℤ × W → Option (ℕ × W)
  unfolding cat_loop
  after_open fuel buf (fd, w) = elim (is_minus_one fd) [
    | true ↦ some (2, fdputs_text sys stdout (codes "file not found\n") w)
    | false ↦ cat_loop fuel fd buf w
  ]

  after_getargs : ℕ → ℤ × (ℕ → ℕ) × W → Option (ℕ × W)
  unfolding after_open
  after_getargs fuel (a, buf, w) = elim (is_zero a) [
    | false ↦ some (3, fdputs_text sys stdout (codes "could not read arguments\n") w)
    | true ↦ after_open fuel buf (sys.open_file buf w)
  ]

  pub cat : ℕ → (ℕ → ℕ) → W → Option (ℕ × W)
  unfolding after_getargs
  cat fuel buf w = after_getargs fuel (sys.getargs buf 1024 w)

abbrev pub at_most : ℕ → ℕ → ℕ
at_most n m = if ltb n m then n else m

-- What `cat` relies on of the calls on a descriptor: `At w p out` tells that `p` bytes of a file of
-- `size` bytes have been read in state `w`, and that `out` has been written.
pub record Streams {W : Type 0} (sys : Sys W) (fd : ℤ) (file : ℕ → ℕ) (size : ℕ) : Type 1 where
  pub At : W → ℕ → List ℕ → Type 0
  pub reads :
      (w : W) (p : ℕ) (out : List ℕ) (buf : ℕ → ℕ) (n : ℕ)
      → At w p out
      → p ≤ size
      → (bytes : ℕ → ℕ) × (w' : W) × (sys.read fd buf n w ≡ (pos (at_most n (size - p)), bytes, w'))
        × ((j : ℕ) → j < at_most n (size - p) → file (p + j) ≡ bytes j)
        × At w' (p + at_most n (size - p)) out
  pub writes :
      (w : W) (p : ℕ) (out : List ℕ) (buf : ℕ → ℕ) (n : ℕ)
      → At w p out
      → (w' : W) × (sys.write stdout buf n w ≡ (pos n, w')) × At w' p (out ++ prefix n buf)

module _ {W : Type 0} (sys : Sys W) (fd : ℤ) (file : ℕ → ℕ) (size : ℕ)
    (law : Streams sys fd file size) where
  cat_loop-copies :
      (fuel p : ℕ) (buf : ℕ → ℕ) (w : W)
      → p ≤ size
      → size - p < fuel
      → law.At w p (prefix p file)
      → (w' : W) × (cat_loop sys fuel fd buf w ≡ some (0, w')) × law.At w' size (prefix size file)
  unfolding cat_loop after_read after_write
  cat_loop-copies zero p buf w le enough at = absurd (omega (arith, enough))
  cat_loop-copies (suc fuel) p buf w le enough at =
      let n = at_most 1024 (size - p) in
      let (bytes, w1, read, same, at1) = law.reads w p (prefix p file) buf 1024 at le in
      elim (Bool-cases (n == 0)) [
        | inl done ↦
            let none_left : p ≡ size = ground (arith, done, le) in
            let here : p + n ≡ size = ground (arith, done, le) in
            (
              w1,
              ap (after_read sys (cat_loop sys fuel fd)) read ∙ rw (done, after_read) refl,
              subst (λ q. law.At w1 q (prefix size file)) here
                  (subst (λ q. law.At w1 (p + n) (prefix q file)) none_left at1),
            )
        | inr again ↦
            let (w2, wrote, at2) = law.writes w1 (p + n) (prefix p file) bytes n at1 in
            let (w', e, at') =
              cat_loop-copies fuel (p + n) bytes w2 (ground (arith, le))
                (ground (arith, again, le, enough))
                (subst (law.At w2 (p + n)) (sym (prefix-add p n file bytes same)) at2) in
            (
              w',
              ap (after_read sys (cat_loop sys fuel fd)) read
                  ∙ rw (again, after_read)
                      (ap (after_write sys (cat_loop sys fuel fd bytes)) wrote ∙ e),
              at',
            )
      ]

  -- Where the arguments can be read and name a file that can be opened, and the calls on its
  -- descriptor deliver the file and take what is written, `cat` returns 0 and has written exactly the
  -- bytes of the file in their order; one round more than the file has bytes is enough.
  pub cat-copies :
      (fuel : ℕ) (buf name : ℕ → ℕ) (w w1 w2 : W)
      → size < fuel
      → sys.getargs buf 1024 w ≡ (pos 0, name, w1)
      → sys.open_file name w1 ≡ (fd, w2)
      → is_minus_one fd ≡ false
      → law.At w2 0 []
      → (w' : W) × (cat sys fuel buf w ≡ some (0, w')) × law.At w' size (prefix size file)
  unfolding cat after_getargs after_open
  cat-copies fuel buf name w w1 w2 enough args opened valid at =
      let (w', e, at') = cat_loop-copies fuel 0 name w2 (omega arith) (omega (arith, enough)) at in
      (
        w',
        ap (after_getargs sys fuel) args
            ∙ ap (after_open sys fuel name) opened
            ∙ rw (valid, after_open) e,
        at',
      )
