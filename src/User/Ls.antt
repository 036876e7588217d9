-- ===== src/User/Ls.antt =====
-- `main` of syscalls/ece391ls.c.
use linux_base_operating_sys.Prelude.{
  ℕ, zero, suc, ◌+◌, ◌<◌, ◌≡◌, ◌≢◌, true, false, update, Option, some, none, List, [], ◌∷◌, ◌++◌,
  length, prefix, prefix-add, prefix-cong, sym, ap, ◌∙◌, arith, ==-false, subst,
}
use mathlib.Core.List.{append-nil, append_assoc}
use linux_base_operating_sys.Prelude.Int.{ℤ, pos, is_zero, is_minus_one, uint32}
use linux_base_operating_sys.Kernel.{codes}
use linux_base_operating_sys.User.{Sys, stdout, literal}
use linux_base_operating_sys.User.Support.{fdputs_text}

module _ {W : Type 0} (sys : Sys W) where
  -- What follows `ece391_write`, `ece391_read` and `ece391_open`, on their results; `again` is the
  -- next round.
  wrote_name : (W → Option (ℕ × W)) → ℤ × W → Option (ℕ × W)
  wrote_name again (r, w) = elim (is_minus_one r) [ true ↦ some (3, w) | false ↦ again w ]

  got_name : ((ℕ → ℕ) → W → Option (ℕ × W)) → ℤ × (ℕ → ℕ) × W → Option (ℕ × W)
  unfolding wrote_name
  got_name again (cnt, buf, w) = elim (is_zero cnt) [
    | true ↦ some (0, w)
    | false ↦ elim (is_minus_one cnt) [
      | true ↦ some (3, fdputs_text sys stdout (codes "directory entry read failed\n") w)
      | false ↦
          let line : ℕ → ℕ = update buf (uint32 cnt) 10 in
          wrote_name (again line) (sys.write stdout line (uint32 cnt + 1) w)
    ]
  ]

  -- The loop, with `fuel` rounds at most.
  ls_loop : ℕ → ℤ → (ℕ → ℕ) → W → Option (ℕ × W)
  unfolding got_name
  ls_loop zero fd buf w = none
  ls_loop (suc f) fd buf w = got_name (ls_loop f fd) (sys.read fd buf 32 w)

  got_directory : ℕ → (ℕ → ℕ) → ℤ × W → Option (ℕ × W)
  unfolding ls_loop
  got_directory fuel buf (fd, w) = elim (is_minus_one fd) [
    | true ↦ some (2, fdputs_text sys stdout (codes "directory open failed\n") w)
    | false ↦ ls_loop fuel fd buf w
  ]

  pub ls : ℕ → (ℕ → ℕ) → W → Option (ℕ × W)
  unfolding got_directory
  ls fuel buf w = got_directory fuel buf (sys.open_file (literal (codes ".")) w)

-- A name of `count` characters.
pub record Name : Type 0 where
  pub chars : ℕ → ℕ
  pub count : ℕ

-- The names, each with a line break.
abbrev pub listing : List Name → List ℕ
listing [] = []
listing (n ∷ ns) = prefix n.count n.chars ++ (10 ∷ listing ns)

-- What `ls` relies on: `At w ns out` tells that in state `w` the names `ns` are still to be read
-- from the directory, and that `out` has been written.
pub record Directory {W : Type 0} (sys : Sys W) (fd : ℤ) : Type 1 where
  pub At : W → List Name → List ℕ → Type 0
  pub reads :
      (w : W) (n : Name) (ns : List Name) (out : List ℕ) (buf : ℕ → ℕ)
      → At w (n ∷ ns) out
      → (bytes : ℕ → ℕ) × (w' : W) × (sys.read fd buf 32 w ≡ (pos n.count, bytes, w'))
        × (n.count ≢ 0)
        × ((j : ℕ) → j < n.count → bytes j ≡ n.chars j)
        × At w' ns out
  pub ends :
      (w : W) (out : List ℕ) (buf : ℕ → ℕ)
      → At w [] out
      → (bytes : ℕ → ℕ) × (w' : W) × (sys.read fd buf 32 w ≡ (pos 0, bytes, w')) × At w' [] out
  pub writes :
      (w : W) (ns : List Name) (out : List ℕ) (buf : ℕ → ℕ) (n : ℕ)
      → At w ns out
      → (w' : W) × (sys.write stdout buf n w ≡ (pos n, w')) × At w' ns (out ++ prefix n buf)

-- The bytes that are written for a name.
line-Name :
    (bytes : ℕ → ℕ) (n : Name)
    → ((j : ℕ) → j < n.count → bytes j ≡ n.chars j)
    → prefix (n.count + 1) (update bytes n.count 10) ≡ prefix n.count n.chars ++ (10 ∷ [])
line-Name bytes n same =
    let line : ℕ → ℕ = update bytes n.count 10 in
    prefix-add n.count 1 line (λ j. 10) (λ j lt. ground (arith, lt))
    ∙ ap (λ l. l ++ (10 ∷ []))
        (prefix-cong n.count line n.chars (λ j lt. ground (arith, lt, same j lt)))

module _ {W : Type 0} (sys : Sys W) (fd : ℤ) (law : Directory sys fd) where
  ls_loop-lists :
      (fuel : ℕ) (ns : List Name) (out : List ℕ) (buf : ℕ → ℕ) (w : W)
      → length ns < fuel
      → law.At w ns out
      → (w' : W) × (ls_loop sys fuel fd buf w ≡ some (0, w')) × law.At w' [] (out ++ listing ns)
  unfolding ls_loop got_name wrote_name
  ls_loop-lists zero ns out buf w enough at = absurd (omega (arith, enough))
  ls_loop-lists (suc fuel) [] out buf w enough at =
      let (bytes, w', read, at') = law.ends w out buf at in
      (
        w',
        ap (got_name sys (ls_loop sys fuel fd)) read,
        subst (law.At w' []) (sym (append-nil out)) at',
      )
  ls_loop-lists (suc fuel) (n ∷ ns) out buf w enough at =
      let (bytes, w1, read, some_chars, same, at1) = law.reads w n ns out buf at in
      let line : ℕ → ℕ = update bytes n.count 10 in
      let (w2, wrote, at2) = law.writes w1 ns out line (n.count + 1) at1 in
      let out2 = out ++ (prefix n.count n.chars ++ (10 ∷ [])) in
      let (w', e, at') =
        ls_loop-lists fuel ns out2 line w2 (omega (arith, enough))
          (subst (λ l. law.At w2 ns (out ++ l)) (line-Name bytes n same) at2) in
      (
        w',
        ap (got_name sys (ls_loop sys fuel fd)) read
            ∙ rw (==-false n.count 0 some_chars, got_name)
                (ap (wrote_name sys (ls_loop sys fuel fd line)) wrote ∙ e),
        subst (law.At w' [])
            (append_assoc out (prefix n.count n.chars ++ (10 ∷ [])) (listing ns)
              ∙ ap (λ l. out ++ l) (append_assoc (prefix n.count n.chars) (10 ∷ []) (listing ns)))
            at',
      )

  -- Where the directory can be opened, and the calls on its descriptor deliver its names one by one
  -- and take what is written, `ls` returns 0 and has written exactly the names in their order, each
  -- with a line break; one round more than there are names is enough.
  pub ls-lists :
      (fuel : ℕ) (ns : List Name) (buf : ℕ → ℕ) (w w1 : W)
      → length ns < fuel
      → sys.open_file (literal (codes ".")) w ≡ (fd, w1)
      → is_minus_one fd ≡ false
      → law.At w1 ns []
      → (w' : W) × (ls sys fuel buf w ≡ some (0, w')) × law.At w' [] (listing ns)
  unfolding ls got_directory
  ls-lists fuel ns buf w w1 enough opened valid at =
      let (w', e, at') = ls_loop-lists fuel ns [] buf w1 enough at in
      (w', ap (got_directory sys fuel buf) opened ∙ rw (valid, got_directory) e, at')
