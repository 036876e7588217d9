-- ===== src/Memory/Copy.antt =====
-- What `memcpy` and `memmove` of student-distrib/lib.c copy.
use linux_base_operating_sys.Prelude.{
  ℕ, zero, suc, ◌+◌, ◌-◌, ◌*◌, ◌/◌, ◌%◌, ◌^◌, ◌≤◌, ◌<◌, ◌≡◌, ◌⊎◌, inl, inr, ltb, leb, ◌&&◌, ◌==◌,
  if◌then◌else◌, update, add32, refl, sym, ap, ◌∙◌, fun_ext, arith, either, ==-cases,
}
use linux_base_operating_sys.Memory.{
  move32, rep_movsl, memcpy_bottom, memcpy_aligned, memcpy_top, memcpy,
}

-- Memory `m` with the first `k` bytes from `src` on copied to `dest`.
unfoldable pub copied : (ℕ → ℕ) → ℕ → ℕ → ℕ → ℕ → ℕ
copied m dest src k j = if leb dest j && ltb j (dest + k) then m (src + (j - dest)) else m j

copied-zero : (m : ℕ → ℕ) (dest src : ℕ) → copied m dest src 0 ≡ m
unfolding copied
copied-zero m dest src = fun_ext λ j. ground arith

add_zero : (a : ℕ) → a + 0 ≡ a
add_zero a = omega arith

zero_add : (a : ℕ) → 0 + a ≡ a
zero_add a = omega arith

-- Whether bytes may be copied in ascending order: none is overwritten before it is read.
pub record Ascending (dest src n : ℕ) : Type 0 where
  pub apart : (dest ≤ src) ⊎ (src + n ≤ dest)
  pub dest_inside : dest + n < 2 ^ 32
  pub src_inside : src + n < 2 ^ 32

module _ (m : ℕ → ℕ) (dest src n : ℕ) (up : Ascending dest src n) where
  -- A byte that is still to be copied is the old one.
  unread : (k i : ℕ) → k ≤ i → i < n → copied m dest src k (src + i) ≡ m (src + i)
  unfolding copied
  unread k i le lt = ground (arith, le, lt, up.apart)

  extend :
      (k : ℕ) → update (copied m dest src k) (dest + k) (m (src + k)) ≡ copied m dest src (k + 1)
  unfolding copied
  extend k = fun_ext λ j.
      let at : dest + k - dest ≡ k = omega arith in
      elim (==-cases (dest + k) j) [
        | inl same ↦ rw (sym same, at) (ground arith)
        | inr other ↦ ground (arith, other)
      ]

  copied-next :
      (k : ℕ)
      → k < n
      → update (copied m dest src k) (dest + k) (copied m dest src k (src + k))
        ≡ copied m dest src (k + 1)
  copied-next k lt = rw (unread k k (omega arith) lt) (extend k)

  copied-next32 :
      (k : ℕ)
      → k + 4 ≤ n
      → move32 (copied m dest src k) (dest + k) (src + k) ≡ copied m dest src (k + 4)
  unfolding move32
  copied-next32 k lt =
      let a1 : add32 (dest + k) 1 ≡ dest + (k + 1) = omega (arith, lt, up.dest_inside) in
      let a2 : add32 (dest + k) 2 ≡ dest + (k + 2) = omega (arith, lt, up.dest_inside) in
      let a3 : add32 (dest + k) 3 ≡ dest + (k + 3) = omega (arith, lt, up.dest_inside) in
      let b1 : add32 (src + k) 1 ≡ src + (k + 1) = omega (arith, lt, up.src_inside) in
      let b2 : add32 (src + k) 2 ≡ src + (k + 2) = omega (arith, lt, up.src_inside) in
      let b3 : add32 (src + k) 3 ≡ src + (k + 3) = omega (arith, lt, up.src_inside) in
      let old : (i : ℕ) → k ≤ i → i ≤ k + 3 → copied m dest src k (src + i) ≡ m (src + i) =
        λ i from to. unread k i from (omega (arith, lt, to)) in
      let e1 : k + 1 + 1 ≡ k + 2 = omega arith in
      let e2 : k + 2 + 1 ≡ k + 3 = omega arith in
      let e3 : k + 3 + 1 ≡ k + 4 = omega arith in
      rw
        (
          a1,
          a2,
          a3,
          b1,
          b2,
          b3,
          old k (omega arith) (omega arith),
          old (k + 1) (omega arith) (omega arith),
          old (k + 2) (omega arith) (omega arith),
          old (k + 3) (omega arith) (omega arith),
          extend k,
          extend (k + 1),
          e1,
          extend (k + 2),
          e2,
        )
        (extend (k + 3) ∙ ap (copied m dest src) e3)

  memcpy_bottom-copied :
      (edx k : ℕ)
      → k + edx ≤ n
      → memcpy_bottom edx (dest + k) (src + k) (copied m dest src k) ≡ copied m dest src (k + edx)
  unfolding memcpy_bottom
  memcpy_bottom-copied zero k le = ap (copied m dest src) (omega arith)
  memcpy_bottom-copied (suc edx) k le =
      let d1 : add32 (dest + k) 1 ≡ dest + (k + 1) = omega (arith, le, up.dest_inside) in
      let s1 : add32 (src + k) 1 ≡ src + (k + 1) = omega (arith, le, up.src_inside) in
      let all : k + 1 + edx ≡ k + suc edx = omega arith in
      rw (d1, s1, copied-next k (omega (arith, le)))
        (memcpy_bottom-copied edx (k + 1) (omega (arith, le)) ∙ ap (copied m dest src) all)

  rep_movsl-copied :
      (ecx k : ℕ)
      → k + 4 * ecx ≤ n
      → rep_movsl ecx (dest + k) (src + k) (copied m dest src k) ≡ copied m dest src (k + 4 * ecx)
  unfolding rep_movsl
  rep_movsl-copied zero k le = ap (copied m dest src) (omega arith)
  rep_movsl-copied (suc ecx) k le =
      let d4 : add32 (dest + k) 4 ≡ dest + (k + 4) = omega (arith, le, up.dest_inside) in
      let s4 : add32 (src + k) 4 ≡ src + (k + 4) = omega (arith, le, up.src_inside) in
      let all : k + 4 + 4 * ecx ≡ k + 4 * suc ecx = omega arith in
      rw (d4, s4, copied-next32 k (omega (arith, le)))
        (rep_movsl-copied ecx (k + 4) (omega (arith, le)) ∙ ap (copied m dest src) all)

  memcpy_aligned-copied :
      (ecx k : ℕ)
      → k + ecx ≤ n
      → memcpy_aligned ecx (dest + k) (src + k) (copied m dest src k) ≡ copied m dest src (k + ecx)
  unfolding memcpy_aligned
  memcpy_aligned-copied ecx k le =
      let w = 4 * (ecx / 4) in
      let dw : add32 (dest + k) w ≡ dest + (k + w) = omega (arith, le, up.dest_inside) in
      let sw : add32 (src + k) w ≡ src + (k + w) = omega (arith, le, up.src_inside) in
      let all : k + w + ecx % 4 ≡ k + ecx = omega arith in
      rw (dw, sw, rep_movsl-copied (ecx / 4) k (omega (arith, le)))
        (memcpy_bottom-copied (ecx % 4) (k + w) (omega (arith, le, all))
          ∙ ap (copied m dest src) all)

  memcpy_top-copied :
      (ecx k : ℕ)
      → k + ecx ≤ n
      → memcpy_top ecx (dest + k) (src + k) (copied m dest src k) ≡ copied m dest src (k + ecx)
  unfolding memcpy_top
  memcpy_top-copied zero k le = ap (copied m dest src) (omega arith)
  memcpy_top-copied (suc ecx) k le =
      either {A = ℕ → ℕ} (λ r. r ≡ copied m dest src (k + suc ecx)) ((dest + k) % 4 == 0)
        (λ e. memcpy_aligned-copied (suc ecx) k le)
        (λ e.
          let d1 : add32 (dest + k) 1 ≡ dest + (k + 1) = omega (arith, le, up.dest_inside) in
          let s1 : add32 (src + k) 1 ≡ src + (k + 1) = omega (arith, le, up.src_inside) in
          let all : k + 1 + ecx ≡ k + suc ecx = omega arith in
          rw (d1, s1, copied-next k (omega (arith, le)))
            (memcpy_top-copied ecx (k + 1) (omega (arith, le)) ∙ ap (copied m dest src) all))

  pub bytes-copied : memcpy_bottom n dest src m ≡ copied m dest src n
  bytes-copied =
      let start : memcpy_bottom n dest src m
          ≡ memcpy_bottom n (dest + 0) (src + 0) (copied m dest src 0) =
        rw (add_zero dest, add_zero src, copied-zero m dest src) refl in
      start ∙ memcpy_bottom-copied n 0 (omega arith) ∙ ap (copied m dest src) (zero_add n)

  memcpy-copied : memcpy m dest src n ≡ copied m dest src n
  unfolding memcpy
  memcpy-copied =
      let start : memcpy_top n dest src m
          ≡ memcpy_top n (dest + 0) (src + 0) (copied m dest src 0) =
        rw (add_zero dest, add_zero src, copied-zero m dest src) refl in
      start ∙ memcpy_top-copied n 0 (omega arith) ∙ ap (copied m dest src) (zero_add n)

-- `memcpy` moves the `n` bytes from `src` on to `dest` and changes nothing else, also where it moves
-- words, if the bytes can be taken in ascending order: the destination begins at or before the
-- source, or behind its end, and neither reaches the end of the address space.
pub memcpy_lem :
    (m : ℕ → ℕ) (dest src n j : ℕ)
    → Ascending dest src n
    → memcpy m dest src n j ≡ (if leb dest j && ltb j (dest + n) then m (src + (j - dest)) else m j)
unfolding copied
memcpy_lem m dest src n j up = ap (λ r. r j) (memcpy-copied m dest src n up)
