-- ===== src/Memory/Set.antt =====
-- What `memset` and its kin of student-distrib/lib.c write.
use linux_base_operating_sys.Prelude.{
  ℕ, zero, suc, ◌+◌, ◌*◌, ◌/◌, ◌%◌, ◌^◌, ◌<◌, ◌≡◌, ltb, leb, ◌&&◌, ◌==◌, if◌then◌else◌, update,
  add32, sym, ap, ◌∙◌, fun_ext, arith, either,
}
use linux_base_operating_sys.Memory.{
  store16, store32, rep_stosl, memset_bottom, memset_aligned, memset_top, memset, four_times,
}

-- `n` bytes `v` from the address `a` on.
pub stretch : (ℕ → ℕ) → ℕ → ℕ → ℕ → ℕ → ℕ
stretch m a n v j = if leb a j && ltb j (a + n) then v else m j

pub add32-small : (a b : ℕ) → a + b < 2 ^ 32 → add32 a b ≡ a + b
add32-small a b lt = omega arith

stretch-zero : (m : ℕ → ℕ) (a v : ℕ) → stretch m a 0 v ≡ m
unfolding stretch
stretch-zero m a v = fun_ext λ j. ground arith

stretch-add :
    (m : ℕ → ℕ) (a n k v : ℕ) → stretch (stretch m a n v) (a + n) k v ≡ stretch m a (n + k) v
unfolding stretch
stretch-add m a n k v = fun_ext λ j. ground arith

update-stretch : (m : ℕ → ℕ) (a v : ℕ) → update m a v ≡ stretch m a 1 v
unfolding stretch
update-stretch m a v = fun_ext λ j. ground arith

store32-stretch :
    (m : ℕ → ℕ) (a c : ℕ) → a + 4 < 2 ^ 32 → c < 256 → store32 m a (four_times c) ≡ stretch m a 4 c
unfolding stretch store32 store16
store32-stretch m a c lt byte = fun_ext λ j.
    let b0 : four_times c % 65536 % 256 ≡ c = omega arith in
    let b1 : four_times c % 65536 / 256 % 256 ≡ c = omega arith in
    let b2 : four_times c / 65536 % 256 ≡ c = omega arith in
    let b3 : four_times c / 65536 / 256 % 256 ≡ c = omega arith in
    let a1 : add32 a 1 ≡ a + 1 = omega arith in
    let a2 : add32 a 2 ≡ a + 2 = omega arith in
    let a3 : add32 (a + 2) 1 ≡ a + 3 = omega arith in rw (b0, b1, b2, b3, a1, a2, a3) (ground arith)

module _ (c : ℕ) (byte : c < 256) where
  rep_stosl-stretch :
      (ecx edi : ℕ) (m : ℕ → ℕ)
      → edi + 4 * ecx < 2 ^ 32
      → rep_stosl ecx (four_times c) edi m ≡ stretch m edi (4 * ecx) c
  unfolding rep_stosl
  rep_stosl-stretch zero edi m lt = sym (stretch-zero m edi c)
  rep_stosl-stretch (suc ecx) edi m lt =
      let next : add32 edi 4 ≡ edi + 4 = add32-small edi 4 (omega (arith, lt)) in
      let all : 4 * suc ecx ≡ 4 + 4 * ecx = omega arith in
      rw (next, store32-stretch m edi c (omega (arith, lt)) byte, all)
        (rep_stosl-stretch ecx (edi + 4) (stretch m edi 4 c) (omega (arith, lt))
          ∙ stretch-add m edi 4 (4 * ecx) c)

  low_byte : four_times c % 256 ≡ c
  low_byte = omega (arith, byte)

  memset_bottom-stretch :
      (edx edi : ℕ) (m : ℕ → ℕ)
      → edi + edx < 2 ^ 32
      → memset_bottom edx (four_times c) edi m ≡ stretch m edi edx c
  unfolding memset_bottom
  memset_bottom-stretch zero edi m lt = sym (stretch-zero m edi c)
  memset_bottom-stretch (suc edx) edi m lt =
      let next : add32 edi 1 ≡ edi + 1 = add32-small edi 1 (omega (arith, lt)) in
      let all : suc edx ≡ 1 + edx = omega arith in
      rw (next, low_byte, update-stretch m edi c)
        (memset_bottom-stretch edx (edi + 1) (stretch m edi 1 c) (omega (arith, lt))
          ∙ stretch-add m edi 1 edx c
          ∙ ap (λ k. stretch m edi k c) (sym all))

  memset_aligned-stretch :
      (ecx edi : ℕ) (m : ℕ → ℕ)
      → edi + ecx < 2 ^ 32
      → memset_aligned ecx (four_times c) edi m ≡ stretch m edi ecx c
  unfolding memset_aligned
  memset_aligned-stretch ecx edi m lt =
      let words = 4 * (ecx / 4) in
      let all : words + ecx % 4 ≡ ecx = omega arith in
      rw
        (
          add32-small edi words (omega (arith, lt)),
          rep_stosl-stretch (ecx / 4) edi m (omega (arith, lt)),
        )
        (memset_bottom-stretch (ecx % 4) (edi + words) (stretch m edi words c)
            (omega (arith, lt, all))
          ∙ stretch-add m edi words (ecx % 4) c
          ∙ ap (λ k. stretch m edi k c) all)

  memset_top-stretch :
      (ecx edi : ℕ) (m : ℕ → ℕ)
      → edi + ecx < 2 ^ 32
      → memset_top ecx (four_times c) edi m ≡ stretch m edi ecx c
  unfolding memset_top
  memset_top-stretch zero edi m lt = sym (stretch-zero m edi c)
  memset_top-stretch (suc ecx) edi m lt =
      either {A = ℕ → ℕ} (λ r. r ≡ stretch m edi (suc ecx) c) (edi % 4 == 0)
        (λ e. memset_aligned-stretch (suc ecx) edi m lt)
        (λ e.
          let next : add32 edi 1 ≡ edi + 1 = add32-small edi 1 (omega (arith, lt)) in
          let all : suc ecx ≡ 1 + ecx = omega arith in
          rw (next, low_byte, update-stretch m edi c)
            (memset_top-stretch ecx (edi + 1) (stretch m edi 1 c) (omega (arith, lt))
              ∙ stretch-add m edi 1 ecx c
              ∙ ap (λ k. stretch m edi k c) (sym all)))

-- `memset` on a stretch that does not reach the end of the address space writes the low byte of `c`
-- to exactly the `n` bytes from `s` on, wherever they begin in a word and however many they are.
pub memset_lem :
    (m : ℕ → ℕ) (s c n j : ℕ)
    → s + n < 2 ^ 32
    → memset m s c n j ≡ (if leb s j && ltb j (s + n) then c % 256 else m j)
unfolding memset stretch
memset_lem m s c n j lt = ap (λ r. r j) (memset_top-stretch (c % 256) (omega arith) n s m lt)
