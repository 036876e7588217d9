-- ===== src/Memory/Words.antt =====
-- What `memset_word` and `memset_dword` of student-distrib/lib.c write.
use linux_base_operating_sys.Prelude.{
  ℕ, zero, suc, ◌+◌, ◌*◌, ◌/◌, ◌%◌, ◌^◌, ◌≤◌, ◌<◌, ◌≡◌, ◌⊎◌, inl, add32, refl, ◌∙◌, arith,
}
use linux_base_operating_sys.Memory.{
  store16, store32, rep_stosw, rep_stosl, memset_word, memset_dword,
}
use linux_base_operating_sys.Memory.Set.{add32-small}

-- The words that two and four bytes are.
abbrev pub load16 : (ℕ → ℕ) → ℕ → ℕ
load16 m a = m a + 256 * m (a + 1)

abbrev pub load32 : (ℕ → ℕ) → ℕ → ℕ
load32 m a = load16 m a + 2 ^ 16 * load16 m (a + 2)

store16-load : (m : ℕ → ℕ) (a v : ℕ) → a + 2 < 2 ^ 32 → v < 2 ^ 16 → load16 (store16 m a v) a ≡ v
unfolding store16
store16-load m a v inside small = let a1 : add32 a 1 ≡ a + 1 = omega arith in rw a1 (ground arith)

store16-frame :
    (m : ℕ → ℕ) (a v j : ℕ) → a + 2 < 2 ^ 32 → (j < a) ⊎ (a + 2 ≤ j) → store16 m a v j ≡ m j
unfolding store16
store16-frame m a v j inside off =
    let a1 : add32 a 1 ≡ a + 1 = omega arith in rw a1 (ground (arith, off))

store32-frame :
    (m : ℕ → ℕ) (a v j : ℕ) → a + 4 < 2 ^ 32 → (j < a) ⊎ (a + 4 ≤ j) → store32 m a v j ≡ m j
unfolding store32
store32-frame m a v j inside off =
    let a2 : add32 a 2 ≡ a + 2 = omega arith in
    rw a2 (
      store16-frame (store16 m a (v % 2 ^ 16)) (a + 2) (v / 2 ^ 16) j (omega (arith, inside))
        (ground (arith, off))
      ∙ store16-frame m a (v % 2 ^ 16) j (omega (arith, inside)) (ground (arith, off)))

store32-load : (m : ℕ → ℕ) (a v : ℕ) → a + 4 < 2 ^ 32 → v < 2 ^ 32 → load32 (store32 m a v) a ≡ v
unfolding store32
store32-load m a v inside small =
    let a2 : add32 a 2 ≡ a + 2 = omega arith in
    let low : ℕ → ℕ = store16 m a (v % 2 ^ 16) in
    let keep : (j : ℕ) → j < a + 2 → store16 low (a + 2) (v / 2 ^ 16) j ≡ low j =
      λ j lt. store16-frame low (a + 2) (v / 2 ^ 16) j (omega (arith, inside)) (inl lt) in
    rw
      (
        a2,
        keep a (omega arith),
        keep (a + 1) (omega arith),
        store16-load m a (v % 2 ^ 16) (omega (arith, inside)) (omega arith),
        store16-load low (a + 2) (v / 2 ^ 16) (omega (arith, inside)) (omega (arith, small)),
      )
      (omega arith)

rep_stosw-frame :
    (ecx eax edi : ℕ) (m : ℕ → ℕ) (j : ℕ)
    → edi + 2 * ecx < 2 ^ 32
    → (j < edi) ⊎ (edi + 2 * ecx ≤ j)
    → rep_stosw ecx eax edi m j ≡ m j
unfolding rep_stosw
rep_stosw-frame zero eax edi m j inside off = refl
rep_stosw-frame (suc ecx) eax edi m j inside off =
    let next : add32 edi 2 ≡ edi + 2 = add32-small edi 2 (omega (arith, inside)) in
    let off_rest : (j < edi + 2) ⊎ (edi + 2 + 2 * ecx ≤ j) = ground (arith, off) in
    let off_here : (j < edi) ⊎ (edi + 2 ≤ j) = ground (arith, off) in
    rw next (
      rep_stosw-frame ecx eax (edi + 2) (store16 m edi (eax % 2 ^ 16)) j (omega (arith, inside))
        off_rest
      ∙ store16-frame m edi (eax % 2 ^ 16) j (omega (arith, inside)) off_here)

rep_stosl-frame :
    (ecx eax edi : ℕ) (m : ℕ → ℕ) (j : ℕ)
    → edi + 4 * ecx < 2 ^ 32
    → (j < edi) ⊎ (edi + 4 * ecx ≤ j)
    → rep_stosl ecx eax edi m j ≡ m j
unfolding rep_stosl
rep_stosl-frame zero eax edi m j inside off = refl
rep_stosl-frame (suc ecx) eax edi m j inside off =
    let next : add32 edi 4 ≡ edi + 4 = add32-small edi 4 (omega (arith, inside)) in
    let off_rest : (j < edi + 4) ⊎ (edi + 4 + 4 * ecx ≤ j) = ground (arith, off) in
    let off_here : (j < edi) ⊎ (edi + 4 ≤ j) = ground (arith, off) in
    rw next (
      rep_stosl-frame ecx eax (edi + 4) (store32 m edi eax) j (omega (arith, inside)) off_rest
      ∙ store32-frame m edi eax j (omega (arith, inside)) off_here)

rep_stosw-load :
    (ecx eax edi : ℕ) (m : ℕ → ℕ) (i : ℕ)
    → edi + 2 * ecx < 2 ^ 32
    → i < ecx
    → load16 (rep_stosw ecx eax edi m) (edi + 2 * i) ≡ eax % 2 ^ 16
unfolding rep_stosw
rep_stosw-load zero eax edi m i inside lt = absurd (omega (arith, lt))
rep_stosw-load (suc ecx) eax edi m zero inside lt =
    let next : add32 edi 2 ≡ edi + 2 = add32-small edi 2 (omega (arith, inside)) in
    let here : edi + 2 * 0 ≡ edi = omega arith in
    let m1 : ℕ → ℕ = store16 m edi (eax % 2 ^ 16) in
    let keep : (j : ℕ) → j < edi + 2 → rep_stosw ecx eax (edi + 2) m1 j ≡ m1 j =
      λ j low. rep_stosw-frame ecx eax (edi + 2) m1 j (omega (arith, inside)) (inl low) in
    rw (next, here, keep edi (omega arith), keep (edi + 1) (omega arith))
      (store16-load m edi (eax % 2 ^ 16) (omega (arith, inside)) (omega arith))
rep_stosw-load (suc ecx) eax edi m (suc i) inside lt =
    let next : add32 edi 2 ≡ edi + 2 = add32-small edi 2 (omega (arith, inside)) in
    let at : edi + 2 * suc i ≡ edi + 2 + 2 * i = omega arith in
    rw (next, at)
      (rep_stosw-load ecx eax (edi + 2) (store16 m edi (eax % 2 ^ 16)) i (omega (arith, inside))
        (omega (arith, lt)))

rep_stosl-load :
    (ecx eax edi : ℕ) (m : ℕ → ℕ) (i : ℕ)
    → eax < 2 ^ 32
    → edi + 4 * ecx < 2 ^ 32
    → i < ecx
    → load32 (rep_stosl ecx eax edi m) (edi + 4 * i) ≡ eax
unfolding rep_stosl
rep_stosl-load zero eax edi m i word inside lt = absurd (omega (arith, lt))
rep_stosl-load (suc ecx) eax edi m zero word inside lt =
    let next : add32 edi 4 ≡ edi + 4 = add32-small edi 4 (omega (arith, inside)) in
    let here : edi + 4 * 0 ≡ edi = omega arith in
    let m1 : ℕ → ℕ = store32 m edi eax in
    let keep : (j : ℕ) → j < edi + 4 → rep_stosl ecx eax (edi + 4) m1 j ≡ m1 j =
      λ j low. rep_stosl-frame ecx eax (edi + 4) m1 j (omega (arith, inside)) (inl low) in
    rw
      (
        next,
        here,
        keep edi (omega arith),
        keep (edi + 1) (omega arith),
        keep (edi + 2) (omega arith),
        keep (edi + 2 + 1) (omega arith),
      )
      (store32-load m edi eax (omega (arith, inside)) word)
rep_stosl-load (suc ecx) eax edi m (suc i) word inside lt =
    let next : add32 edi 4 ≡ edi + 4 = add32-small edi 4 (omega (arith, inside)) in
    let at : edi + 4 * suc i ≡ edi + 4 + 4 * i = omega arith in
    rw (next, at)
      (rep_stosl-load ecx eax (edi + 4) (store32 m edi eax) i word (omega (arith, inside))
        (omega (arith, lt)))

-- `memset_word` makes the low 16 bits of `c` of each of the `n` words from `s` on, and `memset_dword`
-- the number `c` of each of the `n` double words, if they lie before the end of the address space;
-- neither changes a byte outside of them.
pub memset_words_lem :
    (m : ℕ → ℕ) (s c n i j : ℕ)
    → c < 2 ^ 32
    → s + 4 * n < 2 ^ 32
    → i < n
    → (load16 (memset_word m s c n) (s + 2 * i) ≡ c % 2 ^ 16)
      × (load32 (memset_dword m s c n) (s + 4 * i) ≡ c)
      × ((j < s) ⊎ (s + 2 * n ≤ j) → memset_word m s c n j ≡ m j)
      × ((j < s) ⊎ (s + 4 * n ≤ j) → memset_dword m s c n j ≡ m j)
unfolding memset_word memset_dword
memset_words_lem m s c n i j word inside lt = (
  rep_stosw-load n c s m i (omega (arith, inside)) lt,
  rep_stosl-load n c s m i word inside lt,
  rep_stosw-frame n c s m j (omega (arith, inside)),
  rep_stosl-frame n c s m j inside,
)
