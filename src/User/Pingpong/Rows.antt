-- ===== src/User/Pingpong/Rows.antt =====
-- What the rows of syscalls/ece391pingpong.c look like.
use linux_base_operating_sys.Prelude.{
  ℕ, zero, suc, ◌+◌, ◌≤◌, ◌<◌, ◌≡◌, ◌&&◌, ◌||◌, ltb, leb, ◌==◌, if◌then◌else◌, update, fill_lem,
  arith, fun_ext, ◌∙◌, refl, true, false, Bool-cases, inl, inr,
}
use linux_base_operating_sys.User.Pingpong.{clear_from, place, walls}

-- The row without a letter; behind its NUL is what was there.
abbrev walled : (ℕ → ℕ) → ℕ → ℕ
walled rest i =
    if i == 1 || i == 78
    then b'|'
    else if i == 79
    then 10
    else if i == 80
    then 0
    else if ltb i 80
    then 32
    else rest i

-- The row with the letter at `j`.
abbrev pub row : (ℕ → ℕ) → ℕ → ℕ → ℕ → ℕ
row rest letter j i = if i == j then letter else walled rest i

walls-walled : (buf : ℕ → ℕ) (i : ℕ) → walls buf i ≡ walled buf i
unfolding walls
walls-walled buf i = ground (arith, fill_lem 81 (λ j. 32) buf i)

clear_from_lem :
    (n i : ℕ) (buf : ℕ → ℕ) (j : ℕ)
    → clear_from n i buf j ≡ (if leb i j && ltb j (i + n) then 32 else buf j)
unfolding clear_from
clear_from_lem zero i buf j = ground arith
clear_from_lem (suc n) i buf j = ground (arith, clear_from_lem n (i + 1) (update buf i 32) j)

place_lem :
    (letter j : ℕ) (buf : ℕ → ℕ) (i : ℕ)
    → place letter j buf i ≡ (if i == j then letter else if leb 2 i && ltb i 78 then 32 else buf i)
unfolding place
place_lem letter j buf i = ground (arith, clear_from_lem 76 2 buf i)

inner-blank : (rest : ℕ → ℕ) (i : ℕ) → (leb 2 i && ltb i 78) ≡ true → walled rest i ≡ 32
inner-blank rest i e = ground (arith, e)

-- The first row of the program, and each one after it, for a letter between the walls, is the row
-- with the letter at its place and no other.
pub place-row :
    (buf : ℕ → ℕ) (letter j : ℕ)
    → 2 ≤ j
    → j < 78
    → (place letter j (walls buf) ≡ row buf letter j)
      × ((old at : ℕ) → 2 ≤ at → at < 78 → place letter j (row buf old at) ≡ row buf letter j)
place-row buf letter j ge lt = (
  fun_ext (λ i. place_lem letter j (walls buf) i ∙ cleared i (walls buf) (λ _. walls-walled buf i)),
  λ old at ga la. fun_ext (λ i.
      place_lem letter j (row buf old at) i
      ∙ cleared i (row buf old at) (λ outer. not_there i old at ga la outer)),
)
  where
    cleared :
        (i : ℕ) (b : ℕ → ℕ)
        → ((leb 2 i && ltb i 78) ≡ false → b i ≡ walled buf i)
        → (if i == j then letter else if leb 2 i && ltb i 78 then 32 else b i) ≡ row buf letter j i
    cleared i b h = elim (Bool-cases (leb 2 i && ltb i 78)) [
      | inl inside ↦ rw (inside, inner-blank buf i inside) refl
      | inr outside ↦ rw (outside, h outside) refl
    ]

    not_there :
        (i old at : ℕ)
        → 2 ≤ at
        → at < 78
        → (leb 2 i && ltb i 78) ≡ false
        → row buf old at i ≡ walled buf i
    not_there i old at ga la outer =
        let n : (i == at) ≡ false = ground (arith, ga, la, outer) in rw n refl
