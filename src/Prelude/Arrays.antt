-- ===== src/Prelude/Arrays.antt =====
-- An array or a stretch of memory behind a pointer is a function of the index. A write replaces
-- one element. What an index past the array's size stands for is the memory behind it.
use Prim.Native.Nat.{ℕ, zero, suc, ◌+◌, ◌<◌}
use mathlib.Core.Path.{◌≡◌, refl, ap, sym, ◌∙◌}
use mathlib.Core.Logic.{◌≢◌}
use mathlib.Core.List.{List, [], ◌∷◌, ◌++◌}
use native.Mathlib.Omega.{arith}
use linux_base_operating_sys.Prelude.Lists.{length}
use linux_base_operating_sys.Prelude.Tests.{ltb, ◌==◌, if◌then◌else◌}

module _ {ℓ} {A : Type ℓ} where
  -- a[i] = v
  abbrev pub update : (ℕ → A) → ℕ → A → ℕ → A
  update a i v j = if i == j then v else a j

  -- for (k = 0; k < n; k++) a[k] = f k
  unfoldable pub fill : ℕ → (ℕ → A) → (ℕ → A) → ℕ → A
  fill zero f a = a
  fill (suc n) f a = update (fill n f a) n (f n)

  pub fill_lem : (n : ℕ) (f a : ℕ → A) (j : ℕ) → fill n f a j ≡ (if ltb j n then f j else a j)
  unfolding fill
  fill_lem zero f a j = ground arith
  fill_lem (suc n) f a j = ground (arith, fill_lem n f a j)

  -- The first `n` elements.
  abbrev pub prefix : ℕ → (ℕ → A) → List A
  prefix zero a = []
  prefix (suc n) a = a 0 ∷ prefix n (λ j. a (suc j))

  pub prefix-cong : (n : ℕ) (a b : ℕ → A) → ((j : ℕ) → j < n → a j ≡ b j) → prefix n a ≡ prefix n b
  prefix-cong zero a b h = refl
  prefix-cong (suc n) a b h =
      let first = h 0 (omega arith) in
      let rest = prefix-cong n (λ j. a (suc j)) (λ j. b (suc j)) (λ j l. h (suc j) (omega arith)) in
      cc

  pub length-prefix : (n : ℕ) (a : ℕ → A) → length (prefix n a) ≡ n
  length-prefix zero a = refl
  length-prefix (suc n) a = ap suc (length-prefix n (λ j. a (suc j)))

  pub prefix-add :
      (m n : ℕ) (a b : ℕ → A)
      → ((j : ℕ) → j < n → a (m + j) ≡ b j)
      → prefix (m + n) a ≡ prefix m a ++ prefix n b
  prefix-add zero n a b h =
      let none_before : (j : ℕ) → 0 + j ≡ j = λ j. omega arith in
      rw (none_before n) (prefix-cong n a b (λ j lt. ap a (sym (none_before j)) ∙ h j lt))
  prefix-add (suc m) n a b h =
      let next : (j : ℕ) → suc m + j ≡ suc (m + j) = λ j. omega arith in
      rw (next n) (
        ap (λ l. a 0 ∷ l)
          (prefix-add m n (λ j. a (suc j)) b (λ j lt. ap a (sym (next j)) ∙ h j lt)))

  -- `n` times the same element.
  abbrev pub replicate : ℕ → A → List A
  replicate zero x = []
  replicate (suc n) x = x ∷ replicate n x

  pub prefix-const :
      (n : ℕ) (a : ℕ → A) (x : A) → ((j : ℕ) → j < n → a j ≡ x) → prefix n a ≡ replicate n x
  prefix-const zero a x h = refl
  prefix-const (suc n) a x h =
      let rest = prefix-const n (λ j. a (suc j)) x (λ j l. h (suc j) (omega arith)) in
      rw (h 0 (omega arith), rest) refl

  pub update_self : (a : ℕ → A) (i j : ℕ) (v : A) → i ≡ j → update a i v j ≡ v
  update_self a i j v e = ground (arith, e)

  pub update_other : (a : ℕ → A) (i j : ℕ) (v : A) → i ≢ j → update a i v j ≡ a j
  update_other a i j v n = ground (arith, n)
