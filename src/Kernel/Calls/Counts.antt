-- ===== src/Kernel/Calls/Counts.antt =====
-- The stacks when one of them changes, and how often a process is on them.
use linux_base_operating_sys.Prelude.{
  ℕ, zero, suc, ◌+◌, ◌≤◌, ◌/◌, ◌<◌, ◌≡◌, ◌≢◌, ◌==◌, if◌then◌else◌, update, List, ◌∷◌, sym, ap, ◌∙◌,
  arith, subst, inl, inr, ==-cases, update_self, update_other,
}
use linux_base_operating_sys.Prelude.Int.{ℤ}
use linux_base_operating_sys.Kernel.{Kernel}
use linux_base_operating_sys.Kernel.Calls.{Calls, count, total, top, replaced, Linked, Represents}

pub count-le-total : (i t : ℕ) (c : Calls) → t < 3 → count i (c.stacks t) ≤ total i c
count-le-total i zero c lt = omega arith
count-le-total i (suc zero) c lt = omega arith
count-le-total i (suc (suc zero)) c lt = omega arith
count-le-total i (suc (suc (suc t))) c lt = absurd (omega (arith, lt))

-- What the total is when one stack changes.
pub total_change :
    (i t a b : ℕ) (c : Calls) (l : List ℕ) (shown : ℕ)
    → t < 3
    → count i (c.stacks t) + a ≡ count i l + b
    → total i c + a ≡ total i (record { shown = shown; stacks = update c.stacks t l }) + b
total_change i zero a b c l shown lt e = omega (arith, e)
total_change i (suc zero) a b c l shown lt e = omega (arith, e)
total_change i (suc (suc zero)) a b c l shown lt e = omega (arith, e)
total_change i (suc (suc (suc t))) a b c l shown lt e = absurd (omega (arith, lt))

pub update-Linked :
    (c : Calls) (k' : Kernel) (t : ℕ) (l : List ℕ)
    → Linked k' t l
    → ((u : ℕ) → u < 3 → t ≢ u → Linked k' u (c.stacks u))
    → (u : ℕ) → u < 3
    → Linked k' u (update c.stacks t l u)
update-Linked c k' t l here others u lt = elim (==-cases t u) [
  | inl e ↦
      subst (Linked k' u) (sym (update_self c.stacks t u l e)) (subst (λ x. Linked k' x l) e here)
  | inr n ↦ subst (Linked k' u) (sym (update_other c.stacks t u l n)) (others u lt n)
]

pub tops_update :
    (c : Calls) (f g : ℕ → ℤ) (t : ℕ) (l : List ℕ)
    → g ≡ update f t (top l)
    → ((u : ℕ) → u < 3 → f u ≡ top (c.stacks u))
    → (u : ℕ) → u < 3
    → g u ≡ top (update c.stacks t l u)
tops_update c f g t l e tops u lt = elim (==-cases t u) [
  | inl s ↦
      ap (λ h. h u) e ∙ update_self f t u (top l) s ∙ sym (ap top (update_self c.stacks t u l s))
  | inr n ↦
      ap (λ h. h u) e
      ∙ update_other f t u (top l) n
      ∙ tops u lt
      ∙ sym (ap top (update_other c.stacks t u l n))
]

pub count-zero : (i j t : ℕ) (c : Calls) → t < 3 → total i c ≡ 0 → 0 < count j (c.stacks t) → j ≢ i
count-zero i j t c lt none_ some_ e =
    let le = count-le-total i t c lt in
    let positive : 0 < count i (c.stacks t) = subst (λ x. 0 < count x (c.stacks t)) e some_ in
    omega (arith, le, none_, positive)

pub above_shells : (c : Calls) (k : Kernel) (i : ℕ) → Represents c k → k.in_use i ≡ 0 → 3 ≤ i
above_shells c k i r free = elim (==-cases (i / 3) 0) [
  | inl low ↦ absurd (omega (arith, free, r.shells i (omega (arith, low))))
  | inr high ↦ omega (arith, high)
]

pub pushed_slot :
    (c : Calls) (i j p : ℕ) (rest : List ℕ) (f g : ℕ → ℕ)
    → c.stacks c.shown ≡ p ∷ rest
    → c.shown < 3
    → total i c ≡ 0
    → g ≡ update f i 1
    → (f j ≡ total j c) × (total j c ≤ 1)
    → (g j ≡ total j (replaced (i ∷ p ∷ rest) c)) × (total j (replaced (i ∷ p ∷ rest) c) ≤ 1)
pushed_slot c i j p rest f g running lt none_ e (old, one) =
    let more : count j (c.stacks c.shown) + (if j == i then 1 else 0) ≡ count j (i ∷ p ∷ rest) + 0 =
      rw running (omega arith) in
    let change =
      total_change j c.shown (if j == i then 1 else 0) 0 c (i ∷ p ∷ rest) c.shown lt more in
    elim (==-cases i j) [
      | inl s ↦
          let here : g j ≡ 1 = ap (λ h. h j) e ∙ update_self f i j 1 s in
          let none_here : total j c ≡ 0 = subst (λ x. total x c ≡ 0) s none_ in
          let add : ◌≡◌ {A = ℕ} (if j == i then 1 else 0) 1 = ground (arith, s) in
          (omega (arith, here, change, add, none_here), omega (arith, change, add, none_here))
      | inr n ↦
          let here : g j ≡ f j = ap (λ h. h j) e ∙ update_other f i j 1 n in
          let add : ◌≡◌ {A = ℕ} (if j == i then 1 else 0) 0 = ground (arith, n) in
          (omega (arith, here, change, add, old), omega (arith, change, add, one))
    ]
