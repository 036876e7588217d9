-- ===== src/Kernel/Calls/Moves.antt =====
-- The moves of the stacks, on the kernels that represent them.
use linux_base_operating_sys.Prelude.{
  ℕ, ◌+◌, ◌≤◌, ◌<◌, ◌≡◌, ◌≢◌, ◌⊎◌, ◌==◌, if◌then◌else◌, update, List, [], ◌∷◌, refl, ap, ◌∙◌, arith,
  subst, inl, inr, ==-cases, ltb, lt→ltb, ltb-false, update_self, update_other,
}
use linux_base_operating_sys.Prelude.Int.{pos, minus_one}
use linux_base_operating_sys.Kernel.{Kernel}
use linux_base_operating_sys.Kernel.Calls.{
  started, Calls, count, total, replaced, Block, Linked, Represents,
}
use linux_base_operating_sys.Kernel.Calls.Agree.{AgreeAt, Took, Linked-Agree}
use linux_base_operating_sys.Kernel.Calls.Counts.{
  total_change, update-Linked, tops_update, count-zero, above_shells, pushed_slot,
}

-- A slot that is free is a new program on the stack of the terminal.
pub push_lem :
    (c : Calls) (k k' : Kernel) (i p : ℕ) (rest : List ℕ)
    → Represents c k
    → c.stacks c.shown ≡ p ∷ rest
    → i < 8
    → k.in_use i ≡ 0
    → Took k i k'
    → (3 ≤ i) × (total i c ≡ 0) × Represents (replaced (i ∷ p ∷ rest) c) k'
push_lem c k k' i p rest r running lt free t =
    let ge : 3 ≤ i = above_shells c k i r free in
    let none_ : total i c ≡ 0 = omega (arith, (r.slots i ge lt).0, free) in
    let l = i ∷ p ∷ rest in
    let parent : (if ltb i 3 then minus_one else k.current_process k.curr_terminal) ≡ pos p =
      rw (ltb-false i 3 ge, r.shown, r.tops c.shown r.bound, running) refl in
    let kept : (u : ℕ) → u < 3 → Linked k' u (c.stacks u) = λ u u3.
      Linked-Agree k k' u (c.stacks u) (λ j h. t.others j (count-zero i j u c u3 none_ h))
        (r.linked u u3) in
    (
      ge,
      none_,
      record {
        shown = t.terminal ∙ r.shown;
        bound = r.bound;
        tops =
            tops_update c k.current_process k'.current_process c.shown l (rw r.shown at t.current)
              r.tops;
        linked =
            update-Linked c k' c.shown l
              (
                ge,
                lt,
                subst (Block k' i) parent t.block,
                subst (Linked k' c.shown) running (kept c.shown r.bound),
              )
              (λ u u3 n. kept u u3);
        shells = λ u u3.
            ap (λ f. f u) t.slots
            ∙ update_other k.in_use i u 1 (λ e. omega (arith, e, ge, u3))
            ∙ r.shells u u3;
        slots = λ j j3 j8.
            pushed_slot c i j p rest k.in_use k'.in_use running r.bound none_ t.slots
              (r.slots j j3 j8);
      },
    )

-- In `k'` process `i` of `k` has ended, and its terminal is back at process `p`.
pub record Gave (k : Kernel) (i p : ℕ) (k' : Kernel) : Type 0 where
  pub terminal : k'.curr_terminal ≡ k.curr_terminal
  pub current : k'.current_process ≡ update k.current_process k.curr_terminal (pos p)
  pub slots : k'.in_use ≡ update k.in_use i 0
  pub blocks : (j : ℕ) → AgreeAt k k' j

popped_slot :
    (c : Calls) (i j p : ℕ) (rest : List ℕ) (f g : ℕ → ℕ)
    → c.stacks c.shown ≡ i ∷ p ∷ rest
    → c.shown < 3
    → g ≡ update f i 0
    → (f j ≡ total j c) × (total j c ≤ 1)
    → (g j ≡ total j (replaced (p ∷ rest) c)) × (total j (replaced (p ∷ rest) c) ≤ 1)
popped_slot c i j p rest f g running lt e (old, one) =
    let less : count j (c.stacks c.shown) + 0 ≡ count j (p ∷ rest) + (if j == i then 1 else 0) =
      rw running (omega arith) in
    let change = total_change j c.shown 0 (if j == i then 1 else 0) c (p ∷ rest) c.shown lt less in
    elim (==-cases i j) [
      | inl s ↦
          let here : g j ≡ 0 = ap (λ h. h j) e ∙ update_self f i j 0 s in
          let add : ◌≡◌ {A = ℕ} (if j == i then 1 else 0) 1 = ground (arith, s) in
          (omega (arith, here, change, add, one), omega (arith, change, add, one))
      | inr n ↦
          let here : g j ≡ f j = ap (λ h. h j) e ∙ update_other f i j 0 n in
          let add : ◌≡◌ {A = ℕ} (if j == i then 1 else 0) 0 = ground (arith, n) in
          (omega (arith, here, change, add, old), omega (arith, change, add, one))
    ]

-- The end of a program that was called is a return to the one below it.
pub pop_lem :
    (c : Calls) (k k' : Kernel) (i p : ℕ) (rest : List ℕ)
    → Represents c k
    → c.stacks c.shown ≡ i ∷ p ∷ rest
    → Gave k i p k'
    → Represents (replaced (p ∷ rest) c) k'
pop_lem c k k' i p rest r running g =
    let kept : (u : ℕ) → u < 3 → Linked k' u (c.stacks u) =
      λ u u3. Linked-Agree k k' u (c.stacks u) (λ j h. g.blocks j) (r.linked u u3) in
    let (ge, lt, b, below) = subst (Linked k' c.shown) running (kept c.shown r.bound) in
    record {
      shown = g.terminal ∙ r.shown;
      bound = r.bound;
      tops =
          tops_update c k.current_process k'.current_process c.shown (p ∷ rest)
            (rw r.shown at g.current) r.tops;
      linked = update-Linked c k' c.shown (p ∷ rest) below (λ u u3 n. kept u u3);
      shells = λ u u3.
          ap (λ f. f u) g.slots
          ∙ update_other k.in_use i u 0 (λ e. omega (arith, e, ge, u3))
          ∙ r.shells u u3;
      slots = λ j j3 j8.
          popped_slot c i j p rest k.in_use k'.in_use running r.bound g.slots (r.slots j j3 j8);
    }

-- `k0` is `k` with terminal `t` shown and the slot of its base shell free.
pub record Vacated (k : Kernel) (t : ℕ) (k0 : Kernel) : Type 0 where
  pub terminal : k0.curr_terminal ≡ t
  pub current : k0.current_process ≡ k.current_process
  pub slots : k0.in_use ≡ update k.in_use t 0
  pub blocks : (j : ℕ) → AgreeAt k k0 j

-- The processes of another terminal's stack are not this terminal's base shell.
Linked-apart :
    (k : Kernel) (t u j : ℕ) (l : List ℕ) → t < 3 → t ≢ u → Linked k u l → 0 < count j l → j ≢ t
Linked-apart k t u j [] t3 n h some_ e = absurd (omega (arith, some_))
Linked-apart k t u j (i ∷ []) t3 n (here, b) some_ e = ground (arith, n, here, some_, e)
Linked-apart k t u j (i ∷ p ∷ rest) t3 n (ge, lt, b, more) some_ e = elim (==-cases j i) [
  | inl s ↦ omega (arith, ge, s, t3, e)
  | inr m ↦
      let zero_ : ◌≡◌ {A = ℕ} (if j == i then 1 else 0) 0 = ground (arith, m) in
      Linked-apart k t u j (p ∷ rest) t3 n more (omega (arith, some_, zero_)) e
]

AgreeAt-trans : {k1 k2 k3 : Kernel} {j : ℕ} → AgreeAt k1 k2 j → AgreeAt k2 k3 j → AgreeAt k1 k3 j
AgreeAt-trans a b = record {
  pointer = b.pointer ∙ a.pointer;
  number = b.number ∙ a.number;
  parent = b.parent ∙ a.parent;
}

-- A terminal's stack before its base shell is started.
abbrev pub AtRest : ℕ → Calls → Type 0
AtRest t c = (c.stacks t ≡ []) ⊎ (c.stacks t ≡ t ∷ [])

count-AtRest : (c : Calls) (t j : ℕ) → AtRest t c → t < 3 → 3 ≤ j → count j (c.stacks t) ≡ 0
count-AtRest c t j (inl e) lt ge = rw e
count-AtRest c t j (inr e) lt ge = rw e (ground (arith, lt, ge))

-- The new process in that slot is the base shell of the terminal.
pub start_lem :
    (c : Calls) (k k0 k' : Kernel) (t : ℕ)
    → Represents c k
    → t < 3
    → AtRest t c
    → Vacated k t k0
    → Took k0 t k'
    → Represents (started t c) k'
start_lem c k k0 k' t r lt rest v took =
    let others : (j : ℕ) → j ≢ t → AgreeAt k k' j =
      λ j n. AgreeAt-trans (v.blocks j) (took.others j n) in
    let parent : (if ltb t 3 then minus_one else k0.current_process k0.curr_terminal) ≡ minus_one =
      rw (lt→ltb t 3 lt) refl in
    record {
      shown = took.terminal ∙ v.terminal;
      bound = lt;
      tops =
          tops_update c k.current_process k'.current_process t (t ∷ [])
            (rw (v.current, v.terminal) at took.current) r.tops;
      linked =
          update-Linked c k' t (t ∷ []) (refl, subst (Block k' t) parent took.block)
            (λ u u3 n.
              Linked-Agree k k' u (c.stacks u)
                (λ j h. others j (Linked-apart k t u j (c.stacks u) lt n (r.linked u u3) h))
                (r.linked u u3));
      shells = λ u u3. elim (==-cases t u) [
        | inl e ↦ ap (λ f. f u) took.slots ∙ update_self k0.in_use t u 1 e
        | inr n ↦
            ap (λ f. f u) took.slots
            ∙ update_other k0.in_use t u 1 n
            ∙ ap (λ f. f u) v.slots
            ∙ update_other k.in_use t u 0 n
            ∙ r.shells u u3
      ];
      slots = λ j j3 j8.
          let n : t ≢ j = λ e. omega (arith, e, lt, j3) in
          let here : k'.in_use j ≡ k.in_use j =
            ap (λ f. f j) took.slots
            ∙ update_other k0.in_use t j 1 n
            ∙ ap (λ f. f j) v.slots
            ∙ update_other k.in_use t j 0 n in
          let same_count : count j (c.stacks t) + 0 ≡ count j (t ∷ []) + 0 =
            ground (arith, count-AtRest c t j rest lt j3, n) in
          let change = total_change j t 0 0 c (t ∷ []) t lt same_count in
          let (old, one) = r.slots j j3 j8 in
          (omega (arith, here, change, old), omega (arith, change, one));
    }
