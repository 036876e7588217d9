-- ===== src/Kernel/Calls/Agree.antt =====
-- Kernels that agree on the processes represent the same stacks; what the slot of a new process and
-- the end of one do to the stacks.
use linux_base_operating_sys.Prelude.{
  ℕ, ◌<◌, ◌≡◌, ◌≢◌, if◌then◌else◌, update, List, [], ◌∷◌, refl, ap, ◌∙◌, arith, subst, Option, some,
  none, ltb,
}
use linux_base_operating_sys.Prelude.Int.{ℤ, pos, minus_one}
use linux_base_operating_sys.Kernel.{Kernel, M, ◌>>=◌}
use linux_base_operating_sys.Kernel.Calls.{Calls, count, Block, Linked, Represents}

-- What holds of the result and the kernel if there is no fault.
abbrev pub Leads : {A : Type 0} → (A → Kernel → Type 0) → Option (A × Kernel) → Type 0
Leads P none = Unit
Leads P (some (a, k)) = P a k

pub Leads-map :
    {A : Type 0} (P Q : A → Kernel → Type 0) (r : Option (A × Kernel))
    → ((a : A) (k : Kernel) → P a k → Q a k)
    → Leads P r
    → Leads Q r
Leads-map P Q none h l = tt
Leads-map P Q (some (a, k)) h l = h a k l

pub Leads-bind :
    {A B : Type 0} (P : A → Kernel → Type 0) (Q : B → Kernel → Type 0) (m : M A) (f : A → M B)
    (k : Kernel)
    → Leads P (m k)
    → ((a : A) (k1 : Kernel) → P a k1 → Leads Q (f a k1))
    → Leads Q ((m >>= f) k)
Leads-bind {A} {B} P Q m f k l h = go (m k) l
  where
    go :
        (r : Option (A × Kernel))
        → Leads P r
        → Leads Q (elim r [ none ↦ none | some (a, k') ↦ f a k' ])
    go none l = tt
    go (some (a, k1)) l = h a k1 l

-- The blocks of process `j` agree.
pub record AgreeAt (k k' : Kernel) (j : ℕ) : Type 0 where
  pub pointer : k'.process_array j ≡ k.process_array j
  pub number : (k'.pcbs j).process_id ≡ (k.pcbs j).process_id
  pub parent : (k'.pcbs j).parent_id ≡ (k.pcbs j).parent_id

-- The tables of the processes agree.
pub record Agree (k k' : Kernel) : Type 0 where
  pub terminal : k'.curr_terminal ≡ k.curr_terminal
  pub current : k'.current_process ≡ k.current_process
  pub slots : k'.in_use ≡ k.in_use
  pub blocks : (j : ℕ) → AgreeAt k k' j

pub same : (k : Kernel) → Agree k k
same k = record {
  terminal = refl;
  current = refl;
  slots = refl;
  blocks = λ j. record { pointer = refl; number = refl; parent = refl };
}

pub Agree-trans : {k1 k2 k3 : Kernel} → Agree k1 k2 → Agree k2 k3 → Agree k1 k3
Agree-trans a b = record {
  terminal = b.terminal ∙ a.terminal;
  current = b.current ∙ a.current;
  slots = b.slots ∙ a.slots;
  blocks = λ j. record {
    pointer = (b.blocks j).pointer ∙ (a.blocks j).pointer;
    number = (b.blocks j).number ∙ (a.blocks j).number;
    parent = (b.blocks j).parent ∙ (a.blocks j).parent;
  };
}

Block-AgreeAt : {k k' : Kernel} {j : ℕ} {p : ℤ} → AgreeAt k k' j → Block k j p → Block k' j p
Block-AgreeAt a b = record {
  here = a.pointer ∙ b.here;
  number = a.number ∙ b.number;
  parent_is = a.parent ∙ b.parent_is;
}

count-head : (i : ℕ) (l : List ℕ) → 0 < count i (i ∷ l)
count-head i l = ground arith

count-tail : (i j : ℕ) (l : List ℕ) → 0 < count j l → 0 < count j (i ∷ l)
count-tail i j l h = ground (arith, h)

-- The blocks of a stack are enough for it.
pub Linked-Agree :
    (k k' : Kernel) (t : ℕ) (l : List ℕ)
    → ((j : ℕ) → 0 < count j l → AgreeAt k k' j)
    → Linked k t l
    → Linked k' t l
Linked-Agree k k' t [] a h = tt
Linked-Agree k k' t (i ∷ []) a (e, b) = (e, Block-AgreeAt (a i (count-head i [])) b)
Linked-Agree k k' t (i ∷ p ∷ rest) a (ge, lt, b, more) = (
  ge,
  lt,
  Block-AgreeAt (a i (count-head i (p ∷ rest))) b,
  Linked-Agree k k' t (p ∷ rest) (λ j h. a j (count-tail i j (p ∷ rest) h)) more,
)

-- Kernels that agree represent the same stacks.
pub Represents-Agree : {c : Calls} {k k' : Kernel} → Agree k k' → Represents c k → Represents c k'
Represents-Agree {c} {k} {k'} a r = record {
  shown = a.terminal ∙ r.shown;
  bound = r.bound;
  tops = λ t lt. ap (λ f. f t) a.current ∙ r.tops t lt;
  linked = λ t lt. Linked-Agree k k' t (c.stacks t) (λ j h. a.blocks j) (r.linked t lt);
  shells = λ t lt. ap (λ f. f t) a.slots ∙ r.shells t lt;
  slots = λ i ge lt. (ap (λ f. f i) a.slots ∙ (r.slots i ge lt).0, (r.slots i ge lt).1);
}

-- In `k'` slot `i` belongs to a new process, which runs on the terminal of `k`.
pub record Took (k : Kernel) (i : ℕ) (k' : Kernel) : Type 0 where
  pub terminal : k'.curr_terminal ≡ k.curr_terminal
  pub current : k'.current_process ≡ update k.current_process k.curr_terminal (pos i)
  pub slots : k'.in_use ≡ update k.in_use i 1
  pub block : Block k' i (if ltb i 3 then minus_one else k.current_process k.curr_terminal)
  pub others : (j : ℕ) → j ≢ i → AgreeAt k k' j

pub Took-Agree : {i : ℕ} {k k1 k' : Kernel} → Took k i k1 → Agree k1 k' → Took k i k'
Took-Agree {i} t a = record {
  terminal = a.terminal ∙ t.terminal;
  current = a.current ∙ t.current;
  slots = a.slots ∙ t.slots;
  block = Block-AgreeAt (a.blocks i) t.block;
  others = λ j n. record {
    pointer = (a.blocks j).pointer ∙ (t.others j n).pointer;
    number = (a.blocks j).number ∙ (t.others j n).number;
    parent = (a.blocks j).parent ∙ (t.others j n).parent;
  };
}

pub Agree-Took : {i : ℕ} {k k1 k' : Kernel} → Agree k k1 → Took k1 i k' → Took k i k'
Agree-Took {i} {k} {k1} {k'} a t =
    let started : k1.current_process k1.curr_terminal ≡ k.current_process k.curr_terminal =
      rw (a.current, a.terminal) refl in
    record {
      terminal = t.terminal ∙ a.terminal;
      current = rw (t.current, a.current, a.terminal) refl;
      slots = rw (t.slots, a.slots) refl;
      block = subst (λ p. Block k' i (if ltb i 3 then minus_one else p)) started t.block;
      others = λ j n. record {
        pointer = (t.others j n).pointer ∙ (a.blocks j).pointer;
        number = (t.others j n).number ∙ (a.blocks j).number;
        parent = (t.others j n).parent ∙ (a.blocks j).parent;
      };
    }
