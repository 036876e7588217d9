-- ===== src/Kernel/Run/Sound.antt =====
-- What the stacks say of the tables of the processes.
use linux_base_operating_sys.Prelude.{
  ℕ, zero, suc, ◌+◌, ◌≡◌, ◌≢◌, ◌≤◌, ◌<◌, ◌⊎◌, Option, some, List, [], ◌∷◌, refl, sym, ap, ◌∙◌,
  subst, arith, inl, inr, true, ltb, Bool-cases, ==-cases,
}
use linux_base_operating_sys.Prelude.Int.{pos, minus_one}
use linux_base_operating_sys.Fs.{Dentry}
use linux_base_operating_sys.Kernel.{Kernel}
use linux_base_operating_sys.Kernel.Process.{entered, execute}
use linux_base_operating_sys.Kernel.Calls.{Calls, count, total, top, Linked, Represents}
use linux_base_operating_sys.Kernel.Calls.Counts.{count-le-total}
use linux_base_operating_sys.Kernel.Run.{Run}
use linux_base_operating_sys.Kernel.Run.Stacks.{Run-Represents, IsIdle, first, execute-first}

-- A process that is there: its slot is in use and its block knows its number.
pub record IsThere (k : Kernel) (i : ℕ) : Type 0 where
  pub bound : i < 8
  pub here : k.process_array i ≡ true
  pub number : (k.pcbs i).process_id ≡ i
  pub used : k.in_use i ≡ 1

-- The running process of a terminal is there, and so is its parent unless it is a base shell.
pub record IsAlive (k : Kernel) (i : ℕ) : Type 0 where
  pub itself : IsThere k i
  pub parent : 3 ≤ i → (p : ℕ) × ((k.pcbs i).parent_id ≡ pos p) × IsThere k p × (p ≢ i)

pub record IsSound (k : Kernel) : Type 0 where
  pub shown : k.curr_terminal < 3
  pub runs :
      (t : ℕ)
      → t < 3
      → (k.current_process t ≡ minus_one) ⊎ ((i : ℕ) × (k.current_process t ≡ pos i) × IsAlive k i)
  pub once :
      (t u i : ℕ)
      → t < 3
      → u < 3
      → k.current_process t ≡ pos i
      → k.current_process u ≡ pos i
      → t ≡ u

-- The blocks along a stack.
head-block :
    (k : Kernel) (t i : ℕ) (rest : List ℕ)
    → t < 3
    → Linked k t (i ∷ rest)
    → (i < 8) × (k.process_array i ≡ true) × ((k.pcbs i).process_id ≡ i)
head-block k t i [] lt (e, b) = (omega (arith, e, lt), b.here, b.number)
head-block k t i (p ∷ rest) lt (ge, i8, b, below) = (i8, b.here, b.number)

counted : (c : Calls) (t i : ℕ) (rest : List ℕ) → t < 3 → c.stacks t ≡ i ∷ rest → 1 ≤ total i c
counted c t i rest lt e =
    let le = count-le-total i t c lt in
    let one : 1 + count i rest ≤ count i (c.stacks t) = rw e (ground arith) in
    omega (arith, le, one)

-- Two stacks count for themselves.
count-twice :
    (c : Calls) (t u i : ℕ)
    → t < 3
    → u < 3
    → t ≢ u
    → count i (c.stacks t) + count i (c.stacks u) ≤ total i c
count-twice c zero zero i lt lu n = absurd (n refl)
count-twice c zero (suc zero) i lt lu n = omega arith
count-twice c zero (suc (suc zero)) i lt lu n = omega arith
count-twice c (suc zero) zero i lt lu n = omega arith
count-twice c (suc zero) (suc zero) i lt lu n = absurd (n refl)
count-twice c (suc zero) (suc (suc zero)) i lt lu n = omega arith
count-twice c (suc (suc zero)) zero i lt lu n = omega arith
count-twice c (suc (suc zero)) (suc zero) i lt lu n = omega arith
count-twice c (suc (suc zero)) (suc (suc zero)) i lt lu n = absurd (n refl)
count-twice c (suc (suc (suc t))) u i lt lu n = absurd (omega (arith, lt))
count-twice c zero (suc (suc (suc u))) i lt lu n = absurd (omega (arith, lu))
count-twice c (suc zero) (suc (suc (suc u))) i lt lu n = absurd (omega (arith, lu))
count-twice c (suc (suc zero)) (suc (suc (suc u))) i lt lu n = absurd (omega (arith, lu))

module _ (c : Calls) (k : Kernel) (r : Represents c k) where
  used_slot : (t i : ℕ) → t < 3 → i < 8 → 1 ≤ total i c → k.in_use i ≡ 1
  used_slot t i lt i8 one = elim (Bool-cases (ltb i 3)) [
    | inl low ↦ r.shells i (ground (arith, low))
    | inr high ↦ let (e, le) = r.slots i (ground (arith, high)) i8 in omega (arith, e, le, one)
  ]

  there : (t i : ℕ) (rest : List ℕ) → t < 3 → Linked k t (i ∷ rest) → 1 ≤ total i c → IsThere k i
  there t i rest lt h one =
      let (i8, b, n) = head-block k t i rest lt h in
      record { bound = i8; here = b; number = n; used = used_slot t i lt i8 one }

  -- A process stands above its parent, and nowhere else.
  apart : (t i p : ℕ) (rest : List ℕ) → t < 3 → 3 ≤ i → i < 8 → c.stacks t ≡ i ∷ p ∷ rest → p ≢ i
  apart t i p rest lt ge i8 e same =
      let two : 2 ≤ count i (c.stacks t) = rw (e, same) (ground arith) in
      let le = count-le-total i t c lt in absurd (omega (arith, two, le, (r.slots i ge i8).1))

  pub above_parent :
      (t i p : ℕ) (rest : List ℕ)
      → t < 3
      → c.stacks t ≡ i ∷ p ∷ rest
      → ((k.pcbs i).parent_id ≡ pos p) × IsThere k p × (p ≢ i)
  above_parent t i p rest lt e =
      let (ge, i8, b, below) = subst (Linked k t) e (r.linked t lt) in
      let n = apart t i p rest lt ge i8 e in
      let le = count-le-total p t c lt in
      let one : 1 ≤ count p (c.stacks t) = rw e (ground arith) in
      (b.parent_is, there t p rest lt below (omega (arith, le, one)), n)

  alive : (t i : ℕ) (rest : List ℕ) → t < 3 → c.stacks t ≡ i ∷ rest → IsAlive k i
  alive t i [] lt e =
      let h = subst (Linked k t) e (r.linked t lt) in
      record {
        itself = there t i [] lt h (counted c t i [] lt e);
        parent = λ ge. absurd (omega (arith, ge, h.0, lt));
      }
  alive t i (p ∷ rest) lt e =
      let h = subst (Linked k t) e (r.linked t lt) in
      record {
        itself = there t i (p ∷ rest) lt h (counted c t i (p ∷ rest) lt e);
        parent =
            λ ge. let (is_parent, par, n) = above_parent t i p rest lt e in (p, is_parent, par, n);
      }

  running :
      (t : ℕ) (l : List ℕ)
      → t < 3
      → c.stacks t ≡ l
      → (k.current_process t ≡ minus_one) ⊎ ((i : ℕ) × (k.current_process t ≡ pos i) × IsAlive k i)
  running t [] lt e = inl (r.tops t lt ∙ ap top e)
  running t (i ∷ rest) lt e = inr (i, r.tops t lt ∙ ap top e, alive t i rest lt e)

  -- The top of a stack that is a process number.
  top-pos :
      (t i : ℕ) (l : List ℕ)
      → t < 3
      → c.stacks t ≡ l
      → k.current_process t ≡ pos i
      → (rest : List ℕ) × (c.stacks t ≡ i ∷ rest)
  top-pos t i [] lt e h = let q : minus_one ≡ pos i = sym (r.tops t lt ∙ ap top e) ∙ h in cc
  top-pos t i (j ∷ rest) lt e h =
      let q : pos j ≡ pos i = sym (r.tops t lt ∙ ap top e) ∙ h in
      let s : j ≡ i = cc in (rest, subst (λ x. c.stacks t ≡ x ∷ rest) s e)

  -- A base shell runs on its own terminal.
  low_head : (t i : ℕ) (l : List ℕ) → t < 3 → i < 3 → Linked k t (i ∷ l) → i ≡ t
  low_head t i [] lt low h = h.0
  low_head t i (p ∷ rest) lt low h = absurd (omega (arith, low, h.0))

  once_lem :
      (t u i : ℕ)
      → t < 3
      → u < 3
      → k.current_process t ≡ pos i
      → k.current_process u ≡ pos i
      → t ≡ u
  once_lem t u i lt lu ht hu =
      let (a, ea) = top-pos t i (c.stacks t) lt refl ht in
      let (b, eb) = top-pos u i (c.stacks u) lu refl hu in
      let la = subst (Linked k t) ea (r.linked t lt) in
      let lb = subst (Linked k u) eb (r.linked u lu) in
      let ca : 1 ≤ count i (c.stacks t) = rw ea (ground arith) in
      let cb : 1 ≤ count i (c.stacks u) = rw eb (ground arith) in
      elim (==-cases t u) [
        | inl e ↦ e
        | inr n ↦ elim (Bool-cases (ltb i 3)) [
          | inl low ↦
              sym (low_head t i a lt (ground (arith, low)) la)
              ∙ low_head u i b lu (ground (arith, low)) lb
          | inr high ↦
              let (i8, _, _) = head-block k t i a lt la in
              absurd (
                omega (
                  arith,
                  count-twice c t u i lt lu n,
                  ca,
                  cb,
                  (r.slots i (ground (arith, high)) i8).1,
                ))
        ]
      ]

  -- Stacks make sound tables.
  pub Represents-IsSound : IsSound k
  Represents-IsSound = record {
    shown = subst (λ x. x < 3) (sym r.shown) r.bound;
    runs = λ t lt. running t (c.stacks t) lt refl;
    once = once_lem;
  }

-- In every state that the system reaches from a first base shell, the terminal shown is one of the
-- three; on each terminal runs either nothing or a process that is there (its slot is in use and
-- its block knows its number), and so is its parent, another process, unless it is a base shell;
-- and no process runs on two terminals.
pub Run-IsSound :
    (stack : ℕ → ℕ) (blank : Dentry) (comm : Option (ℕ → ℕ)) (a : ℕ) (k k1 k' : Kernel)
    → IsIdle k
    → execute stack blank comm k ≡ some (entered a, k1)
    → Run k1 k'
    → IsSound k'
Run-IsSound stack blank comm a k k1 k' idle e run =
    let (c, r) = Run-Represents first (execute-first stack blank comm a k k1 idle e) run in
    Represents-IsSound c k' r
