-- ===== src/Kernel/Process/Returns.antt =====
-- What the `halt` of a program that was called does to the stacks.
use linux_base_operating_sys.Prelude.{
  ℕ, ◌<◌, ◌≡◌, true, false, update, some, none, List, [], ◌∷◌, refl, sym, ap, ◌∙◌, arith, subst,
  Bool-cases, inl, inr, ==-cases, ltb, lt→ltb, ltb-false, update_self, update_other,
}
use linux_base_operating_sys.Prelude.Int.{pos, minus_one}
use linux_base_operating_sys.Fs.{Dentry}
use linux_base_operating_sys.Fd.{close_all_fd}
use linux_base_operating_sys.Kernel.{Kernel, deref, set_table}
use linux_base_operating_sys.Kernel.Process.{halt, resume_parent, free_slot}
use linux_base_operating_sys.Kernel.Process.Slots.{Free, free_slot-Free}
use linux_base_operating_sys.Kernel.Calls.{Calls, top, replaced, Linked, Represents}
use linux_base_operating_sys.Kernel.Calls.Agree.{Leads, Leads-map, Agree, Represents-Agree}
use linux_base_operating_sys.Kernel.Calls.Moves.{Gave, pop_lem}

-- A base shell's slot that is free is the first one that is.
pub free_slot-shell :
    (in_use f : ℕ → ℕ) (t i : ℕ)
    → t < 3
    → ((u : ℕ) → u < 3 → in_use u ≡ 1)
    → f ≡ update in_use t 0
    → free_slot f ≡ some i
    → i ≡ t
free_slot-shell in_use f t i lt taken e free =
    let (_, _, zero_, first) = subst (Free f 0 8) free (free_slot-Free f) in
    let at_t : f t ≡ 0 = ap (λ g. g t) e ∙ update_self in_use t t 0 refl in
    elim (==-cases t i) [
      | inl s ↦ sym s
      | inr n ↦ elim (Bool-cases (ltb t i)) [
        | inl below ↦ absurd (first t (omega arith) (ground (arith, below)) at_t)
        | inr above ↦
            let small : i < 3 = ground (arith, above, lt) in
            let at_i : f i ≡ 1 = ap (λ g. g i) e ∙ update_other in_use t i 0 n ∙ taken i small in
            absurd (omega (arith, at_i, zero_))
      ]
    ]

pub resume_parent-Gave :
    (status i p : ℕ) (k : Kernel)
    → k.current_process k.curr_terminal ≡ pos i
    → i < 8
    → p < 8
    → k.process_array i ≡ true
    → k.process_array p ≡ true
    → (k.pcbs i).parent_id ≡ pos p
    → Leads (λ o k'. Gave k i p k') (resume_parent status k)
unfolding resume_parent deref
resume_parent-Gave status i p k current i8 p8 here there parent =
    rw (current, resume_parent, deref, lt→ltb i 8 i8, here, parent, lt→ltb p 8 p8, there)
      record {
        terminal = refl;
        current = rw parent refl;
        slots = refl;
        blocks = λ j. record { pointer = refl; number = refl; parent = refl };
      }

-- For a base shell the block of a parent would be read through NULL.
pub resume_parent-none :
    (status i : ℕ) (k : Kernel)
    → k.current_process k.curr_terminal ≡ pos i
    → i < 8
    → k.process_array i ≡ true
    → (k.pcbs i).parent_id ≡ minus_one
    → resume_parent status k ≡ none
unfolding resume_parent deref
resume_parent-none status i k current i8 here parent =
    rw (current, resume_parent, deref, lt→ltb i 8 i8, here, parent) refl

abbrev pub closed_files : ℕ → Kernel → Kernel
closed_files i k = set_table i (close_all_fd (k.pcbs i).fd_table) k

pub closed_files-Agree : (i : ℕ) (k : Kernel) → Agree k (closed_files i k)
closed_files-Agree i k = record {
  terminal = refl;
  current = refl;
  slots = refl;
  blocks = λ j. record { pointer = refl; number = ground arith; parent = ground arith };
}

-- The kernel in which a base shell is started anew.
abbrev pub vacated : ℕ → Kernel → Kernel
vacated i k = record (closed_files i k) { in_use = update k.in_use (k.pcbs i).process_id 0 }

-- The process at the top of a stack has its block.
pub head-Linked :
    (k : Kernel) (t i : ℕ) (rest : List ℕ)
    → t < 3
    → Linked k t (i ∷ rest)
    → (i < 8) × (k.process_array i ≡ true)
head-Linked k t i [] lt (e, b) = (omega (arith, e, lt), b.here)
head-Linked k t i (p ∷ rest) lt (ge, i8, b, below) = (i8, b.here)

-- The running process is the top of the stack of the terminal.
abbrev pub Running : ℕ → Kernel → Type 0
Running i k = k.current_process k.curr_terminal ≡ pos i

pub Represents-Running :
    (c : Calls) (k : Kernel) {i : ℕ} {rest : List ℕ}
    → Represents c k
    → c.stacks c.shown ≡ i ∷ rest
    → Running i k
Represents-Running c k r e = rw r.shown (r.tops c.shown r.bound ∙ ap top e)

-- The `halt` of a program that was called leaves the program below it on top.
pub halt_called :
    (stack : ℕ → ℕ) (blank : Dentry) (status i p : ℕ) (rest : List ℕ) (c : Calls) (k : Kernel)
    → Represents c k
    → c.stacks c.shown ≡ i ∷ p ∷ rest
    → Leads (λ o k'. Represents (replaced (p ∷ rest) c) k') (halt stack blank status k)
unfolding halt deref
halt_called stack blank status i p rest c k r running =
    let (ge, i8, b, below) = subst (Linked k c.shown) running (r.linked c.shown r.bound) in
    let (p8, there) = head-Linked k c.shown p rest r.bound below in
    let n : ltb (k.pcbs i).process_id 3 ≡ false = rw b.number (ltb-false i 3 ge) in
    let current = Represents-Running c k r running in
    let k1 : Kernel = closed_files i k in
    let a = closed_files-Agree i k in
    let r1 = Represents-Agree a r in
    let gave =
      resume_parent-Gave status i p k1 current i8 p8 b.here there
        ((a.blocks i).parent ∙ b.parent_is) in
    rw (current, halt, deref, lt→ltb i 8 i8, b.here, n)
      (Leads-map (λ o k'. Gave k1 i p k') (λ o k'. Represents (replaced (p ∷ rest) c) k')
        (resume_parent status k1) (λ o k' g. pop_lem c k1 k' i p rest r1 running g) gave)
