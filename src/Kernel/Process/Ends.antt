-- ===== src/Kernel/Process/Ends.antt =====
-- What `halt` does to the stacks of programs; Returns is about a program that was called.
use linux_base_operating_sys.Prelude.{
  ℕ, ◌<◌, ◌≡◌, ◌≢◌, true, some, none, List, [], ◌∷◌, refl, sym, ap, ◌∙◌, arith, subst, Option-cases,
  inl, inr, ltb, lt→ltb, update_self,
}
use linux_base_operating_sys.Prelude.Int.{ℤ, pos, minus_one}
use linux_base_operating_sys.Fs.{Dentry}
use linux_base_operating_sys.Kernel.{Kernel, deref}
use linux_base_operating_sys.Kernel.Process.{
  Outcome, returned, entered, resumed, execute, halt, resume_parent, free_slot, shell,
}
use linux_base_operating_sys.Kernel.Process.Programs.{Executed, execute-Executed}
use linux_base_operating_sys.Kernel.Calls.{
  Calls, started, ended, after_halt, top, Linked, Represents,
}
use linux_base_operating_sys.Kernel.Calls.Agree.{Leads, Took}
use linux_base_operating_sys.Kernel.Calls.Moves.{Vacated, AtRest, start_lem}
use linux_base_operating_sys.Kernel.Process.Returns.{
  free_slot-shell, resume_parent-none, closed_files-Agree, vacated, head-Linked, Represents-Running,
  halt_called,
}

-- A new process in the slot of a base shell that is free starts that shell.
pub started_lem :
    (c : Calls) (k k0 k' : Kernel) (t i : ℕ)
    → Represents c k
    → t < 3
    → AtRest t c
    → Vacated k t k0
    → free_slot k0.in_use ≡ some i
    → Took k0 i k'
    → Represents (started t c) k'
started_lem c k k0 k' t i r lt rest v free took =
    let e = free_slot-shell k.in_use k0.in_use t i lt r.shells v.slots free in
    start_lem c k k0 k' t r lt rest v (subst (λ x. Took k0 x k') e took)

vacated-Vacated :
    (i : ℕ) (k : Kernel)
    → k.curr_terminal ≡ i
    → (k.pcbs i).process_id ≡ i
    → Vacated k i (vacated i k)
vacated-Vacated i k shown number = record {
  terminal = shown;
  current = refl;
  slots = rw number refl;
  blocks = λ j.
      let a = (closed_files-Agree i k).blocks j in
      record { pointer = a.pointer; number = a.number; parent = a.parent };
}

-- If the shell cannot be started, its block still has no parent.
refused_shell :
    (status i : ℕ) (c : Calls) (k : Kernel) (o : Outcome) (k2 : Kernel)
    → Represents c k
    → c.stacks c.shown ≡ i ∷ []
    → Executed (vacated i k) o k2
    → resume_parent status k2 ≡ none
refused_shell status i c k o k2 r running x =
    let (shown, b) = subst (Linked k c.shown) running (r.linked c.shown r.bound) in
    let (i8, here) = head-Linked k c.shown i [] r.bound (shown, b) in
    let i3 : i < 3 = omega (arith, shown, r.bound) in
    let current = Represents-Running c k r running in
    let v = vacated-Vacated i k (r.shown ∙ sym shown) b.number in
    elim x [
      | inl (_, _, a) ↦
          resume_parent-none status i k2 (rw (a.terminal, a.current) current) i8
            ((a.blocks i).pointer ∙ (v.blocks i).pointer ∙ here)
            ((a.blocks i).parent ∙ (v.blocks i).parent ∙ b.parent_is)
      | inr (j, free, t) ↦
          let e = free_slot-shell k.in_use (vacated i k).in_use i j i3 r.shells v.slots free in
          resume_parent-none status j k2
            (rw (t.terminal, t.current)
              (update_self k.current_process k.curr_terminal k.curr_terminal (pos j) refl))
            (omega (arith, e, i8)) t.block.here
            (t.block.parent_is ∙ rw (lt→ltb j 3 (omega (arith, e, i3))) refl)
    ]

restarted_shell :
    (i : ℕ) (c : Calls) (k : Kernel) (o : Outcome) (k2 : Kernel)
    → Represents c k
    → c.stacks c.shown ≡ i ∷ []
    → ((s : ℤ) → o ≢ returned s)
    → Executed (vacated i k) o k2
    → Represents (started i c) k2
restarted_shell i c k o k2 r running goes x =
    let (shown, b) = subst (Linked k c.shown) running (r.linked c.shown r.bound) in
    let i3 : i < 3 = omega (arith, shown, r.bound) in
    let v = vacated-Vacated i k (r.shown ∙ sym shown) b.number in
    elim x [
      | inl (s, back, _) ↦ absurd (goes s back)
      | inr (j, free, t) ↦
          started_lem c k (vacated i k) k2 i j r i3 (inr (ap c.stacks shown ∙ running)) v free t
    ]

halt_shell :
    (stack : ℕ → ℕ) (blank : Dentry) (status i : ℕ) (c : Calls) (k : Kernel)
    → Represents c k
    → c.stacks c.shown ≡ i ∷ []
    → Leads (λ o k'. Represents (started i c) k') (halt stack blank status k)
unfolding halt deref
halt_shell stack blank status i c k r running =
    let (shown, b) = subst (Linked k c.shown) running (r.linked c.shown r.bound) in
    let (i8, here) = head-Linked k c.shown i [] r.bound (shown, b) in
    let low : ltb (k.pcbs i).process_id 3 ≡ true =
      rw b.number (lt→ltb i 3 (omega (arith, shown, r.bound))) in
    let current = Represents-Running c k r running in
    let all = execute-Executed stack blank (some shell) (vacated i k) in
    elim (Option-cases (execute stack blank (some shell) (vacated i k))) [
      | inl fault ↦ rw (current, halt, deref, lt→ltb i 8 i8, here, low, fault) tt
      | inr ((returned s, k2), again) ↦
          rw
            (
              current,
              halt,
              deref,
              lt→ltb i 8 i8,
              here,
              low,
              again,
              refused_shell status i c k (returned s) k2 r running
                  (subst (Leads (Executed (vacated i k))) again all),
            )
            tt
      | inr ((entered s, k2), again) ↦
          rw (current, halt, deref, lt→ltb i 8 i8, here, low, again)
            (restarted_shell i c k (entered s) k2 r running (λ z. cc)
              (subst (Leads (Executed (vacated i k))) again all))
      | inr ((resumed s, k2), again) ↦
          rw (current, halt, deref, lt→ltb i 8 i8, here, low, again)
            (restarted_shell i c k (resumed s) k2 r running (λ z. cc)
              (subst (Leads (Executed (vacated i k))) again all))
    ]

halt_idle :
    (stack : ℕ → ℕ) (blank : Dentry) (status : ℕ) (c : Calls) (k : Kernel)
    → Represents c k
    → c.stacks c.shown ≡ []
    → halt stack blank status k ≡ none
unfolding halt deref
halt_idle stack blank status c k r idle =
    let current : k.current_process k.curr_terminal ≡ minus_one =
      rw r.shown (r.tops c.shown r.bound ∙ ap top idle) in
    rw (current, halt, deref) refl

-- The `halt` of a program that was called returns to its caller; that of a base shell starts it anew.
pub halt-Represents :
    (stack : ℕ → ℕ) (blank : Dentry) (status : ℕ) (c : Calls) (k : Kernel)
    → Represents c k
    → Leads (λ o k'. Represents (after_halt c) k') (halt stack blank status k)
halt-Represents stack blank status c k r = go (c.stacks c.shown) refl
  where
    go :
        (l : List ℕ)
        → c.stacks c.shown ≡ l
        → Leads (λ o k'. Represents (ended l c) k') (halt stack blank status k)
    go [] e = rw (halt_idle stack blank status c k r e) tt
    go (i ∷ []) e = halt_shell stack blank status i c k r e
    go (i ∷ p ∷ rest) e = halt_called stack blank status i p rest c k r e
