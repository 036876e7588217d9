-- ===== src/Kernel/Run/Return.antt =====
-- The way back from a program that has been called.
use linux_base_operating_sys.Prelude.{
  ℕ, ◌%◌, ◌/◌, ◌^◌, ◌==◌, if◌then◌else◌, ◌+◌, ◌≡◌, some-injective, some, List, ◌∷◌, refl, sym, ap,
  ◌∙◌, subst, update, update_self, update_other, ==-cases, inl, inr, fun_ext,
}
use linux_base_operating_sys.Fs.{Dentry}
use linux_base_operating_sys.Paging.{Tables}
use linux_base_operating_sys.Paging.Walk.{translate}
use linux_base_operating_sys.Paging.Process.{process_page}
use linux_base_operating_sys.Kernel.{Kernel}
use linux_base_operating_sys.Kernel.Command.{parse_cmd_args}
use linux_base_operating_sys.Kernel.Process.{
  entered, resumed, execute, halt, program_name, free_slot,
}
use linux_base_operating_sys.Kernel.Process.Lifecycle.{IsChild, halt-Resumed}
use linux_base_operating_sys.Kernel.Process.Returns.{halt_called}
use linux_base_operating_sys.Kernel.Process.Enters.{execute-Enters}
use linux_base_operating_sys.Kernel.Process.Loads.{IsProgram}
use linux_base_operating_sys.Kernel.Calls.{Calls, top, replaced, Linked, Represents}
use linux_base_operating_sys.Kernel.Calls.Agree.{Leads}
use linux_base_operating_sys.Kernel.Run.Sound.{above_parent}

IsChild-Represents :
    (c : Calls) (k : Kernel) (r : Represents c k) (i p : ℕ) (rest : List ℕ)
    → c.stacks c.shown ≡ i ∷ p ∷ rest
    → IsChild i p (k.pcbs i).current_esp (k.pcbs i).current_ebp k
IsChild-Represents c k r i p rest e =
    let (ge, i8, b, below) = subst (Linked k c.shown) e (r.linked c.shown r.bound) in
    let (parent, par, n) = above_parent c k r c.shown i p rest r.bound e in
    record {
      bounds = (ge, i8, par.bound, n);
      current = rw r.shown (r.tops c.shown r.bound ∙ ap top e);
      here = b.here;
      there = par.here;
      number = b.number;
      parent = parent;
      registers = (refl, refl);
    }

-- The memory of process `p` and its stack in the kernel are those that the processor uses.
pub record Settled (p : ℕ) (k k' : Kernel) : Type 0 where
  pub stack : k'.tss_esp0 ≡ (k.pcbs p).current_esp
  pub page :
      (at : Tables) (v : ℕ)
      → translate at k'.paging v
        ≡ (if v / 2 ^ 22 == 32 then some (process_page p + v % 2 ^ 22) else translate at k.paging v)

-- Where a program has been called, `halt` returns: to the program below it on the stack, with the low
-- byte of the status plus the exception flag, and that program is on top then, with the registers that
-- its `execute` had.
pub halt-returns :
    (stack : ℕ → ℕ) (blank : Dentry) (status : ℕ) (c : Calls) (k : Kernel) (i p : ℕ) (rest : List ℕ)
    → Represents c k
    → c.stacks c.shown ≡ i ∷ p ∷ rest
    → (k' : Kernel) × (halt stack blank status k
        ≡ some (resumed (status % 256 + k.exception_flag), k'))
      × (k'.esp ≡ (k.pcbs i).current_esp)
      × (k'.ebp ≡ (k.pcbs i).current_ebp)
      × Settled p k k'
      × Represents (replaced (p ∷ rest) c) k'
halt-returns stack blank status c k i p rest r e =
    let child = IsChild-Represents c k r i p rest e in
    let (k', h, back) =
      halt-Resumed stack blank status i p (k.pcbs i).current_esp (k.pcbs i).current_ebp k child in
    (
      k',
      h,
      back.registers.0,
      back.registers.1,
      record { stack = back.stack; page = back.page },
      subst (Leads (λ o k2. Represents (replaced (p ∷ rest) c) k2)) h
          (halt_called stack blank status i p rest c k r e),
    )

-- A stack that is put back.
back_again : (c : Calls) (l old : List ℕ) → c.stacks c.shown ≡ old → replaced old (replaced l c) ≡ c
back_again c l old e =
    let t = c.shown in
    let each : (u : ℕ) → update (update c.stacks t l) t old u ≡ c.stacks u = λ u.
      elim (==-cases t u) [
        | inl s ↦ update_self (update c.stacks t l) t u old s ∙ sym e ∙ ap c.stacks s
        | inr n ↦ update_other (update c.stacks t l) t u old n ∙ update_other c.stacks t u l n
      ] in
    ap (λ f. record c { stacks = f }) (fun_ext each)

-- A program is called, and ends in any later state `k3` in which it is on top of the stack again and
-- its block has the registers that the call left there: `halt` goes back to its caller, which has the
-- registers of its call, its own page of memory and the stack that its block names, and which is on
-- top of the stacks, in which nothing has changed since the call.
pub execute-halt :
    (stack : ℕ → ℕ) (blank : Dentry) (comm file_name : ℕ → ℕ) (e i status a : ℕ) (c : Calls)
    (k k1 k3 : Kernel) (p : ℕ) (rest : List ℕ)
    → let (command, line) = parse_cmd_args stack comm (k.cmd_args k.curr_terminal) in
      c.stacks c.shown ≡ p ∷ rest
      → program_name command stack ≡ some file_name
      → IsProgram k.fs file_name e
      → free_slot k.in_use ≡ some i
      → execute stack blank (some comm) k ≡ some (entered a, k1)
      → Represents (replaced (i ∷ p ∷ rest) c) k3
      → ((k3.pcbs i).current_esp ≡ (k1.pcbs i).current_esp)
        × ((k3.pcbs i).current_ebp ≡ (k1.pcbs i).current_ebp)
      → (k2 : Kernel) × (halt stack blank status k3
          ≡ some (resumed (status % 256 + k3.exception_flag), k2))
        × (k2.esp ≡ k.esp)
        × (k2.ebp ≡ k.ebp)
        × Settled p k3 k2
        × Represents c k2
execute-halt stack blank comm file_name e i status a c k k1 k3 p rest running named prog free called
      r3 (sp, bp) =
    let (args, k1', copied, ex, en) =
      execute-Enters stack blank comm file_name e i k named prog free in
    let same : k1' ≡ k1 = ap (λ x. x.1) (some-injective (sym ex ∙ called)) in
    let l = i ∷ p ∷ rest in
    let on_top = update_self c.stacks c.shown c.shown l refl in
    let (k2, h, esp, ebp, settled, r2) =
      halt-returns stack blank status (replaced l c) k3 i p rest r3 on_top in
    (
      k2,
      h,
      esp ∙ sp ∙ ap (λ (x : Kernel). (x.pcbs i).current_esp) (sym same) ∙ en.caller.0,
      ebp ∙ bp ∙ ap (λ (x : Kernel). (x.pcbs i).current_ebp) (sym same) ∙ en.caller.1,
      settled,
      subst (λ d. Represents d k2) (back_again c l (p ∷ rest) running) r2,
    )
