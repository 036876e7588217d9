-- ===== src/Boot/Running.antt =====
-- The system from its start on.
use linux_base_operating_sys.Prelude.{
  ℕ, ◌≡◌, ◌&&◌, some, none, Option-cases, some-injective, none≢some, sym, ap, ◌∙◌, false, inl, inr,
}
use linux_base_operating_sys.Kernel.{Kernel}
use linux_base_operating_sys.Kernel.Process.{entered, execute, shell}
use linux_base_operating_sys.Kernel.Run.{Run}
use linux_base_operating_sys.Kernel.Run.Stacks.{IsIdle}
use linux_base_operating_sys.Kernel.Run.Sound.{IsSound, Run-IsSound}
use linux_base_operating_sys.Boot.{Boot}
use linux_base_operating_sys.Boot.Ready.{Ready}
use linux_base_operating_sys.Boot.Entry.{
  MultibootInfo, Machine, executed, multiboot_bootloader_magic, entry, first_program, check_flag,
}
use linux_base_operating_sys.Boot.Report.{Words32}
use linux_base_operating_sys.Boot.Started.{MapEnds, entry-Executes}

Ready-IsIdle : (mc : Machine) (b : Boot) → Ready mc.handlers b → IsIdle b.kernel
Ready-IsIdle mc b r = record { shown = r.first_terminal; current = r.no_current; slots = r.slots }

first_program-execute :
    (mc : Machine) (b b1 : Boot) (a : ℕ)
    → first_program mc b ≡ some (executed (entered a) b1)
    → execute mc.stack mc.blank (some shell) b.kernel ≡ some (entered a, b1.kernel)
unfolding first_program
first_program-execute mc b b1 a e =
    elim (Option-cases (execute mc.stack mc.blank (some shell) b.kernel)) [
      | inl fault ↦
          let q : none ≡ some (executed (entered a) b1) = rw (fault, first_program) at e in
          absurd (none≢some q)
      | inr ((o, k), done) ↦
          let q : executed o (record b { kernel = k }) ≡ executed (entered a) b1 =
            some-injective (rw (done, first_program) at e) in
          let same_outcome : o ≡ entered a = cc in
          let same_boot : record b { kernel = k } ≡ b1 = cc in
          done ∙ rw same_outcome (ap (λ (x : Boot). some (entered a, x.kernel)) same_boot)
    ]

-- If the start enters the first program, every state that interrupts, exceptions and system calls
-- lead to from there has sound tables of processes.
pub entry-IsSound :
    (mc : Machine) (fuel : ℕ) (mbi : MultibootInfo) (b b1 : Boot) (a : ℕ) (k : Kernel)
    → Words32 mc mbi
    → (check_flag mbi.flags 4 && check_flag mbi.flags 5) ≡ false
    → MapEnds mc mbi fuel
    → entry mc fuel multiboot_bootloader_magic mbi b ≡ some (executed (entered a) b1)
    → Run b1.kernel k
    → IsSound k
entry-IsSound mc fuel mbi b b1 a k w one ends e run =
    let (b', enters, ready, _) = entry-Executes mc fuel mbi w b one ends in
    let first = first_program-execute mc b' b1 a (sym enters ∙ e) in
    Run-IsSound mc.stack mc.blank (some shell) a b'.kernel b1.kernel k (Ready-IsIdle mc b' ready)
      first run
