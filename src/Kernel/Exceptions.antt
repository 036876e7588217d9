-- ===== src/Kernel/Exceptions.antt =====
-- `exception_handler` of student-distrib/exceptions.c.
use linux_base_operating_sys.Prelude.{
  ℕ, ◌≡◌, ◌<◌, ◌^◌, ◌++◌, arith, Bool-cases, Option-cases, subst, either, inl, inr, get_or, refl,
  ltb, ◌==◌, if◌then◌else◌, some, none, List, [], ◌∷◌,
}
use linux_base_operating_sys.Printf
use linux_base_operating_sys.Printf.{word, plain}
use linux_base_operating_sys.Printf.Meaning.{x_word}
use linux_base_operating_sys.Printf.Text.{Formed, ended, char, percent, arg, printf-Shows}
use linux_base_operating_sys.Printf.Plain.{no_percent-Formed}
use linux_base_operating_sys.Screen.{Screen, clear, puts}
use linux_base_operating_sys.Fs.{Dentry}
use linux_base_operating_sys.Kernel.{Kernel, M, codes}
use linux_base_operating_sys.Kernel.Process.{Outcome, resumed, halt}
use linux_base_operating_sys.Kernel.Process.Lifecycle.{IsChild, Resumed, halt-Resumed}
use linux_base_operating_sys.Kernel.Process.Ends.{halt-Represents}
use linux_base_operating_sys.Kernel.Calls.{Calls, after_halt, Represents}
use linux_base_operating_sys.Kernel.Calls.Agree.{
  Leads, Leads-map, Agree, Agree-trans, Represents-Agree,
}
use linux_base_operating_sys.Kernel.Drivers.Rules.{unchanged}

-- What is printed for the exceptions 0 to 19; from 20 to 31 it is "Reserved", and for no others
-- anything.
abbrev messages : List (List ℕ)
messages =
    codes "Divide Error Exception\n"
    ∷ codes "Debug Exception\n"
    ∷ codes "NMI Interrupt\n"
    ∷ codes "Breakpoint Exception\n"
    ∷ codes "Overflow Exception\n"
    ∷ codes "BOUND Range Exceeded Exception\n"
    ∷ codes "Invalid Opcode Exception\n"
    ∷ codes "Device Not Available Exception\n"
    ∷ codes "Double Fault Exception\n"
    ∷ codes "Coprocessor Segment Overrun\n"
    ∷ codes "Invalid TSS Exception\n"
    ∷ codes "Segment Not Present\n"
    ∷ codes "Stack Fault Exception\n"
    ∷ codes "General Protection Exception\n"
    ∷ codes "Page-Fault Exception\n"
    ∷ codes "Reserved\n"
    ∷ codes "x87 FPU Floating-Point Error\n"
    ∷ codes "Alignment Check Exception\n"
    ∷ codes "Machine-Check Exception\n"
    ∷ codes "SIMD Floating-Point Exception\n"
    ∷ []

pub message : ℕ → List ℕ
message i = if ltb i 20 then get_or messages i [] else if ltb i 32 then codes "Reserved\n" else []

abbrev cr2_format : List ℕ
cr2_format = codes "Suspected Address in CR2: " ++ codes "%x\n"

-- `stack` is what the buffers of `printf` hold.
print_cr2 : (ℕ → ℕ) → ℕ → M (Unit {0})
print_cr2 stack suspected_addr k =
    elim (Printf.printf stack k.curr_terminal cr2_format (word suspected_addr ∷ []) k.screen) [
      | none ↦ none
      | some (n, s) ↦ some (tt, record k { screen = s })
    ]

-- The screen is cleared and the message printed.
report : (ℕ → ℕ) → ℕ → ℕ → M (Unit {0})
report stack i cr2 k =
    let t = k.curr_terminal in
    let k1 : Kernel = record k { screen = puts t (clear t k.screen) (message i) } in
    let with_address = print_cr2 stack cr2 k1 in if i == 14 then with_address else some (tt, k1)

-- `cr2` is what the processor's register holds.
pub exception_handler : (ℕ → ℕ) → Dentry → ℕ → ℕ → M Outcome
exception_handler stack blank i cr2 k = elim (report stack i cr2 k) [
  | none ↦ none
  | some (u, k1) ↦ halt stack blank 255 (record k1 { exception_flag = 1 })
]

cr2_format-Formed : (cr2 : ℕ) → cr2 < 2 ^ 32 → Formed plain cr2_format (word cr2 ∷ [])
cr2_format-Formed cr2 lt =
    no_percent-Formed (codes "Suspected Address in CR2: ") (codes "%x\n") (word cr2 ∷ []) refl
      (percent (arg (x_word lt) (char (λ e. absurd (ground (arith, e))) ended)))

-- What is printed is no part of the processes.
report_lem :
    (stack : ℕ → ℕ) (i cr2 : ℕ) (k : Kernel)
    → cr2 < 2 ^ 32
    → (s : Screen) × (report stack i cr2 k ≡ some (tt, record k { screen = s }))
unfolding report print_cr2
report_lem stack i cr2 k lt =
    let t = k.curr_terminal in
    let first = puts t (clear t k.screen) (message i) in
    elim (Bool-cases (i == 14)) [
      | inl fault ↦
          let (text, e, d) =
            printf-Shows stack t cr2_format (word cr2 ∷ []) first (cr2_format-Formed cr2 lt) in
          (puts t first text, rw (fault, report, e, print_cr2) refl)
      | inr other ↦ (first, rw (other, report) refl)
    ]

-- An exception, with a 32-bit address in CR2, ends the child process that it comes in: the `execute`
-- that started the child returns 256, and the parent is resumed as by `halt`.
pub exception_handler-Resumed :
    (stack : ℕ → ℕ) (blank : Dentry) (n cr2 i p sp bp : ℕ) (k : Kernel)
    → cr2 < 2 ^ 32
    → IsChild i p sp bp k
    → (k' : Kernel) × (exception_handler stack blank n cr2 k ≡ some (resumed 256, k'))
      × Resumed i p sp bp k k'
unfolding exception_handler
exception_handler-Resumed stack blank n cr2 i p sp bp k lt c =
    let (s, shown) = report_lem stack n cr2 k lt in
    let k1 : Kernel = record k { screen = s; exception_flag = 1 } in
    let (k', e, r) = halt-Resumed stack blank 255 i p sp bp k1 record {
      bounds = c.bounds;
      current = c.current;
      here = c.here;
      there = c.there;
      number = c.number;
      parent = c.parent;
      registers = c.registers;
    } in
    (
      k',
      rw (shown, exception_handler) e,
      record {
        current = r.current;
        slots = r.slots;
        registers = r.registers;
        flag = r.flag;
        stack = r.stack;
        page = r.page;
        table = r.table;
        others = r.others;
      },
    )

print_cr2-Agree :
    (stack : ℕ → ℕ) (cr2 : ℕ) (k : Kernel) → Leads (λ u k'. Agree k k') (print_cr2 stack cr2 k)
unfolding print_cr2
print_cr2-Agree stack cr2 k =
    elim (Option-cases (Printf.printf stack k.curr_terminal cr2_format (word cr2 ∷ []) k.screen)) [
      | inl e ↦ rw (e, print_cr2) tt
      | inr ((n, s), e) ↦ rw (e, print_cr2) (unchanged refl refl refl refl refl)
    ]

report-Agree :
    (stack : ℕ → ℕ) (i cr2 : ℕ) (k : Kernel) → Leads (λ u k'. Agree k k') (report stack i cr2 k)
unfolding report
report-Agree stack i cr2 k =
    let t = k.curr_terminal in
    let k1 : Kernel = record k { screen = puts t (clear t k.screen) (message i) } in
    let a : Agree k k1 = unchanged refl refl refl refl refl in
    either (Leads (λ u k'. Agree k k')) (i == 14)
      (λ e.
        Leads-map (λ u k'. Agree k1 k') (λ u k'. Agree k k') (print_cr2 stack cr2 k1)
          (λ u k' b. Agree-trans a b) (print_cr2-Agree stack cr2 k1))
      (λ e. a)

-- An exception is an end of the running program, as by `halt`.
pub exception_handler-Represents :
    (stack : ℕ → ℕ) (blank : Dentry) (i cr2 : ℕ) (c : Calls) (k : Kernel)
    → Represents c k
    → Leads (λ o k'. Represents (after_halt c) k') (exception_handler stack blank i cr2 k)
unfolding exception_handler
exception_handler-Represents stack blank i cr2 c k r = elim (Option-cases (report stack i cr2 k)) [
  | inl e ↦ rw (e, exception_handler) tt
  | inr ((u, k1), e) ↦
      let a = subst (Leads (λ u k'. Agree k k')) e (report-Agree stack i cr2 k) in
      let k2 : Kernel = record k1 { exception_flag = 1 } in
      let r2 = Represents-Agree (Agree-trans a (unchanged refl refl refl refl refl)) r in
      rw (e, exception_handler) (halt-Represents stack blank 255 c k2 r2)
]
