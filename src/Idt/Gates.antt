-- ===== src/Idt/Gates.antt =====
-- What stands in the interrupt descriptor table after the initialisations of student-distrib/kernel.c.
use linux_base_operating_sys.Prelude.{
  ◌⊎◌, true, ℕ, zero, suc, ◌+◌, ◌/◌, ◌%◌, ◌^◌, ◌≤◌, ◌<◌, ◌≡◌, ◌≢◌, ltb, leb, ◌&&◌, if◌then◌else◌,
  update, for_range, refl, ap, ◌∙◌, arith, ltb-false, ==-false, ==-cases, inl, inr, sym, lt→ltb,
  leb-false,
}
use linux_base_operating_sys.Idt.{
  IdtDesc, Handlers, set_idt_entry, kernel_gate, syscall_gate, idt_init, map_interrupt, kernel_cs,
  pit_vector_num, kbd_vector_num, rtc_vector_num, syscall_vector_num,
}

-- The table after `idt_init` and the initialisations of keyboard, clock and timer, in this order.
unfoldable pub boot_idt : Handlers → (ℕ → IdtDesc) → ℕ → IdtDesc
boot_idt h idt = map_interrupt pit_vector_num h.pit_handler_wrapper (
    map_interrupt rtc_vector_num h.rtc_handler_wrapper
      (map_interrupt kbd_vector_num h.keyboard_handler_wrapper (idt_init h idt)))

-- A present 32-bit gate of the kernel's code segment: `trap` is 1 for a trap gate, 0 for an
-- interrupt gate, which keeps interrupts out.
abbrev pub gate : ℕ → ℕ → ℕ → IdtDesc
gate address dpl trap = record {
  offset_15_00 = address % 2 ^ 16;
  seg_selector = kernel_cs;
  reserved4 = 0;
  reserved3 = trap;
  reserved2 = 1;
  reserved1 = 1;
  size = 1;
  reserved0 = 0;
  dpl = dpl;
  present = 1;
  offset_31_16 = address / 2 ^ 16 % 2 ^ 16;
}

module _ {ℓ} {A : Type ℓ} where
  -- A loop that changes each element by itself.
  for_range-each :
      (n : ℕ) (f : ℕ → A → A) (t : ℕ → A) (j : ℕ)
      → for_range n (λ i t. update t i (f i (t i))) t j ≡ (if ltb j n then f j (t j) else t j)
  unfolding for_range
  for_range-each zero f t j = ground arith
  for_range-each (suc n) f t j =
      let here = for_range-each n f t n in
      let rest = for_range-each n f t j in
      rw (here, ltb-false n n (omega arith))
        (elim (==-cases n j) [
          | inl same ↦ rw (sym same) (ground arith)
          | inr other ↦ ground (arith, other, rest)
        ])

  for_range-from :
      (a n : ℕ) (f : A → A) (t : ℕ → A) (j : ℕ)
      → for_range n (λ i t. update t (a + i) (f (t (a + i)))) t j
        ≡ (if leb a j && ltb j (a + n) then f (t j) else t j)
  unfolding for_range
  for_range-from a zero f t j = ground arith
  for_range-from a (suc n) f t j =
      let here = for_range-from a n f t (a + n) in
      let rest = for_range-from a n f t j in
      rw (here, ltb-false (a + n) (a + n) (omega arith))
        (elim (==-cases (a + n) j) [
          | inl same ↦ rw (sym same) (ground arith)
          | inr other ↦ ground (arith, other, rest)
        ])

-- An entry that is not in use.
abbrev absent : IdtDesc
absent = record (gate 0 0 0) { present = 0 }

module _ (h : Handlers) (idt : ℕ → IdtDesc) where
  -- The table before and after the loop over the vectors from 32 on.
  exceptions : ℕ → IdtDesc
  exceptions =
      for_range 32 (λ i t. update t i (set_idt_entry (t i) (h.exception i)))
        (for_range 32 (λ i t. update t i (kernel_gate 1 (t i))) idt)

  rest_at :
      (v : ℕ)
      → for_range 224
          (λ i t. update t (32 + i) (set_idt_entry (kernel_gate 0 (t (32 + i))) 0))
          exceptions
          v
        ≡ (if leb 32 v && ltb v 256 then absent else exceptions v)
  unfolding set_idt_entry kernel_gate
  rest_at v = for_range-from 32 224 (λ d. set_idt_entry (kernel_gate 0 d) 0) exceptions v

  other_at :
      (v : ℕ)
      → v ≢ 128
      → idt_init h idt v ≡ (if leb 32 v && ltb v 256 then absent else exceptions v)
  unfolding idt_init exceptions
  other_at v other = rw (==-false 128 v (λ e. other (sym e))) (rest_at v)

  exceptions_at : (v : ℕ) → v < 32 → exceptions v ≡ gate (h.exception v) 0 0
  unfolding exceptions set_idt_entry kernel_gate
  exceptions_at v lt =
      let gates = for_range-each 32 (λ i d. kernel_gate 1 d) idt v in
      let all =
        for_range-each 32 (λ i d. set_idt_entry d (h.exception i))
          (for_range 32 (λ i t. update t i (kernel_gate 1 (t i))) idt) v in
      all ∙ rw (lt→ltb v 32 lt, gates, lt→ltb v 32 lt) refl

  pub idt_init-exception : (v : ℕ) → v < 32 → idt_init h idt v ≡ gate (h.exception v) 0 0
  idt_init-exception v lt =
      other_at v (omega (arith, lt)) ∙ rw (leb-false 32 v lt) (exceptions_at v lt)

  pub idt_init-syscall : idt_init h idt 128 ≡ gate h.syscall_handler_wrapper 3 1
  unfolding idt_init exceptions syscall_gate set_idt_entry
  idt_init-syscall = ap (syscall_gate h) (rest_at 128)

  pub idt_init-absent : (v : ℕ) → 32 ≤ v → v < 256 → v ≢ 128 → idt_init h idt v ≡ absent
  idt_init-absent v from to other =
      let inside : (leb 32 v && ltb v 256) ≡ true = ground (arith, from, to) in
      other_at v other ∙ rw inside refl

  -- What the drivers leave of an entry that they do not fill in.
  unmapped : (v : ℕ) → v ≢ 32 → v ≢ 33 → v ≢ 40 → boot_idt h idt v ≡ idt_init h idt v
  unfolding boot_idt map_interrupt
  unmapped v n1 n2 n3 =
      rw
        (
          ==-false 32 v (λ e. n1 (sym e)),
          ==-false 33 v (λ e. n2 (sym e)),
          ==-false 40 v (λ e. n3 (sym e)),
        )
        refl

  mapped :
      (boot_idt h idt 32 ≡ gate h.pit_handler_wrapper 0 0)
      × (boot_idt h idt 33 ≡ gate h.keyboard_handler_wrapper 0 0)
      × (boot_idt h idt 40 ≡ gate h.rtc_handler_wrapper 0 0)
  unfolding boot_idt map_interrupt set_idt_entry
  mapped = (
    ap (λ d. set_idt_entry (record d { present = 1 }) h.pit_handler_wrapper)
        (idt_init-absent 32 (omega arith) (omega arith) (omega arith)),
    ap (λ d. set_idt_entry (record d { present = 1 }) h.keyboard_handler_wrapper)
        (idt_init-absent 33 (omega arith) (omega arith) (omega arith)),
    ap (λ d. set_idt_entry (record d { present = 1 }) h.rtc_handler_wrapper)
        (idt_init-absent 40 (omega arith) (omega arith) (omega arith)),
  )

-- The gates of the table after the initialisations, whatever it held before.
pub record Gates (h : Handlers) (t : ℕ → IdtDesc) : Type 0 where
  pub exceptions_in : (v : ℕ) → v < 32 → t v ≡ gate (h.exception v) 0 0
  pub timer : t 32 ≡ gate h.pit_handler_wrapper 0 0
  pub keyboard : t 33 ≡ gate h.keyboard_handler_wrapper 0 0
  pub clock : t 40 ≡ gate h.rtc_handler_wrapper 0 0
  pub system_call : t 128 ≡ gate h.syscall_handler_wrapper 3 1
  pub others : (v : ℕ) → 32 ≤ v → v < 256 → v ≢ 32 → v ≢ 33 → v ≢ 40 → v ≢ 128 → t v ≡ absent

-- After `idt_init` and the initialisations of the keyboard, the clock and the timer, the 32
-- exceptions, the three devices and the system call have gates to their entry points, those of the
-- system call for user programs and as a trap gate, the others for the kernel and as interrupt
-- gates, and every other vector of the 256 is absent.
pub boot_idt-Gates : (h : Handlers) (idt : ℕ → IdtDesc) → Gates h (boot_idt h idt)
boot_idt-Gates h idt = record {
  exceptions_in = λ v lt.
      unmapped h idt v (omega (arith, lt)) (omega (arith, lt)) (omega (arith, lt))
      ∙ idt_init-exception h idt v lt;
  timer = (mapped h idt).0;
  keyboard = (mapped h idt).1;
  clock = (mapped h idt).2;
  system_call =
      unmapped h idt 128 (omega arith) (omega arith) (omega arith) ∙ idt_init-syscall h idt;
  others = λ v from to n1 n2 n3 n4. unmapped h idt v n1 n2 n3 ∙ idt_init-absent h idt v from to n4;
}

vector-cases :
    (v : ℕ)
    → (v < 32)
      ⊎ (((v ≡ 32) ⊎ ((v ≡ 33) ⊎ (v ≡ 40)))
          ⊎ ((v ≡ 128) ⊎ ((32 ≤ v) × (v ≢ 32) × (v ≢ 33) × (v ≢ 40) × (v ≢ 128))))
vector-cases v = ground arith

-- A user program can raise no vector itself, by an interrupt instruction, but that of the system
-- call: all the others of the 256 are left to the kernel's privilege level, 0.
pub only_syscall :
    (h : Handlers) (idt : ℕ → IdtDesc) (v : ℕ)
    → v < 256
    → v ≢ syscall_vector_num
    → (boot_idt h idt v).dpl ≡ 0
only_syscall h idt v to other =
    let g = boot_idt-Gates h idt in
    let level : IdtDesc → ℕ = λ d. d.dpl in
    let at : (w : ℕ) → v ≡ w → (boot_idt h idt v).dpl ≡ (boot_idt h idt w).dpl =
      λ w e. ap (λ u. (boot_idt h idt u).dpl) e in
    elim (vector-cases v) [
      | inl low ↦ ap level (g.exceptions_in v low)
      | inr (inl (inl e)) ↦ at 32 e ∙ ap level g.timer
      | inr (inl (inr (inl e))) ↦ at 33 e ∙ ap level g.keyboard
      | inr (inl (inr (inr e))) ↦ at 40 e ∙ ap level g.clock
      | inr (inr (inl e)) ↦ absurd (other e)
      | inr (inr (inr r)) ↦ ap level (g.others v r.0 to r.1 r.2 r.3 r.4)
    ]
