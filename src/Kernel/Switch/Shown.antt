-- ===== src/Kernel/Switch/Shown.antt =====
-- What `terminal_switch` does to the stacks of programs.
use linux_base_operating_sys.Prelude.{
  ℕ, ◌<◌, ◌≡◌, ◌==◌, Bool, true, false, if◌then◌else◌, update, Option, some, none, List, [], ◌∷◌,
  refl, sym, ap, ◌∙◌, arith, subst, Option-cases, inl, inr, leb, Bool-cases, some-injective,
}
use linux_base_operating_sys.Prelude.Int.{pos, minus_one, is_minus_one}
use linux_base_operating_sys.Fs.{Dentry}
use linux_base_operating_sys.Paging.{Tables}
use linux_base_operating_sys.Kernel.{Kernel, deref}
use linux_base_operating_sys.Kernel.Process.{
  Outcome, returned, entered, resumed, execute, free_slot, shell,
}
use linux_base_operating_sys.Kernel.Process.Programs.{Executed, execute-Executed}
use linux_base_operating_sys.Kernel.Process.Ends.{started_lem}
use linux_base_operating_sys.Kernel.Calls.{Calls, started, arrived, after_switch, top, Represents}
use linux_base_operating_sys.Kernel.Calls.Agree.{
  Leads, Leads-map, Agree, Linked-Agree, Represents-Agree, Took,
}
use linux_base_operating_sys.Kernel.Calls.Moves.{Vacated}
use linux_base_operating_sys.Kernel.Switch.{
  Switched, Display, keep_registers, swap_pages, go_on, first_shell, terminal_switch,
}

keep_registers-Agree : (k k1 : Kernel) → keep_registers k ≡ some k1 → Agree k k1
unfolding keep_registers
keep_registers-Agree k k1 e = elim (Option-cases (deref (k.current_process k.curr_terminal) k)) [
  | inl fault ↦ let q : none ≡ some k1 = rw (fault, keep_registers) at e in cc
  | inr (i, found) ↦ subst (Agree k) (some-injective (rw (found, keep_registers) at e)) record {
    terminal = refl;
    current = refl;
    slots = refl;
    blocks = λ j. record { pointer = refl; number = ground arith; parent = ground arith };
  }
]

go_on-Agree : (k : Kernel) → Leads (λ s k'. Agree k k') (go_on k)
unfolding go_on
go_on-Agree k = elim (Option-cases (deref (k.current_process k.curr_terminal) k)) [
  | inl fault ↦ rw (fault, go_on) tt
  | inr (i, found) ↦
      rw (found, go_on)
        record {
          terminal = refl;
          current = refl;
          slots = refl;
          blocks = λ j. record { pointer = refl; number = refl; parent = refl };
        }
]

go_on-none : (k : Kernel) → k.current_process k.curr_terminal ≡ minus_one → go_on k ≡ none
unfolding go_on deref
go_on-none k e = rw (e, go_on, deref) refl

-- Another terminal on the screen.
swap_pages-Represents :
    (at : Tables) (new : ℕ) (c : Calls) (d : Display)
    → Represents c d.kernel
    → new < 3
    → Represents (record c { shown = new }) (swap_pages at new d).kernel
unfolding swap_pages
swap_pages-Represents at new c d r lt = record {
  shown = refl;
  bound = lt;
  tops = r.tops;
  linked = λ t t3.
      Linked-Agree d.kernel (swap_pages at new d).kernel t (c.stacks t)
        (λ j h. record { pointer = refl; number = refl; parent = refl }) (r.linked t t3);
  shells = r.shells;
  slots = r.slots;
}

abbrev vacant : Kernel → Kernel
vacant k = record k { in_use = update k.in_use k.curr_terminal 0 }

vacant-Vacated : (k : Kernel) → Vacated k k.curr_terminal (vacant k)
vacant-Vacated k = record {
  terminal = refl;
  current = refl;
  slots = refl;
  blocks = λ j. record { pointer = refl; number = refl; parent = refl };
}

-- The first shell of a terminal whose stack is empty starts, or its slot is taken.
first_shell-Represents :
    (stack : ℕ → ℕ) (blank : Dentry) (c : Calls) (k : Kernel)
    → Represents c k
    → c.stacks c.shown ≡ []
    → Leads (λ s k'. Represents (started c.shown c) k') (first_shell stack blank k)
unfolding first_shell
first_shell-Represents stack blank c k r empty =
    let P : Switched → Kernel → Type 0 = λ s k'. Represents (started c.shown c) k' in
    let v = subst (λ t. Vacated k t (vacant k)) r.shown (vacant-Vacated k) in
    let idle : k.current_process k.curr_terminal ≡ minus_one =
      rw r.shown (r.tops c.shown r.bound ∙ ap top empty) in
    let new : (k2 : Kernel) (i : ℕ)
        → free_slot (vacant k).in_use ≡ some i
        → Took (vacant k) i k2
        → Represents (started c.shown c) k2 =
      λ k2 i free t. started_lem c k (vacant k) k2 c.shown i r r.bound (inl empty) v free t in
    let all = execute-Executed stack blank (some shell) (vacant k) in
    let goes : (o : Outcome) (k2 : Kernel) → Executed (vacant k) o k2 → Leads P (go_on k2) =
      λ o k2 x. elim x [
        | inl (_, _, a) ↦ rw (go_on-none k2 (rw (a.terminal, a.current) idle)) tt
        | inr (i, free, t) ↦
            Leads-map (λ s k'. Agree k2 k') P (go_on k2)
              (λ s k' a. Represents-Agree a (new k2 i free t)) (go_on-Agree k2)
      ] in
    elim (Option-cases (execute stack blank (some shell) (vacant k))) [
      | inl fault ↦ rw (fault, first_shell) tt
      | inr ((returned s, k2), e) ↦
          rw (e, first_shell) (goes (returned s) k2 (subst (Leads (Executed (vacant k))) e all))
      | inr ((resumed s, k2), e) ↦
          rw (e, first_shell) (goes (resumed s) k2 (subst (Leads (Executed (vacant k))) e all))
      | inr ((entered s, k2), e) ↦
          rw (e, first_shell)
            (elim (subst (Leads (Executed (vacant k))) e all) [
              | inl (z, back, _) ↦ cc
              | inr (i, free, t) ↦ new k2 i free t
            ])
    ]

abbrev pub Switches : Calls → Option (Switched × Display) → Type 0
Switches c none = Unit
Switches c (some (s, d)) = Represents c d.kernel

Switches-Leads :
    (c : Calls) (d : Display) (r : Option (Switched × Kernel))
    → Leads (λ s k'. Represents c k') r
    → Switches c (elim r [ none ↦ none | some (s, k3) ↦ some (s, record d { kernel = k3 }) ])
Switches-Leads c d none l = tt
Switches-Leads c d (some (s, k3)) l = l

-- The last part of `terminal_switch`, when the new terminal is shown.
arrive :
    (stack : ℕ → ℕ) (blank : Dentry) (new : ℕ) (c : Calls) (d : Display)
    → Represents (record c { shown = new }) d.kernel
    → (l : List ℕ) → c.stacks new ≡ l
    → (fresh : Bool) → is_minus_one (d.kernel.current_process new) ≡ fresh
    → Switches
        (arrived l new c)
        (elim (if fresh then first_shell stack blank d.kernel else go_on d.kernel) [
          | none ↦ none
          | some (s, k3) ↦ some (s, record d { kernel = k3 })
        ])
arrive stack blank new c d r [] q true e =
    Switches-Leads (started new c) d (first_shell stack blank d.kernel)
      (first_shell-Represents stack blank (record c { shown = new }) d.kernel r q)
arrive stack blank new c d r [] q false e =
    let idle : d.kernel.current_process new ≡ minus_one = r.tops new r.bound ∙ ap top q in
    let z : true ≡ false = sym (ap is_minus_one idle) ∙ e in cc
arrive stack blank new c d r (i ∷ l) q true e =
    let busy : d.kernel.current_process new ≡ pos i = r.tops new r.bound ∙ ap top q in
    let z : true ≡ false = sym e ∙ ap is_minus_one busy in cc
arrive stack blank new c d r (i ∷ l) q false e =
    Switches-Leads (record c { shown = new }) d (go_on d.kernel)
      (Leads-map (λ s k'. Agree d.kernel k') (λ s k'. Represents (record c { shown = new }) k')
        (go_on d.kernel) (λ s k' a. Represents-Agree a r) (go_on-Agree d.kernel))

-- `terminal_switch` shows another terminal, on which it starts the base shell if none runs there.
pub terminal_switch-Represents :
    (at : Tables) (stack : ℕ → ℕ) (blank : Dentry) (new : ℕ) (c : Calls) (d : Display)
    → Represents c d.kernel
    → Switches (after_switch new c) (terminal_switch at stack blank new d)
unfolding terminal_switch
terminal_switch-Represents at stack blank new c d r = elim (Bool-cases (new == c.shown)) [
  | inl e ↦ let q : (new == d.kernel.curr_terminal) ≡ true = rw r.shown e in rw (e, q) r
  | inr e ↦
      let q : (new == d.kernel.curr_terminal) ≡ false = rw r.shown e in
      elim (Bool-cases (leb 3 new)) [
        | inl big ↦ rw (e, q, big) r
        | inr small ↦ elim (Option-cases (keep_registers d.kernel)) [
          | inl fault ↦ rw (e, q, small, fault) tt
          | inr (k1, kept) ↦
              let r1 = Represents-Agree (keep_registers-Agree d.kernel k1 kept) r in
              let d2 = swap_pages at new (record d { kernel = k1 }) in
              rw (e, q, small, kept)
                (arrive stack blank new c d2
                  (swap_pages-Represents at new c (record d { kernel = k1 }) r1
                    (ground (arith, small)))
                  (c.stacks new) refl (is_minus_one (d2.kernel.current_process new)) refl)
        ]
      ]
]
