-- ===== src/Kernel/Process/Programs.antt =====
-- What `execute` and `halt` do to the stacks of programs.
use linux_base_operating_sys.Prelude.{
  ℕ, ◌≡◌, ◌⊎◌, true, update, Option, some, none, List, ◌∷◌, refl, sym, ap, ◌∙◌, arith, subst,
  Option-cases, inl, inr, update_self, update_other, either,
}
use linux_base_operating_sys.Prelude.Int.{ℤ, minus_one, is_minus_one}
use linux_base_operating_sys.Fs.{Dentry, read_dentry_by_name, read_data}
use linux_base_operating_sys.Kernel.{Kernel, printf}
use linux_base_operating_sys.Kernel.Command.{parse_cmd_args}
use linux_base_operating_sys.Kernel.Process.{
  Outcome, returned, entered, resumed, execute, load_program, start_program, take_slot,
  find_program, free_slot, is_executable, program_name, overflows,
}
use linux_base_operating_sys.Kernel.Process.Slots.{Free, free_slot-Free, Taken, take_slot-Taken}
use linux_base_operating_sys.Kernel.Calls.{Calls, Called, replaced, Represents}
use linux_base_operating_sys.Kernel.Calls.Moves.{push_lem}
use linux_base_operating_sys.Kernel.Calls.Agree.{
  Leads, Leads-map, Agree, Represents-Agree, same, Agree-trans, Took, Took-Agree, Agree-Took,
}

-- A call that returns with the processes as they were, or one that has given the first free slot to a
-- new process.
abbrev pub Executed : Kernel → Outcome → Kernel → Type 0
Executed k o k' =
    ((r : ℤ) × (o ≡ returned r) × Agree k k')
    ⊎ ((i : ℕ) × (free_slot k.in_use ≡ some i) × Took k i k')

load_program-Agree :
    (i : ℕ) (file_name buf : ℕ → ℕ) (blank : Dentry) (k : Kernel)
    → Leads (λ o k'. Agree k k') (load_program i file_name buf blank k)
unfolding load_program
load_program-Agree i file_name buf blank k =
    let P = Leads (λ o k'. Agree k k') in
    either P (is_minus_one (read_dentry_by_name k.fs file_name blank).0)
      (λ e. record {
        terminal = refl;
        current = refl;
        slots = refl;
        blocks = λ j. record { pointer = refl; number = refl; parent = refl };
      })
      (λ e.
        either P
          (is_minus_one
            (read_data k.fs (read_dentry_by_name k.fs file_name blank).1.inode_idx 0 (k.program i)
              (k.fs.inodes (read_dentry_by_name k.fs file_name blank).1.inode_idx).file_size).0)
          (λ e. record {
            terminal = refl;
            current = refl;
            slots = refl;
            blocks = λ j. record { pointer = refl; number = refl; parent = refl };
          })
          (λ e.
            either P
              (overflows
                (read_data k.fs (read_dentry_by_name k.fs file_name blank).1.inode_idx 0
                  (k.program i)
                  (k.fs.inodes (read_dentry_by_name k.fs file_name blank).1.inode_idx).file_size).0)
              (λ e. tt)
              (λ e. record {
                terminal = refl;
                current = refl;
                slots = refl;
                blocks =
                    λ j. record { pointer = refl; number = ground arith; parent = ground arith };
              })))

Took-Taken : (k : Kernel) (i : ℕ) (k' : Kernel) → Taken k i k' → Took k i k'
Took-Taken k i k' t = record {
  terminal = t.terminal;
  current = t.current;
  slots = t.slots;
  block = record {
    here = ap (λ f. f i) t.pointers ∙ update_self k.process_array i i true refl;
    number = t.number;
    parent_is = t.parent;
  };
  others = λ j n. record {
    pointer = ap (λ f. f j) t.pointers ∙ update_other k.process_array i j true (λ e. n (sym e));
    number = ap (λ b. b.process_id) (t.other_blocks j n);
    parent = ap (λ b. b.parent_id) (t.other_blocks j n);
  };
}

Leads-Took :
    (k : Kernel) (i : ℕ) (k1 : Kernel) (r : Option (Outcome × Kernel))
    → free_slot k.in_use ≡ some i
    → Took k i k1
    → Leads (λ o k'. Agree k1 k') r
    → Leads (Executed k) r
Leads-Took k i k1 none free t a = tt
Leads-Took k i k1 (some (o, k')) free t a = inr (i, free, Took-Agree t a)

start_program-Executed :
    (file_name : ℕ → ℕ) (blank : Dentry) (stack : ℕ → ℕ) (k : Kernel)
    → Leads (Executed k) (start_program file_name blank stack k)
unfolding start_program printf
start_program-Executed file_name blank stack k =
    elim (Option-cases (find_program k.fs file_name blank stack)) [
      | inl missing ↦ rw (missing, start_program) (inl (minus_one, refl, same k))
      | inr ((d, buf), found) ↦ elim (Option-cases (free_slot k.in_use)) [
        | inl full ↦
            rw (found, full, start_program)
              (inl (
                minus_one,
                refl,
                record {
                  terminal = refl;
                  current = refl;
                  slots = refl;
                  blocks = λ j. record { pointer = refl; number = refl; parent = refl };
                },
              ))
        | inr (i, free) ↦ elim (Option-cases (take_slot i k)) [
          | inl fault ↦ rw (found, free, fault, start_program) tt
          | inr (k1, taken) ↦
              let t = Took-Taken k i k1 (take_slot-Taken i k k1 taken) in
              rw (found, free, taken, start_program)
                (either (Leads (Executed k)) (is_executable buf)
                  (λ e.
                    Leads-Took k i k1 (load_program i file_name buf blank k1) free t
                      (load_program-Agree i file_name buf blank k1))
                  (λ e. inr (i, free, t)))
        ]
      ]
    ]

-- The tables of processes are those of `k` until a program is started.
Executed-Agree :
    (k k1 : Kernel) (o : Outcome) (k' : Kernel)
    → k1.in_use ≡ k.in_use
    → Agree k k1
    → Executed k1 o k'
    → Executed k o k'
Executed-Agree k k1 o k' e a (inl (r, back, b)) = inl (r, back, Agree-trans a b)
Executed-Agree k k1 o k' e a (inr (i, free, t)) = inr (i, rw (← e) free, Agree-Took a t)

pub execute-Executed :
    (stack : ℕ → ℕ) (blank : Dentry) (comm : Option (ℕ → ℕ)) (k : Kernel)
    → Leads (Executed k) (execute stack blank comm k)
unfolding execute
execute-Executed stack blank none k = inl (minus_one, refl, same k)
execute-Executed stack blank (some comm) k =
    let k1 : Kernel = record k {
      cmd_args =
          update k.cmd_args k.curr_terminal
            (parse_cmd_args stack comm (k.cmd_args k.curr_terminal)).1;
    } in
    let a : Agree k k1 = record {
      terminal = refl;
      current = refl;
      slots = refl;
      blocks = λ j. record { pointer = refl; number = refl; parent = refl };
    } in
    elim (Option-cases
      (program_name (parse_cmd_args stack comm (k.cmd_args k.curr_terminal)).0 stack)) [
        | inl long ↦ rw (long, execute) (inl (minus_one, refl, a))
        | inr (file_name, named) ↦
            rw (named, execute)
              (Leads-map (Executed k1) (Executed k) (start_program file_name blank stack k1)
                (λ o k'. Executed-Agree k k1 o k' refl a)
                (start_program-Executed file_name blank stack k1))
      ]

-- What an `execute` does to the stacks: one that enters a program has put a new process on top; any
-- other leaves the stacks, or has taken a slot for a file that it could not start.
abbrev pub AfterExecute : Outcome → Calls → Calls → Type 0
AfterExecute (entered a) c c' = Called c c'
AfterExecute (returned r) c c' = (c' ≡ c) ⊎ Called c c'
AfterExecute (resumed s) c c' = (c' ≡ c) ⊎ Called c c'

failed : (o : Outcome) (r : ℤ) (c : Calls) → o ≡ returned r → AfterExecute o c c
failed (entered a) r c e = cc
failed (returned s) r c e = inl refl
failed (resumed s) r c e = inl refl

pushed : (o : Outcome) (c c' : Calls) → Called c c' → AfterExecute o c c'
pushed (entered a) c c' h = h
pushed (returned s) c c' h = inr h
pushed (resumed s) c c' h = inr h

pub execute-AfterExecute :
    (stack : ℕ → ℕ) (blank : Dentry) (comm : Option (ℕ → ℕ)) (c : Calls) (k : Kernel) (p : ℕ)
    (rest : List ℕ)
    → Represents c k
    → c.stacks c.shown ≡ p ∷ rest
    → Leads
        (λ o k'. (c' : Calls) × AfterExecute o c c' × Represents c' k')
        (execute stack blank comm k)
execute-AfterExecute stack blank comm c k p rest r running =
    Leads-map (Executed k) (λ o k'. (c' : Calls) × AfterExecute o c c' × Represents c' k')
      (execute stack blank comm k) (λ o k' x. went o k' x) (execute-Executed stack blank comm k)
  where
    went :
        (o : Outcome) (k' : Kernel)
        → Executed k o k'
        → (c' : Calls) × AfterExecute o c c' × Represents c' k'
    went o k' (inl (s, back, a)) = (c, failed o s c back, Represents-Agree a r)
    went o k' (inr (i, free, t)) =
        let (_, i8, zero_, _) = subst (Free k.in_use 0 8) free (free_slot-Free k.in_use) in
        let (ge, none_, r') = push_lem c k k' i p rest r running i8 zero_ t in
        let at : replaced (i ∷ p ∷ rest) c ≡ replaced (i ∷ c.stacks c.shown) c =
          ap (λ l. replaced (i ∷ l) c) (sym running) in
        (
          replaced (i ∷ p ∷ rest) c,
          pushed o c (replaced (i ∷ p ∷ rest) c) (i, ge, i8, none_, at),
          r',
        )
