-- ===== src/Kernel/Process/Slots.antt =====
-- The process slot that `execute` takes.
use linux_base_operating_sys.Prelude.{some-injective, none≢some}
use linux_base_operating_sys.Prelude.{
  subst, Bool-cases, ==_iff, ℕ, zero, suc, ◌+◌, ◌≤◌, ◌<◌, ◌≡◌, ◌≢◌, refl, true, ltb, ◌==◌,
  if◌then◌else◌, update, arith, ltb→lt, ◌-◌, ap, ◌∙◌, update_self, Option, some, none, Option-cases,
  inl, inr,
}
use linux_base_operating_sys.Prelude.Int.{pos, minus_one}
use linux_base_operating_sys.Strings.{strcpy}
use linux_base_operating_sys.Fs.{Dentry}
use linux_base_operating_sys.Fd.{fd_table_init}
use linux_base_operating_sys.Kernel.{Kernel}
use linux_base_operating_sys.Kernel.Process.{
  returned, free_slot, free_from, take_slot, taken_by, start_program, execute, program_name,
}
use linux_base_operating_sys.Strings.Copy.{strcpy-some}
use linux_base_operating_sys.Kernel.Command.{parse_cmd_args, args_start, args_end}
use linux_base_operating_sys.Kernel.Command.Split.{parse_cmd_args-fits}
use linux_base_operating_sys.Kernel.Process.Loads.{
  IsFile, HasMagic, inode, find_program_lem, no_magic_lem,
}

-- The first of the slots `from` to `to - 1` that is free, or that there is none.
abbrev pub Free : (ℕ → ℕ) → ℕ → ℕ → Option ℕ → Type 0
Free in_use from to none = (j : ℕ) → from ≤ j → j < to → in_use j ≢ 0
Free in_use from to (some i) =
    (from ≤ i) × (i < to) × (in_use i ≡ 0) × ((j : ℕ) → from ≤ j → j < i → in_use j ≢ 0)

free_from-Free : (n : ℕ) (in_use : ℕ → ℕ) (i : ℕ) → Free in_use i (i + n) (free_from n in_use i)
unfolding free_from
free_from-Free zero in_use i = λ j a b. absurd (omega arith)
free_from-Free (suc n) in_use i = elim (Bool-cases (in_use i == 0)) [
  | inl free ↦
      rw free
        (omega arith, omega arith, (==_iff (in_use i) 0).0 free, λ j a b. absurd (omega arith))
  | inr taken ↦ rw taken (
      shift (free_from n in_use (suc i)) (free_from-Free n in_use (suc i))
        (λ z. ground (arith, taken, z)))
]
  where
    shift :
        (r : Option ℕ)
        → Free in_use (suc i) (suc i + n) r
        → in_use i ≢ 0
        → Free in_use i (i + suc n) r
    shift none all taken = λ j a b. ground (arith, taken, all j)
    shift (some e) (a, b, free, first) taken =
        (omega arith, omega arith, free, λ j x y. ground (arith, taken, first j))

-- A free slot is the first one, and none is refused while one is free.
pub free_slot-Free : (in_use : ℕ → ℕ) → Free in_use 0 8 (free_slot in_use)
unfolding free_slot
free_slot-Free in_use = free_from-Free 8 in_use 0

free_slot-first : (in_use : ℕ → ℕ) (i : ℕ) → Free in_use 0 8 (some i) → free_slot in_use ≡ some i
free_slot-first in_use i (_, high, free, before) = elim (Option-cases (free_slot in_use)) [
  | inl e ↦ absurd (subst (Free in_use 0 8) e (free_slot-Free in_use) i (omega arith) high free)
  | inr (j, e) ↦
      let (_, high1, free1, before1) = subst (Free in_use 0 8) e (free_slot-Free in_use) in
      elim (Bool-cases (ltb i j)) [
        | inl lt ↦ absurd (before1 i (omega arith) (ltb→lt i j lt) free)
        | inr ge ↦ elim (Bool-cases (ltb j i)) [
          | inl lt ↦ absurd (before j (omega arith) (ltb→lt j i lt) free1)
          | inr le ↦ let same : j ≡ i = ground (arith, ge, le) in e ∙ ap some same
        ]
      ]
]

-- Slot `i` of `k` belongs in `k'` to a new process, which runs on the terminal.
pub record Taken (k : Kernel) (i : ℕ) (k' : Kernel) : Type 0 where
  pub slots : k'.in_use ≡ update k.in_use i 1
  pub pointers : k'.process_array ≡ update k.process_array i true
  pub current : k'.current_process ≡ update k.current_process k.curr_terminal (pos i)
  pub terminal : k'.curr_terminal ≡ k.curr_terminal
  pub number : (k'.pcbs i).process_id ≡ i
  pub parent :
      (k'.pcbs i).parent_id ≡ (if ltb i 3 then minus_one else k.current_process k.curr_terminal)
  pub table : (k'.pcbs i).fd_table ≡ fd_table_init (k.pcbs i).fd_table
  pub other_blocks : (j : ℕ) → j ≢ i → k'.pcbs j ≡ k.pcbs j
  pub registers : (k'.esp ≡ k.esp) × (k'.ebp ≡ k.ebp)
  pub flag : k'.exception_flag ≡ k.exception_flag
  pub files : k'.fs ≡ k.fs

pub take_slot-Taken : (i : ℕ) (k k' : Kernel) → take_slot i k ≡ some k' → Taken k i k'
unfolding take_slot
take_slot-Taken i k k' e =
    elim (Option-cases (strcpy 129 (k.pcbs i).args (k.cmd_args k.curr_terminal))) [
      | inl no_ ↦ let q : none ≡ some k' = rw (no_, take_slot) at e in absurd (none≢some q)
      | inr (args, copied) ↦
          subst (λ x. Taken k i x) (some-injective (rw (copied, take_slot) at e))
            record {
              slots = refl;
              pointers = refl;
              current = refl;
              terminal = refl;
              number = ground arith;
              parent = ground arith;
              table = ground arith;
              other_blocks = λ j n. ground (arith, n);
              registers = (refl, refl);
              flag = refl;
              files = refl;
            }
    ]

take_slot-some :
    (i : ℕ) (k : Kernel) (args : ℕ → ℕ)
    → strcpy 129 (k.pcbs i).args (k.cmd_args k.curr_terminal) ≡ some args
    → (k1 : Kernel) × (take_slot i k ≡ some k1)
unfolding take_slot
take_slot-some i k args copied = (taken_by i args k, rw (copied, take_slot) refl)

-- A file that is refused for its magic number.
start_program-keeps :
    (file_name : ℕ → ℕ) (blank : Dentry) (stack : ℕ → ℕ) (e i : ℕ) (args : ℕ → ℕ) (k : Kernel)
    → IsFile k.fs file_name e
    → ¬ HasMagic k.fs (k.fs.entries e).inode_idx
    → free_slot k.in_use ≡ some i
    → strcpy 129 (k.pcbs i).args (k.cmd_args k.curr_terminal) ≡ some args
    → start_program file_name blank stack k ≡ some (returned minus_one, taken_by i args k)
unfolding start_program take_slot inode
start_program-keeps file_name blank stack e i args k f other free copied =
    let header = find_program_lem k.fs file_name blank e f stack in
    let no_magic = no_magic_lem k.fs file_name blank e f stack other in
    rw (header, free, copied, start_program, take_slot, no_magic) refl

-- A word that names a file of the type of programs, as long as a header at least and with all its
-- blocks, but without the magic number, takes a process slot all the same: `execute` returns -1, and
-- the first free slot stays taken, with the process as the running one of the terminal.
pub execute-keeps_slot :
    (stack : ℕ → ℕ) (blank : Dentry) (comm file_name : ℕ → ℕ) (e i : ℕ) (k : Kernel)
    → program_name (parse_cmd_args stack comm (k.cmd_args k.curr_terminal)).0 stack ≡ some file_name
    → IsFile k.fs file_name e
    → ¬ HasMagic k.fs (k.fs.entries e).inode_idx
    → Free k.in_use 0 8 (some i)
    → (k' : Kernel) × (execute stack blank (some comm) k ≡ some (returned minus_one, k'))
      × (k'.in_use ≡ update k.in_use i 1)
      × (k'.current_process ≡ update k.current_process k.curr_terminal (pos i))
unfolding execute
execute-keeps_slot stack blank comm file_name e i k named f other first =
    let t = k.curr_terminal in
    let line = (parse_cmd_args stack comm (k.cmd_args t)).1 in
    let k1 : Kernel = record k { cmd_args = update k.cmd_args t line } in
    let (nul, fits) = parse_cmd_args-fits comm stack (k.cmd_args t) in
    let (args, copied) =
      strcpy-some 129 (k.pcbs i).args line (args_end comm - args_start comm) nul fits in
    let copied1 : strcpy 129 (k1.pcbs i).args (k1.cmd_args k1.curr_terminal) ≡ some args =
      ap (strcpy 129 (k.pcbs i).args) (update_self k.cmd_args t t line refl) ∙ copied in
    (
      taken_by i args k1,
      rw (named, execute)
          (start_program-keeps file_name blank stack e i args k1 f other
            (free_slot-first k.in_use i first) copied1),
      refl,
      refl,
    )
