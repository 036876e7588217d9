-- ===== src/Kernel/Calls.antt =====
-- What the processes of student-distrib are to the users: on each of the three terminals a stack of
-- programs, the base shell at the bottom, each one waiting for the one above to end.
pub mod Agree
pub mod Counts
pub mod Moves
use linux_base_operating_sys.Prelude.{
  ℕ, ◌+◌, ◌≤◌, ◌<◌, ◌≡◌, leb, ◌==◌, true, if◌then◌else◌, update, List, [], ◌∷◌,
}
use linux_base_operating_sys.Prelude.Int.{ℤ, pos, minus_one}
use linux_base_operating_sys.Kernel.{Kernel}

-- `shown` is the terminal on the screen.
pub record Calls : Type 0 where
  pub shown : ℕ
  pub stacks : ℕ → List ℕ

abbrev pub count : ℕ → List ℕ → ℕ
count i [] = 0
count i (j ∷ l) = (if i == j then 1 else 0) + count i l

-- How often a process stands in the stacks.
abbrev pub total : ℕ → Calls → ℕ
total i c = count i (c.stacks 0) + count i (c.stacks 1) + count i (c.stacks 2)

abbrev pub top : List ℕ → ℤ
top [] = minus_one
top (i ∷ rest) = pos i

abbrev pub replaced : List ℕ → Calls → Calls
replaced l c = record c { stacks = update c.stacks c.shown l }

-- Terminal `t` is shown, with its base shell as the only program.
abbrev pub started : ℕ → Calls → Calls
started t c = record c { shown = t; stacks = update c.stacks t (t ∷ []) }

-- The end of the program on top of a stack: one that was called leaves the one below it; a base shell
-- is started anew.
abbrev pub ended : List ℕ → Calls → Calls
ended [] c = c
ended (i ∷ []) c = started i c
ended (i ∷ p ∷ rest) c = replaced (p ∷ rest) c

abbrev pub after_halt : Calls → Calls
after_halt c = ended (c.stacks c.shown) c

-- Another terminal: it is shown, and its base shell is started if nothing runs there.
abbrev pub arrived : List ℕ → ℕ → Calls → Calls
arrived [] new c = started new c
arrived (i ∷ rest) new c = record c { shown = new }

-- There is no switch to the terminal that is shown, or to one that there is not.
abbrev pub after_switch : ℕ → Calls → Calls
after_switch new c =
    if new == c.shown then c else if leb 3 new then c else arrived (c.stacks new) new c

-- A process that no stack has is on top of the terminal that is shown.
abbrev pub Called : Calls → Calls → Type 0
Called c c' =
    (i : ℕ) × (3 ≤ i) × (i < 8) × (total i c ≡ 0) × (c' ≡ replaced (i ∷ c.stacks c.shown) c)

-- Process `i` has its block, which knows its number and its parent.
pub record Block (k : Kernel) (i : ℕ) (parent : ℤ) : Type 0 where
  pub here : k.process_array i ≡ true
  pub number : (k.pcbs i).process_id ≡ i
  pub parent_is : (k.pcbs i).parent_id ≡ parent

-- The blocks of a terminal's stack: each process has the next one as its parent, down to the base
-- shell, whose number is the terminal's.
abbrev pub Linked : Kernel → ℕ → List ℕ → Type 0
Linked k t [] = Unit
Linked k t (i ∷ []) = (i ≡ t) × Block k i minus_one
Linked k t (i ∷ p ∷ rest) = (3 ≤ i) × (i < 8) × Block k i (pos p) × Linked k t (p ∷ rest)

-- The kernel's tables are those of the stacks: the top of each stack is its terminal's process; the
-- slots from 3 on are in use that stand in a stack, once; those of the base shells are always taken.
pub record Represents (c : Calls) (k : Kernel) : Type 0 where
  pub shown : k.curr_terminal ≡ c.shown
  pub bound : c.shown < 3
  pub tops : (t : ℕ) → t < 3 → k.current_process t ≡ top (c.stacks t)
  pub linked : (t : ℕ) → t < 3 → Linked k t (c.stacks t)
  pub shells : (t : ℕ) → t < 3 → k.in_use t ≡ 1
  pub slots : (i : ℕ) → 3 ≤ i → i < 8 → (k.in_use i ≡ total i c) × (total i c ≤ 1)
