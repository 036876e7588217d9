-- ===== src/Kernel.antt =====
-- The state of the whole kernel, and the operations on it as steps that may fault: student-distrib.
-- A fault is what C leaves undefined and the processor answers with an exception: a read through
-- NULL, or outside an array that the code does not check.
pub mod Sample
mod Tests
pub mod Command
pub mod Process
pub mod Drivers
pub mod Files
pub mod Keys
pub mod Displays
pub mod Exceptions
pub mod Switch
pub mod Press
pub mod Calls
pub mod Run
use Prim.Native.String.{String}
use Prim.Native.String
use Prim.Native.Char.{code}
use linux_base_operating_sys.Prelude.{
  ℕ, zero, suc, ◌+◌, Bool, true, false, ltb, leb, if◌then◌else◌, update, Option, some, none, ◌≡◌,
  ap, List, [], ◌∷◌,
}
use linux_base_operating_sys.Prelude.Int.{ℤ, pos, negsuc}
use linux_base_operating_sys.Screen.{Screen, puts}
use linux_base_operating_sys.Fs.{Fs}
use linux_base_operating_sys.Fd.{Fd}
use linux_base_operating_sys.Rtc.{Rtc}
use linux_base_operating_sys.Paging.{Paging}
use linux_base_operating_sys.Keyboard.{Keyboard}

abbrev pub max_terminal : ℕ
max_terminal = 3

abbrev pub max_processes : ℕ
max_processes = 8

-- `pcb`; the fields `current_esp` and `current_ebp` are those of the parent's `execute`.
pub record Pcb : Type 0 where
  pub process_id : ℕ
  pub parent_id : ℤ
  pub current_esp : ℕ
  pub current_ebp : ℕ
  pub return_esp : ℕ
  pub return_ebp : ℕ
  pub args : ℕ → ℕ
  pub fd_table : ℕ → Fd

-- The kernel's variables. `process_array i` tells whether the pointer is not NULL: then it points at
-- the block `pcbs i`, which has a fixed address. `program i` is the memory of process `i` from
-- PROGRAM_START on, in its own page; `esp` and `ebp` are the processor's registers.
pub record Kernel : Type 0 where
  pub screen : Screen
  pub fs : Fs
  pub rtc : Rtc
  pub paging : Paging
  pub keyboard : Keyboard
  pub save_buff : ℕ → ℕ → ℕ
  pub curr_terminal : ℕ
  pub current_process : ℕ → ℤ
  pub process_array : ℕ → Bool
  pub pcbs : ℕ → Pcb
  pub in_use : ℕ → ℕ
  pub cmd_args : ℕ → ℕ → ℕ
  pub program : ℕ → ℕ → ℕ
  pub exception_flag : ℕ
  pub tss_esp0 : ℕ
  pub esp : ℕ
  pub ebp : ℕ

abbrev pub M : Type 0 → Type 0
M A = Kernel → Option (A × Kernel)

infixl 5 ◌>>=◌ ◌>>◌
abbrev pub ◌>>=◌ : {A B : Type 0} → M A → (A → M B) → M B
◌>>=◌ m f k = elim (m k) [ none ↦ none | some (a, k') ↦ f a k' ]

pub bind_some :
    {A B : Type 0} (m : M A) (f : A → M B) (k : Kernel) (a : A) (k' : Kernel)
    → m k ≡ some (a, k')
    → (m >>= f) k ≡ f a k'
bind_some {A} {B} m f k a k' e =
    ap (λ (r : Option (A × Kernel)). elim r [ none ↦ none | some (x, y) ↦ f x y ]) e

abbrev pub ◌>>◌ : {B : Type 0} → M (Unit {0}) → M B → M B
m >> n = m >>= λ _. n

abbrev pub ret : {A : Type 0} → A → M A
ret a k = some (a, k)

-- The characters of a message.
abbrev pub codes : String → List ℕ
codes String.[] = []
codes (String.◌∷◌ c s) = code c ∷ codes s

-- `printf` of a message without conversions.
pub printf : List ℕ → M (Unit {0})
printf message k = some (tt, record k { screen = puts k.curr_terminal k.screen message })

-- process_array[i], to be used as a pointer.
pub deref : ℤ → Kernel → Option ℕ
deref (negsuc n) k = none
deref (pos i) k = if ltb i max_processes then (if k.process_array i then some i else none) else none

-- The running process: process_array[current_process[curr_terminal]].
pub running : M ℕ
unfolding deref
running k = elim (deref (k.current_process k.curr_terminal) k) [
  | none ↦ none
  | some i ↦ some (i, k)
]

abbrev pub set_pcb : ℕ → Pcb → Kernel → Kernel
set_pcb i b k = record k { pcbs = update k.pcbs i b }

abbrev pub set_table : ℕ → (ℕ → Fd) → Kernel → Kernel
set_table i table k = set_pcb i (record (k.pcbs i) { fd_table = table }) k
