-- ===== src/Kernel/Switch.antt =====
-- `terminal_switch` of student-distrib/terminal.c. The video memory is `screen.video_mem`; `backup t`
-- is the page behind terminal `t`'s address once it is mapped to the backup.
pub mod Back
pub mod Shown
use linux_base_operating_sys.Prelude.{
  ℕ, zero, suc, ◌+◌, ◌-◌, ◌*◌, ◌==◌, Bool, true, false, ltb, leb, if◌then◌else◌, update, fill,
  Option, some, none, List, [], ◌∷◌,
}
use linux_base_operating_sys.Prelude.Int.{ℤ, pos, negsuc, minus_one, is_minus_one}
use linux_base_operating_sys.Screen.{Screen, update_cursor}
use linux_base_operating_sys.Fs.{Dentry}
use linux_base_operating_sys.Paging.{
  Tables, Paging, map_virt_to_phys, add_process, virt_vid_term1, user_back1, user_video,
}
use linux_base_operating_sys.Kernel.{Kernel, Pcb, M, deref, set_pcb}
use linux_base_operating_sys.Kernel.Process.{
  Outcome, returned, entered, resumed, execute, shell, k_stack_bottom, kernel_stack,
}

-- How `terminal_switch` ends: it returns, it goes back to the terminal's own stack, or it has
-- entered the terminal's first shell.
pub data Switched : Type 0 where
  stays : ℤ → Switched
  continues : Switched
  starts : ℕ → Switched

abbrev pub fourkib : ℕ
fourkib = 0x1000

-- The kernel and the four pages behind the terminals: the backups of the three terminals.
pub record Display : Type 0 where
  pub kernel : Kernel
  pub backup : ℕ → ℕ → ℕ

-- The registers of the running process are kept in its block.
keep_registers : Kernel → Option Kernel
keep_registers k = elim (deref (k.current_process k.curr_terminal) k) [
  | none ↦ none
  | some i ↦ some (set_pcb i (record (k.pcbs i) { return_esp = k.esp; return_ebp = k.ebp }) k)
]

-- The old terminal's page is mapped to its backup, the screen saved there and the new terminal's
-- backup shown.
pub swap_pages : Tables → ℕ → Display → Display
swap_pages at new d =
    let k = d.kernel in
    let old = k.curr_terminal in
    let saved : ℕ → ℕ → ℕ = update d.backup old (fill fourkib k.screen.video_mem (d.backup old)) in
    let shown : Screen = record k.screen {
      video_mem = fill fourkib (saved new) k.screen.video_mem;
    } in
    let p1 : Paging =
      map_virt_to_phys at (virt_vid_term1 + old * fourkib) (user_back1 + old * fourkib) k.paging in
    record d {
      kernel = record k {
        curr_terminal = new;
        screen = update_cursor new shown;
        paging = map_virt_to_phys at (virt_vid_term1 + new * fourkib) user_video p1;
      };
      backup = saved;
    }

-- The last part: the new terminal's process goes on.
go_on : Kernel → Option (Switched × Kernel)
go_on k = elim (deref (k.current_process k.curr_terminal) k) [
  | none ↦ none
  | some i ↦ some (
    continues,
    record k {
      paging = add_process i k.paging;
      tss_esp0 = k_stack_bottom - kernel_stack * i - 4;
      esp = (k.pcbs i).return_esp;
      ebp = (k.pcbs i).return_ebp;
    },
  )
]

-- The first shell of a terminal; the rest of the function runs only if that fails.
first_shell : (ℕ → ℕ) → Dentry → Kernel → Option (Switched × Kernel)
first_shell stack blank k =
    elim (execute stack blank (some shell)
      (record k { in_use = update k.in_use k.curr_terminal 0 })) [
        | none ↦ none
        | some (o, k1) ↦ elim o [
          | returned r ↦ go_on k1
          | entered a ↦ some (starts a, k1)
          | resumed s ↦ go_on k1
        ]
      ]

pub terminal_switch : Tables → (ℕ → ℕ) → Dentry → ℕ → Display → Option (Switched × Display)
terminal_switch at stack blank new d =
    let k = d.kernel in
    if new == k.curr_terminal
    then some (stays (pos 0), d)
    else if leb 3 new
    then some (stays minus_one, d)
    else elim (keep_registers k) [
      | none ↦ none
      | some k1 ↦
          let d2 = swap_pages at new (record d { kernel = k1 }) in
          let started = first_shell stack blank d2.kernel in
          let continued = go_on d2.kernel in
          let fresh = is_minus_one (d2.kernel.current_process new) in
          elim (if fresh then started else continued) [
            | none ↦ none
            | some (s, k3) ↦ some (s, record d2 { kernel = k3 })
          ]
    ]
