-- ===== src/Kernel/Process/Lifecycle.antt =====
-- A program from its `execute` to its `halt`.
use linux_base_operating_sys.Prelude.{
  lt→ltb, ℕ, ◌+◌, ◌≤◌, ◌<◌, ◌≡◌, ◌≢◌, ◌%◌, ◌/◌, ◌^◌, ◌==◌, if◌then◌else◌, refl, true, false, ltb,
  update, arith, some,
}
use linux_base_operating_sys.Prelude.Int.{pos}
use linux_base_operating_sys.Fs.{Dentry}
use linux_base_operating_sys.Fd.{close_all_fd}
use linux_base_operating_sys.Fd.Allocate.{close_all_fd_off}
use linux_base_operating_sys.Paging.{Tables, add_process}
use linux_base_operating_sys.Paging.Walk.{translate}
use linux_base_operating_sys.Paging.Process.{process_page, translate-add_process}
use linux_base_operating_sys.Kernel.{set_table, Kernel, deref}
use linux_base_operating_sys.Kernel.Process.{parent_number, resumed, resume_parent, halt}

-- Process `i` runs on the terminal of `k`, as a child of process `p`, whose `execute` had the
-- registers `sp` and `bp`.
pub record IsChild (i p sp bp : ℕ) (k : Kernel) : Type 0 where
  pub bounds : (3 ≤ i) × (i < 8) × (p < 8) × (p ≢ i)
  pub current : k.current_process k.curr_terminal ≡ pos i
  pub here : k.process_array i ≡ true
  pub there : k.process_array p ≡ true
  pub number : (k.pcbs i).process_id ≡ i
  pub parent : (k.pcbs i).parent_id ≡ pos p
  pub registers : ((k.pcbs i).current_esp ≡ sp) × ((k.pcbs i).current_ebp ≡ bp)

-- What `halt` leaves: the parent runs, with the registers of its `execute` and its own page of
-- memory, and the slot is free.
pub record Resumed (i p sp bp : ℕ) (k k' : Kernel) : Type 0 where
  pub current : k'.current_process ≡ update k.current_process k.curr_terminal (pos p)
  pub slots : k'.in_use ≡ update k.in_use i 0
  pub registers : (k'.esp ≡ sp) × (k'.ebp ≡ bp)
  pub flag : k'.exception_flag ≡ 0
  pub stack : k'.tss_esp0 ≡ (k.pcbs p).current_esp
  pub page :
      (at : Tables) (v : ℕ)
      → translate at k'.paging v
        ≡ (if v / 2 ^ 22 == 32 then some (process_page p + v % 2 ^ 22) else translate at k.paging v)
  pub table : (j : ℕ) → j < 8 → ((k'.pcbs i).fd_table j).flags ≡ 0
  pub others : (j : ℕ) → j ≢ i → k'.pcbs j ≡ k.pcbs j

-- The kernel after `resume_parent`, for a child `i` of `p`.
handed_back : ℕ → ℕ → Kernel → Kernel
handed_back i p k = record k {
  esp = (k.pcbs i).current_esp;
  ebp = (k.pcbs i).current_ebp;
  exception_flag = 0;
  in_use = update k.in_use i 0;
  current_process = update k.current_process k.curr_terminal (k.pcbs i).parent_id;
  paging = add_process (parent_number (k.pcbs i).parent_id) k.paging;
  tss_esp0 = (k.pcbs p).current_esp;
}

resume_parent_lem :
    (status i p sp bp : ℕ) (k : Kernel)
    → IsChild i p sp bp k
    → resume_parent status k ≡ some (resumed (status % 256 + k.exception_flag), handed_back i p k)
unfolding resume_parent deref handed_back
resume_parent_lem status i p sp bp k c =
    let (a, b, e, _) = c.bounds in
    rw (c.current, resume_parent, deref, lt→ltb i 8 b, c.here, c.parent, lt→ltb p 8 e, c.there)
      (rw c.parent refl)

abbrev closed_files : ℕ → Kernel → Kernel
closed_files i k = set_table i (close_all_fd (k.pcbs i).fd_table) k

closed_files-IsChild :
    (i p sp bp : ℕ) (k : Kernel) → IsChild i p sp bp k → IsChild i p sp bp (closed_files i k)
closed_files-IsChild i p sp bp k c =
    let (sp_is, bp_is) = c.registers in
    record {
      bounds = c.bounds;
      current = c.current;
      here = c.here;
      there = c.there;
      number = ground (arith, c.number);
      parent = ground (arith, c.parent);
      registers = (ground (arith, sp_is), ground (arith, bp_is));
    }

halt_lem :
    (stack : ℕ → ℕ) (blank : Dentry) (status i p sp bp : ℕ) (k : Kernel)
    → IsChild i p sp bp k
    → halt stack blank status k ≡ resume_parent status (closed_files i k)
unfolding halt deref
halt_lem stack blank status i p sp bp k c =
    let (a, b, e, _) = c.bounds in
    let n : ltb (k.pcbs i).process_id 3 ≡ false = ground (arith, a, c.number) in
    rw (c.current, halt, deref, lt→ltb i 8 b, c.here, n) refl

-- The `halt` of a child gives the `execute` that started it the low byte of the status plus the
-- exception flag, closes the child's files, frees its slot and leaves the parent to run: with the
-- registers of that `execute`, the parent's page at 128 MB and no other address moved, and the stack
-- that the parent's block names.
pub halt-Resumed :
    (stack : ℕ → ℕ) (blank : Dentry) (status i p sp bp : ℕ) (k : Kernel)
    → IsChild i p sp bp k
    → (k' : Kernel) × (halt stack blank status k
        ≡ some (resumed (status % 256 + k.exception_flag), k'))
      × Resumed i p sp bp k k'
unfolding handed_back
halt-Resumed stack blank status i p sp bp k c =
    let k1 : Kernel = closed_files i k in
    let c1 = closed_files-IsChild i p sp bp k c in
    let (a, b, e, apart) = c.bounds in
    (
      handed_back i p k1,
      rw (halt_lem stack blank status i p sp bp k c) (resume_parent_lem status i p sp bp k1 c1),
      record {
        current = rw c1.parent refl;
        slots = refl;
        registers = c1.registers;
        flag = refl;
        stack = ground (arith, apart);
        page = λ at v. rw c1.parent (translate-add_process at k.paging p v e);
        table = λ j h. ground (arith, close_all_fd_off (k.pcbs i).fd_table j h);
        others = λ j h. ground (arith, h);
      },
    )
