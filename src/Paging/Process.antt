-- ===== src/Paging/Process.antt =====
-- The page of the running process.
use linux_base_operating_sys.Prelude.{
  ℕ, ◌+◌, ◌*◌, ◌/◌, ◌%◌, ◌^◌, ◌<◌, ◌≡◌, ◌≢◌, ◌==◌, if◌then◌else◌, arith, some, bit_or,
  bit_or-aligned, Bool-cases, inl, inr, true, false,
}
use linux_base_operating_sys.Paging.{
  Tables, Paging, add_process, user_space, process_size, process_set,
}
use linux_base_operating_sys.Paging.Walk.{translate, walk_entry}

-- The physical page of a process.
abbrev pub process_page : ℕ → ℕ
process_page pid = user_space + pid * process_size

process_entry :
    (pid : ℕ)
    → pid < 8
    → bit_or ((user_space + pid * process_size) % 2 ^ 32) process_set ≡ (pid + 2) * 2 ^ 22 + 135
process_entry pid lt =
    let page : (user_space + pid * process_size) % 2 ^ 32 ≡ (pid + 2) * 2 ^ 22 =
      omega (arith, lt) in
    rw page (bit_or-aligned 22 (pid + 2) 135 (omega arith))

walk_process :
    (at : Tables) (kernel user : ℕ → ℕ) (pid v : ℕ)
    → walk_entry at kernel user ((pid + 2) * 2 ^ 22 + 135) v ≡ some (process_page pid + v % 2 ^ 22)
walk_process at kernel user pid v = ground arith

-- After `add_process` of one of the eight processes the 4 MB at 128 MB are the process's own physical page, byte by byte, and every
-- other address goes where it went.
pub translate-add_process :
    (at : Tables) (p : Paging) (pid v : ℕ)
    → pid < 8
    → translate at (add_process pid p) v
      ≡ (if v / 2 ^ 22 == 32 then some (process_page pid + v % 2 ^ 22) else translate at p v)
unfolding translate add_process
translate-add_process at p pid v lt =
    rw (process_entry pid lt) (elim (Bool-cases (32 == v / 2 ^ 22)) [
      | inl hit ↦
          let same : (v / 2 ^ 22 == 32) ≡ true = ground arith in
          rw (hit, same) (walk_process at p.page_table p.user_page_table pid v)
      | inr miss ↦ let other : (v / 2 ^ 22 == 32) ≡ false = ground arith in rw (miss, other)
    ])

-- Two of the eight processes share no byte of their program pages: an address of that page that one of them
-- writes lies outside what the other one reaches through it.
pub process_pages_apart :
    (at : Tables) (p q : Paging) (pid pid' v v' a : ℕ)
    → pid < 8
    → pid' < 8
    → pid ≢ pid'
    → v / 2 ^ 22 ≡ 32
    → v' / 2 ^ 22 ≡ 32
    → translate at (add_process pid p) v ≡ some a
    → translate at (add_process pid' q) v' ≢ some a
process_pages_apart at p q pid pid' v v' a small small' apart here there e e' =
    ground
      (arith, translate-add_process at p pid v small, translate-add_process at q pid' v' small')
