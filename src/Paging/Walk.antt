-- ===== src/Paging/Walk.antt =====
-- The processor's two-level translation, and what the kernel's mappings make of it.
use linux_base_operating_sys.Prelude.{
  ℕ, zero, suc, ◌+◌, ◌*◌, ◌/◌, ◌%◌, ◌^◌, ◌<◌, ◌≡◌, ◌≢◌, refl, ◌∙◌, ◌==◌, if◌then◌else◌, arith,
  Option, some, none, update, bit_and, bit_or, bit_or-aligned, Bool-cases, ==-false, inl, inr, true,
  false,
}
use linux_base_operating_sys.Paging.{Tables, Paging, map_virt_to_phys, virt_vid_term1, backup_vid1}

-- The entry of a page table: bit 0 tells that the page is present, bits 12 to 31 are its frame.
abbrev pub walk_table : (ℕ → ℕ) → ℕ → Option ℕ
walk_table table v =
    let entry : ℕ = table (v / 4096 % 1024) in
    if entry % 2 == 0 then none else some (entry / 4096 * 4096 + v % 4096)

-- A directory entry: with bit 7 it maps 4 MB by itself, and otherwise names a page table by its
-- frame. A frame that holds neither table gives `none`, as an absent page.
abbrev pub walk_entry : Tables → (ℕ → ℕ) → (ℕ → ℕ) → ℕ → ℕ → Option ℕ
walk_entry at kernel user entry v =
    if entry % 2 == 0
    then none
    else if entry / 128 % 2 == 1
    then some (entry / 2 ^ 22 * 2 ^ 22 + v % 2 ^ 22)
    else if entry / 4096 * 4096 == at.user_table
    then walk_table user v
    else if entry / 4096 * 4096 == at.kernel_table
    then walk_table kernel v
    else none

-- An x86 address translation in two levels.
unfoldable pub translate : Tables → Paging → ℕ → Option ℕ
translate at p v = walk_entry at p.page_table p.user_page_table (p.page_directory (v / 2 ^ 22)) v

-- The tables are two different pages.
pub record Placed (at : Tables) : Type 0 where
  pub kernel_frame : ℕ
  pub user_frame : ℕ
  pub kernel_aligned : at.kernel_table ≡ kernel_frame * 2 ^ 12
  pub user_aligned : at.user_table ≡ user_frame * 2 ^ 12
  pub apart : kernel_frame ≢ user_frame

-- The virtual video page of terminal `t`, and the physical page that backs it up.
abbrev pub term_page : ℕ → ℕ
term_page t = virt_vid_term1 + t * 4096

abbrev backup_page : ℕ → ℕ
backup_page t = backup_vid1 + t * 4096

-- The part of the mapping that does not depend on the address mapped.
page_of_term :
    (t : ℕ) → t < 3 → (term_page t / 2 ^ 22 ≡ 64) × (bit_and (term_page t) 0x003FFFFF / 2 ^ 12 ≡ t)
page_of_term zero h = (refl, refl)
page_of_term (suc zero) h = (refl, refl)
page_of_term (suc (suc zero)) h = (refl, refl)
page_of_term (suc (suc (suc t))) h = absurd (omega arith)

user_entry : (at : Tables) (w : Placed at) → bit_or at.user_table 7 ≡ w.user_frame * 4096 + 7
user_entry at w = rw w.user_aligned (bit_or-aligned 12 w.user_frame 7 (omega arith))

walk_user :
    (at : Tables) (w : Placed at) (kernel user : ℕ → ℕ) (v : ℕ)
    → walk_entry at kernel user (w.user_frame * 4096 + 7) v ≡ walk_table user v
walk_user at w kernel user v = ground (arith, w.user_aligned)

walk_table_mapped :
    (user : ℕ → ℕ) (t frame flags v : ℕ)
    → t < 3
    → flags < 4096
    → flags % 2 ≡ 1
    → v / 2 ^ 22 ≡ 64
    → walk_table (update user t (frame * 4096 + flags)) v ≡ (
        if v / 4096 == term_page t / 4096
        then some (frame * 4096 + v % 4096)
        else walk_table user v)
walk_table_mapped user t frame flags v h small odd here = elim (Bool-cases (t == v / 4096 % 1024)) [
  | inl hit ↦
      let same : (v / 4096 == term_page t / 4096) ≡ true = ground arith in
      let entry : (frame * 4096 + flags) / 4096 ≡ frame = omega arith in
      let set_ : (frame * 4096 + flags) % 2 ≡ 1 = omega arith in rw (hit, same, set_, entry)
  | inr miss ↦
      let other : (v / 4096 == term_page t / 4096) ≡ false = ground arith in rw (miss, other)
]

-- Only the directory entry of the video pages names the user table.
abbrev UserTableOnce : Tables → Paging → Type 0
UserTableOnce at p = (i : ℕ) → i ≢ 64 → p.page_directory i / 4096 * 4096 ≢ at.user_table

walk_other :
    (at : Tables) (kernel user user' : ℕ → ℕ) (entry v : ℕ)
    → entry / 4096 * 4096 ≢ at.user_table
    → walk_entry at kernel user entry v ≡ walk_entry at kernel user' entry v
walk_other at kernel user user' entry v h = rw (==-false _ _ h)

-- After the page of terminal `t` is mapped to a frame, with any flags that have bits 0 and 1, the
-- addresses of that page go to the frame, those of the other pages of its 4 MB go where the user table
-- sends them, wherever they went before, and all other addresses go where they went.
pub translate-map_virt_to_phys :
    (at : Tables) (p : Paging) (t frame flags v : ℕ)
    → Placed at
    → UserTableOnce at p
    → t < 3
    → bit_or (frame * 4096 + flags) 3 ≡ frame * 4096 + flags
    → flags < 4096
    → flags % 2 ≡ 1
    → translate at (map_virt_to_phys at (term_page t) (frame * 4096 + flags) p) v ≡ (
        if v / 4096 == term_page t / 4096
        then some (frame * 4096 + v % 4096)
        else if v / 2 ^ 22 == 64
        then walk_table p.user_page_table v
        else translate at p v)
unfolding translate map_virt_to_phys
translate-map_virt_to_phys at p t frame flags v w once h or_flags small odd =
    let page = page_of_term t h in
    let mapped : ℕ → ℕ = update p.user_page_table t (frame * 4096 + flags) in
    rw (page.0, page.1, or_flags, user_entry at w)
      (elim (Bool-cases (64 == v / 2 ^ 22)) [
        | inl hit ↦
            let here : v / 2 ^ 22 ≡ 64 = ground arith in
            let same : (v / 2 ^ 22 == 64) ≡ true = ground arith in
            rw (hit, same)
              (walk_user at w p.page_table mapped v
                ∙ walk_table_mapped p.user_page_table t frame flags v h small odd here)
        | inr miss ↦
            let page_misses : (v / 4096 == term_page t / 4096) ≡ false = ground arith in
            let other : (v / 2 ^ 22 == 64) ≡ false = ground arith in
            rw (miss, page_misses, other)
              (walk_other at p.page_table mapped p.user_page_table (p.page_directory (v / 2 ^ 22)) v
                (once (v / 2 ^ 22) (ground arith)))
      ])
