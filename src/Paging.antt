-- ===== src/Paging.antt =====
-- Page tables: student-distrib/paging.c. The addresses at which the linker puts the two page tables
-- are an argument; the writes to the control registers have no model.
mod Tests
pub mod Walk
pub mod Process
use linux_base_operating_sys.Prelude.{ℕ, ◌+◌, ◌*◌, ◌/◌, ◌%◌, ◌^◌, update, fill, bit_and, bit_or}

abbrev video : ℕ
video = 0xB8000

abbrev page_size : ℕ
page_size = 1024

abbrev pub virt_vid_term1 : ℕ
virt_vid_term1 = 0x10000000

abbrev pub virt_vid_term2 : ℕ
virt_vid_term2 = 0x10001000

abbrev pub virt_vid_term3 : ℕ
virt_vid_term3 = 0x10002000

abbrev pub backup_vid1 : ℕ
backup_vid1 = 0xB9000

abbrev backup_vid2 : ℕ
backup_vid2 = 0xBA000

abbrev backup_vid3 : ℕ
backup_vid3 = 0xBB000

abbrev rw_set_only : ℕ
rw_set_only = 2

abbrev rw_p_set : ℕ
rw_p_set = 3

abbrev rw_p_size_set : ℕ
rw_p_size_set = 0x83

abbrev pub process_set : ℕ
process_set = 0x87

abbrev user_mask : ℕ
user_mask = 7

-- USER_VIDEO_ and USER_BACK1.
abbrev pub user_video : ℕ
user_video = bit_or video user_mask

abbrev pub user_back1 : ℕ
user_back1 = bit_or backup_vid1 user_mask

abbrev pub user_space : ℕ
user_space = 0x00800000

abbrev pub process_size : ℕ
process_size = 0x00400000

abbrev process_idx : ℕ
process_idx = 32

-- Where `page_table` and `user_page_table` lie.
pub record Tables : Type 0 where
  pub kernel_table : ℕ
  pub user_table : ℕ

pub record Paging : Type 0 where
  pub page_directory : ℕ → ℕ
  pub page_table : ℕ → ℕ
  pub user_page_table : ℕ → ℕ

pub map_virt_to_phys : Tables → ℕ → ℕ → Paging → Paging
map_virt_to_phys at virtual_address phys p = record p {
  page_directory =
      update p.page_directory (virtual_address / 2 ^ 22) (bit_or at.user_table user_mask);
  user_page_table =
      update p.user_page_table (bit_and virtual_address 0x003FFFFF / 2 ^ 12) (bit_or phys rw_p_set);
}

-- The address is 32 bits wide.
pub add_process : ℕ → Paging → Paging
add_process process_id p = record p {
  page_directory =
      update p.page_directory process_idx
        (bit_or ((user_space + process_id * process_size) % 2 ^ 32) process_set);
}

-- The entries that `paging_init` writes before the three mappings.
init_tables : Tables → Paging → Paging
init_tables at p = record p {
  page_directory =
      update
        (update (fill page_size (λ i. rw_set_only) p.page_directory) 1
          (bit_or 0x00400000 rw_p_size_set))
        0 (bit_or at.kernel_table rw_p_set);
  page_table =
      update (fill page_size (λ i. rw_set_only) p.page_table) (video / 2 ^ 12)
        (bit_or video rw_p_set);
}

pub paging_init : Tables → Paging → Paging
unfolding init_tables
paging_init at p = map_virt_to_phys at virt_vid_term3 backup_vid3 (
    map_virt_to_phys at virt_vid_term2 backup_vid2
      (map_virt_to_phys at virt_vid_term1 backup_vid1 (init_tables at p)))
