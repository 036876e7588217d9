-- ===== src/Paging/Tests.antt =====
-- The theorems on page tables at blank tables.
use linux_base_operating_sys.Prelude.{
  ◌+◌, ◌*◌, ◌/◌, ◌%◌, ◌^◌, ◌≡◌, ◌≢◌, refl, arith, ◌==◌, if◌then◌else◌, some,
}
use linux_base_operating_sys.Paging.{Tables, Paging, map_virt_to_phys, add_process}
use linux_base_operating_sys.Paging.Walk.{
  translate, walk_table, Placed, term_page, translate-map_virt_to_phys,
}
use linux_base_operating_sys.Paging.Process.{translate-add_process, process_pages_apart}

abbrev two_tables : Tables
two_tables = record { kernel_table = 0x405000; user_table = 0x406000 }

abbrev blank_tables : Paging
blank_tables = record { page_directory = λ i. 2; page_table = λ i. 2; user_page_table = λ i. 2 }

two_tables-Placed : Placed two_tables
two_tables-Placed = record {
  kernel_frame = 0x405;
  user_frame = 0x406;
  kernel_aligned = refl;
  user_aligned = refl;
  apart = omega arith;
}

translate-map_virt_to_phys_example :
    translate two_tables
      (map_virt_to_phys two_tables (term_page 1) (0xB8 * 4096 + 7) blank_tables)
      0x10001004
    ≡ (if 0x10001004 / 4096 == term_page 1 / 4096
        then some (0xB8 * 4096 + 0x10001004 % 4096)
        else if 0x10001004 / 2 ^ 22 == 64
        then walk_table blank_tables.user_page_table 0x10001004
        else translate two_tables blank_tables 0x10001004)
translate-map_virt_to_phys_example =
    translate-map_virt_to_phys two_tables blank_tables 1 0xB8 7 0x10001004 two_tables-Placed
      (λ i n. omega arith) (omega arith) refl (omega arith) refl

process_3_here : translate two_tables (add_process 3 blank_tables) 0x08048000 ≡ some 0x1448000
process_3_here = translate-add_process two_tables blank_tables 3 0x08048000 (omega arith)

process_pages_apart_example :
    translate two_tables (add_process 4 blank_tables) 0x08048000 ≢ some 0x1448000
process_pages_apart_example =
    process_pages_apart two_tables blank_tables blank_tables 3 4 0x08048000 0x08048000 0x1448000
      (omega arith) (omega arith) (omega arith) refl refl process_3_here
