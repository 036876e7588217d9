-- ===== src/Kernel/Sample.antt =====
-- A small kernel for the tests: the shell of terminal 0 has started process 3, which reads a file.
use linux_base_operating_sys.Prelude.{ℕ, zero, suc, true, [], some, none}
use linux_base_operating_sys.Prelude.Int.{pos}
use linux_base_operating_sys.Fs.{Fs, Dentry}
use linux_base_operating_sys.Fd.{Fd, filesys}
use linux_base_operating_sys.Kernel.{Kernel, Pcb}

abbrev pub name_x : ℕ → ℕ
name_x zero = b'x'
name_x (suc j) = 0

abbrev pub zeros : ℕ → ℕ
zeros j = 0

abbrev pub entry_x : Dentry
entry_x = record { file_name = name_x; file_type = 2; inode_idx = 1 }

abbrev pub sample_fs : Fs
sample_fs = record {
  num_entries = 1;
  num_inodes = 2;
  num_data_blocks = 3;
  entries = λ i. entry_x;
  inodes = λ i. record { file_size = 100; datablock_idx = λ j. 1 };
  data_blocks = λ b i. i;
  character_count = λ i. 1;
}

abbrev file_fd : Fd
file_fd = record { fd_jump = some filesys; inode_ptr = pos 1; file_position = 10; flags = 1 }

abbrev pub sample_pcb : ℕ → Pcb
sample_pcb i = record {
  process_id = i;
  parent_id = pos 0;
  current_esp = 0x7FDF00;
  current_ebp = 0x7FDF40;
  return_esp = 0;
  return_ebp = 0;
  args = name_x;
  fd_table = λ j. file_fd;
}

-- Slots 0 and 3 are taken, and so are those kept for the other shells.
abbrev pub four_taken : ℕ → ℕ
four_taken zero = 1
four_taken (suc zero) = 1
four_taken (suc (suc zero)) = 1
four_taken (suc (suc (suc zero))) = 1
four_taken (suc (suc (suc (suc i)))) = 0

abbrev pub sample : Kernel
sample = record {
  screen = record {
    video_mem = zeros;
    screen_x = zeros;
    screen_y = zeros;
    cursor_low = 0;
    cursor_high = 0;
  };
  fs = sample_fs;
  rtc = record { interrupt_flag = 1; curr_rate = 15; curr_frequency = none; outb = [] };
  paging = record { page_directory = zeros; page_table = zeros; user_page_table = zeros };
  keyboard = record {
    caps_shift_flag = zeros;
    ctrl_flag = 0;
    alt_flag = 0;
    buffer_index = zeros;
    buffer = λ t. zeros;
    kbdr_flag = 0;
  };
  save_buff = λ t. zeros;
  curr_terminal = 0;
  current_process = λ t. pos 3;
  process_array = λ i. true;
  pcbs = sample_pcb;
  in_use = four_taken;
  cmd_args = λ t. zeros;
  program = λ i. zeros;
  exception_flag = 0;
  tss_esp0 = 0;
  esp = 0;
  ebp = 0;
}
