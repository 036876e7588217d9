-- ===== src/Kernel/Process/Tests.antt =====
-- The theorems on starting a program at the sample.
use linux_base_operating_sys.Prelude.{
  ℕ, zero, suc, ◌<◌, ◌≡◌, refl, false, arith, some, scan, update,
}
use linux_base_operating_sys.Prelude.Int.{pos}
use linux_base_operating_sys.Strings.{strcpy, strcpy_from}
use linux_base_operating_sys.Fs.{Dentry, read_dentry_by_name, read_data, given_name_len}
use linux_base_operating_sys.Fs.Lookup.{IsIndexed, read_dentry_by_name_found}
use linux_base_operating_sys.Fs.Read.{Delivers}
use linux_base_operating_sys.Fs.ReadData.{available, read_data-Delivers}
use linux_base_operating_sys.Kernel.{Kernel}
use linux_base_operating_sys.Kernel.Sample.{sample, sample_fs, four_taken, zeros, name_x, entry_x}
use linux_base_operating_sys.Kernel.Process.{
  find_program, free_slot, free_from, is_executable, execute,
}
use linux_base_operating_sys.Kernel.Process.Refused.{Refuses, execute-full}

abbrev busy : Kernel
busy = record sample { in_use = λ i. 1 }

execute-full_example : Refuses busy (execute zeros entry_x (some name_x) busy)
execute-full_example = execute-full zeros entry_x name_x busy (λ j lt e. absurd (omega (arith, e)))

-- The entry and the first bytes of the program that is looked up.
abbrev found_entry : Dentry
found_entry = (read_dentry_by_name sample_fs name_x entry_x).1

abbrev first_bytes : ℕ → ℕ
first_bytes = (read_data sample_fs found_entry.inode_idx 0 zeros 28).1

name_x_bytes : (j : ℕ) → name_x j < 256
name_x_bytes zero = omega arith
name_x_bytes (suc j) = omega arith

sample_fs-IsIndexed : IsIndexed sample_fs
unfolding scan
sample_fs-IsIndexed = record { counted = λ i h. refl; bytes = λ i j. name_x_bytes j }

x_found :
    ((read_dentry_by_name sample_fs name_x entry_x).0 ≡ pos 0)
    × (found_entry.file_type ≡ 2)
    × (found_entry.inode_idx ≡ 1)
unfolding given_name_len scan
x_found =
    let (a, b, c, _) =
      read_dentry_by_name_found sample_fs name_x entry_x 0 sample_fs-IsIndexed name_x_bytes
        (omega arith) (omega arith) (refl, λ j h. refl) (λ j h. absurd (omega arith)) in
    (a, b, c)

x_read :
    let r = read_data sample_fs found_entry.inode_idx 0 zeros 28 in
    (r.0 ≡ pos (available sample_fs found_entry.inode_idx 0 28))
    × Delivers sample_fs found_entry.inode_idx 0
        (available sample_fs found_entry.inode_idx 0 28)
        zeros
        r.1
x_read =
    let (_, _, inode) = x_found in
    read_data-Delivers sample_fs found_entry.inode_idx 0 28 zeros
      record {
        known = omega (arith, inode);
        inside = omega arith;
        small = omega arith;
        nonempty = omega arith;
        no_wrap = omega arith;
      }
      (λ j h. omega arith)

x_program : find_program sample_fs name_x entry_x zeros ≡ some (found_entry, first_bytes)
unfolding find_program
x_program = let (a, b, _) = x_found in let (count, _) = x_read in rw (a, b, count) refl

x_no_magic : is_executable first_bytes ≡ false
unfolding is_executable
x_no_magic = let (_, bytes) = x_read in rw (bytes 0) refl

four_taken_free : free_slot four_taken ≡ some 4
unfolding free_slot free_from
four_taken_free = refl

no_args : strcpy 129 name_x zeros ≡ some (update name_x 0 0)
unfolding strcpy strcpy_from
no_args = refl
