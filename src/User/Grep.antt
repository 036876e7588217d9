-- ===== src/User/Grep.antt =====
-- `do_one_file` and `main` of syscalls/ece391grep.c.
mod Tests
use linux_base_operating_sys.Prelude.{
  ℕ, zero, suc, ◌+◌, ◌-◌, Bool, true, false, ◌&&◌, ◌||◌, ltb, leb, ◌==◌, ◌!=◌, if◌then◌else◌,
  update, Option, some, none,
}
use linux_base_operating_sys.Prelude.Int.{ℤ, pos, negsuc, is_zero, is_minus_one, uint32}
use linux_base_operating_sys.Kernel.{codes}
use linux_base_operating_sys.User.{Sys, stdout, literal}
use linux_base_operating_sys.User.Support.{
  fdputs_text, ece391_fdputs, ece391_strlen, ece391_strcpy, ece391_strncmp,
}

-- The buffer of a file, how much of it is in use, and the state behind the calls.
pub record Data (W : Type 0) : Type 0 where
  pub chars : ℕ → ℕ
  pub last : ℕ
  pub world : W

-- The end of a line from `i` on, at most `n` bytes away.
line_end_from : ℕ → (ℕ → ℕ) → ℕ → ℕ
line_end_from zero chars i = i
line_end_from (suc n) chars i =
    let rest = line_end_from n chars (i + 1) in if chars i != 10 then rest else i

-- Whether the search string begins at one of the `n` places from `check` on.
occurs : ℕ → (ℕ → ℕ) → ℕ → (ℕ → ℕ) → ℕ → Bool
occurs zero s s_len chars check = false
occurs (suc n) s s_len chars check =
    let rest = occurs n s s_len chars (check + 1) in
    s 0 == chars check && is_zero (ece391_strncmp (λ j. chars (check + j)) s s_len) || rest

module _ {W : Type 0} (sys : Sys W) where
  -- The name of the file, a colon and the line.
  show_match : (ℕ → ℕ) → (ℕ → ℕ) → W → Option W
  show_match fname line w = elim (ece391_fdputs sys 33 stdout fname w) [
    | none ↦ none
    | some w1 ↦ elim (ece391_fdputs sys 1025 stdout line (fdputs_text sys stdout (codes ":") w1)) [
      | none ↦ none
      | some w2 ↦ some (fdputs_text sys stdout (codes "\n") w2)
    ]
  ]

  -- The search through the line from `line_start` to `line_end`, where there is a NUL by now.
  search_line : (ℕ → ℕ) → ℕ → (ℕ → ℕ) → ℕ → ℕ → (ℕ → ℕ) → W → Option W
  unfolding occurs show_match
  search_line s s_len fname line_start line_end chars w =
      elim (occurs (line_end - line_start) s s_len chars line_start) [
        | true ↦ show_match fname (λ j. chars (line_start + j)) w
        | false ↦ some w
      ]

  -- The loop over the lines in the buffer, with `fuel` rounds at most; `cnt` is what the last
  -- reading gave.
  search_lines : ℕ → (ℕ → ℕ) → ℕ → (ℕ → ℕ) → ℕ → ℕ → Data W → Option (Data W)
  unfolding line_end_from search_line
  search_lines zero s s_len fname cnt line_start d = none
  search_lines (suc f) s s_len fname cnt line_start d =
      let line_end = line_end_from (d.last - line_start) d.chars line_start in
      let ended : ℕ → ℕ = update d.chars line_end 0 in
      elim (d.chars line_end != 10 && cnt != 0 && line_start != 0) [
        | true ↦ elim (ece391_strcpy 1025 ended 0 line_start) [
          | none ↦ none
          | some moved ↦
              some (record { chars = moved; last = d.last - line_start; world = d.world })
        ]
        | false ↦ elim (search_line s s_len fname line_start line_end ended d.world) [
          | none ↦ none
          | some w ↦ elim (leb d.last (line_end + 1)) [
            | true ↦ some (record { chars = ended; last = 0; world = w })
            | false ↦
                search_lines f s s_len fname cnt (line_end + 1)
                  (record { chars = ended; last = d.last; world = w })
          ]
        ]
      ]

  close_file : ℤ × W → ℤ × W
  close_file (r, w) = elim (is_minus_one r) [
    | true ↦ (negsuc 0, fdputs_text sys stdout (codes "file close failed\n") w)
    | false ↦ (pos 0, w)
  ]

  -- What follows `ece391_read` into the buffer at `d.last`; `again` is the next round. `none` for a
  -- count below -1, which the system call does not give.
  got_data :
      ((ℕ → ℕ) → ℕ → W → Option (ℤ × W))
      → (ℕ → ℕ)
      → ℕ
      → (ℕ → ℕ)
      → ℤ
      → (ℕ → ℕ)
      → ℕ
      → ℤ × (ℕ → ℕ) × W
      → Option (ℤ × W)
  unfolding search_lines close_file
  got_data again s s_len fname fd chars last (negsuc zero, bytes, w) =
      some (negsuc 0, fdputs_text sys stdout (codes "file read failed\n") w)
  got_data again s s_len fname fd chars last (negsuc (suc n), bytes, w) = none
  got_data again s s_len fname fd chars last (pos cnt, bytes, w) =
      let filled : ℕ → ℕ = λ j. if ltb j last then chars j else bytes (j - last) in
      elim (search_lines (suc (last + cnt)) s s_len fname cnt 0
        (record { chars = filled; last = last + cnt; world = w })) [
          | none ↦ none
          | some d ↦ elim (cnt == 0) [
            | true ↦ some (close_file (sys.close fd d.world))
            | false ↦ again d.chars d.last d.world
          ]
        ]

  -- The loop over the readings, with `fuel` rounds at most.
  file_loop : ℕ → (ℕ → ℕ) → ℕ → (ℕ → ℕ) → ℤ → (ℕ → ℕ) → ℕ → W → Option (ℤ × W)
  unfolding got_data
  file_loop zero s s_len fname fd chars last w = none
  file_loop (suc f) s s_len fname fd chars last w =
      got_data (file_loop f s s_len fname fd) s s_len fname fd chars last
        (sys.read fd (λ j. chars (last + j)) (1024 - last) w)

  got_file : ℕ → (ℕ → ℕ) → ℕ → (ℕ → ℕ) → (ℕ → ℕ) → ℤ × W → Option (ℤ × W)
  unfolding file_loop
  got_file fuel s s_len fname area (fd, w) = elim (is_minus_one fd) [
    | true ↦ some (negsuc 0, fdputs_text sys stdout (codes "file open failed\n") w)
    | false ↦ file_loop fuel s s_len fname fd area 0 w
  ]

  -- `area` is what the local buffer holds; the search string lies in a buffer of 1024 bytes.
  unfoldable pub do_one_file : ℕ → (ℕ → ℕ) → (ℕ → ℕ) → (ℕ → ℕ) → W → Option (ℤ × W)
  unfolding got_file
  do_one_file fuel s fname area w = elim (ece391_strlen 1024 s) [
    | none ↦ none
    | some s_len ↦ got_file fuel s s_len fname area (sys.open_file fname w)
  ]

  -- What follows `do_one_file` and the reading of a name; `again` is the next round.
  did_file : (W → Option (ℕ × W)) → Option (ℤ × W) → Option (ℕ × W)
  did_file again none = none
  did_file again (some (r, w)) = elim (is_zero r) [ true ↦ again w | false ↦ some (3, w) ]

  got_entry :
      ((ℕ → ℕ) → W → Option (ℕ × W)) → ℕ → (ℕ → ℕ) → (ℕ → ℕ) → ℤ × (ℕ → ℕ) × W → Option (ℕ × W)
  unfolding did_file do_one_file
  got_entry again fuel search area (cnt, buf, w) = elim (is_zero cnt) [
    | true ↦ some (0, w)
    | false ↦ elim (is_minus_one cnt) [
      | true ↦ some (3, fdputs_text sys stdout (codes "directory entry read failed\n") w)
      | false ↦ elim (b'.' == buf 0) [
        | true ↦ again buf w
        | false ↦
            let fname : ℕ → ℕ = update buf (uint32 cnt) 0 in
            did_file (again fname) (do_one_file fuel search fname area w)
      ]
    ]
  ]

  grep_loop : ℕ → ℕ → (ℕ → ℕ) → (ℕ → ℕ) → ℤ → (ℕ → ℕ) → W → Option (ℕ × W)
  unfolding got_entry
  grep_loop zero fuel search area fd buf w = none
  grep_loop (suc f) fuel search area fd buf w =
      got_entry (grep_loop f fuel search area fd) fuel search area (sys.read fd buf 32 w)

  grep_directory : ℕ → ℕ → (ℕ → ℕ) → (ℕ → ℕ) → (ℕ → ℕ) → ℤ × W → Option (ℕ × W)
  unfolding grep_loop
  grep_directory files fuel search area buf (fd, w) = elim (is_minus_one fd) [
    | true ↦ some (2, fdputs_text sys stdout (codes "directory open failed\n") w)
    | false ↦ grep_loop files fuel search area fd buf w
  ]

  got_search : ℕ → ℕ → (ℕ → ℕ) → (ℕ → ℕ) → ℤ × (ℕ → ℕ) × W → Option (ℕ × W)
  unfolding grep_directory
  got_search files fuel area buf (r, search, w) = elim (is_zero r) [
    | true ↦ grep_directory files fuel search area buf (sys.open_file (literal (codes ".")) w)
    | false ↦ some (3, fdputs_text sys stdout (codes "could not read argument\n") w)
  ]

  -- `main`, with `files` entries of the directory and `fuel` readings of a file at most; `area` and
  -- `buf` are what the buffers hold.
  unfoldable pub grep : ℕ → ℕ → (ℕ → ℕ) → (ℕ → ℕ) → (ℕ → ℕ) → W → Option (ℕ × W)
  unfolding got_search
  grep files fuel search area buf w = got_search files fuel area buf (sys.getargs search 1024 w)
