-- ===== src/User/Fish.antt =====
-- fish/fish.c. The functions of fish/blink.S, which is assembler, are arguments.
use linux_base_operating_sys.Prelude.{
  ℕ, zero, suc, ◌+◌, ◌*◌, ◌%◌, ◌==◌, ◌!=◌, ◌&&◌, ◌||◌, Bool, true, false, if◌then◌else◌, update,
  fill, Option, some, none,
}
use linux_base_operating_sys.Prelude.Int.{ℤ, pos, negsuc, is_zero, is_minus_one}
use linux_base_operating_sys.Kernel.{codes}
use linux_base_operating_sys.User.{Sys, literal}

-- `struct mp1_blink_struct` without the fields that only the assembler uses.
pub record Blink : Type 0 where
  pub on_char : ℕ
  pub off_char : ℕ
  pub on_length : ℕ
  pub off_length : ℕ
  pub location : ℕ

-- for(i=0; i<n; i++) mem[i] = c
ece391_memset : (ℕ → ℕ) → ℕ → ℕ → ℕ → ℕ
ece391_memset mem c n = fill n (λ i. c) mem

-- for(i=0; i<n; i++) d[i] = s[i], in two buffers that do not overlap
ece391_memcpy : (ℕ → ℕ) → (ℕ → ℕ) → ℕ → ℤ × (ℕ → ℕ)
ece391_memcpy dest src n = (pos 0, fill n src dest)

free_blink_from : ℕ → (ℕ → ℕ) → ℕ → Option ℕ
free_blink_from zero location i = none
free_blink_from (suc n) location i =
    let rest = free_blink_from n location (i + 1) in if location i == 0 then some i else rest

-- The index of the first entry of `blink_array` whose location is 0.
mp1_malloc : (ℕ → ℕ) → Option ℕ
unfolding free_blink_from
mp1_malloc location = free_blink_from (80 * 25) location 0

abbrev cleared_blink : Blink
cleared_blink = record { on_char = 0; off_char = 0; on_length = 0; off_length = 0; location = 0 }

mp1_free : ℕ → (ℕ → Blink) → ℕ → Blink
mp1_free i blink_array = update blink_array i cleared_blink

-- What the functions of the assembler do: RTC_ADD, RTC_SYNC and RTC_REMOVE of `mp1_ioctl`, and
-- `mp1_rtc_tasklet`. `vidmap` is `ece391_vidmap`, with the address that `vmem_base_addr` then holds.
pub record Blinker (W : Type 0) : Type 0 where
  pub sys : Sys W
  pub rtc_add : Blink → W → W
  pub rtc_sync : ℕ → W → W
  pub rtc_remove : ℕ → W → W
  pub rtc_tasklet : (ℕ → ℕ) → W → W
  pub vidmap : W → ℤ × ℕ × W

-- How a part of the program ends: it returns, or it calls `ece391_halt(-1)`, which does not.
pub data Ended (W : Type 0) : Type 0 where
  goes_on : W → Ended W
  halted : W → Ended W

-- The variables of the loops of `add_frames`.
pub record Frames : Type 0 where
  pub c0 : ℕ
  pub c1 : ℕ
  pub eof0 : Bool
  pub eof1 : Bool

module _ {W : Type 0} (b : Blinker W) where
  -- if(c != '\n') { a character is read; at the end of the file it becomes a line break }
  next_char : ℤ → ℕ → Bool → W → ℕ × Bool × W
  next_char fd c eof w =
      if c == 10
      then (c, eof, w)
      else let (num_bytes, buf, w1) = b.sys.read fd (λ i. c) 1 w in
        if is_zero num_bytes then (10, true, w1) else (buf 0, eof, w1)

  visible : ℕ → Bool
  visible c = c != 32 && c != 10

  -- A character of each file at a position, unless both are blank.
  add_blink : ℕ → ℕ → Frames → W → W
  unfolding visible
  add_blink row col f w =
      if visible f.c0 || visible f.c1
      then b.rtc_add
          (record {
            on_char = if f.c0 == 10 then 32 else f.c0;
            off_char = if f.c1 == 10 then 32 else f.c1;
            on_length = 15;
            off_length = 15;
            location = (row * 80 + col + 40) % 65536;
          })
          w
      else w

  -- The loop over a line of both files, with `fuel` rounds at most.
  add_row : ℕ → ℤ → ℤ → ℕ → ℕ → Frames → W → Option (Frames × W)
  unfolding next_char add_blink
  add_row zero fd0 fd1 row col f w = none
  add_row (suc n) fd0 fd1 row col f w =
      let (c0, eof0, w0) = next_char fd0 f.c0 f.eof0 w in
      let (c1, eof1, w1) = next_char fd1 f.c1 f.eof1 w0 in
      let f1 : Frames = record { c0 = c0; c1 = c1; eof0 = eof0; eof1 = eof1 } in
      elim (c0 == 10 && c1 == 10) [
        | true ↦ some (f1, w1)
        | false ↦ add_row n fd0 fd1 row (col + 1) f1 (add_blink row col f1 w1)
      ]

  -- The end of a line: a file that is read to its end is closed.
  line_done : ℤ → Bool → W → ℕ × W
  line_done fd eof w = if eof then (10, (b.sys.close fd w).1) else (b'0', w)

  -- The loop over the lines. `cols` bounds the characters of a line.
  add_rows : ℕ → ℕ → ℤ → ℤ → ℕ → Frames → W → Option W
  unfolding add_row line_done
  add_rows zero cols fd0 fd1 row f w = none
  add_rows (suc n) cols fd0 fd1 row f w = elim (f.eof0 && f.eof1) [
    | true ↦ some w
    | false ↦ elim (add_row cols fd0 fd1 row 0 f w) [
      | none ↦ none
      | some (f1, w1) ↦
          let (c0, w2) = line_done fd0 f1.eof0 w1 in
          let (c1, w3) = line_done fd1 f1.eof1 w2 in
          add_rows n cols fd0 fd1 (row + 1) (record f1 { c0 = c0; c1 = c1 }) w3
    ]
  ]

  second_file : ℕ → ℕ → ℤ → ℤ × W → Option (Ended W)
  unfolding add_rows
  second_file rows cols fd0 (negsuc n, w) = some (halted w)
  second_file rows cols fd0 (pos fd1, w) =
      elim (add_rows rows cols fd0 (pos fd1) 0
        (record { c0 = b'0'; c1 = b'0'; eof0 = false; eof1 = false }) w) [
          | none ↦ none
          | some w' ↦ some (goes_on w')
        ]

  first_file : ℕ → ℕ → (ℕ → ℕ) → ℤ × W → Option (Ended W)
  unfolding second_file
  first_file rows cols f1 (negsuc n, w) = some (halted w)
  first_file rows cols f1 (pos fd0, w) = second_file rows cols (pos fd0) (b.sys.open_file f1 w)

  add_frames : ℕ → ℕ → (ℕ → ℕ) → (ℕ → ℕ) → W → Option (Ended W)
  unfolding first_file
  add_frames rows cols f0 f1 w = first_file rows cols f1 (b.sys.open_file f0 w)

  -- for(i=0; i<n; i++) { a tick is waited for, then the tasklet }
  ticks : ℕ → ℤ → (ℕ → ℕ) × W → (ℕ → ℕ) × W
  ticks zero rtc_fd (garbage, w) = (garbage, w)
  ticks (suc n) rtc_fd (garbage, w) =
      let (_, garbage', w1) = b.sys.read rtc_fd garbage 4 w in
      ticks n rtc_fd (garbage', b.rtc_tasklet garbage' w1)

  abbrev word_32 : ℕ → ℕ
  word_32 zero = 32
  word_32 (suc j) = 0

  -- `main` from the clock's frequency on.
  show_frames : (ℕ → ℕ) → ℤ → W → W
  unfolding ticks
  show_frames garbage rtc_fd w =
      let (_, w1) = b.sys.write rtc_fd word_32 4 w in
      let (g2, w2) = ticks 200 rtc_fd (garbage, w1) in
      let w3 =
        b.rtc_add
          (record {
            on_char = b'I';
            off_char = b'M';
            on_length = 7;
            off_length = 6;
            location = 6 * 80 + 60;
          })
          w2 in
      let (g4, w4) = ticks 200 rtc_fd (g2, w3) in
      let (g6, w6) = ticks 200 rtc_fd (g4, b.rtc_sync (40 * 65536 + (6 * 80 + 60)) w4) in
      let (g8, w8) = ticks (80 * 25) rtc_fd (g6, b.rtc_remove 200 w6) in (b.sys.close rtc_fd w8).1

  -- NULL without video memory, the address of the mapping otherwise.
  mp1_set_video_mode : W → ℕ × W
  mp1_set_video_mode w =
      let (r, vmem_base_addr, w1) = b.vidmap w in
      if is_minus_one r then (0, w1) else (vmem_base_addr, w1)

  -- `main`, whose result is 0, or -1 without video memory. `blink_array` is part of the state that the
  -- functions of the assembler work on; it is static, and the zeros that `main` writes to it first are
  -- those that it has.
  pub fish : ℕ → ℕ → (ℕ → ℕ) → W → Option (Ended (ℤ × W))
  unfolding mp1_set_video_mode add_frames show_frames
  fish rows cols garbage w =
      let (address, w1) = mp1_set_video_mode w in
      if address == 0
      then some (goes_on (negsuc 0, w1))
      else let (rtc_fd, w2) = b.sys.open_file (literal (codes "rtc")) w1 in
        elim (add_frames rows cols (literal (codes "frame0.txt")) (literal (codes "frame1.txt"))
          w2) [
            | none ↦ none
            | some (halted w3) ↦ some (halted (negsuc 0, w3))
            | some (goes_on w3) ↦ some (goes_on (pos 0, show_frames garbage rtc_fd w3))
          ]
