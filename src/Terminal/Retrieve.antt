-- ===== src/Terminal/Retrieve.antt =====
-- What a reader gets of a saved line.
use linux_base_operating_sys.Prelude.{
  ℕ, zero, suc, ◌+◌, ◌-◌, ◌≤◌, ◌<◌, ◌≡◌, ◌≢◌, ◌∙◌, true, ap, leb, ltb, if◌then◌else◌, update, arith,
  fill, fill_lem, scan, scan_unique, ◌&&◌, ==-false,
}
use Prim.Native.Nat.{min}
use native.Mathlib.Nat.{add-zero}
use linux_base_operating_sys.Prelude.Int.{pos}
use linux_base_operating_sys.Terminal.{terminal_read, terminal_retrieve, retrieve_from, not_blank}

-- The copy of the bytes from `i` on up to a NUL at `i + len`, or up to `room` bytes.
retrieve_from_lem :
    (n room len i cnt : ℕ) (save buf : ℕ → ℕ)
    → len < n
    → save (i + len) ≡ 0
    → ((j : ℕ) → j < len → save (i + j) ≢ 0)
    → cnt + len < room
    → let r = retrieve_from n room save i cnt buf in
      (r.0 ≡ cnt + len)
      × ((j : ℕ) → r.1 j ≡ (if leb cnt j && leb j (cnt + len) then save (i + (j - cnt)) else buf j))
unfolding retrieve_from
retrieve_from_lem zero room len i cnt save buf fits nul text more = absurd (omega arith)
retrieve_from_lem (suc n) room zero i cnt save buf fits nul text more =
    let here : save i ≡ 0 = rw add-zero at nul in
    let go : ltb cnt room ≡ true = ground arith in
    rw (go, here) (omega arith, λ j. ground (arith, here, at_end j))
  where
    at_end : (j : ℕ) → j ≡ cnt → save (i + (j - cnt)) ≡ save i
    at_end j e = ap save (omega arith)
retrieve_from_lem (suc n) room (suc len) i cnt save buf fits nul text more =
    let here : save i ≢ 0 = λ e. text 0 (omega arith) (rw add-zero e) in
    let go : ltb cnt room ≡ true = ground arith in
    let nul' : save (suc i + len) ≡ 0 = ap save (omega arith) ∙ nul in
    let ih =
      retrieve_from_lem n room len (suc i) (suc cnt) save (update buf cnt (save i)) (omega arith)
        nul' (λ j h e. text (suc j) (omega arith) (ap save (omega arith) ∙ e)) (omega arith) in
    rw (go, ==-false _ _ here) (omega (arith, ih.0), λ j. ground (arith, ih.1 j, first j, later j))
  where
    first : (j : ℕ) → j ≡ cnt → save (i + (j - cnt)) ≡ save i
    first j e = ap save (omega arith)

    later : (j : ℕ) → suc cnt ≤ j → save (suc i + (j - suc cnt)) ≡ save (i + (j - cnt))
    later j h = ap save (omega arith)

saved :
    (typed old : ℕ → ℕ) (len j : ℕ)
    → len < 128
    → terminal_read typed (pos len) old j
      ≡ (if ltb j len then typed j else if ltb j 128 then 0 else old j)
unfolding terminal_read
saved typed old len j h =
    let count : min 128 len ≡ len = omega arith in
    rw (count, fill_lem len typed (fill 128 (λ i. 0) old) j, fill_lem 128 (λ i. 0) old j)

-- A line of `len` characters that does not begin with a space, saved by `terminal_read`, comes back
-- as it is from `terminal_retrieve` into a buffer with room for it: the count is the line's length,
-- the line and a NUL are in the buffer, and no byte behind them has changed.
pub retrieve-read :
    (typed buf old : ℕ → ℕ) (len room : ℕ)
    → len < 128
    → len < room
    → ((j : ℕ) → j < len → typed j ≢ 0)
    → typed 0 ≢ 32
    → let r = terminal_retrieve (terminal_read typed (pos len) old) (pos room) buf in
      (r.0 ≡ len)
      × ((j : ℕ) → j < len → r.1 j ≡ typed j)
      × (r.1 len ≡ 0)
      × ((j : ℕ) → len < j → r.1 j ≡ buf j)
unfolding terminal_retrieve
retrieve-read typed buf old len room small fits text start =
    let save : ℕ → ℕ = terminal_read typed (pos len) old in
    let none_skipped : scan not_blank (min room 128) save 0 ≡ 0 =
      scan_unique not_blank (min room 128) save 0 0 (omega arith) (omega arith)
        (λ j a b. absurd (omega arith)) (ground (arith, saved typed old len 0 small)) in
    let r =
      retrieve_from_lem 128 room len 0 0 save buf small
        (ground (arith, saved typed old len len small))
        (λ j h. ground (arith, saved typed old len j small, text j)) (omega arith) in
    rw none_skipped (
      ground (arith, r.0),
      (λ j h. ground (arith, r.1 j, saved typed old len j small)),
      ground (arith, r.1 len, saved typed old len len small),
      λ j h. ground (arith, r.1 j),
    )
