-- ===== src/Kernel/Switch/Back.antt =====
-- Going to another terminal and coming back.
use linux_base_operating_sys.Prelude.{
  ℕ, ◌≡◌, ◌≢◌, ◌==◌, refl, ltb, if◌then◌else◌, update, fill, fill_lem, arith,
}
use linux_base_operating_sys.Screen.{update_cursor}
use linux_base_operating_sys.Paging.{Tables}
use linux_base_operating_sys.Kernel.Switch.{Display, swap_pages, fourkib}

-- The page saved and the page shown.
swap_pages_lem :
    (at : Tables) (new : ℕ) (d : Display) (i : ℕ)
    → let old = d.kernel.curr_terminal in
      let r = swap_pages at new d in
      ((u : ℕ)
        → r.backup u i ≡ (
            if u == old
            then (if ltb i 4096 then d.kernel.screen.video_mem i else d.backup old i)
            else d.backup u i))
      × (r.kernel.screen.video_mem i
          ≡ (if ltb i 4096 then r.backup new i else d.kernel.screen.video_mem i))
unfolding swap_pages update_cursor
swap_pages_lem at new d i =
    let old = d.kernel.curr_terminal in
    let v = d.kernel.screen.video_mem in
    let saved : ℕ → ℕ → ℕ = update d.backup old (fill fourkib v (d.backup old)) in
    (λ u. ground (arith, fill_lem fourkib v (d.backup old) i), fill_lem fourkib (saved new) v i)

swap_pages_current :
    (at : Tables) (new : ℕ) (d : Display) → (swap_pages at new d).kernel.curr_terminal ≡ new
unfolding swap_pages
swap_pages_current at new d = refl

-- Going to another terminal and coming back at once leaves the same 4096 bytes of video memory, the
-- bytes behind them, and the saved page of every other terminal.
pub swap_pages-back :
    (at : Tables) (new : ℕ) (d : Display) (i : ℕ)
    → new ≢ d.kernel.curr_terminal
    → let back = swap_pages at d.kernel.curr_terminal (swap_pages at new d) in
      (back.kernel.screen.video_mem i ≡ d.kernel.screen.video_mem i)
      × (back.kernel.curr_terminal ≡ d.kernel.curr_terminal)
      × ((u : ℕ) → u ≢ d.kernel.curr_terminal → back.backup u i ≡ d.backup u i)
swap_pages-back at new d i ne =
    let old = d.kernel.curr_terminal in
    let away = swap_pages at new d in
    let (b1, v1) = swap_pages_lem at new d i in
    let (b2, v2) = swap_pages_lem at old away i in
    let c = swap_pages_current at new d in
    (
      ground (arith, v1, v2, c, b1 old, b1 new, b2 old, b2 new),
      swap_pages_current at old away,
      λ u other. ground (arith, c, b1 u, b1 new, b2 u, v1, other),
    )
