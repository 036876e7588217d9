-- ===== src/Memory/Move.antt =====
-- What `memmove` of student-distrib/lib.c copies, overlaps included.
use linux_base_operating_sys.Prelude.{
  ℕ, zero, suc, ◌+◌, ◌-◌, ◌^◌, ◌≤◌, ◌<◌, ◌≡◌, inl, inr, Bool, true, false, ltb, leb, ◌&&◌,
  if◌then◌else◌, update, add32, sub32, refl, sym, ap, ◌∙◌, fun_ext, arith, either, ==-cases,
}
use linux_base_operating_sys.Memory.{memcpy_bottom, rep_movsb, memmove}
use linux_base_operating_sys.Memory.Set.{add32-small}
use linux_base_operating_sys.Memory.Copy.{copied, Ascending, bytes-copied}

-- Upwards the string instruction copies as `memcpy` does its last bytes.
rep_movsb-up :
    (ecx edi esi : ℕ) (m : ℕ → ℕ) → rep_movsb false ecx edi esi m ≡ memcpy_bottom ecx edi esi m
unfolding rep_movsb memcpy_bottom
rep_movsb-up zero edi esi m = refl
rep_movsb-up (suc ecx) edi esi m =
    rep_movsb-up ecx (add32 edi 1) (add32 esi 1) (update m edi (m esi))

module _ (m : ℕ → ℕ) (dest src n : ℕ) where
  -- Memory `m` with all but the first `r` of `n` bytes copied.
  behind : ℕ → ℕ → ℕ
  behind r j = if leb (dest + r) j && ltb j (dest + n) then m (src + (j - dest)) else m j

  behind-all : behind n ≡ m
  unfolding behind
  behind-all = fun_ext λ j. ground arith

  behind-none : behind 0 ≡ copied m dest src n
  unfolding behind copied
  behind-none = fun_ext λ j. (let none_left : dest + 0 ≡ dest = omega arith in rw none_left refl)

  behind-next :
      (r : ℕ)
      → src < dest
      → r < n
      → update (behind (suc r)) (dest + r) (behind (suc r) (src + r)) ≡ behind r
  unfolding behind
  behind-next r after lt = fun_ext λ j.
      let old : behind (suc r) (src + r) ≡ m (src + r) = ground (arith, after) in
      let at : dest + r - dest ≡ r = omega arith in
      rw old (elim (==-cases (dest + r) j) [
        | inl same ↦ rw (sym same, at) (ground (arith, lt))
        | inr other ↦ ground (arith, other)
      ])

  rep_movsb-down :
      (ecx : ℕ)
      → src < dest
      → ecx ≤ n
      → dest + n < 2 ^ 32
      → rep_movsb true ecx (sub32 (dest + ecx) 1) (sub32 (src + ecx) 1) (behind ecx) ≡ behind 0
  unfolding rep_movsb
  rep_movsb-down zero after le inside = refl
  rep_movsb-down (suc ecx) after le inside =
      let d : sub32 (dest + suc ecx) 1 ≡ dest + ecx = omega (arith, le, inside) in
      let s : sub32 (src + suc ecx) 1 ≡ src + ecx = omega (arith, le, inside, after) in
      rw (d, s, behind-next ecx after le) (rep_movsb-down ecx after (omega (arith, le)) inside)

  from_last :
      src < dest
      → dest + n < 2 ^ 32
      → src + n < 2 ^ 32
      → rep_movsb true n (sub32 (add32 dest n) 1) (sub32 (add32 src n) 1) m ≡ copied m dest src n
  from_last after inside src_inside =
      let start : rep_movsb true n (sub32 (dest + n) 1) (sub32 (src + n) 1) m
          ≡ rep_movsb true n (sub32 (dest + n) 1) (sub32 (src + n) 1) (behind n) =
        rw behind-all refl in
      rw (add32-small dest n inside, add32-small src n src_inside)
        (start ∙ rep_movsb-down n after (omega arith) inside ∙ behind-none)

-- `memmove` moves the `n` bytes from `src` on to `dest` and changes nothing else, however the two
-- stretches overlap, if neither reaches the end of the address space. It leaves the direction flag
-- set exactly if the source lies before the destination.
pub memmove_lem :
    (m : ℕ → ℕ) (dest src n j : ℕ)
    → dest + n < 2 ^ 32
    → src + n < 2 ^ 32
    → ((memmove m dest src n).0 j
        ≡ (if leb dest j && ltb j (dest + n) then m (src + (j - dest)) else m j))
      × ((memmove m dest src n).1 ≡ ltb src dest)
unfolding memmove copied
memmove_lem m dest src n j inside src_inside =
    either {A = (ℕ → ℕ) × Bool}
      (λ r.
        (r.0 j ≡ (if leb dest j && ltb j (dest + n) then m (src + (j - dest)) else m j))
        × (r.1 ≡ ltb src dest))
      (leb dest src)
      (λ e.
        let up : Ascending dest src n = record {
          apart = inl (ground (arith, e));
          dest_inside = inside;
          src_inside = src_inside;
        } in
        (
          ap (λ r. r j) (rep_movsb-up n dest src m ∙ bytes-copied m dest src n up),
          ground (arith, e),
        ))
      (λ e.
        let after : src < dest = ground (arith, e) in
        (ap (λ r. r j) (from_last m dest src n after inside src_inside), ground (arith, e)))
