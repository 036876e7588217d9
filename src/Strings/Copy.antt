-- ===== src/Strings/Copy.antt =====
-- What `strncpy` and `strcpy` write.
use linux_base_operating_sys.Prelude.{
  ℕ, zero, suc, ◌+◌, ◌≤◌, ◌<◌, ◌≡◌, ◌≢◌, ◌==◌, ◌&&◌, ap, ◌∙◌, refl, some, Bool-cases, inl, inr, ltb,
  leb, if◌then◌else◌, update, scan, scan-Scanned, arith,
}
use linux_base_operating_sys.Strings.{
  strcpy, strcpy_from, strncpy, strncpy_from, strncpy_pad, is_nul,
}

strncpy_pad_lem :
    (n : ℕ) (dest : ℕ → ℕ) (i j : ℕ)
    → strncpy_pad n dest i j ≡ (if leb i j && ltb j (i + n) then 0 else dest j)
unfolding strncpy_pad
strncpy_pad_lem zero dest i j = ground arith
strncpy_pad_lem (suc n) dest i j = ground (arith, strncpy_pad_lem n (update dest i 0) (i + 1) j)

strncpy_from_lem :
    (n : ℕ) (dest src : ℕ → ℕ) (i j : ℕ)
    → strncpy_from n dest src i j ≡ (
        if leb i j && ltb j (i + n)
        then (if ltb j (scan is_nul n src i) then src j else 0)
        else dest j)
unfolding strncpy_from scan
strncpy_from_lem zero dest src i j = ground arith
strncpy_from_lem (suc n) dest src i j = ground (
  arith,
  strncpy_pad_lem (suc n) dest i j,
  strncpy_from_lem n (update dest i (src i)) src (i + 1) j,
  (scan-Scanned is_nul n src (suc i)).from,
)

-- `strncpy` writes exactly `n` bytes: those of the source before its first NUL, then zeros.
pub strncpy_lem :
    (dest src : ℕ → ℕ) (n j : ℕ)
    → strncpy dest src n j
      ≡ (if ltb j n then (if ltb j (scan is_nul n src 0) then src j else 0) else dest j)
unfolding strncpy
strncpy_lem dest src n j = ground (arith, strncpy_from_lem n dest src 0 j)

strcpy_from-some :
    (f : ℕ) (dest src : ℕ → ℕ) (i e : ℕ)
    → src e ≡ 0
    → i ≤ e
    → e < i + f
    → (r : ℕ → ℕ) × (strcpy_from f dest src i ≡ some r)
unfolding strcpy_from
strcpy_from-some zero dest src i e nul ge lt = absurd (omega (arith, ge, lt))
strcpy_from-some (suc f) dest src i e nul ge lt = elim (Bool-cases (src i == 0)) [
  | inl end ↦ (update dest i 0, rw end refl)
  | inr more ↦
      let past : i ≢ e = λ s. ground (arith, more, ap src s ∙ nul) in
      let (r, q) =
        strcpy_from-some f (update dest i (src i)) src (i + 1) e nul (omega (arith, ge, past))
          (omega (arith, lt)) in
      (r, rw more q)
]

-- `strcpy` ends where the string does.
pub strcpy-some :
    (f : ℕ) (dest src : ℕ → ℕ) (e : ℕ)
    → src e ≡ 0
    → e < f
    → (r : ℕ → ℕ) × (strcpy f dest src ≡ some r)
unfolding strcpy
strcpy-some f dest src e nul lt =
    strcpy_from-some f dest src 0 e nul (omega arith) (omega (arith, lt))
