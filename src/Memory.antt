-- ===== src/Memory.antt =====
-- The memory functions of student-distrib/lib.c, which are loops in assembler. Memory is a function
-- from addresses to bytes; addresses wrap as the index registers EDI and ESI do.
pub mod Set
pub mod Copy
pub mod Move
pub mod Words
mod Tests
use linux_base_operating_sys.Prelude.{
  ℕ, zero, suc, ◌+◌, ◌*◌, ◌/◌, ◌%◌, ◌^◌, Bool, true, false, leb, ◌==◌, if◌then◌else◌, update, add32,
  sub32,
}

-- A word of 16 or 32 bits at an address, the lowest byte first.
pub store16 : (ℕ → ℕ) → ℕ → ℕ → ℕ → ℕ
store16 m a v = update (update m a (v % 256)) (add32 a 1) (v / 256 % 256)

pub store32 : (ℕ → ℕ) → ℕ → ℕ → ℕ → ℕ
unfolding store16
store32 m a v = store16 (store16 m a (v % 2 ^ 16)) (add32 a 2) (v / 2 ^ 16)

-- The four bytes are read before the first of them is written.
pub move32 : (ℕ → ℕ) → ℕ → ℕ → ℕ → ℕ
move32 m edi esi =
    update
      (update (update (update m edi (m esi)) (add32 edi 1) (m (add32 esi 1))) (add32 edi 2)
        (m (add32 esi 2)))
      (add32 edi 3) (m (add32 esi 3))

-- rep stosw, rep stosl and rep movsl with the direction flag clear: `ecx` rounds.
pub rep_stosw : ℕ → ℕ → ℕ → (ℕ → ℕ) → ℕ → ℕ
rep_stosw zero eax edi m = m
rep_stosw (suc ecx) eax edi m = rep_stosw ecx eax (add32 edi 2) (store16 m edi (eax % 2 ^ 16))

pub rep_stosl : ℕ → ℕ → ℕ → (ℕ → ℕ) → ℕ → ℕ
rep_stosl zero eax edi m = m
rep_stosl (suc ecx) eax edi m = rep_stosl ecx eax (add32 edi 4) (store32 m edi eax)

pub rep_movsl : ℕ → ℕ → ℕ → (ℕ → ℕ) → ℕ → ℕ
rep_movsl zero edi esi m = m
rep_movsl (suc ecx) edi esi m = rep_movsl ecx (add32 edi 4) (add32 esi 4) (move32 m edi esi)

-- .memset_bottom: `edx` bytes.
pub memset_bottom : ℕ → ℕ → ℕ → (ℕ → ℕ) → ℕ → ℕ
memset_bottom zero eax edi m = m
memset_bottom (suc edx) eax edi m = memset_bottom edx eax (add32 edi 1) (update m edi (eax % 256))

-- .memset_aligned: words, then the bytes that are left.
pub memset_aligned : ℕ → ℕ → ℕ → (ℕ → ℕ) → ℕ → ℕ
memset_aligned ecx eax edi m =
    memset_bottom (ecx % 4) eax (add32 edi (4 * (ecx / 4))) (rep_stosl (ecx / 4) eax edi m)

-- .memset_top: bytes up to an address that 4 divides.
pub memset_top : ℕ → ℕ → ℕ → (ℕ → ℕ) → ℕ → ℕ
memset_top zero eax edi m = m
memset_top (suc ecx) eax edi m =
    let rest = memset_top ecx eax (add32 edi 1) (update m edi (eax % 256)) in
    if edi % 4 == 0 then memset_aligned (suc ecx) eax edi m else rest

-- EAX holds the byte four times.
abbrev pub four_times : ℕ → ℕ
four_times c = c * 2 ^ 24 + c * 2 ^ 16 + c * 2 ^ 8 + c

pub memset : (ℕ → ℕ) → ℕ → ℕ → ℕ → ℕ → ℕ
memset m s c n = memset_top n (four_times (c % 256)) s m

pub memset_word : (ℕ → ℕ) → ℕ → ℕ → ℕ → ℕ → ℕ
memset_word m s c n = rep_stosw n c s m

pub memset_dword : (ℕ → ℕ) → ℕ → ℕ → ℕ → ℕ → ℕ
memset_dword m s c n = rep_stosl n c s m

-- .memcpy_bottom
pub memcpy_bottom : ℕ → ℕ → ℕ → (ℕ → ℕ) → ℕ → ℕ
memcpy_bottom zero edi esi m = m
memcpy_bottom (suc edx) edi esi m =
    memcpy_bottom edx (add32 edi 1) (add32 esi 1) (update m edi (m esi))

-- .memcpy_aligned
pub memcpy_aligned : ℕ → ℕ → ℕ → (ℕ → ℕ) → ℕ → ℕ
memcpy_aligned ecx edi esi m =
    let words = ecx / 4 in
    memcpy_bottom (ecx % 4) (add32 edi (4 * words)) (add32 esi (4 * words))
      (rep_movsl words edi esi m)

-- .memcpy_top
pub memcpy_top : ℕ → ℕ → ℕ → (ℕ → ℕ) → ℕ → ℕ
memcpy_top zero edi esi m = m
memcpy_top (suc ecx) edi esi m =
    let rest = memcpy_top ecx (add32 edi 1) (add32 esi 1) (update m edi (m esi)) in
    if edi % 4 == 0 then memcpy_aligned (suc ecx) edi esi m else rest

pub memcpy : (ℕ → ℕ) → ℕ → ℕ → ℕ → ℕ → ℕ
memcpy m dest src n = memcpy_top n dest src m

-- rep movsb: the direction flag `df` says whether the addresses go down.
pub rep_movsb : Bool → ℕ → ℕ → ℕ → (ℕ → ℕ) → ℕ → ℕ
rep_movsb df zero edi esi m = m
rep_movsb df (suc ecx) edi esi m =
    let step : ℕ → ℕ = λ a. if df then sub32 a 1 else add32 a 1 in
    rep_movsb df ecx (step edi) (step esi) (update m edi (m esi))

-- `memmove` with the direction flag that it leaves. `leal -1(%esi, %ecx)` is the last byte.
pub memmove : (ℕ → ℕ) → ℕ → ℕ → ℕ → (ℕ → ℕ) × Bool
memmove m dest src n =
    if leb dest src
    then (rep_movsb false n dest src m, false)
    else (rep_movsb true n (sub32 (add32 dest n) 1) (sub32 (add32 src n) 1) m, true)
