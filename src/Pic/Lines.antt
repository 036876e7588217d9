-- ===== src/Pic/Lines.antt =====
-- Which interrupt lines the masks let through.
use linux_base_operating_sys.Prelude.{
  ℕ, ◌+◌, Bool-cases, inl, inr, ◌-◌, ◌/◌, ◌%◌, ◌^◌, ◌<◌, ◌≡◌, refl, ◌∙◌, Bool, true, false, ◌&&◌,
  ◌||◌, ◌↔◌, ◌++◌, ltb, ◌==◌, if◌then◌else◌, arith, List, [], ◌∷◌, every_below, every_below_at,
  ==_iff,
}
use linux_base_operating_sys.Pic.{
  Pic, enable_irq, disable_irq, i8259_init, unmask, set_mask, master_md, slave_md,
}

abbrev bit : ℕ → ℕ → ℕ
bit mask n = mask / 2 ^ n % 2

-- What changing line `n` does to line `k` of a mask.
abbrev line_ok : ℕ → ℕ → ℕ → Bool
line_ok mask n k =
    (bit (unmask mask n) k == (if n == k then 0 else bit mask k))
    && (bit (set_mask mask n) k == (if n == k then 1 else bit mask k))
    && ltb (unmask mask n) 256
    && ltb (set_mask mask n) 256

mask_table : every_below 256 (λ m. every_below 8 (λ n. every_below 8 (λ k. line_ok m n k))) ≡ true
unfolding every_below unmask set_mask
mask_table = refl

mask_facts :
    (m n k : ℕ)
    → m < 256
    → n < 8
    → k < 8
    → (bit (unmask m n) k ≡ (if n == k then 0 else bit m k))
      × (bit (set_mask m n) k ≡ (if n == k then 1 else bit m k))
      × (unmask m n < 256)
      × (set_mask m n < 256)
mask_facts m n k a b c = ground (arith, entry)
  where
    entry : line_ok m n k ≡ true
    entry =
        every_below_at 8 (λ k. line_ok m n k) k
          (every_below_at 8 (λ n. every_below 8 (λ k. line_ok m n k)) n
            (every_below_at 256 (λ m. every_below 8 (λ n. every_below 8 (λ k. line_ok m n k))) m
              mask_table a)
            b)
          c

-- The two masks are bytes.
abbrev pub IsPic : Pic → Type 0
IsPic p = (p.master_mask < 256) × (p.slave_mask < 256)

-- 1 where line `irq` of the sixteen is masked.
abbrev pub masked : Pic → ℕ → ℕ
masked p irq = if ltb irq 8 then bit p.master_mask irq else bit p.slave_mask (irq - 8)

-- The port and the value that tell the controller of line `irq` its mask.
abbrev pub mask_write : Pic → ℕ → ℕ × ℕ
mask_write p irq = if ltb irq 8 then (master_md, p.master_mask) else (slave_md, p.slave_mask)

-- `enable_irq` unmasks its line and no other, and tells the controller of that line its new mask.
pub enable_irq_lem :
    (irq other : ℕ) (p : Pic)
    → IsPic p
    → irq < 16
    → other < 16
    → let q = enable_irq irq p in
      (masked q other ≡ (if irq == other then 0 else masked p other))
      × IsPic q
      × (q.outb ≡ p.outb ++ (mask_write q irq ∷ []))
unfolding enable_irq
enable_irq_lem irq other p v h g = (
  ground (arith, mask_facts p.master_mask irq other, mask_facts p.slave_mask (irq - 8) (other - 8)),
  ground (arith, mask_facts p.master_mask irq 0, mask_facts p.slave_mask (irq - 8) 0),
  ground arith,
)

-- `disable_irq` masks its line and no other, and tells the controller of that line its new mask.
disable_irq_lem :
    (irq other : ℕ) (p : Pic)
    → IsPic p
    → irq < 16
    → other < 16
    → let q = disable_irq irq p in
      (masked q other ≡ (if irq == other then 1 else masked p other))
      × IsPic q
      × (q.outb ≡ p.outb ++ (mask_write q irq ∷ []))
unfolding disable_irq
disable_irq_lem irq other p v h g = (
  ground (arith, mask_facts p.master_mask irq other, mask_facts p.slave_mask (irq - 8) (other - 8)),
  ground (arith, mask_facts p.master_mask irq 0, mask_facts p.slave_mask (irq - 8) 0),
  ground arith,
)

abbrev pub enable_all : List ℕ → Pic → Pic
enable_all [] p = p
enable_all (irq ∷ irqs) p = enable_all irqs (enable_irq irq p)

abbrev pub among : ℕ → List ℕ → Bool
among k [] = false
among k (irq ∷ irqs) = irq == k || among k irqs

abbrev AllLines : List ℕ → Type 0
AllLines [] = Unit
AllLines (irq ∷ irqs) = (irq < 16) × AllLines irqs

enable_irq-among :
    (irq : ℕ) (irqs : List ℕ) (p : Pic) (k : ℕ)
    → IsPic p
    → irq < 16
    → k < 16
    → (if among k irqs then 0 else masked (enable_irq irq p) k)
      ≡ (if irq == k || among k irqs then 0 else masked p k)
enable_irq-among irq irqs p k v l h = ground (arith, (enable_irq_lem irq k p v l h).0)

enable_irq-IsPic : (irq : ℕ) (p : Pic) → IsPic p → irq < 16 → IsPic (enable_irq irq p)
enable_irq-IsPic irq p v h = (enable_irq_lem irq 0 p v h (omega arith)).1

enable_all_lem :
    (irqs : List ℕ) (p : Pic) (k : ℕ)
    → IsPic p
    → AllLines irqs
    → k < 16
    → masked (enable_all irqs p) k ≡ (if among k irqs then 0 else masked p k)
enable_all_lem [] p k v lines h = refl
enable_all_lem (irq ∷ irqs) p k v lines h =
    enable_all_lem irqs (enable_irq irq p) k (enable_irq-IsPic irq p v lines.0) lines.1 h
    ∙ enable_irq-among irq irqs p k v lines.0 h

init_masks : (p : Pic) (k : ℕ) → k < 16 → masked (i8259_init p) k ≡ (if k == 2 then 0 else 1)
unfolding i8259_init enable_irq unmask every_below
init_masks p k h =
    (==_iff _ _).0
      (every_below_at 16 (λ k. masked (i8259_init p) k == (if k == 2 then 0 else 1)) k refl h)

init-IsPic : (p : Pic) → IsPic (i8259_init p)
unfolding i8259_init enable_irq unmask
init-IsPic p = omega arith

-- After the controllers are initialised and the drivers have enabled their lines, the lines let
-- through are exactly those and line 2, by which the second controller is connected.
pub enable_all-i8259_init :
    (p : Pic) (irqs : List ℕ) (k : ℕ)
    → AllLines irqs
    → k < 16
    → (masked (enable_all irqs (i8259_init p)) k ≡ 0) ↔ ((k == 2 || among k irqs) ≡ true)
enable_all-i8259_init p irqs k lines h =
    let after = enable_all_lem irqs (i8259_init p) k (init-IsPic p) lines h in
    let first = init_masks p k h in (ground (arith, after, first), ground (arith, after, first))

-- What an 8259 makes of the bytes sent to its two ports: whether it waits for the word behind the first
-- one of an initialisation (a byte with bit 4 to the command port), and the vector of its line 0, which
-- that word is.
abbrev pub programmed : ℕ → Bool × ℕ → List (ℕ × ℕ) → Bool × ℕ
programmed port state [] = state
programmed port state ((p, v) ∷ l) =
    programmed port
      (if p == port && v / 16 % 2 == 1
        then (true, state.1)
        else if p == port + 1 && state.0
        then (false, v)
        else state)
      l

-- The vector that a line raises.
abbrev pub vector : Pic → ℕ → ℕ
vector p k =
    if ltb k 8
    then (programmed 0x20 (false, 0) p.outb).1 + k
    else (programmed 0xA0 (false, 0) p.outb).1 + (k - 8)

programmed-append :
    (port : ℕ) (xs : List (ℕ × ℕ)) (s : Bool × ℕ) (ys : List (ℕ × ℕ))
    → programmed port s (xs ++ ys) ≡ programmed port (programmed port s xs) ys
programmed-append port [] s ys = refl
programmed-append port ((p, v) ∷ xs) s ys = programmed-append port xs _ ys

-- The two controllers are programmed to raise the vectors from 32 and from 40 on.
abbrev IsProgrammed : Pic → Type 0
IsProgrammed p =
    (programmed 0x20 (false, 0) p.outb ≡ (false, 0x20))
    × (programmed 0xA0 (false, 0) p.outb ≡ (false, 0x28))

enable_irq-IsProgrammed : (irq : ℕ) (p : Pic) → IsProgrammed p → IsProgrammed (enable_irq irq p)
unfolding enable_irq
enable_irq-IsProgrammed irq p (master, slave) = elim (Bool-cases (ltb irq 8)) [
  | inl low ↦ rw low (
    programmed-append 0x20 p.outb (false, 0) _ ∙ rw master refl,
    programmed-append 0xA0 p.outb (false, 0) _ ∙ rw slave refl,
  )
  | inr high ↦ rw high (
    programmed-append 0x20 p.outb (false, 0) _ ∙ rw master refl,
    programmed-append 0xA0 p.outb (false, 0) _ ∙ rw slave refl,
  )
]

enable_all-IsProgrammed :
    (irqs : List ℕ) (p : Pic) → IsProgrammed p → IsProgrammed (enable_all irqs p)
enable_all-IsProgrammed [] p v = v
enable_all-IsProgrammed (irq ∷ irqs) p v =
    enable_all-IsProgrammed irqs (enable_irq irq p) (enable_irq-IsProgrammed irq p v)

i8259_init-IsProgrammed : (p : Pic) → IsProgrammed (i8259_init p)
unfolding i8259_init
i8259_init-IsProgrammed p =
    enable_irq-IsProgrammed 2 _
      (programmed-append 0x20 p.outb (false, 0) _, programmed-append 0xA0 p.outb (false, 0) _)

-- Each line raises the vector 32 behind its number.
pub enable_all-vector :
    (p : Pic) (irqs : List ℕ) (k : ℕ) → vector (enable_all irqs (i8259_init p)) k ≡ 32 + k
enable_all-vector p irqs k =
    let (master, slave) = enable_all-IsProgrammed irqs (i8259_init p) (i8259_init-IsProgrammed p) in
    rw (master, slave) (ground arith)
