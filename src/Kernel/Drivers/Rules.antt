-- ===== src/Kernel/Drivers/Rules.antt =====
-- The rules for calls that leave the tables of the processes alone.
use linux_base_operating_sys.Prelude.{
  ℕ, ◌≡◌, Bool, true, false, if◌then◌else◌, Option, some, none, List, refl, ap,
}
use linux_base_operating_sys.Kernel.{Kernel, M, ◌>>=◌, ◌>>◌, ret, printf}
use linux_base_operating_sys.Kernel.Calls.Agree.{
  Leads, Leads-map, Leads-bind, Agree, same, Agree-trans,
}

-- If there is no fault, the tables of the processes are the same afterwards.
abbrev pub Keeps : {A : Type 0} → M A → Type 0
Keeps m = (k : Kernel) → Leads (λ a k'. Agree k k') (m k)

pub Keeps-ret : {A : Type 0} (a : A) → Keeps (ret a)
Keeps-ret a k = same k

pub Keeps-bind :
    {A B : Type 0} (m : M A) (f : A → M B) → Keeps m → ((a : A) → Keeps (f a)) → Keeps (m >>= f)
Keeps-bind m f h g k =
    Leads-bind (λ a k1. Agree k k1) (λ b k'. Agree k k') m f k (h k)
      (λ a k1 x.
        Leads-map (λ b k'. Agree k1 k') (λ b k'. Agree k k') (f a k1) (λ b k' y. Agree-trans x y)
          (g a k1))

pub Keeps-then : {B : Type 0} (m : M (Unit {0})) (n : M B) → Keeps m → Keeps n → Keeps (m >> n)
Keeps-then m n h g = Keeps-bind m (λ u. n) h (λ u. g)

pub Keeps-if : {A : Type 0} (b : Bool) (m n : M A) → Keeps m → Keeps n → Keeps (if b then m else n)
Keeps-if true m n h g = h
Keeps-if false m n h g = g

pub Keeps-option :
    {A B : Type 0} (o : Option A) (m : M B) (f : A → M B)
    → Keeps m
    → ((a : A) → Keeps (f a))
    → Keeps (elim o [ none ↦ m | some a ↦ f a ])
Keeps-option none m f h g = h
Keeps-option (some a) m f h g = g a

-- A kernel with the same tables of processes.
pub unchanged :
    {k k' : Kernel}
    → k'.curr_terminal ≡ k.curr_terminal
    → k'.current_process ≡ k.current_process
    → k'.in_use ≡ k.in_use
    → k'.process_array ≡ k.process_array
    → k'.pcbs ≡ k.pcbs
    → Agree k k'
unchanged a b c d e = record {
  terminal = a;
  current = b;
  slots = c;
  blocks = λ j. record {
    pointer = ap (λ f. f j) d;
    number = ap (λ f. (f j).process_id) e;
    parent = ap (λ f. (f j).parent_id) e;
  };
}

pub Keeps-printf : (message : List ℕ) → Keeps (printf message)
unfolding printf
Keeps-printf message k = unchanged refl refl refl refl refl

-- A message and -1.
pub Keeps-complain : {B : Type 0} (message : List ℕ) (b : B) → Keeps (printf message >> ret b)
Keeps-complain message b = Keeps-then (printf message) (ret b) (Keeps-printf message) (Keeps-ret b)
