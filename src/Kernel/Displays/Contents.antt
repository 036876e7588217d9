-- ===== src/Kernel/Displays/Contents.antt =====
-- What the display of a file shows.
use linux_base_operating_sys.Prelude.{
  ℕ, zero, suc, ◌+◌, ◌-◌, ◌*◌, ◌≡◌, ◌≤◌, ◌<◌, refl, sym, ap, ◌∙◌, subst, arith, some, prefix,
  prefix-cong, prefix-add, ==-false, ==-cases, lt→ltb, List, ◌++◌, inl, inr,
}
use linux_base_operating_sys.Prelude.Int.{pos}
use linux_base_operating_sys.Screen.{puts}
use linux_base_operating_sys.Printf.Text.{puts-append}
use linux_base_operating_sys.Fs.{Fs}
use linux_base_operating_sys.Fs.Read.{file_byte, Delivers}
use linux_base_operating_sys.Fs.ReadData.{available, GoodBlock, Request}
use linux_base_operating_sys.Kernel.{Kernel, bind_some}
use linux_base_operating_sys.Kernel.Drivers.{file_read, terminal_write}
use linux_base_operating_sys.Kernel.Files.Dispatch.{
  IsOpenFile, deref_same, file_read-advances, file_read-ends,
}
use linux_base_operating_sys.Kernel.Displays.{print_pieces}

-- A file whose blocks are all in the image.
pub record IsWhole (fs : Fs) (inode : ℕ) : Type 0 where
  pub known : inode < fs.num_inodes
  pub small : (fs.inodes inode).file_size ≤ 1023 * 4096
  pub good : (j : ℕ) → j * 4096 ≤ (fs.inodes inode).file_size → GoodBlock fs inode j

-- `n` bytes of a file from a position on.
abbrev pub contents : Fs → ℕ → ℕ → ℕ → List ℕ
contents fs inode position n = prefix n (λ j. file_byte fs inode (position + j))

-- The kernel with a text on the terminal that is shown.
abbrev pub written : List ℕ → Kernel → Kernel
written text k = record k { screen = puts k.curr_terminal k.screen text }

-- What the screen is after the rest of a file.
pub record Shows (p i inode position : ℕ) (k k' : Kernel) : Type 0 where
  pub screen :
      k'.screen
      ≡ puts k.curr_terminal k.screen
          (contents k.fs inode position ((k.fs.inodes inode).file_size - position))
  pub at_end : IsOpenFile p i inode (k.fs.inodes inode).file_size k'

written-IsOpenFile :
    (text : List ℕ) (p i inode position : ℕ) (k : Kernel)
    → IsOpenFile p i inode position k
    → IsOpenFile p i inode position (written text k)
written-IsOpenFile text p i inode position k o = record {
  runs = deref_same (k.current_process k.curr_terminal) k (written text k) refl ∙ o.runs;
  small = o.small;
  ops = o.ops;
  file = o.file;
  at_ = o.at_;
  on = o.on;
}

-- One round: the piece is shown, and the loop goes on.
print_piece :
    (n i c : ℕ) (buffer filled : ℕ → ℕ) (k k1 : Kernel)
    → 0 < c
    → file_read (pos i) buffer (pos 500) k ≡ some ((pos c, filled), k1)
    → print_pieces (suc n) (pos i) buffer (pos 500) k
      ≡ print_pieces n (pos i) filled (pos 500) (written (prefix c filled) k1)
unfolding print_pieces terminal_write
print_piece n i c buffer filled k k1 more e =
    bind_some (file_read (pos i) buffer (pos 500)) _ k (pos c, filled) k1 e
    ∙ rw (==-false c 0 (omega arith)) refl

no_piece :
    (n i : ℕ) (buffer filled : ℕ → ℕ) (k k1 : Kernel)
    → file_read (pos i) buffer (pos 500) k ≡ some ((pos 0, filled), k1)
    → print_pieces (suc n) (pos i) buffer (pos 500) k ≡ some (tt, k1)
unfolding print_pieces
no_piece n i buffer filled k k1 e =
    bind_some (file_read (pos i) buffer (pos 500)) _ k (pos 0, filled) k1 e

-- The bytes that a piece has, and those behind it.
contents-split :
    (fs : Fs) (inode position c size : ℕ) (buffer filled : ℕ → ℕ)
    → Delivers fs inode position c buffer filled
    → position + c ≤ size
    → contents fs inode position (size - position)
      ≡ prefix c filled ++ contents fs inode (position + c) (size - (position + c))
contents-split fs inode position c size buffer filled bytes le =
    let all : size - position ≡ c + (size - (position + c)) = omega arith in
    let behind =
      prefix-add c (size - (position + c)) (λ j. file_byte fs inode (position + j))
        (λ j. file_byte fs inode (position + c + j))
        (λ j l. ap (file_byte fs inode) (omega arith)) in
    let piece =
      prefix-cong c (λ j. file_byte fs inode (position + j)) filled
        (λ j l. sym (bytes j ∙ rw (lt→ltb j c l) refl)) in
    ap (contents fs inode position) all
    ∙ behind
    ∙ ap (λ l. l ++ contents fs inode (position + c) (size - (position + c))) piece

-- With nothing left the loop ends.
finished :
    (p i inode n position : ℕ) (buffer : ℕ → ℕ) (k : Kernel)
    → IsOpenFile p i inode position k
    → IsWhole k.fs inode
    → position ≡ (k.fs.inodes inode).file_size
    → (k' : Kernel) × (print_pieces (suc n) (pos i) buffer (pos 500) k ≡ some (tt, k'))
      × Shows p i inode position k k'
unfolding puts
finished p i inode n position buffer k o w e =
    let none_left : (k.fs.inodes inode).file_size - position ≡ 0 = omega arith in
    (
      k,
      no_piece n i buffer buffer k k
          (file_read-ends p i inode position 500 buffer k o w.known (omega arith)),
      record { screen = rw none_left refl; at_end = subst (λ x. IsOpenFile p i inode x k) e o },
    )

-- The display of a file from a position on comes to an end, with a round for each 500 bytes and one
-- more, and shows all bytes that are left, in their order.
pub print_pieces-Shows :
    (p i inode fuel position : ℕ) (buffer : ℕ → ℕ) (k : Kernel)
    → IsOpenFile p i inode position k
    → IsWhole k.fs inode
    → position ≤ (k.fs.inodes inode).file_size
    → (k.fs.inodes inode).file_size + 500 ≤ position + 500 * fuel
    → (k' : Kernel) × (print_pieces fuel (pos i) buffer (pos 500) k ≡ some (tt, k'))
      × Shows p i inode position k k'
print_pieces-Shows p i inode zero position buffer k o w le enough = absurd (omega arith)
print_pieces-Shows p i inode (suc n) position buffer k o w le enough =
    elim (==-cases position (k.fs.inodes inode).file_size) [
      | inl e ↦ finished p i inode n position buffer k o w e
      | inr before ↦
          let c : ℕ = available k.fs inode position 500 in
          let q : Request k.fs inode position 500 = record {
            known = w.known;
            inside = omega (arith, before);
            small = w.small;
            nonempty = omega arith;
            no_wrap = omega (arith, w.small);
          } in
          let (filled, k1, e, bytes, opened, fs, screen, term) =
            file_read-advances p i inode position 500 buffer k o q
              (λ j a. w.good j (omega (arith, q.inside))) in
          let size : (k1.fs.inodes inode).file_size ≡ (k.fs.inodes inode).file_size =
            ap (λ (x : Fs). (x.inodes inode).file_size) fs in
          let inside : position + c ≤ (k1.fs.inodes inode).file_size =
            rw size (omega (arith, q.inside)) in
          let left : (k1.fs.inodes inode).file_size + 500 ≤ position + c + 500 * n =
            rw size (omega (arith, q.inside, enough)) in
          let (k', went, shows) =
            print_pieces-Shows p i inode n (position + c) filled (written (prefix c filled) k1)
              (written-IsOpenFile (prefix c filled) p i inode (position + c) k1 opened)
              (subst (λ x. IsWhole x inode) (sym fs) w) inside left in
          (
            k',
            print_piece n i c buffer filled k k1 (omega (arith, q.inside)) e ∙ went,
            record {
              screen =
                  shows.screen
                  ∙ rw (fs, screen, term) refl
                  ∙ sym (
                      ap (puts k.curr_terminal k.screen) (
                        contents-split k.fs inode position c (k.fs.inodes inode).file_size buffer
                          filled bytes (omega (arith, q.inside)))
                      ∙ puts-append k.curr_terminal k.screen (prefix c filled) _);
              at_end = subst (λ x. IsOpenFile p i inode x k') size shows.at_end;
            },
          )
    ]
