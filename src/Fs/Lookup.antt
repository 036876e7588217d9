-- ===== src/Fs/Lookup.antt =====
-- Directory lookup by name: `read_dentry_by_name` finds the first entry of that name.
use linux_base_operating_sys.Prelude.{
  ℕ, zero, suc, ◌+◌, ◌*◌, ◌≤◌, ◌<◌, ◌≡◌, ◌≢◌, ◌↔◌, ◌⊎◌, ◌∙◌, refl, sym, true, false, ltb, ◌==◌,
  if◌then◌else◌, ==-false, ==_iff, arith, fill_lem, scan, scan-Scanned, scan_all, Bool-cases, inl,
  inr, some, none,
}
use linux_base_operating_sys.Prelude.Int.{ℤ, pos, negsuc, minus_one, is_zero}
use linux_base_operating_sys.Strings.{strncmp, is_nul}
use linux_base_operating_sys.Strings.Compare.{strncmp_iff}
use linux_base_operating_sys.Strings.Copy.{strncpy_lem}
use linux_base_operating_sys.Fs.{
  Fs, Dentry, max_entries, max_name_characters, create_char_count, filesystem_init, name_matches,
  find_entry, given_name_len, is_blank_or_nul, read_dentry_by_name, copy_dentry,
}

-- The length of the name of an entry: up to a NUL, at most 32.
abbrev pub name_len : Dentry → ℕ
name_len d = scan is_nul max_name_characters d.file_name 0

-- The table of lengths is that of the names, and characters are bytes.
pub record IsIndexed (fs : Fs) : Type 0 where
  pub counted : (i : ℕ) → i < max_entries → fs.character_count i ≡ name_len (fs.entries i)
  pub bytes : (i j : ℕ) → (fs.entries i).file_name j < 256

-- Initialising from an image of bytes gives an indexed directory.
filesystem_init-IsIndexed :
    (m old : ℕ → ℕ) → ((j : ℕ) → m j < 256) → IsIndexed (filesystem_init m old)
unfolding filesystem_init create_char_count
filesystem_init-IsIndexed m old b = record {
  counted = λ i h. fill_lem max_entries _ old i ∙ ground arith;
  bytes = λ i j. b (64 + 64 * i + j);
}

-- `fname`, up to a space or a NUL, is the name of entry `d`.
abbrev pub Names : (ℕ → ℕ) → Dentry → Type 0
Names fname d =
    (given_name_len fname ≡ name_len d) × ((j : ℕ) → j < name_len d → fname j ≡ d.file_name j)

is_zero_iff : (z : ℤ) → (is_zero z ≡ true) ↔ (z ≡ pos 0)
is_zero_iff (pos n) = ground arith
is_zero_iff (negsuc n) = ground arith

given_name_nonzero : (fname : ℕ → ℕ) (k : ℕ) → k < given_name_len fname → fname k ≢ 0
unfolding given_name_len
given_name_nonzero fname k h e =
    let r = scan-Scanned is_blank_or_nul max_name_characters fname 0 in
    ground (arith, r.passed k, e)

-- The code's test of an entry decides whether it has the name.
name_matches-Names :
    (fs : Fs) (fname : ℕ → ℕ) (i : ℕ)
    → IsIndexed fs
    → ((j : ℕ) → fname j < 256)
    → i < max_entries
    → (name_matches fs fname (given_name_len fname) i ≡ true) ↔ Names fname (fs.entries i)
unfolding name_matches
name_matches-Names fs fname i idx b h =
    let n = fs.character_count i in
    let cmp = strncmp_iff fname (fs.entries i).file_name n b (idx.bytes i) in
    let z = is_zero_iff (strncmp fname (fs.entries i).file_name n) in
    (
      (λ e.
          let len : given_name_len fname ≡ n = ground arith in
          let agree = cmp.0 (z.0 (ground arith)) in
          (
            len ∙ idx.counted i h,
            λ j lt.
                agree j (omega arith) (omega (arith, idx.counted i h))
                  (λ k a c. given_name_nonzero fname k (omega (arith, idx.counted i h))),
          )),
      λ p.
          let len : given_name_len fname ≡ n = p.0 ∙ sym (idx.counted i h) in
          let same = z.1 (cmp.1 (λ j a c d. p.1 j (omega (arith, idx.counted i h)))) in
          ground (arith, len, same),
    )

find_entry_first :
    (n : ℕ) (fs : Fs) (fname : ℕ → ℕ) (len i e : ℕ)
    → i ≤ e
    → e < i + n
    → name_matches fs fname len e ≡ true
    → ((j : ℕ) → j < e → name_matches fs fname len j ≡ false)
    → find_entry n fs fname len i ≡ some e
unfolding find_entry
find_entry_first zero fs fname len i e from to hit miss = absurd (omega arith)
find_entry_first (suc n) fs fname len i e from to hit miss = elim (Bool-cases (i == e)) [
  | inl same ↦ let q = (==_iff i e).0 same in rw (q, hit)
  | inr other ↦
      rw (miss i (ground arith))
        (find_entry_first n fs fname len (suc i) e (ground arith) (omega arith) hit miss)
]

find_entry-none :
    (n : ℕ) (fs : Fs) (fname : ℕ → ℕ) (len i : ℕ)
    → ((j : ℕ) → j < i + n → name_matches fs fname len j ≡ false)
    → find_entry n fs fname len i ≡ none
unfolding find_entry
find_entry-none zero fs fname len i miss = refl
find_entry-none (suc n) fs fname len i miss =
    rw (miss i (omega arith)) (find_entry-none n fs fname len (suc i) (λ j h. miss j (omega arith)))

not-Names :
    (fs : Fs) (fname : ℕ → ℕ) (i : ℕ)
    → IsIndexed fs
    → ((j : ℕ) → fname j < 256)
    → i < max_entries
    → ¬ Names fname (fs.entries i)
    → name_matches fs fname (given_name_len fname) i ≡ false
not-Names fs fname i idx b h n =
    elim (Bool-cases (name_matches fs fname (given_name_len fname) i)) [
      | inl yes_ ↦ absurd (n ((name_matches-Names fs fname i idx b h).0 yes_))
      | inr e ↦ e
    ]

-- What is copied of a name is all of it.
copy_dentry_name :
    (fs : Fs) (dentry : Dentry) (e j : ℕ)
    → IsIndexed fs
    → e < max_entries
    → (copy_dentry fs e dentry).file_name j
      ≡ (if ltb j (name_len (fs.entries e)) then (fs.entries e).file_name j else dentry.file_name j)
unfolding copy_dentry
copy_dentry_name fs dentry e j idx h =
    let name = (fs.entries e).file_name in
    let n : ℕ = name_len (fs.entries e) in
    let r = scan-Scanned is_nul max_name_characters name 0 in
    let all : scan is_nul n name 0 ≡ n =
      omega (arith, scan_all is_nul n name 0 (λ k a b. r.passed k a (omega arith))) in
    rw (idx.counted e h, strncpy_lem dentry.file_name name n j, all) (ground arith)

same_name :
    (fs : Fs) (fname : ℕ → ℕ) (dentry : Dentry) (e j : ℕ)
    → Names fname (fs.entries e)
    → (if ltb j (name_len (fs.entries e)) then (fs.entries e).file_name j else dentry.file_name j)
      ≡ (if ltb j (given_name_len fname) then fname j else dentry.file_name j)
same_name fs fname dentry e j hit = ground (arith, hit.0, hit.1 j)

-- A lookup of a nonempty name that entry `e` is the first to have returns 0 and fills in that
-- entry's type, inode and name; the bytes behind the name keep what the structure held.
pub read_dentry_by_name_found :
    (fs : Fs) (fname : ℕ → ℕ) (dentry : Dentry) (e : ℕ)
    → IsIndexed fs
    → ((j : ℕ) → fname j < 256)
    → given_name_len fname ≢ 0
    → e < max_entries
    → Names fname (fs.entries e)
    → ((j : ℕ) → j < e → ¬ Names fname (fs.entries j))
    → let (ret, d) = read_dentry_by_name fs fname dentry in
      (ret ≡ pos 0)
      × (d.file_type ≡ (fs.entries e).file_type)
      × (d.inode_idx ≡ (fs.entries e).inode_idx)
      × ((j : ℕ)
          → d.file_name j ≡ (if ltb j (given_name_len fname) then fname j else dentry.file_name j))
unfolding read_dentry_by_name copy_dentry
read_dentry_by_name_found fs fname dentry e idx b nonempty h hit first =
    let found =
      find_entry_first max_entries fs fname (given_name_len fname) 0 e (omega arith) (omega arith)
        ((name_matches-Names fs fname e idx b h).1 hit)
        (λ j lt. not-Names fs fname j idx b (omega arith) (first j lt)) in
    rw (==-false _ 0 nonempty, found)
      (
        refl,
        refl,
        refl,
        λ j. copy_dentry_name fs dentry e j idx h ∙ same_name fs fname dentry e j hit,
      )

-- A lookup fails, and fills in nothing, for an empty name and for one that no entry has.
pub read_dentry_by_name_missing :
    (fs : Fs) (fname : ℕ → ℕ) (dentry : Dentry)
    → IsIndexed fs
    → ((j : ℕ) → fname j < 256)
    → (given_name_len fname ≡ 0) ⊎ ((j : ℕ) → j < max_entries → ¬ Names fname (fs.entries j))
    → read_dentry_by_name fs fname dentry ≡ (minus_one, dentry)
unfolding read_dentry_by_name
read_dentry_by_name_missing fs fname dentry idx b (inl empty) = rw empty
read_dentry_by_name_missing fs fname dentry idx b (inr none_named) =
    let missed =
      find_entry-none max_entries fs fname (given_name_len fname) 0
        (λ j h. not-Names fs fname j idx b (omega arith) (none_named j (omega arith))) in
    ground (arith, missed)
