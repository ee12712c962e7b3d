-- ===== src/Dir/Lookup.antt =====
-- kernel/fs.c: `dirlookup` against the directory as a function from names to inode numbers.
use mp.Prelude.{
  ℕ, zero, suc, ◌+◌, ◌*◌, ◌≤◌, ◌<◌, ◌≡◌, refl, ap, ap₂, ◌∙◌, ◌⊎◌, inl, inr, Bool, false, not, ◌&&◌,
  Option, none, some, arith, ltb, leb, ◌==◌, if◌then◌else◌, Bool-cases, Outcome, ok, ◌>>=◌,
}
use mp.Prelude.Int.{pos}
use mp.Words.{read_u16}
use mp.Str.{Memory}
use mp.Fs.{Superblock}
use mp.Fs.Content.{File}
use mp.Fs.ReadWrite.{kernel_out, readi}
use mp.Inode.{Icache}
use mp.Dir.{
  name_size, dirent_size, dir_type, entries_from, namecmp_same, lookup_from, get_found, dirlookup,
}
use mp.Dir.Entries.{
  Name, same_chars, namecmp-same_chars, entry_inum, entry_name, IsDirectory, readi-HasEntry,
}

-- The first of `left` numbers from `k` on that passes a test.
unfoldable pub first_hit : (ℕ → Bool) → ℕ → ℕ → Option ℕ
first_hit h k zero = none
first_hit h k (suc left) = let rest = first_hit h (k + 1) left in if h k then some k else rest

-- The entry `k` is in use and has the name.
abbrev pub is_hit : File → Name → ℕ → Bool
is_hit f c k = not (entry_inum f k == 0) && same_chars name_size c (entry_name f k)

-- The offset and the inode number of an entry.
abbrev pub at_entry : File → Option ℕ → Option (ℕ × ℕ)
at_entry f none = none
at_entry f (some k) = some (dirent_size * k, entry_inum f k)

-- What the directory of `count` entries has under a name: the first entry in use with it.
abbrev pub lookup_in : File → ℕ → Name → Option (ℕ × ℕ)
lookup_in f count c = at_entry f (first_hit (is_hit f c) 0 count)

-- `name` is where the kernel has the name `c`, away from the entry at `de`.
pub record HasName (m : Memory) (name de : ℕ) (c : Name) : Type 0 where
  pub chars : (i : ℕ) → i < name_size → m (name + i) ≡ c i
  pub apart : (name + name_size ≤ de) ⊎ (de + dirent_size ≤ name)

-- Memory that agrees outside the entry.
abbrev pub SameOutside : ℕ → Memory → Memory → Type 0
SameOutside de m m' = (a : ℕ) → (leb de a && ltb a (de + dirent_size)) ≡ false → m' a ≡ m a

pub HasName-outside :
    (m m' : Memory) (name de : ℕ) (c : Name)
    → HasName m name de c
    → SameOutside de m m'
    → HasName m' name de c
HasName-outside m m' name de c h same = record {
  chars = λ i hi. same (name + i) (away name de i h.apart hi) ∙ h.chars i hi;
  apart = h.apart;
}
  where
    away :
        (name de i : ℕ)
        → (name + name_size ≤ de) ⊎ (de + dirent_size ≤ name)
        → i < name_size
        → (leb de (name + i) && ltb (name + i) (de + dirent_size)) ≡ false
    away name de i h hi = ground arith

-- One round of the loop.
lookup_from-step :
    (sb : Superblock) (name de off left : ℕ) (f : File) (m m' : Memory)
    → readi kernel_out sb de off dirent_size f m ≡ ok (pos dirent_size, f, m')
    → lookup_from sb name de off (suc left) f m ≡ (
        if not (read_u16 m' de == 0) && namecmp_same name (de + 2) m'
        then ok (some (off, read_u16 m' de), f, m')
        else lookup_from sb name de (off + dirent_size) left f m')
unfolding lookup_from ◌>>=◌
lookup_from-step sb name de off left f m m' e = elim (Bool-cases (read_u16 m' de == 0)) [
  | inl z ↦ rw (e, z) refl
  | inr z ↦ rw (e, z) refl
]

lookup_from-lookup :
    (sb : Superblock) (name de count k left : ℕ) (f : File) (m : Memory) (c : Name)
    → IsDirectory f count
    → HasName m name de c
    → k + left ≡ count
    → (m' : Memory) × (lookup_from sb name de (dirent_size * k) left f m
        ≡ ok (at_entry f (first_hit (is_hit f c) k left), f, m'))
      × SameOutside de m m'
unfolding first_hit lookup_from
lookup_from-lookup sb name de count k zero f m c d h e = (m, refl, λ a o. refl)
lookup_from-lookup sb name de count k (suc left) f m c d h e =
    let (m1, r, entry) = readi-HasEntry sb de count k f m d (omega arith) in
    let h1 = HasName-outside m m1 name de c h entry.outside in
    let same = namecmp-same_chars name (de + 2) m1 c (entry_name f k) h1.chars entry.chars in
    let hit : (not (read_u16 m1 de == 0) && namecmp_same name (de + 2) m1) ≡ is_hit f c k =
      ap₂ (λ x y. not (x == 0) && y) entry.inum same in
    let next : dirent_size * k + dirent_size ≡ dirent_size * (k + 1) = omega arith in
    let step = lookup_from-step sb name de (dirent_size * k) left f m m1 r in
    elim (Bool-cases (is_hit f c k)) [
      | inl yes_hit ↦ (
        m1,
        step
            ∙ rw (hit ∙ yes_hit, yes_hit)
                (ap (λ x. ok (some (dirent_size * k, x), f, m1)) entry.inum),
        entry.outside,
      )
      | inr no_hit ↦
          let (m2, r2, same2) =
            lookup_from-lookup sb name de count (k + 1) left f m1 c d h1 (omega arith) in
          (m2, step ∙ rw (hit ∙ no_hit, no_hit, next) r2, λ a o. same2 a o ∙ entry.outside a o)
    ]

-- What `dirlookup` returns, once `iget` has the inode.
abbrev pub looked_up :
    Option (ℕ × ℕ) → ℕ → File → Memory → Icache → Outcome (Option (ℕ × ℕ) × File × Memory × Icache)
looked_up found dev f m s = get_found found dev s >>= λ (r, s'). ok (r, f, m, s')

dirlookup_ok :
    (sb : Superblock) (name de count : ℕ) (f : File) (m m' : Memory) (s : Icache)
    (found : Option (ℕ × ℕ))
    → IsDirectory f count
    → lookup_from sb name de 0 count f m ≡ ok (found, f, m')
    → dirlookup sb name de f m s ≡ looked_up found f.ip.dev f m' s
unfolding dirlookup ◌>>=◌
dirlookup_ok sb name de count f m m' s found d e =
    let sz = d.size in
    let n : entries_from 0 f.ip.size ≡ count = omega (arith, sz) in
    let w : not (f.ip.type == dir_type) ≡ false = ap (λ t. not (t == dir_type)) d.type in
    let q = ap (λ x. lookup_from sb name de 0 x f m) n ∙ e in rw (w, q) refl

-- `dirlookup` in a directory of `count` entries without holes finds what the directory has under the
-- name, the first entry in use whose name agrees up to a NUL or DIRSIZ bytes: it returns `iget` of its
-- inode number, and its offset, and without such an entry none. It does not panic on a short read, and
-- changes neither the directory nor the memory outside its own entry.
pub dirlookup_lem :
    (sb : Superblock) (name de count : ℕ) (f : File) (m : Memory) (s : Icache) (c : Name)
    → IsDirectory f count
    → HasName m name de c
    → (m' : Memory) × (dirlookup sb name de f m s ≡ looked_up (lookup_in f count c) f.ip.dev f m' s)
      × SameOutside de m m'
dirlookup_lem sb name de count f m s c d h =
    let (m', e, same) = lookup_from-lookup sb name de count 0 count f m c d h (omega arith) in
    (m', dirlookup_ok sb name de count f m m' s (lookup_in f count c) d e, same)
