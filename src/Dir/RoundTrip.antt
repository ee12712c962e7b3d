-- ===== src/Dir/RoundTrip.antt =====
-- kernel/fs.c: `dirlink` as a whole, and `dirlookup` after it.
use mp.Prelude.{
  ℕ, ◌+◌, ◌*◌, ◌^◌, ◌≤◌, ◌<◌, ◌≡◌, refl, ap, ◌∙◌, ◌≢◌, inl, inr, none, some, arith, if◌then◌else◌,
  Bool-cases, Option-cases, ok, ◌>>=◌,
}
use mp.Prelude.Int.{pos, minus_one}
use mp.Param.{bsize}
use mp.Str.{Memory}
use mp.Fs.{Superblock}
use mp.Fs.Content.{maxfile, File}
use mp.Fs.ReadWrite.{kernel_in, writei}
use mp.Fs.Trans.{Trans}
use mp.Fs.Write.{kernel_in-Delivers}
use mp.Fs.Layout.{IsFile}
use mp.Fs.Room.{HasRoom}
use mp.Fs.Writei.{HasLog, writei_lem}
use mp.Inode.{Icache, iget, iput}
use mp.Dir.{
  name_size, dirent_size, entries_from, get_found, dirlookup, slot_from, fill_entry, link_new,
  dirlink,
}
use mp.Dir.Entries.{Name, same_chars, entry_inum, IsDirectory}
use mp.Dir.Lookup.{
  first_hit, is_hit, at_entry, lookup_in, HasName, HasName-outside, looked_up, dirlookup_lem,
}
use mp.Dir.Slot.{slot_from-TakesSlot, fill_entry-Filled}
use mp.Dir.Link.{
  grown_count, Writes-IsDirectory, Writes-Stores, Linked, linked_found, linked_others,
}

link_new_ok :
    (sb : Superblock) (name inum de count off : ℕ) (f f' : File) (t t' : Trans) (m m1 : Memory)
    → IsDirectory f count
    → slot_from sb de 0 count f m ≡ ok (off, f, m1)
    → writei kernel_in sb de off dirent_size f t (fill_entry name inum de m1)
      ≡ ok (pos dirent_size, f', t')
    → link_new sb name inum de f t m ≡ ok (pos 0, f', t', fill_entry name inum de m1)
unfolding link_new ◌>>=◌
link_new_ok sb name inum de count off f f' t t' m m1 d e w =
    let sz = d.size in
    let n : entries_from 0 f.ip.size ≡ count = omega (arith, sz) in
    let q = ap (λ x. slot_from sb de 0 x f m) n ∙ e in rw (q, w) refl

-- The part of `dirlink` that adds an entry.
link_new-Linked :
    (sb : Superblock) (role : ℕ → ℕ) (name inum de count : ℕ) (f : File) (t : Trans) (m : Memory)
    (c : Name)
    → IsFile sb role f
    → IsDirectory f count
    → HasName m name de c
    → dirent_size * (count + 1) ≤ maxfile * bsize
    → HasRoom sb f.disk 2
    → HasLog sb t 1
    → inum ≢ 0
    → inum < 2 ^ 16
    → first_hit (is_hit f c) 0 count ≡ none
    → (f' : File) × (t' : Trans) × (m' : Memory) × (count' : ℕ) × (link_new sb name inum de f t m
        ≡ ok (pos 0, f', t', m'))
      × Linked f count inum c f' count'
link_new-Linked sb role name inum de count f t m c file d h fits room lg ne small absent =
    let (j, m1, e, slot) = slot_from-TakesSlot sb de count 0 count f m d (omega arith) in
    let sz = d.size in
    let le = slot.bound in
    let off = dirent_size * j in
    let m2 = fill_entry name inum de m1 in
    let filled =
      fill_entry-Filled name inum de m1 c (HasName-outside m m1 name de c h slot.outside) small in
    let (f', t', we, w) =
      writei_lem kernel_in m2 sb role de off dirent_size 1 f t m2
        (kernel_in-Delivers m2 de (de + dirent_size)) file (omega arith) (omega (arith, sz, le))
        (omega (arith, sz, le)) (omega arith) room lg in
    let stores = Writes-Stores sb f f' m2 de count j le fits w in
    (
      f',
      t',
      m2,
      grown_count count j,
      link_new_ok sb name inum de count off f f' t t' m m1 d e we,
      record {
        directory = Writes-IsDirectory sb f f' m2 de count j d le fits w;
        offset = off;
        found = linked_found f f' count j de inum m1 m2 c absent le slot.free stores filled ne;
        others = linked_others f f' count j de inum m1 m2 c absent le slot.free stores filled ne;
      },
    )

dirlink_absent :
    (sb : Superblock) (name inum de : ℕ) (f f' : File) (t t' : Trans) (m m1 m' : Memory)
    (s : Icache)
    → dirlookup sb name de f m s ≡ ok (none, f, m1, s)
    → link_new sb name inum de f t m1 ≡ ok (pos 0, f', t', m')
    → dirlink sb name inum de f t m s ≡ ok (pos 0, f', t', m', s)
unfolding dirlink ◌>>=◌
dirlink_absent sb name inum de f f' t t' m m1 m' s e w = rw (e, w) refl

looked_up-none :
    (dev : ℕ) (f : File) (m : Memory) (s : Icache) → looked_up none dev f m s ≡ ok (none, f, m, s)
unfolding get_found ◌>>=◌
looked_up-none dev f m s = refl

no_entry :
    (f : File) (count : ℕ) (c : Name)
    → lookup_in f count c ≡ none
    → first_hit (is_hit f c) 0 count ≡ none
no_entry f count c e = elim (Option-cases (first_hit (is_hit f c) 0 count)) [
  | inl q ↦ q
  | inr (i, q) ↦ absurd (some_entry i q)
]
  where
    some_entry : (i : ℕ) → first_hit (is_hit f c) 0 count ≡ some i → ⊥
    some_entry i q =
        let w : lookup_in f count c ≡ some (dirent_size * i, entry_inum f i) = ap (at_entry f) q in
        cc

-- `dirlink` of a name that the directory does not have, with a number that is not 0 and fits in 16 bits,
-- returns 0 without a panic where there is room for an entry, two blocks are free, and the log takes four
-- more blocks. From then on `dirlookup` of that name gives the inode of that number, and `dirlookup` of
-- any other name what it gave before; the directory is as well-formed as it was.
pub dirlookup-dirlink :
    (sb : Superblock) (role : ℕ → ℕ) (name inum de count : ℕ) (f : File) (t : Trans) (m : Memory)
    (s : Icache) (c : Name)
    → IsFile sb role f
    → IsDirectory f count
    → HasName m name de c
    → lookup_in f count c ≡ none
    → dirent_size * (count + 1) ≤ maxfile * bsize
    → HasRoom sb f.disk 2
    → HasLog sb t 1
    → inum ≢ 0
    → inum < 2 ^ 16
    → (f' : File) × (t' : Trans) × (m' : Memory) × (count' : ℕ) × (off : ℕ) × (dirlink sb name inum
          de f t m s
        ≡ ok (pos 0, f', t', m', s))
      × IsDirectory f' count'
      × ((name' de' : ℕ) (d : Name) (m2 : Memory) (s2 : Icache)
          → HasName m2 name' de' d
          → (m3 : Memory) × (dirlookup sb name' de' f' m2 s2
              ≡ looked_up
                  (if same_chars name_size d c then some (off, inum) else lookup_in f count d)
                  f'.ip.dev
                  f'
                  m3
                  s2))
dirlookup-dirlink sb role name inum de count f t m s c file d h absent fits room lg ne small =
    let (m1, e, same) = dirlookup_lem sb name de count f m s c d h in
    let gone : dirlookup sb name de f m s ≡ ok (none, f, m1, s) =
      e ∙ ap (λ x. looked_up x f.ip.dev f m1 s) absent ∙ looked_up-none f.ip.dev f m1 s in
    let (f', t', m', count', w, l) =
      link_new-Linked sb role name inum de count f t m1 c file d
        (HasName-outside m m1 name de c h same) fits room lg ne small (no_entry f count c absent) in
    (
      f',
      t',
      m',
      count',
      l.offset,
      dirlink_absent sb name inum de f f' t t' m m1 m' s gone w,
      l.directory,
      λ name' de' d' m2 s2 h2.
          let (m3, e3, _) = dirlookup_lem sb name' de' count' f' m2 s2 d' l.directory h2 in
          (m3, e3 ∙ ap (λ x. looked_up x f'.ip.dev f' m3 s2) (now f f' count inum count' c d' l)),
    )
  where
    now :
        (f f' : File) (count inum count' : ℕ) (c d : Name)
        → (l : Linked f count inum c f' count')
        → lookup_in f' count' d
          ≡ (if same_chars name_size d c then some (l.offset, inum) else lookup_in f count d)
    now f f' count inum count' c d l = elim (Bool-cases (same_chars name_size d c)) [
      | inl q ↦ l.found d q ∙ rw q refl
      | inr q ↦ l.others d q ∙ rw q refl
    ]

looked_up-some :
    (off number dev i : ℕ) (f : File) (m : Memory) (s s' : Icache)
    → iget dev number s ≡ ok (i, s')
    → looked_up (some (off, number)) dev f m s ≡ ok (some (i, off), f, m, s')
unfolding get_found ◌>>=◌
looked_up-some off number dev i f m s s' e = rw e refl

dirlink_there :
    (sb : Superblock) (name inum de i off : ℕ) (f : File) (t : Trans) (m m1 : Memory)
    (s s' : Icache)
    → dirlookup sb name de f m s ≡ ok (some (i, off), f, m1, s')
    → dirlink sb name inum de f t m s ≡ ok (minus_one, f, t, m1, iput i s')
unfolding dirlink ◌>>=◌
dirlink_there sb name inum de i off f t m m1 s s' e = rw e refl

-- `dirlink` of a name that the directory has returns -1 without a write, and puts the inode that it got.
pub dirlink_taken :
    (sb : Superblock) (name inum de count off number i : ℕ) (f : File) (t : Trans) (m : Memory)
    (s s' : Icache) (c : Name)
    → IsDirectory f count
    → HasName m name de c
    → lookup_in f count c ≡ some (off, number)
    → iget f.ip.dev number s ≡ ok (i, s')
    → (m' : Memory) × (dirlink sb name inum de f t m s ≡ ok (minus_one, f, t, m', iput i s'))
dirlink_taken sb name inum de count off number i f t m s s' c d h there e =
    let (m1, q, _) = dirlookup_lem sb name de count f m s c d h in
    let r = looked_up-some off number f.ip.dev i f m1 s s' e in
    (
      m1,
      dirlink_there sb name inum de i off f t m m1 s s'
          (q ∙ ap (λ x. looked_up x f.ip.dev f m1 s) there ∙ r),
    )
